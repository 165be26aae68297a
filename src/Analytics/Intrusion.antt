-- ===== src/Analytics/Intrusion.antt =====
-- The virtual fence: class IntrusionDetectionPlugin of
-- analytics/src/analytics/plugins/intrusion/plugin.py. Its tracking of objects is in Tracking, and
-- `_point_in_polygon` in Geometry. A ZeroDivisionError of the latter ends the call: what was written
-- to the tracks until then stays, and the results are lost.
pub mod Crossings
pub mod Frames
pub mod Reports
mod Tests
use next_sec.Prelude.{
  ℕ, Bool, true, false, not, ◌&&◌, ◌||◌, Option, none, some, List, [], ◌∷◌, ◌++◌, ltb, elem,
  if◌then◌else◌,
}
use next_sec.Prelude.Dict.{Dict, lookup, insert}
use next_sec.Analytics.Geometry.{Point, point_in_polygon, differs}
use next_sec.Analytics.Tracking.{Detection, Track, Tracks, Score, track_objects}

-- The part of ROIConfig that the plugin reads; `classes` and `min_confidence` with their defaults
-- filled in. A confidence is a count of thousandths.
pub record RoiConfig : Type 0 where
  pub id : ℕ
  pub polygon_points : List Point
  pub classes : List ℕ
  pub min_confidence : ℕ

pub record FrameMetadata : Type 0 where
  pub camera_id : ℕ
  pub tenant_id : ℕ
  pub timestamp : ℕ

pub data Direction : Type 0 where
  enter : Direction
  exit : Direction

pub record AnalyticsResult : Type 0 where
  pub camera_id : ℕ
  pub tenant_id : ℕ
  pub roi_id : ℕ
  pub direction : Direction
  pub detection : Detection
  pub occurred_at : ℕ

abbrev pub direction_of : Bool → Direction
direction_of in_roi = if in_roi then Direction.enter else Direction.exit

unfoldable pub make_result : RoiConfig → Detection → FrameMetadata → Direction → AnalyticsResult
make_result roi det meta direction = record {
  camera_id = meta.camera_id;
  tenant_id = meta.tenant_id;
  roi_id = roi.id;
  direction = direction;
  detection = det;
  occurred_at = meta.timestamp;
}

-- The detection is of no class of the zone, or too weak for it.
abbrev pub is_ignored : RoiConfig → Detection → Bool
is_ignored roi det = not (elem det.class_id roi.classes) || ltb det.confidence roi.min_confidence

-- `prev_in` against `in_roi`
abbrev pub crossing : Option Bool → Bool → Option Direction
crossing none in_roi = none
crossing (some prev_in) in_roi = if differs prev_in in_roi then some (direction_of in_roi) else none

-- `track[f"in_roi_{roi.id}"] = in_roi`
abbrev pub set_in_roi : RoiConfig → Bool → Track Bool → Track Bool
set_in_roi roi in_roi t = record t { states = insert roi.id in_roi t.states }

-- The track and the zone once it is known whether the track is inside.
abbrev pub visit_in : RoiConfig → Track Bool → Option Bool → Option (Track Bool × Option Direction)
visit_in roi t none = none
visit_in roi t (some in_roi) =
    some (set_in_roi roi in_roi t, crossing (lookup roi.id t.states) in_roi)

-- One track and one zone; `none` where `_point_in_polygon` raises.
unfoldable pub visit : RoiConfig → Track Bool → Option (Track Bool × Option Direction)
unfolding point_in_polygon
visit roi t =
    if is_ignored roi t.detection
    then some (t, none)
    else visit_in roi t (point_in_polygon t.center roi.polygon_points)

abbrev pub results_of :
    RoiConfig → Detection → FrameMetadata → Option Direction → List AnalyticsResult
results_of roi det meta none = []
results_of roi det meta (some d) = make_result roi det meta d ∷ []

abbrev pub append_results :
    List AnalyticsResult → Option (List AnalyticsResult) → Option (List AnalyticsResult)
append_results out none = none
append_results out (some rest) = some (out ++ rest)

-- What the loops have written, and the results unless one raised.
abbrev pub Visited : Type 0
Visited = Dict (Track Bool) × Option (List AnalyticsResult)

abbrev pub and_rest :
    RoiConfig
    → FrameMetadata
    → ℕ
    → Track Bool
    → Option (Track Bool × Option Direction)
    → Dict (Track Bool)
    → Visited
    → Visited
and_rest roi meta tid t none unvisited rest = ((tid, t) ∷ unvisited, none)
and_rest roi meta tid t (some (t', d)) unvisited rest =
    ((tid, t') ∷ rest.0, append_results (results_of roi t.detection meta d) rest.1)

-- The loop over the tracks for one zone.
unfoldable pub visit_tracks : RoiConfig → FrameMetadata → Dict (Track Bool) → Visited
unfolding visit make_result
visit_tracks roi meta [] = ([], some [])
visit_tracks roi meta ((tid, t) ∷ ts) =
    and_rest roi meta tid t (visit roi t) ts (visit_tracks roi meta ts)

abbrev pub after_zone :
    (Dict (Track Bool) → Visited) → Dict (Track Bool) × Option (List AnalyticsResult) → Visited
after_zone rest (ts, none) = (ts, none)
after_zone rest (ts, some out) = ((rest ts).0, append_results out (rest ts).1)

unfoldable pub visit_zones : List RoiConfig → FrameMetadata → Dict (Track Bool) → Visited
unfolding visit_tracks
visit_zones [] meta ts = (ts, some [])
visit_zones (roi ∷ rois) meta ts = after_zone (visit_zones rois meta) (visit_tracks roi meta ts)

-- A frame: `now` is the reading of the monotonic clock. `process_shared_frame` is this call.
unfoldable pub process_detections :
    Score
    → ℕ
    → List Detection
    → List RoiConfig
    → FrameMetadata
    → Tracks Bool
    → Tracks Bool × Option (List AnalyticsResult)
unfolding track_objects visit_zones
process_detections score now dets rois meta p =
    let p' = track_objects score now dets p in
    let out = visit_zones rois meta p'.tracks in (record p' { tracks = out.0 }, out.1)
