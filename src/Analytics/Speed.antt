-- ===== src/Analytics/Speed.antt =====
-- The speed of vehicles: class SpeedEstimationPlugin of
-- analytics/src/analytics/plugins/speed/plugin.py. The tracking is Tracking, of which the plugin has a
-- copy, and so is `_point_in_polygon`. The source compares square roots of sums of squares; here both
-- sides of each comparison are squared, so that the integers are exact. Lengths in the picture count
-- halves of 1e-9, times microseconds, and the calibration's distance millimetres.
pub mod Passages
mod Tests
use next_sec.Prelude.{
  ℕ, ◌+◌, ◌*◌, ◌-◌, Bool, true, false, not, ◌&&◌, ◌||◌, Option, none, some, List, [], ◌∷◌, ◌++◌,
  ltb, leb, elem, ◌==◌, if◌then◌else◌,
}
use next_sec.Prelude.Int.{ℤ, pos_part, neg_part, ◌-ℤ◌}
use next_sec.Prelude.Dict.{Dict, lookup, insert}
use next_sec.Analytics.Geometry.{Point, point_in_polygon}
use next_sec.Analytics.Tracking.{Detection, Track, Tracks, Score, track_objects}
use next_sec.Analytics.Intrusion.{FrameMetadata}

-- `_MIN_DISPLACEMENT_NORM`
abbrev pub min_displacement : ℕ
min_displacement = 60_000_000

-- `_MAX_PLAUSIBLE_KMH`
abbrev pub max_plausible_kmh : ℕ
max_plausible_kmh = 180

-- The zone, with its calibration; `classes` and `min_confidence` with their defaults filled in.
pub record SpeedZone : Type 0 where
  pub id : ℕ
  pub polygon_points : List Point
  pub classes : List ℕ
  pub min_confidence : ℕ
  pub calib_point_a : Option Point
  pub calib_point_b : Option Point
  pub calib_distance_mm : Option ℕ

abbrev pub square : ℤ → ℕ
square a = pos_part a * pos_part a + neg_part a * neg_part a

-- The square of the distance of two points.
unfoldable pub distance_square : Point → Point → ℕ
unfolding ◌-ℤ◌
distance_square p q = square (p.x -ℤ q.x) + square (p.y -ℤ q.y)

-- Metres per unit, as a quotient: a distance in millimetres by a length, given by its square.
pub record Scale : Type 0 where
  pub millimetres : ℕ
  pub length_square : ℕ

abbrev pub scale_of : Option Point → Option Point → Option ℕ → Option Scale
scale_of (some a) (some b) (some mm) =
    if mm == 0 || distance_square a b == 0
    then none
    else some (record { millimetres = mm; length_square = distance_square a b })
scale_of _ _ _ = none

unfoldable pub meters_per_norm_unit : SpeedZone → Option Scale
unfolding distance_square
meters_per_norm_unit z = scale_of z.calib_point_a z.calib_point_b z.calib_distance_mm

-- `speed_state_<id>`
pub record Passage : Type 0 where
  pub entry_pos : Point
  pub entry_ts : ℕ
  pub last_pos : Point
  pub last_ts : ℕ

-- What a measurement is computed from: the way and the time inside the zone, and the scale.
pub record Measured : Type 0 where
  pub way_square : ℕ
  pub elapsed : ℕ
  pub scale : Scale

-- `speed_kmh > 180`, that is way * millimetres * 3600 > 180 * length * elapsed, with both sides
-- squared: a unit of way and a microsecond make millimetres / length * 3600 kilometres an hour.
abbrev pub is_implausible : Measured → Bool
is_implausible m =
    ltb (max_plausible_kmh * max_plausible_kmh * m.scale.length_square * (m.elapsed * m.elapsed))
      (m.way_square * (m.scale.millimetres * m.scale.millimetres) * (3600 * 3600))

unfoldable pub try_measure_speed : Scale → Passage → Option Measured
unfolding distance_square
try_measure_speed scale s =
    let m : Measured = record {
      way_square = distance_square s.last_pos s.entry_pos;
      elapsed = s.last_ts - s.entry_ts;
      scale = scale;
    } in
    if ltb m.way_square (min_displacement * min_displacement)
    then none
    else if leb s.last_ts s.entry_ts
    then none
    else if is_implausible m
    then none
    else some m

abbrev pub ignores : SpeedZone → Detection → Bool
ignores z det = not (elem det.class_id z.classes) || ltb det.confidence z.min_confidence

-- `track.get(state_key)`: a key that is absent and one that holds None give the same.
abbrev pub state_of : Option (Option Passage) → Option Passage
state_of none = none
state_of (some s) = s

-- The state after a sighting at a place and a time, and the passage that it ends.
abbrev pub next_state : Point → ℕ → Bool → Option Passage → Option Passage × Option Passage
next_state at now true none =
    (some (record { entry_pos = at; entry_ts = now; last_pos = at; last_ts = now }), none)
next_state at now true (some s) = (some (record s { last_pos = at; last_ts = now }), none)
next_state at now false none = (none, none)
next_state at now false (some s) = (none, some s)

abbrev pub measured_by : Scale → Option Passage → Option Measured
measured_by scale none = none
measured_by scale (some s) = try_measure_speed scale s

-- `track[state_key] = ...`: nothing is written where the zone neither has nor gets a state.
abbrev pub write_state :
    SpeedZone → Option Passage → Option Passage → Track (Option Passage) → Track (Option Passage)
write_state z none none t = t
write_state z old new t = record t { states = insert z.id new t.states }

abbrev pub visit_at :
    SpeedZone
    → Scale
    → ℕ
    → Track (Option Passage)
    → Option Bool
    → Option (Track (Option Passage) × Option Measured)
visit_at z scale now t none = none
visit_at z scale now t (some in_roi) =
    let old = state_of (lookup z.id t.states) in
    let out = next_state t.center now in_roi old in
    some (write_state z old out.0 t, measured_by scale out.1)

-- One track and one zone with its scale; `none` where `_point_in_polygon` raises.
unfoldable pub visit_zone :
    SpeedZone
    → Scale
    → ℕ
    → Track (Option Passage)
    → Option (Track (Option Passage) × Option Measured)
unfolding point_in_polygon try_measure_speed
visit_zone z scale now t =
    if ignores z t.detection
    then some (t, none)
    else visit_at z scale now t (point_in_polygon t.center z.polygon_points)

pub record SpeedResult : Type 0 where
  pub camera_id : ℕ
  pub tenant_id : ℕ
  pub roi_id : ℕ
  pub detection : Detection
  pub measured : Measured
  pub occurred_at : ℕ

abbrev pub speed_results :
    SpeedZone → FrameMetadata → Detection → Option Measured → List SpeedResult
speed_results z meta det none = []
speed_results z meta det (some m) =
    record {
      camera_id = meta.camera_id;
      tenant_id = meta.tenant_id;
      roi_id = z.id;
      detection = det;
      measured = m;
      occurred_at = meta.timestamp;
    }
    ∷ []

abbrev pub Passed : Type 0
Passed = Dict (Track (Option Passage)) × Option (List SpeedResult)

abbrev pub join_results : List SpeedResult → Option (List SpeedResult) → Option (List SpeedResult)
join_results out none = none
join_results out (some rest) = some (out ++ rest)

abbrev pub and_vehicles :
    SpeedZone
    → FrameMetadata
    → ℕ
    → Track (Option Passage)
    → Option (Track (Option Passage) × Option Measured)
    → Dict (Track (Option Passage))
    → Passed
    → Passed
and_vehicles z meta tid t none unvisited rest = ((tid, t) ∷ unvisited, none)
and_vehicles z meta tid t (some (t', m)) unvisited rest =
    ((tid, t') ∷ rest.0, join_results (speed_results z meta t.detection m) rest.1)

-- The loop over the tracks.
unfoldable pub visit_vehicles :
    SpeedZone → Scale → FrameMetadata → Dict (Track (Option Passage)) → Passed
unfolding visit_zone
visit_vehicles z scale meta [] = ([], some [])
visit_vehicles z scale meta ((tid, t) ∷ ts) =
    and_vehicles z meta tid t (visit_zone z scale meta.timestamp t) ts
      (visit_vehicles z scale meta ts)

abbrev pub and_zones : (Dict (Track (Option Passage)) → Passed) → Passed → Passed
and_zones rest (ts, none) = (ts, none)
and_zones rest (ts, some out) = ((rest ts).0, join_results out (rest ts).1)

-- A zone without calibration is skipped.
unfoldable pub visit_speed_zones :
    List SpeedZone → FrameMetadata → Dict (Track (Option Passage)) → Passed
unfolding visit_vehicles meters_per_norm_unit
visit_speed_zones [] meta ts = (ts, some [])
visit_speed_zones (z ∷ zs) meta ts =
    let rest = visit_speed_zones zs meta in
    elim (meters_per_norm_unit z) [
      | some scale ↦ and_zones rest (visit_vehicles z scale meta ts)
      | none ↦ rest ts
    ]

unfoldable pub measure_speeds :
    Score
    → ℕ
    → List Detection
    → List SpeedZone
    → FrameMetadata
    → Tracks (Option Passage)
    → Tracks (Option Passage) × Option (List SpeedResult)
unfolding track_objects visit_speed_zones
measure_speeds score now dets zones meta p =
    let p' = track_objects score now dets p in
    let out = visit_speed_zones zones meta p'.tracks in (record p' { tracks = out.0 }, out.1)
