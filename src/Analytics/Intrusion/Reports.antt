-- ===== src/Analytics/Intrusion/Reports.antt =====
-- The results of a frame in analytics/src/analytics/plugins/intrusion/plugin.py: which they can be,
-- and for which camera they are sent.
use next_sec.Prelude.{
  ℕ, ◌≡◌, refl, Bool, true, false, not, ◌&&◌, ◌||◌, Option, none, some, List, [], ◌∷◌, arith,
  if◌then◌else◌, Bool-cases, inl, inr, ◌==◌, ap, sym, ◌∙◌, All, All-append, All-map,
}
use next_sec.Prelude.Dict.{Dict}
use next_sec.Analytics.Geometry.{point_in_polygon}
use next_sec.Analytics.Tracking.{Detection, Track, Tracks, Score, track_objects}
use next_sec.Analytics.Intrusion.{
  RoiConfig, FrameMetadata, Direction, AnalyticsResult, make_result, is_ignored, visit_in, visit,
  append_results, Visited, and_rest, visit_tracks, after_zone, visit_zones, process_detections,
}

abbrev pub or_none : Option (List AnalyticsResult) → List AnalyticsResult
or_none none = []
or_none (some out) = out

-- The zone and the camera of the result are the given ones, and the zone wants the detection.
abbrev pub is_wanted_by : RoiConfig → FrameMetadata → AnalyticsResult → Bool
is_wanted_by roi meta r =
    r.roi_id == roi.id && (r.camera_id == meta.camera_id && not (is_ignored roi r.detection))

abbrev pub is_wanted : List RoiConfig → FrameMetadata → AnalyticsResult → Bool
is_wanted [] meta r = false
is_wanted (roi ∷ rois) meta r = is_wanted_by roi meta r || is_wanted rois meta r

no_crossing :
    (t t' : Track Bool) (d : Direction)
    → ◌≡◌ {A = Option (Track Bool × Option Direction)} (some (t, none)) (some (t', some d))
    → ⊥
no_crossing t t' d e = cc

-- A track whose detection the zone ignores reports nothing.
crossed_not_ignored :
    (roi : RoiConfig) (t t' : Track Bool) (d : Direction)
    → visit roi t ≡ some (t', some d)
    → is_ignored roi t.detection ≡ false
unfolding visit
crossed_not_ignored roi t t' d e = elim (Bool-cases (is_ignored roi t.detection)) [
  | inl ignored ↦ absurd (no_crossing t t' d (ap by_test (sym ignored) ∙ e))
  | inr wanted ↦ wanted
]
  where
    by_test : Bool → Option (Track Bool × Option Direction)
    by_test b =
        if b then some (t, none) else visit_in roi t (point_in_polygon t.center roi.polygon_points)

module _ (meta : FrameMetadata) where
  result_wanted :
      (roi : RoiConfig) (t : Track Bool) (v : Option (Track Bool × Option Direction))
      (ts : Dict (Track Bool)) (tid : ℕ) (rest : Visited)
      → visit roi t ≡ v
      → All (λ r. is_wanted_by roi meta r ≡ true) (or_none rest.1)
      → All (λ r. is_wanted_by roi meta r ≡ true) (or_none (and_rest roi meta tid t v ts rest).1)
  result_wanted roi t none ts tid rest e h = tt
  result_wanted roi t (some (t', none)) ts tid (ts', none) e h = tt
  result_wanted roi t (some (t', none)) ts tid (ts', some out) e h = h
  result_wanted roi t (some (t', some d)) ts tid (ts', none) e h = tt
  result_wanted roi t (some (t', some d)) ts tid (ts', some out) e h =
      (unfold make_result in ground (arith, crossed_not_ignored roi t t' d e), h)

  visit_tracks_wanted :
      (roi : RoiConfig) (ts : Dict (Track Bool))
      → All (λ r. is_wanted_by roi meta r ≡ true) (or_none (visit_tracks roi meta ts).1)
  unfolding visit_tracks
  visit_tracks_wanted roi [] = tt
  visit_tracks_wanted roi ((tid, t) ∷ ts) =
      result_wanted roi t (visit roi t) ts tid (visit_tracks roi meta ts) refl
        (visit_tracks_wanted roi ts)

  after_zone_wanted :
      (roi : RoiConfig) (rois : List RoiConfig) (rest : Dict (Track Bool) → Visited) (v : Visited)
      → ((ts : Dict (Track Bool)) → All (λ r. is_wanted rois meta r ≡ true) (or_none (rest ts).1))
      → All (λ r. is_wanted_by roi meta r ≡ true) (or_none v.1)
      → All (λ r. is_wanted (roi ∷ rois) meta r ≡ true) (or_none (after_zone rest v).1)
  after_zone_wanted roi rois rest (ts, none) ih h = tt
  after_zone_wanted roi rois rest (ts, some out) ih h = joined (rest ts).1 (ih ts)
    where
      joined :
          (more : Option (List AnalyticsResult))
          → All (λ r. is_wanted rois meta r ≡ true) (or_none more)
          → All (λ r. is_wanted (roi ∷ rois) meta r ≡ true) (or_none (append_results out more))
      joined none k = tt
      joined (some more) k =
          All-append _ out more
            (All-map {P = λ r. is_wanted_by roi meta r ≡ true} (λ r w. ground arith) out h)
            (All-map {P = λ r. is_wanted rois meta r ≡ true} (λ r w. ground arith) more k)

  visit_zones_wanted :
      (rois : List RoiConfig) (ts : Dict (Track Bool))
      → All (λ r. is_wanted rois meta r ≡ true) (or_none (visit_zones rois meta ts).1)
  unfolding visit_zones
  visit_zones_wanted [] ts = tt
  visit_zones_wanted (roi ∷ rois) ts =
      after_zone_wanted roi rois (visit_zones rois meta) (visit_tracks roi meta ts)
        (visit_zones_wanted rois) (visit_tracks_wanted roi ts)

-- Every result of a frame is for the camera of the frame and for one of its zones, and the detection
-- it carries has a class of that zone and at least the confidence that the zone asks for.
pub is_wanted-process_detections :
    (score : Score) (now : ℕ) (dets : List Detection) (rois : List RoiConfig) (meta : FrameMetadata)
    (p : Tracks Bool)
    → All
        (λ r. is_wanted rois meta r ≡ true)
        (or_none (process_detections score now dets rois meta p).1)
unfolding process_detections
is_wanted-process_detections score now dets rois meta p =
    visit_zones_wanted meta rois (track_objects score now dets p).tracks
