-- ===== src/Analytics/Intrusion/Tests.antt =====
-- Frames of analytics/src/analytics/plugins/intrusion/plugin.py, and its theorems at them.
use next_sec.Prelude.{ℕ, ◌≡◌, refl, Bool, true, false, some, List, [], ◌∷◌, map}
use next_sec.Prelude.Int.{pos}
use next_sec.Prelude.Dict.{lookup}
use next_sec.Analytics.Geometry.{centroid, point_in_polygon}
use next_sec.Analytics.Tracking.{Detection, Track, Score, new_tracks}
use next_sec.Analytics.Tracking.Ids.{IsTracked}
use next_sec.Analytics.Intrusion.{RoiConfig, FrameMetadata, Direction, process_detections}
use next_sec.Analytics.Intrusion.Crossings.{follow, Alternates, follow-Alternates}
use next_sec.Analytics.Intrusion.Frames.{Frame, run_frames}
use next_sec.Analytics.Intrusion.Reports.{or_none}

abbrev near : Score
near _ _ = 900_000_000

abbrev person : ℕ → Detection
person n = record {
  bbox = record { x1 = pos n; y1 = pos 20; x2 = pos n; y2 = pos 20 };
  class_id = 0;
  confidence = 800;
}

-- In halves of the unit: a person at 10 is left of the fence, and one at 40 is inside.
abbrev fence : RoiConfig
fence = record {
  id = 3;
  polygon_points =
      record { x = pos 50; y = pos 10 }
      ∷ record { x = pos 150; y = pos 10 }
      ∷ record { x = pos 150; y = pos 90 }
      ∷ record { x = pos 50; y = pos 90 }
      ∷ [];
  classes = 0 ∷ [];
  min_confidence = 500;
}

abbrev meta : ℕ → FrameMetadata
meta camera = record { camera_id = camera; tenant_id = 1; timestamp = 77 }

abbrev frame : ℕ → ℕ → Frame
frame now n = record { now = now; detections = person n ∷ []; rois = fence ∷ []; meta = meta 5 }

abbrev three_frames : List Frame
three_frames = frame 1_000_000 10 ∷ frame 2_000_000 40 ∷ []

crossed :
    map
      (λ r. r.direction)
      (or_none
        (process_detections near 3_000_000
          (person 10 ∷ [])
          (fence ∷ [])
          (meta 5)
          (run_frames near three_frames new_tracks)).1)
    ≡ Direction.exit ∷ []
unfolding process_detections new_tracks
crossed = refl

new_tracks-IsTracked : IsTracked {S = Bool} new_tracks
unfolding new_tracks
new_tracks-IsTracked = record { unique = tt; below = tt }

abbrev walker : Track Bool
walker = record {
  center = record { x = pos 20; y = pos 40 };
  bbox = (person 10).bbox;
  last_seen = 0;
  detection = person 10;
  states = (3, false) ∷ [];
}

follow-Alternates_example :
    Alternates
      (lookup 3 walker.states)
      (follow fence ((1, person 40) ∷ (2, person 41) ∷ (3, person 10) ∷ []) walker)
follow-Alternates_example =
    follow-Alternates fence ((1, person 40) ∷ (2, person 41) ∷ (3, person 10) ∷ []) walker

outside : point_in_polygon (centroid (person 10).bbox) fence.polygon_points ≡ some false
unfolding point_in_polygon centroid
outside = refl

inside : point_in_polygon (centroid (person 40).bbox) fence.polygon_points ≡ some true
unfolding point_in_polygon centroid
inside = refl
