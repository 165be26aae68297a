-- ===== src/Analytics/Tracking/Tests.antt =====
-- Tracks of analytics/src/analytics/plugins/intrusion/plugin.py over two frames.
use next_sec.Prelude.{ℕ, ◌+◌, ◌≡◌, refl, [], ◌∷◌, arith, if◌then◌else◌, ◌==◌}
use next_sec.Prelude.Int.{pos, pos_part}
use next_sec.Prelude.Dict.{keys}
use next_sec.Analytics.Geometry.{Box}
use next_sec.Analytics.Tracking.{Detection, Track, Tracks, Score, track_objects}
use next_sec.Analytics.Tracking.Ids.{IsTracked}

abbrev box : ℕ → Box
box n = record { x1 = pos n; y1 = pos n; x2 = pos n; y2 = pos n }

-- Boxes at one place score 0.9, and others nothing.
abbrev same_place : Score
same_place a b = if pos_part a.x1 == pos_part b.x1 then 900_000_000 else 0

abbrev person : ℕ → Detection
person n = record { bbox = box n; class_id = 0; confidence = 800 }

abbrev track : ℕ → Track ℕ
track n = record {
  center = record { x = pos (n + n); y = pos (n + n) };
  bbox = box n;
  last_seen = 1_000_000;
  detection = person n;
  states = [];
}

abbrev two : Tracks ℕ
two = record { tracks = (4, track 10) ∷ (6, track 20) ∷ []; next_track_id = 7 }

two_frames :
    keys (track_objects same_place 1_500_000 (person 20 ∷ person 20 ∷ person 30 ∷ []) two).tracks
    ≡ 4 ∷ 6 ∷ 7 ∷ 8 ∷ []
unfolding track_objects
two_frames = refl

two-IsTracked : IsTracked two
two-IsTracked = record { unique = (refl, (refl, tt)); below = omega arith }
