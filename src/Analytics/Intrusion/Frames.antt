-- ===== src/Analytics/Intrusion/Frames.antt =====
-- What a frame reports and keeps in analytics/src/analytics/plugins/intrusion/plugin.py.
use next_sec.Prelude.{ℕ, ◌≤◌, ◌≡◌, refl, Bool, Option, none, some, List, [], ◌∷◌, arith}
use next_sec.Prelude.Dict.{Dict, lookup, IsDict}
use next_sec.Analytics.Tracking.{Detection, Track, Tracks, Score, track_objects}
use next_sec.Analytics.Tracking.Ids.{Below, IsTracked, track_objects-IsTracked}
use next_sec.Analytics.Intrusion.{
  RoiConfig, FrameMetadata, Direction, visit, visit_tracks, visit_zones, process_detections,
  and_rest, after_zone, Visited,
}

-- What the tracks keep: distinct numbers, below the next one.
abbrev pub Kept : ℕ → Dict (Track Bool) → Type 0
Kept n ts = IsDict ts × Below n ts

lookup_rest :
    {V : Type 0} (k j : ℕ) (v : V) (d : Dict V) → lookup k ((j, v) ∷ d) ≡ none → lookup k d ≡ none
lookup_rest k j v d h = ground arith

-- A visit keeps the numbers of the tracks.
module _ (roi : RoiConfig) (meta : FrameMetadata) where
  lookup_visited :
      (k tid : ℕ) (t : Track Bool) (v : Option (Track Bool × Option Direction))
      (ts : Dict (Track Bool)) (rest : Visited)
      → lookup k ((tid, t) ∷ ts) ≡ none
      → lookup k rest.0 ≡ none
      → lookup k (and_rest roi meta tid t v ts rest).0 ≡ none
  lookup_visited k tid t none ts rest h i = h
  lookup_visited k tid t (some (t', d)) ts rest h i = ground arith

  lookup-visit_tracks :
      (k : ℕ) (ts : Dict (Track Bool))
      → lookup k ts ≡ none
      → lookup k (visit_tracks roi meta ts).0 ≡ none
  unfolding visit_tracks
  lookup-visit_tracks k [] h = refl
  lookup-visit_tracks k ((tid, t) ∷ ts) h =
      lookup_visited k tid t (visit roi t) ts (visit_tracks roi meta ts) h
        (lookup-visit_tracks k ts (lookup_rest k tid t ts h))

  and_rest-Kept :
      (n tid : ℕ) (t : Track Bool) (v : Option (Track Bool × Option Direction))
      (ts : Dict (Track Bool)) (rest : Visited)
      → Kept n ((tid, t) ∷ ts)
      → lookup tid rest.0 ≡ none
      → Kept n rest.0
      → Kept n (and_rest roi meta tid t v ts rest).0
  and_rest-Kept n tid t none ts rest h new k = h
  and_rest-Kept n tid t (some (t', d)) ts rest h new k = ((new, k.0), (h.1.0, k.1))

  visit_tracks-Kept :
      (n : ℕ) (ts : Dict (Track Bool)) → Kept n ts → Kept n (visit_tracks roi meta ts).0
  unfolding visit_tracks
  visit_tracks-Kept n [] h = h
  visit_tracks-Kept n ((tid, t) ∷ ts) h =
      and_rest-Kept n tid t (visit roi t) ts (visit_tracks roi meta ts) h
        (lookup-visit_tracks tid ts h.0.0) (visit_tracks-Kept n ts (h.0.1, h.1.1))

module _ (meta : FrameMetadata) where
  after_zone-Kept :
      (n : ℕ) (rest : Dict (Track Bool) → Visited) (v : Visited)
      → ((ts : Dict (Track Bool)) → Kept n ts → Kept n (rest ts).0)
      → Kept n v.0
      → Kept n (after_zone rest v).0
  after_zone-Kept n rest (ts, none) ih h = h
  after_zone-Kept n rest (ts, some out) ih h = ih ts h

  visit_zones-Kept :
      (n : ℕ) (rois : List RoiConfig) (ts : Dict (Track Bool))
      → Kept n ts
      → Kept n (visit_zones rois meta ts).0
  unfolding visit_zones
  visit_zones-Kept n [] ts h = h
  visit_zones-Kept n (roi ∷ rois) ts h =
      after_zone-Kept n (visit_zones rois meta) (visit_tracks roi meta ts) (visit_zones-Kept n rois)
        (visit_tracks-Kept roi meta n ts h)

-- A frame of any camera, with whatever the plugin is given.
pub record Frame : Type 0 where
  pub now : ℕ
  pub detections : List Detection
  pub rois : List RoiConfig
  pub meta : FrameMetadata

abbrev pub run_frames : Score → List Frame → Tracks Bool → Tracks Bool
run_frames score [] p = p
run_frames score (f ∷ fs) p =
    run_frames score fs (process_detections score f.now f.detections f.rois f.meta p).0

process_detections-IsTracked :
    (score : Score) (f : Frame) (p : Tracks Bool)
    → IsTracked p
    → let p' = (process_detections score f.now f.detections f.rois f.meta p).0 in
      IsTracked p' × (p.next_track_id ≤ p'.next_track_id)
unfolding process_detections
process_detections-IsTracked score f p h =
    let q = track_objects score f.now f.detections p in
    let tracked = track_objects-IsTracked score f.now f.detections p h in
    let kept =
      visit_zones-Kept f.meta q.next_track_id f.rois q.tracks (tracked.0.unique, tracked.0.below) in
    (record { unique = kept.0; below = kept.1 }, tracked.1)

-- Through any frames of any cameras, those whose geometry raises included, the tracks keep distinct
-- numbers below the next one, and no number is given twice.
pub run_frames-IsTracked :
    (score : Score) (fs : List Frame) (p : Tracks Bool)
    → IsTracked p
    → IsTracked (run_frames score fs p) × (p.next_track_id ≤ (run_frames score fs p).next_track_id)
run_frames-IsTracked score [] p h = (h, omega arith)
run_frames-IsTracked score (f ∷ fs) p h =
    let q = (process_detections score f.now f.detections f.rois f.meta p).0 in
    let first = process_detections-IsTracked score f p h in
    let rest = run_frames-IsTracked score fs q first.0 in (rest.0, omega (arith, first.1, rest.1))
