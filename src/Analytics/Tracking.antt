-- ===== src/Analytics/Tracking.antt =====
-- The tracking of objects from frame to frame, which the intrusion and the speed plugin share:
-- `_process_detections` of analytics/src/analytics/plugins/intrusion/plugin.py up to the loop over the
-- zones. A score of two boxes is a count of 1e-9. It is an argument, since the source computes it by
-- square roots and quotients of floats: what is proved holds for every score. A time is a count of
-- microseconds.
pub mod Ids
pub mod Matching
mod Tests
use next_sec.Prelude.{
  ℕ, ◌+◌, ◌-◌, ◌*◌, Bool, true, false, not, ◌&&◌, Option, none, some, List, [], ◌∷◌, ltb, ◌==◌,
  if◌then◌else◌, select, elem,
}
use next_sec.Prelude.Dict.{Dict, lookup, insert}
use next_sec.Analytics.Geometry.{Box, Point, centroid}

-- A detection of the model. A confidence is a count of thousandths.
pub record Detection : Type 0 where
  pub bbox : Box
  pub class_id : ℕ
  pub confidence : ℕ

-- A tracked object. `states` are the entries `in_roi_<id>` or `speed_state_<id>` of the dict.
pub record Track (S : Type 0) : Type 0 where
  pub center : Point
  pub bbox : Box
  pub last_seen : ℕ
  pub detection : Detection
  pub states : Dict S

-- `_tracks` and `_next_track_id`
pub record Tracks (S : Type 0) : Type 0 where
  pub tracks : Dict (Track S)
  pub next_track_id : ℕ

abbrev pub track_ttl : ℕ
track_ttl = 2_000_000

-- `score > 0.15`
abbrev pub min_score : ℕ
min_score = 150_000_000

abbrev pub Score : Type 0
Score = Box → Box → ℕ

-- `best_tid` and `best_score`; `none` is the pair of None and -1.
abbrev pub Best : Type 0
Best = Option (ℕ × ℕ)

abbrev pub beats : ℕ → Best → Bool
beats score none = true
beats score (some (_, best_score)) = ltb best_score score

module _ {S : Type 0} where
  unfoldable pub new_tracks : Tracks S
  new_tracks = record { tracks = []; next_track_id = 0 }

  unfoldable pub expire : ℕ → Dict (Track S) → Dict (Track S)
  expire now = select (λ e. not (ltb track_ttl (now - e.1.last_seen)))

  -- One round of the loop over the tracks: the tracks that are matched in this frame are skipped.
  abbrev pub consider : Score → Box → List ℕ → ℕ × Track S → Best → Best
  consider score box matched (tid, t) best =
      let s = score box t.bbox in
      if elem tid matched
      then best
      else if beats s best && ltb min_score s
      then some (tid, s)
      else best

  unfoldable pub best_match : Score → Box → List ℕ → Dict (Track S) → Best → Best
  best_match score box matched [] best = best
  best_match score box matched (e ∷ es) best =
      best_match score box matched es (consider score box matched e best)

  -- The update of a track that is seen again keeps its states.
  abbrev pub seen_again : ℕ → Detection → Track S → Track S
  seen_again now det t = record t {
    center = centroid det.bbox;
    bbox = det.bbox;
    last_seen = now;
    detection = det;
  }

  unfoldable pub first_seen : ℕ → Detection → Track S
  unfolding centroid
  first_seen now det = record {
    center = centroid det.bbox;
    bbox = det.bbox;
    last_seen = now;
    detection = det;
    states = [];
  }

  abbrev pub update_found : ℕ → Detection → ℕ → Dict (Track S) → Option (Track S) → Dict (Track S)
  update_found now det tid d (some t) = insert tid (seen_again now det t) d
  update_found now det tid d none = d

  -- `self._tracks[best_tid].update(...)`
  abbrev pub update_track : ℕ → Detection → ℕ → Dict (Track S) → Dict (Track S)
  update_track now det tid d = update_found now det tid d (lookup tid d)

  abbrev pub add_track : ℕ → Detection → Tracks S → Tracks S
  add_track now det p = record {
    tracks = insert p.next_track_id (first_seen now det) p.tracks;
    next_track_id = p.next_track_id + 1;
  }

  -- One detection: the tracks, and those that are matched in this frame.
  abbrev pub placed : ℕ → Detection → Tracks S × List ℕ → Best → Tracks S × List ℕ
  placed now det (p, matched) (some (tid, _)) =
      (record p { tracks = update_track now det tid p.tracks }, tid ∷ matched)
  placed now det (p, matched) none = (add_track now det p, matched)

  unfoldable pub place : Score → ℕ → Detection → Tracks S × List ℕ → Tracks S × List ℕ
  unfolding best_match first_seen
  place score now det (p, matched) =
      placed now det (p, matched) (best_match score det.bbox matched p.tracks none)

  unfoldable pub place_all : Score → ℕ → List Detection → Tracks S × List ℕ → Tracks S × List ℕ
  unfolding place
  place_all score now [] s = s
  place_all score now (det ∷ dets) s = place_all score now dets (place score now det s)

  -- The first part of `_process_detections`.
  unfoldable pub track_objects : Score → ℕ → List Detection → Tracks S → Tracks S
  unfolding expire place_all
  track_objects score now dets p =
      (place_all score now dets (record p { tracks = expire now p.tracks }, [])).0
