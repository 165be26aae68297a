-- ===== src/Analytics/Tracking/Ids.antt =====
-- The numbers of the tracks in analytics/src/analytics/plugins/intrusion/plugin.py.
use next_sec.Prelude.{
  ℕ, ◌+◌, ◌≤◌, ◌<◌, ◌≡◌, refl, Bool, not, some, none, List, [], ◌∷◌, arith, select, All, Option,
  All-select, All-map, ltb, ◌-◌,
}
use next_sec.Prelude.Dict.{Dict, lookup, insert, IsDict, insert-IsDict}
use next_sec.Analytics.Tracking.{
  Detection, Track, Tracks, Score, Best, expire, best_match, first_seen, seen_again, update_found,
  placed, add_track, place, place_all, track_objects, track_ttl,
}

module _ {V : Type 0} where
  abbrev pub Below : ℕ → Dict V → Type 0
  Below n = All (λ e. e.0 < n)

  lookup-select :
      (k : ℕ) (p : ℕ × V → Bool) (d : Dict V) → lookup k d ≡ none → lookup k (select p d) ≡ none
  lookup-select k p [] h = refl
  lookup-select k p ((j, v) ∷ d) h = ground (arith, lookup-select k p d)

  select-IsDict : (p : ℕ × V → Bool) (d : Dict V) → IsDict d → IsDict (select p d)
  select-IsDict p [] h = h
  select-IsDict p ((j, v) ∷ d) h = ground (arith, select-IsDict p d h.1, lookup-select j p d h.0)

  insert-Below : (n k : ℕ) (v : V) (d : Dict V) → k < n → Below n d → Below n (insert k v d)
  insert-Below n k v [] h b = (h, tt)
  insert-Below n k v ((j, w) ∷ d) h b = ground (arith, insert-Below n k v d h b.1)

  lookup-Below : (n k : ℕ) (v : V) (d : Dict V) → Below n d → lookup k d ≡ some v → k < n
  lookup-Below n k v [] b e = cc
  lookup-Below n k v ((j, w) ∷ d) b e = ground (arith, lookup-Below n k v d b.1)

module _ {S : Type 0} where
  -- No number is given twice, and the next number is new.
  pub record IsTracked (p : Tracks S) : Type 0 where
    pub unique : IsDict p.tracks
    pub below : Below p.next_track_id p.tracks

  update_found-IsTracked :
      (now : ℕ) (det : Detection) (tid : ℕ) (p : Tracks S) (o : Option (Track S))
      → lookup tid p.tracks ≡ o
      → IsTracked p
      → IsTracked (record p { tracks = update_found now det tid p.tracks o })
  update_found-IsTracked now det tid p none e h = h
  update_found-IsTracked now det tid p (some t) e h = record {
    unique = insert-IsDict tid (seen_again now det t) p.tracks h.unique;
    below =
        insert-Below p.next_track_id tid (seen_again now det t) p.tracks
          (lookup-Below p.next_track_id tid t p.tracks h.below e) h.below;
  }

  add_track-IsTracked :
      (now : ℕ) (det : Detection) (p : Tracks S) → IsTracked p → IsTracked (add_track now det p)
  add_track-IsTracked now det p h = record {
    unique = insert-IsDict p.next_track_id (first_seen now det) p.tracks h.unique;
    below =
        insert-Below (p.next_track_id + 1) p.next_track_id (first_seen now det) p.tracks
          (omega arith)
          (All-map {P = λ e. e.0 < p.next_track_id} (λ e b. omega (arith, b)) p.tracks h.below);
  }

  placed-IsTracked :
      (now : ℕ) (det : Detection) (p : Tracks S) (matched : List ℕ) (best : Best)
      → IsTracked p
      → IsTracked (placed now det (p, matched) best).0
        × (p.next_track_id ≤ (placed now det (p, matched) best).0.next_track_id)
  placed-IsTracked now det p matched (some (tid, s)) h =
      (update_found-IsTracked now det tid p (lookup tid p.tracks) refl h, omega arith)
  placed-IsTracked now det p matched none h = (add_track-IsTracked now det p h, omega arith)

  place_all-IsTracked :
      (score : Score) (now : ℕ) (dets : List Detection) (p : Tracks S) (matched : List ℕ)
      → IsTracked p
      → IsTracked (place_all score now dets (p, matched)).0
        × (p.next_track_id ≤ (place_all score now dets (p, matched)).0.next_track_id)
  unfolding place_all place
  place_all-IsTracked score now [] p matched h = (h, omega arith)
  place_all-IsTracked score now (det ∷ dets) p matched h =
      let best = best_match score det.bbox matched p.tracks none in
      let first = placed-IsTracked now det p matched best h in
      let s = placed now det (p, matched) best in
      let rest = place_all-IsTracked score now dets s.0 s.1 first.0 in
      (rest.0, omega (arith, first.1, rest.1))

  -- Through any frame, with any detections and any scores, the tracks keep distinct numbers below the
  -- next one, and the next number never goes back, so that no number is used for a second object.
  pub track_objects-IsTracked :
      (score : Score) (now : ℕ) (dets : List Detection) (p : Tracks S)
      → IsTracked p
      → IsTracked (track_objects score now dets p)
        × (p.next_track_id ≤ (track_objects score now dets p).next_track_id)
  unfolding track_objects expire
  track_objects-IsTracked score now dets p h =
      let fresh = λ (e : ℕ × Track S). not (ltb track_ttl (now - e.1.last_seen)) in
      place_all-IsTracked score now dets (record p { tracks = select fresh p.tracks }) []
        (record {
          unique = select-IsDict fresh p.tracks h.unique;
          below = All-select _ fresh p.tracks h.below;
        })
