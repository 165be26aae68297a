-- ===== src/Analytics/Tracking/Matching.antt =====
-- The choice of the track for a detection in analytics/src/analytics/plugins/intrusion/plugin.py.
use next_sec.Prelude.{
  ℕ, ◌≤◌, ◌<◌, ◌≡◌, ◌⊎◌, refl, Bool, true, false, ◌||◌, some, none, inl, inr, List, [], ◌∷◌, arith,
  All, elem, leb,
}
use next_sec.Prelude.Dict.{Dict}
use next_sec.Analytics.Geometry.{Box}
use next_sec.Analytics.Tracking.{Track, Score, Best, min_score, consider, best_match}

-- The score that a further track has to beat.
abbrev pub limit : Best → ℕ
limit none = min_score
limit (some (_, s)) = s

none_is_not_some : (x : ℕ × ℕ) → ◌≡◌ {A = Best} none (some x) → ⊥
none_is_not_some x h = ground arith

module _ {S : Type 0} (score : Score) (box : Box) (matched : List ℕ) where
  -- The track is taken in this frame, or its score is at most `n`.
  abbrev pub scores_within : ℕ → ℕ × Track S → Bool
  scores_within n e = elem e.0 matched || leb (score box e.1.bbox) n

  -- The pair is the number and the score of a listed track that is free and scores over the minimum.
  abbrev pub IsCandidate : ℕ × ℕ → Dict (Track S) → Type 0
  IsCandidate x [] = ⊥
  IsCandidate x ((tid, t) ∷ es) =
      ((x.0 ≡ tid) × (x.1 ≡ score box t.bbox) × (elem tid matched ≡ false) × (min_score < x.1))
      ⊎ IsCandidate x es

  abbrev pub Found : Best → Dict (Track S) → Type 0
  Found none es = Unit
  Found (some x) es = IsCandidate x es

  consider_step :
      (e : ℕ × Track S) (best : Best)
      → min_score ≤ limit best
      → (limit best ≤ limit (consider score box matched e best))
        × (scores_within (limit (consider score box matched e best)) e ≡ true)
  consider_step (tid, t) none h = ground arith
  consider_step (tid, t) (some (i, s)) h = ground arith

  widen : (m n : ℕ) (e : ℕ × Track S) → m ≤ n → scores_within m e ≡ true → scores_within n e ≡ true
  widen m n e h k = ground arith

  best_match_bounds :
      (es : Dict (Track S)) (best : Best)
      → min_score ≤ limit best
      → let n = limit (best_match score box matched es best) in
        (limit best ≤ n) × All (λ e. scores_within n e ≡ true) es
  unfolding best_match
  best_match_bounds [] best h = (omega arith, tt)
  best_match_bounds (e ∷ es) best h =
      let step = consider_step e best h in
      let next = consider score box matched e best in
      let rest = best_match_bounds es next (omega (arith, step.0)) in
      (
        omega (arith, step.0, rest.0),
        (widen (limit next) (limit (best_match score box matched es next)) e rest.0 step.1, rest.1),
      )

  consider_from :
      (e : ℕ × Track S) (best : Best) (x : ℕ × ℕ) (es : Dict (Track S))
      → consider score box matched e best ≡ some x
      → (best ≡ some x) ⊎ IsCandidate x (e ∷ es)
  consider_from (tid, t) none x es h = ground arith
  consider_from (tid, t) (some (i, s)) x es h = ground arith

  best_match_from :
      (es : Dict (Track S)) (best : Best) (x : ℕ × ℕ)
      → best_match score box matched es best ≡ some x
      → (best ≡ some x) ⊎ IsCandidate x es
  unfolding best_match
  best_match_from [] best x h = inl h
  best_match_from (e ∷ es) best x h =
      elim (best_match_from es (consider score box matched e best) x h) [
        | inl here ↦ consider_from e best x es here
        | inr there ↦ inr (inr there)
      ]

  found_lem :
      (r : Best) (es : Dict (Track S)) → best_match score box matched es none ≡ r → Found r es
  found_lem none es h = tt
  found_lem (some x) es h = elim (best_match_from es none x h) [
    | inl absent ↦ absurd (none_is_not_some x absent)
    | inr there ↦ there
  ]

  -- The loop chooses the best track: the pair it returns is the number and the score of a track that
  -- no other detection of the frame has taken, with a score over 0.15, and every free track scores
  -- at most that; where it returns none, every free track scores at most 0.15.
  pub best_match-IsBest :
      (es : Dict (Track S))
      → let best = best_match score box matched es none in
        Found best es × All (λ e. scores_within (limit best) e ≡ true) es
  best_match-IsBest es = (
    found_lem (best_match score box matched es none) es refl,
    (best_match_bounds es none (omega arith)).1,
  )
