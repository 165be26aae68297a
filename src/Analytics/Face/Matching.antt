-- ===== src/Analytics/Face/Matching.antt =====
-- The match of a face in analytics/src/analytics/plugins/face_recognition/matching.py.
use next_sec.Prelude.{
  ℕ, ◌≡◌, ◌⊎◌, refl, true, none, some, inl, inr, List, [], ◌∷◌, arith, All, All-map, Bool-cases,
  ◌||◌, if◌then◌else◌,
}
use next_sec.Prelude.Int.{ℤ, pos, leb_ℤ, ◌≤ℤ◌}
use next_sec.Analytics.Geometry.{ltb_ℤ}
use next_sec.Analytics.Face.{BestFace, similarity_of, scan_watchlist, above, best_face}

none_is_not_some : (m : ℕ × ℤ) → ◌≡◌ {A = BestFace} none (some m) → ⊥
none_is_not_some m e = ground arith

module _ {E : Type 0} (cosine_similarity : E → E → ℤ) (embedding : E) where
  -- The pair is a profile of the watchlist with its similarity to the face.
  abbrev pub IsListed : ℕ × ℤ → List (ℕ × E) → Type 0
  IsListed m [] = ⊥
  IsListed m ((profile_id, ref_embedding) ∷ rest) =
      ((m.0 ≡ profile_id) × (m.1 ≡ cosine_similarity embedding ref_embedding)) ⊎ IsListed m rest

  -- No profile of the list is more similar than the number.
  abbrev pub AtMost : ℤ → List (ℕ × E) → Type 0
  AtMost n = All (λ e. cosine_similarity embedding e.1 ≤ℤ n)

  scan_step :
      (sim : ℤ) (profile_id : ℕ) (best : BestFace)
      → let next =
          (let b : BestFace =
              if ltb_ℤ (similarity_of best) sim then some (profile_id, sim) else best in
            b) in
        (similarity_of best ≤ℤ similarity_of next) × (sim ≤ℤ similarity_of next)
  scan_step sim profile_id best = ground arith

  -- What the loop leaves: at least as similar as what it had, and as every profile.
  scan_bounds :
      (ws : List (ℕ × E)) (best : BestFace)
      → let n = similarity_of (scan_watchlist cosine_similarity embedding ws best) in
        (similarity_of best ≤ℤ n) × AtMost n ws
  unfolding scan_watchlist
  scan_bounds [] best = (omega arith, tt)
  scan_bounds ((profile_id, ref) ∷ ws) best =
      let sim = cosine_similarity embedding ref in
      let next : BestFace =
        if ltb_ℤ (similarity_of best) sim then some (profile_id, sim) else best in
      let step = scan_step sim profile_id best in
      let rest = scan_bounds ws next in
      (omega (arith, step.0, rest.0), (omega (arith, step.1, rest.0), rest.1))

  -- A pair from the loop is the one it had or one of the list, and then more similar than 0.
  abbrev FromList : BestFace → ℕ × ℤ → List (ℕ × E) → Type 0
  FromList best m ws = (best ≡ some m) ⊎ (IsListed m ws × (ltb_ℤ (pos 0) m.1 ≡ true))

  kept_or_new :
      (sim : ℤ) (profile_id : ℕ) (best : BestFace) (m : ℕ × ℤ)
      → pos 0 ≤ℤ similarity_of best
      → ◌≡◌ {A = BestFace}
          (if ltb_ℤ (similarity_of best) sim then some (profile_id, sim) else best)
          (some m)
      → (best ≡ some m) ⊎ ((m.0 ≡ profile_id) × (m.1 ≡ sim) × (ltb_ℤ (pos 0) m.1 ≡ true))
  kept_or_new sim profile_id none m h e = ground arith
  kept_or_new sim profile_id (some (i, s)) m h e = ground arith

  scan_from :
      (ws : List (ℕ × E)) (best : BestFace) (m : ℕ × ℤ)
      → pos 0 ≤ℤ similarity_of best
      → scan_watchlist cosine_similarity embedding ws best ≡ some m
      → FromList best m ws
  unfolding scan_watchlist
  scan_from [] best m h e = inl e
  scan_from ((profile_id, ref) ∷ ws) best m h e =
      let sim = cosine_similarity embedding ref in
      let next : BestFace =
        if ltb_ℤ (similarity_of best) sim then some (profile_id, sim) else best in
      let step = scan_step sim profile_id best in
      elim (scan_from ws next m (omega (arith, step.0)) e) [
        | inl here ↦ elim (kept_or_new sim profile_id best m h here) [
          | inl old ↦ inl old
          | inr new ↦ inr (inl (new.0, new.1), new.2)
        ]
        | inr there ↦ inr (inr there.0, there.1)
      ]

  -- What the answer says of the watchlist.
  abbrev pub IsBestFace : ℤ → List (ℕ × E) → BestFace → Type 0
  IsBestFace threshold ws (some m) =
      IsListed m ws × (ltb_ℤ (pos 0) m.1 ≡ true) × (threshold ≤ℤ m.1) × AtMost m.1 ws
  IsBestFace threshold ws none =
      All
        (λ e.
          (ltb_ℤ (cosine_similarity embedding e.1) threshold
            || leb_ℤ (cosine_similarity embedding e.1) (pos 0))
          ≡ true)
        ws

  above_best :
      (threshold : ℤ) (ws : List (ℕ × E)) (r : BestFace)
      → scan_watchlist cosine_similarity embedding ws none ≡ r
      → AtMost (similarity_of r) ws
      → IsBestFace threshold ws (above cosine_similarity threshold r)
  above_best threshold ws none e h = All-map (λ x le. ground arith) ws h
  above_best threshold ws (some m) e h = elim (Bool-cases (leb_ℤ threshold m.1)) [
    | inl enough ↦ rw enough (elim (scan_from ws none m (omega arith) e) [
      | inl absent ↦ absurd (none_is_not_some m absent)
      | inr there ↦ (there.0, there.1, ground arith, h)
    ])
    | inr weak ↦ rw weak (All-map (λ x le. ground arith) ws h)
  ]

  -- The answer is the best match: a profile of the watchlist with its similarity to the face, which is
  -- positive and at least the threshold, and no profile is more similar. Without an answer each
  -- profile is below the threshold or not similar at all.
  pub best_face-IsBestFace :
      (threshold : ℤ) (ws : List (ℕ × E))
      → IsBestFace threshold ws (best_face cosine_similarity embedding ws threshold)
  unfolding best_face
  best_face-IsBestFace threshold ws =
      above_best threshold ws (scan_watchlist cosine_similarity embedding ws none) refl
        (scan_bounds ws none).1
