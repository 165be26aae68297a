-- ===== src/Agent/Optimizer/Cache.antt =====
-- The cache of models of edge_agent/src/agent/optimizer.py and the entry that it evicts.
use next_sec.Prelude.{
  ℕ, suc, ◌+◌, ◌≤◌, ◌⊎◌, ◌≢◌, ◌≡◌, refl, sym, ap, ◌∙◌, true, Option, none, some, [], ◌∷◌, arith,
  inl, inr, Bool-cases, ltb, ◌==◌, ==_refl, length, All,
}
use next_sec.Prelude.Dict.{Dict, lookup, erase, IsDict, erase-IsDict, length-erase}
use mathlib.Core.Path.{subst}
use next_sec.Agent.Optimizer.{ModelCacheEntry, oldest_path, evict_cache}

module _ {M : Type 0} where
  -- The entry of the path was last used then, in the cache or as the best so far.
  IsHeld : ℕ → ℕ → ℕ → ℕ → Dict (ModelCacheEntry M) → Type 0
  IsHeld p u path used d =
      ((p ≡ path) × (u ≡ used))
      ⊎ ((e : ModelCacheEntry M) × (lookup p d ≡ some e) × (e.last_used ≡ u))

  held_behind :
      (p u k : ℕ) (x e : ModelCacheEntry M) (d : Dict (ModelCacheEntry M))
      → lookup k d ≡ none
      → lookup p d ≡ some e
      → lookup p ((k, x) ∷ d) ≡ some e
  held_behind p u k x e d a h = elim (Bool-cases (p == k)) [
    | inl same ↦
        let is_k : p ≡ k = omega (arith, same_key p k same) in
        absurd (clash (lookup k d) e a (ap (λ j. lookup j d) (sym is_k) ∙ h))
    | inr other ↦ rw other h
  ]
    where
      same_key : (a b : ℕ) → (a == b) ≡ true → a ≡ b
      same_key a b h = ground arith

      clash : (o : Option (ModelCacheEntry M)) (e : ModelCacheEntry M) → o ≡ none → o ≢ some e
      clash none e h k = cc
      clash (some _) e h k = cc

  IsHeld-older :
      (p u k path used : ℕ) (x : ModelCacheEntry M) (d : Dict (ModelCacheEntry M))
      → lookup k d ≡ none
      → IsHeld p u k x.last_used d
      → IsHeld p u path used ((k, x) ∷ d)
  unfolding IsHeld
  IsHeld-older p u k path used x d a (inl (is_k, is_u)) =
      inr (x, ap (λ j. lookup j ((k, x) ∷ d)) is_k ∙ rw (==_refl k) refl, sym is_u)
  IsHeld-older p u k path used x d a (inr (e, h, is_u)) = inr (e, held_behind p u k x e d a h, is_u)

  IsHeld-newer :
      (p u k path used : ℕ) (x : ModelCacheEntry M) (d : Dict (ModelCacheEntry M))
      → lookup k d ≡ none
      → IsHeld p u path used d
      → IsHeld p u path used ((k, x) ∷ d)
  unfolding IsHeld
  IsHeld-newer p u k path used x d a (inl best) = inl best
  IsHeld-newer p u k path used x d a (inr (e, h, is_u)) = inr (e, held_behind p u k x e d a h, is_u)

  oldest :
      (path used : ℕ) (d : Dict (ModelCacheEntry M))
      → IsDict d
      → (u : ℕ) × (u ≤ used)
        × All (λ x. u ≤ x.1.last_used) d
        × IsHeld (oldest_path path used d) u path used d
  unfolding IsHeld
  oldest path used [] h = (used, omega arith, tt, inl (refl, refl))
  oldest path used ((k, x) ∷ d) h = elim (Bool-cases (ltb x.last_used used)) [
    | inl older ↦
        let (u, below, all, held) = oldest k x.last_used d h.1 in
        let step : oldest_path k x.last_used d ≡ oldest_path path used ((k, x) ∷ d) =
          rw older refl in
        (
          u,
          ground arith,
          (below, all),
          subst (λ p. IsHeld p u path used ((k, x) ∷ d)) step
              (IsHeld-older (oldest_path k x.last_used d) u k path used x d h.0 held),
        )
    | inr newer ↦
        let (u, below, all, held) = oldest path used d h.1 in
        let step : oldest_path path used d ≡ oldest_path path used ((k, x) ∷ d) = rw newer refl in
        (
          u,
          below,
          (ground arith, all),
          subst (λ p. IsHeld p u path used ((k, x) ∷ d)) step
              (IsHeld-newer (oldest_path path used d) u k path used x d h.0 held),
        )
  ]

  -- Eviction from a cache with entries removes one entry that it holds, and it is one that was used
  -- least recently: no entry of the cache was used before it. All others stay.
  pub evict_cache-oldest :
      (k : ℕ) (x : ModelCacheEntry M) (d : Dict (ModelCacheEntry M))
      → IsDict ((k, x) ∷ d)
      → (path : ℕ) × (e : ModelCacheEntry M) × (lookup path ((k, x) ∷ d) ≡ some e)
        × All (λ y. e.last_used ≤ y.1.last_used) ((k, x) ∷ d)
        × (evict_cache ((k, x) ∷ d) ≡ erase path ((k, x) ∷ d))
  unfolding IsHeld
  evict_cache-oldest k x d h =
      let (u, below, all, held) = oldest k x.last_used d h.1 in
      let (e, found, is_u) =
        in_cache (IsHeld-older (oldest_path k x.last_used d) u k 0 (suc u) x d h.0 held) in
      (
        oldest_path k x.last_used d,
        e,
        found,
        subst (λ n. All (λ y. n ≤ y.1.last_used) ((k, x) ∷ d)) (sym is_u) (below, all),
        refl,
      )
    where
      in_cache :
          {p u : ℕ}
          → IsHeld p u 0 (suc u) ((k, x) ∷ d)
          → (e : ModelCacheEntry M) × (lookup p ((k, x) ∷ d) ≡ some e) × (e.last_used ≡ u)
      in_cache (inl (_, wrong)) = absurd (omega arith)
      in_cache (inr rest) = rest

  pub length-evict_cache :
      (d : Dict (ModelCacheEntry M))
      → IsDict d
      → 1 ≤ length d
      → IsDict (evict_cache d) × (length (evict_cache d) + 1 ≡ length d)
  length-evict_cache [] h n = absurd (omega arith)
  length-evict_cache ((k, x) ∷ d) h n =
      let (path, e, found, _, same) = evict_cache-oldest k x d h in
      (
        subst IsDict (sym same) (erase-IsDict path ((k, x) ∷ d) h),
        ap (λ l. length l + 1) same ∙ length-erase path e ((k, x) ∷ d) found,
      )
