-- ===== src/Analytics/Orchestrator/Snapshots.antt =====
-- What the plugins of one frame send in `_process_camera`
-- (analytics/src/analytics/core/orchestrator.py), and with which snapshot.
use next_sec.Prelude.{
  ℕ, ◌≡◌, refl, sym, ◌∙◌, ap, Bool, true, false, ◌||◌, Option, none, some, List, [], ◌∷◌, ◌++◌, map,
  arith, if◌then◌else◌,
}
use mathlib.Core.List.{append-nil, append_assoc}
use next_sec.Analytics.Orchestrator.Frames.{Effect, send_results, visit_plugin, visit_plugins}

module _ {R : Type 0} (send : R → Bool) where
  -- The specification: what arrives of a plugin's results.
  abbrev pub until_failure : List R → List R
  until_failure [] = []
  until_failure (r ∷ rs) = let rest = until_failure rs in if send r then r ∷ rest else []

  abbrev pub delivered : Option (List R) → List R
  delivered none = []
  delivered (some rs) = until_failure rs

  abbrev pub all_delivered : (ℕ → Option (List R)) → List ℕ → List R
  all_delivered answer [] = []
  all_delivered answer (name ∷ names) = delivered (answer name) ++ all_delivered answer names

  send_results_lem :
      (path : Option ℕ) (rs : List R)
      → send_results send path rs ≡ map (λ r. Effect.sent r path) (until_failure rs)
  send_results_lem path [] = refl
  send_results_lem path (r ∷ rs) = ground (arith, send_results_lem path rs)

abbrev pub finds : {R : Type 0} → Option (List R) → Bool
finds (some (_ ∷ _)) = true
finds _ = false

abbrev pub any_finds : {R : Type 0} → (ℕ → Option (List R)) → List ℕ → Bool
any_finds answer [] = false
any_finds answer (name ∷ names) = finds (answer name) || any_finds answer names

module _ {R : Type 0} (send : R → Bool) (path : Option ℕ) where
  abbrev sent_with : List R → List (Effect R)
  sent_with = map (λ r. Effect.sent r path)

  sent_with-append : (xs ys : List R) → sent_with (xs ++ ys) ≡ sent_with xs ++ sent_with ys
  sent_with-append [] ys = refl
  sent_with-append (x ∷ xs) ys = ap (◌∷◌ (Effect.sent x path)) (sent_with-append xs ys)

  -- After the snapshot is saved a plugin only adds what it sends.
  visit_saved :
      (a : Option (List R)) (effects : List (Effect R))
      → visit_plugin send path a (record { snap = some path; effects = effects })
        ≡ record { snap = some path; effects = effects ++ sent_with (delivered send a) }
  visit_saved none effects = ground (arith, append-nil effects)
  visit_saved (some []) effects = ground (arith, append-nil effects)
  visit_saved (some (r ∷ rs)) effects = ground (arith, send_results_lem send path (r ∷ rs))

  module _ (answer : ℕ → Option (List R)) where
    all_saved :
        (names : List ℕ) (effects : List (Effect R))
        → (visit_plugins send path answer names
            (record { snap = some path; effects = effects })).effects
          ≡ effects ++ sent_with (all_delivered send answer names)
    unfolding visit_plugins
    all_saved [] effects = sym (append-nil effects)
    all_saved (name ∷ names) effects =
        let mine = delivered send (answer name) in
        ap (λ p. (visit_plugins send path answer names p).effects)
          (visit_saved (answer name) effects)
        ∙ all_saved names (effects ++ sent_with mine)
        ∙ append_assoc effects (sent_with mine) (sent_with (all_delivered send answer names))
        ∙ ap (λ l. effects ++ l) (sym (sent_with-append mine (all_delivered send answer names)))

    abbrev once : Bool → List R → List (Effect R)
    once any rs = if any then Effect.saved ∷ sent_with rs else []

    from_first :
        (a : Option (List R)) (names : List ℕ)
        → (visit_plugins send path answer names
            (visit_plugin send path a (record { snap = none; effects = [] }))).effects
          ≡ (if finds a
              then once true (delivered send a ++ all_delivered send answer names)
              else (visit_plugins send path answer names
                  (record { snap = none; effects = [] })).effects)
    from_first none names = refl
    from_first (some []) names = refl
    from_first (some (r ∷ rs)) names =
        let mine = until_failure send (r ∷ rs) in
        all_saved names (Effect.saved ∷ send_results send path (r ∷ rs))
        ∙ ap (λ l. Effect.saved ∷ (l ++ sent_with (all_delivered send answer names)))
            (send_results_lem send path (r ∷ rs))
        ∙ ap (◌∷◌ Effect.saved) (sym (sent_with-append mine (all_delivered send answer names)))

    nothing_found : (a : Option (List R)) → finds a ≡ false → delivered send a ≡ []
    nothing_found none h = refl
    nothing_found (some []) h = refl
    nothing_found (some (r ∷ rs)) h = absurd (cc)

    -- A pass over the plugins of a frame saves one snapshot if some plugin has results, before anything is
    -- sent, and none otherwise. All results go with the path of that snapshot, in the order of
    -- the plugins: of each plugin those up to the first that fails to be sent. A plugin that
    -- raises, or whose result cannot be sent, keeps back nothing of the other plugins.
    pub visit_plugins-once :
        (names : List ℕ)
        → (visit_plugins send path answer names (record { snap = none; effects = [] })).effects ≡ (
            if any_finds answer names
            then Effect.saved ∷ map (λ r. Effect.sent r path) (all_delivered send answer names)
            else [])
    unfolding visit_plugins
    visit_plugins-once [] = refl
    visit_plugins-once (name ∷ names) =
        from_first (answer name) names
        ∙ ground (arith, visit_plugins-once names, nothing_found (answer name))
