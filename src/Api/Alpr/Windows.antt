-- ===== src/Api/Alpr/Windows.antt =====
-- What the deduplication of api/src/vms/events/service.py lets through, told without the keys.
use next_sec.Prelude.{
  ℕ, ◌+◌, ◌≤◌, ◌≡◌, refl, Bool, true, false, not, ◌&&◌, ◌||◌, List, [], ◌∷◌, arith, ltb, ◌==◌,
  if◌then◌else◌, Bool-cases, inl, inr, ap, sym, ◌∙◌,
}
use mathlib.Core.Path.{subst}
use next_sec.Api.Alpr.{
  ttl_ms, Key, KeyStore, Settings, Arrival, Intake, save, dedup_key, try_window, ingest_alpr,
  ingest_all,
}

-- The plate was let through at the camera, in the history, less than the TTL before time t.
abbrev pub is_covered : Settings → ℕ → ℕ → ℕ → List Arrival → Bool
is_covered c camera plate t [] = false
is_covered c camera plate t (b ∷ history) =
    (b.detection.camera_id == camera
      && b.detection.plate == plate
      && ltb t (b.window_at + ttl_ms c.dedup_ttl))
    || is_covered c camera plate t history

abbrev pub passes : Settings → List Arrival → Arrival → Bool
passes c history a =
    not (ltb a.detection.confidence c.min_confidence)
    && not (is_covered c a.detection.camera_id a.detection.plate a.window_at history)

-- The specification: a detection with enough confidence is let through if no detection of the same
-- plate at the same camera was let through within the TTL before it, and ignored otherwise.
abbrev pub intake_of : Settings → List Arrival → List Arrival → List Intake
intake_of c [] history = []
intake_of c (a ∷ rest) history =
    let through = passes c history a in
    (if through then save a else Intake.ignored)
    ∷ intake_of c rest (if through then a ∷ history else history)

-- The clock of Redis does not go back.
abbrev pub InOrder : ℕ → List Arrival → Type 0
InOrder n [] = Unit
InOrder n (a ∷ rest) = (n ≤ a.window_at) × InOrder a.window_at rest

if-not : {A : Type 0} (b : Bool) (x y : A) → (if not b then x else y) ≡ (if b then y else x)
if-not true x y = refl
if-not false x y = refl

module _ (r : KeyStore) (c : Settings) where
  open r use {Store, empty, holds, set_nx, holds_empty, set_nx_answer, holds_set_nx}

  -- From time n on, the keys say what the history says.
  abbrev Agrees : ℕ → Store → List Arrival → Type 0
  Agrees n s history =
      (camera plate t : ℕ)
      → n ≤ t
      → holds s (Key.window camera plate) t ≡ is_covered c camera plate t history

  later-Agrees :
      (n m : ℕ) (s : Store) (history : List Arrival)
      → n ≤ m
      → Agrees n s history
      → Agrees m s history
  later-Agrees n m s history le h camera plate t k = h camera plate t (omega arith)

  set-Agrees :
      (a : Arrival) (s : Store) (history : List Arrival)
      → Agrees a.window_at s history
      → Agrees a.window_at (set_nx (dedup_key a.detection) c.dedup_ttl a.window_at s).0 (
          if is_covered c a.detection.camera_id a.detection.plate a.window_at history
          then history
          else a ∷ history)
  set-Agrees a s history h camera plate t k = ground (
    arith,
    holds_set_nx (dedup_key a.detection) (Key.window camera plate) c.dedup_ttl a.window_at t s k,
    h camera plate t k,
    h a.detection.camera_id a.detection.plate a.window_at (omega arith),
  )

  window_answer :
      (a : Arrival) (s : Store) (history : List Arrival)
      → Agrees a.window_at s history
      → (try_window r c a s).1 ≡ (
          if is_covered c a.detection.camera_id a.detection.plate a.window_at history
          then Intake.ignored
          else save a)
  window_answer a s history h =
      let answer =
        set_nx_answer (dedup_key a.detection) c.dedup_ttl a.window_at s
        ∙ ap not (h a.detection.camera_id a.detection.plate a.window_at (omega arith)) in
      ap (λ b. if b then save a else Intake.ignored) answer
      ∙ if-not (is_covered c a.detection.camera_id a.detection.plate a.window_at history) (save a)
          Intake.ignored

  weak_ignored :
      (a : Arrival) (s : Store)
      → ltb a.detection.confidence c.min_confidence ≡ true
      → ingest_alpr r c a s ≡ (s, Intake.ignored)
  unfolding ingest_alpr
  weak_ignored a s weak = simp weak refl

  -- With the exact key switched off only the window decides.
  strong_tries :
      (a : Arrival) (s : Store)
      → c.exact_ttl ≡ 0
      → ltb a.detection.confidence c.min_confidence ≡ false
      → ingest_alpr r c a s ≡ try_window r c a s
  unfolding ingest_alpr
  strong_tries a s off strong = simp (strong, off) refl

  -- A call and its specification: the answers are the same, and the keys say what the history says.
  abbrev Matches : Arrival → Store × Intake → Bool → List Arrival → Type 0
  Matches a out through history =
      (out.1 ≡ (if through then save a else Intake.ignored))
      × Agrees a.window_at out.0 (if through then a ∷ history else history)

  window-Matches :
      (a : Arrival) (s : Store) (history : List Arrival)
      → Agrees a.window_at s history
      → Matches a
          (try_window r c a s)
          (not (is_covered c a.detection.camera_id a.detection.plate a.window_at history))
          history
  window-Matches a s history h =
      let covered = is_covered c a.detection.camera_id a.detection.plate a.window_at history in
      (
        window_answer a s history h ∙ sym (if-not covered (save a) Intake.ignored),
        subst (Agrees a.window_at (try_window r c a s).0)
            (sym (if-not covered (a ∷ history) history)) (set-Agrees a s history h),
      )

  call-Matches :
      (n : ℕ) (a : Arrival) (s : Store) (history : List Arrival)
      → c.exact_ttl ≡ 0
      → n ≤ a.window_at
      → Agrees n s history
      → Matches a (ingest_alpr r c a s) (passes c history a) history
  call-Matches n a s history off le h =
      let agrees = later-Agrees n a.window_at s history le h in
      let covered = is_covered c a.detection.camera_id a.detection.plate a.window_at history in
      elim (Bool-cases (ltb a.detection.confidence c.min_confidence)) [
        | inl weak ↦
            subst (λ out. Matches a out (passes c history a) history) (sym (weak_ignored a s weak))
              (subst (λ b. Matches a (s, Intake.ignored) (not b && not covered) history) (sym weak)
                (refl, agrees))
        | inr strong ↦
            subst (λ out. Matches a out (passes c history a) history)
              (sym (strong_tries a s off strong))
              (subst (λ b. Matches a (try_window r c a s) (not b && not covered) history)
                (sym strong) (window-Matches a s history agrees))
      ]

  ingest_all-matches :
      (n : ℕ) (arrivals : List Arrival) (s : Store) (history : List Arrival)
      → c.exact_ttl ≡ 0
      → InOrder n arrivals
      → Agrees n s history
      → ingest_all r c arrivals s ≡ intake_of c arrivals history
  unfolding ingest_all
  ingest_all-matches n [] s history off order h = refl
  ingest_all-matches n (a ∷ rest) s history off order h =
      let step = call-Matches n a s history off order.0 h in
      let through = passes c history a in
      let more =
        ingest_all-matches a.window_at rest (ingest_alpr r c a s).0
          (if through then a ∷ history else history) off order.1 step.1 in
      ap (λ x. x ∷ ingest_all r c rest (ingest_alpr r c a s).0) step.0
      ∙ ap (λ xs. (if through then save a else Intake.ignored) ∷ xs) more

  -- Over an empty Redis, with the settings' default that leaves the exact key out, a series of calls
  -- answers as the specification says: a detection with enough confidence is let through exactly if no
  -- detection of the same plate at the same camera was let through less than the TTL before it. What is
  -- let through is saved or, where the repository raises, lost, and blocks its window all the same.
  pub ingest_all-intake_of :
      (arrivals : List Arrival)
      → c.exact_ttl ≡ 0
      → InOrder 0 arrivals
      → ingest_all r c arrivals empty ≡ intake_of c arrivals []
  ingest_all-intake_of arrivals off order =
      ingest_all-matches 0 arrivals empty [] off order
        (λ camera plate t k. holds_empty (Key.window camera plate) t)
