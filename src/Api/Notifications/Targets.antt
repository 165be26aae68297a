-- ===== src/Api/Notifications/Targets.antt =====
-- Who is notified by api/src/vms/notifications/service.py, rule by rule.
use next_sec.Prelude.{
  ℕ, ◌≡◌, Bool, true, false, ◌||◌, none, refl, ◌&&◌, Option, some, List, [], ◌∷◌, map, arith,
  if◌then◌else◌, select, elem, All, ap, ◌∙◌, ◌++◌, ◌==◌, not, take, Bool-cases, inl, inr,
}
use next_sec.Prelude.Dict.{Dict, lookup, insert, lookup-insert}
use next_sec.Api.Notifications.{
  NotificationRule, Contact, Target, is_of_tenant, matching_rules, contact_of, resolve, reachable,
  find_contact, target_of, gather, Dispatch, cons_dispatch, dispatches, evaluate_and_dispatch,
}

abbrev pub is_lost {ℓ} : {A : Type ℓ} → Option A → Bool
is_lost none = true
is_lost (some _) = false

-- What the loop looks up for a rule by itself.
abbrev own_target : Option (List Contact) → ℕ → NotificationRule → Option Target
own_target repo tenant_id r =
    if r.to_contact then reachable (contact_of repo tenant_id r.contact_id) else some Target.webhook

-- The specification: a rule is looked at by itself. The contacts of this number that belong to the
-- tenant and are not removed; the first of them counts.
abbrev pub known : List Contact → ℕ → ℕ → List Contact
known contacts tenant_id contact_id =
    take 1
      (select (λ c. c.id == contact_id && c.tenant_id == tenant_id && not c.is_deleted) contacts)

-- Its telephone, if it is active.
abbrev pub phones : List Contact → List Target
phones cs = map (λ c. Target.phone c.phone_number) (select (λ c. c.is_active) cs)

abbrev pub own_targets : Option (List Contact) → ℕ → Bool → Option ℕ → List Target
own_targets repo tenant_id false contact_id = Target.webhook ∷ []
own_targets (some contacts) tenant_id true (some contact_id) =
    phones (known contacts tenant_id contact_id)
own_targets none tenant_id true contact_id = []
own_targets (some contacts) tenant_id true none = []

abbrev pub own_dispatches :
    (ℕ → ℕ → Bool) → Option (List Contact) → ℕ → ℕ → List NotificationRule → List Dispatch
own_dispatches fnmatch repo tenant_id event_type [] = []
own_dispatches fnmatch repo tenant_id event_type (r ∷ rs) =
    let rest = own_dispatches fnmatch repo tenant_id event_type rs in
    if (r.tenant_id == tenant_id && r.is_active) && fnmatch event_type r.event_type_pattern
    then map (λ t. (r, t)) (own_targets repo tenant_id r.to_contact r.contact_id) ++ rest
    else rest

found-known :
    (r : NotificationRule) (contact_id tenant_id : ℕ) (contacts : List Contact)
    (rest : List Dispatch)
    → cons_dispatch r (reachable (find_contact contact_id tenant_id contacts)) rest
      ≡ map (λ t. (r, t)) (phones (known contacts tenant_id contact_id)) ++ rest
found-known r contact_id tenant_id [] rest = refl
found-known r contact_id tenant_id (c ∷ cs) rest =
    elim (Bool-cases (c.id == contact_id && c.tenant_id == tenant_id && not c.is_deleted)) [
      | inl this ↦ elim (Bool-cases c.is_active) [
        | inl on ↦ rw this (simp on refl)
        | inr off ↦ rw this (simp off refl)
      ]
      | inr other ↦ rw other (found-known r contact_id tenant_id cs rest)
    ]

-- The rule as the loop sees it and as the specification does.
own_step :
    (r : NotificationRule) (repo : Option (List Contact)) (tenant_id : ℕ) (to_contact : Bool)
    (contact_id : Option ℕ) (rest : List Dispatch)
    → cons_dispatch r
        (if to_contact
          then reachable (contact_of repo tenant_id contact_id)
          else some Target.webhook)
        rest
      ≡ map (λ t. (r, t)) (own_targets repo tenant_id to_contact contact_id) ++ rest
own_step r repo tenant_id false contact_id rest = refl
own_step r none tenant_id true contact_id rest = refl
own_step r (some contacts) tenant_id true none rest = refl
own_step r (some contacts) tenant_id true (some contact_id) rest =
    found-known r contact_id tenant_id contacts rest

abbrev pub ids : List NotificationRule → List ℕ
ids = map (λ r. r.id)

-- The rules have distinct numbers.
abbrev pub Distinct : List NotificationRule → Type 0
Distinct [] = Unit
Distinct (r ∷ rs) = (elem r.id (ids rs) ≡ false) × Distinct rs

elem-select :
    (k : ℕ) (p : NotificationRule → Bool) (rs : List NotificationRule)
    → elem k (ids rs) ≡ false
    → elem k (ids (select p rs)) ≡ false
elem-select k p [] h = refl
elem-select k p (r ∷ rs) h = ground (arith, elem-select k p rs)

select-Distinct :
    (p : NotificationRule → Bool) (rs : List NotificationRule)
    → Distinct rs
    → Distinct (select p rs)
select-Distinct p [] h = h
select-Distinct p (r ∷ rs) h = ground (arith, select-Distinct p rs h.1, elem-select r.id p rs h.0)

matching-Distinct :
    (fnmatch : ℕ → ℕ → Bool) (tenant_id event_type : ℕ) (rules : List NotificationRule)
    → Distinct rules
    → Distinct (matching_rules fnmatch tenant_id event_type rules)
unfolding matching_rules
matching-Distinct fnmatch tenant_id event_type rules h =
    select-Distinct (λ r. fnmatch event_type r.event_type_pattern)
      (select (is_of_tenant tenant_id) rules) (select-Distinct (is_of_tenant tenant_id) rules h)

module _ (repo : Option (List Contact)) (tenant_id : ℕ) where
  -- The loop writes only under the numbers of its rules.
  lookup-resolve :
      (k : ℕ) (rs : List NotificationRule) (found : Dict (Option Contact))
      → elem k (ids rs) ≡ false
      → lookup k (resolve repo tenant_id rs found) ≡ lookup k found
  unfolding resolve
  lookup-resolve k [] found h = refl
  lookup-resolve k (r ∷ rs) found h =
      let c = contact_of repo tenant_id r.contact_id in
      let found' : Dict (Option Contact) = if r.to_contact then insert r.id c found else found in
      lookup-resolve k rs found' (ground arith) ∙ ground (arith, lookup-insert k r.id c found)

  resolved :
      (rs : List NotificationRule) (found : Dict (Option Contact))
      → Distinct rs
      → All (λ r. target_of (resolve repo tenant_id rs found) r ≡ own_target repo tenant_id r) rs
  unfolding resolve
  resolved [] found h = tt
  resolved (r ∷ rs) found h =
      let c = contact_of repo tenant_id r.contact_id in
      let found' : Dict (Option Contact) = if r.to_contact then insert r.id c found else found in
      (
        ground (arith, lookup-resolve r.id rs found' h.0, lookup-insert r.id r.id c found),
        resolved rs found' h.1,
      )

  plain : List NotificationRule → List Dispatch
  plain [] = []
  plain (r ∷ rs) = cons_dispatch r (own_target repo tenant_id r) (plain rs)

  dispatches-plain :
      (found : Dict (Option Contact)) (rs : List NotificationRule)
      → All (λ r. target_of found r ≡ own_target repo tenant_id r) rs
      → dispatches found rs ≡ plain rs
  unfolding plain
  dispatches-plain found [] h = refl
  dispatches-plain found (r ∷ rs) h =
      ap (λ t. cons_dispatch r t (dispatches found rs)) h.0
      ∙ ap (cons_dispatch r (own_target repo tenant_id r)) (dispatches-plain found rs h.1)

  plain-matching_rules :
      (fnmatch : ℕ → ℕ → Bool) (event_type : ℕ) (rs : List NotificationRule)
      → plain (matching_rules fnmatch tenant_id event_type rs)
        ≡ own_dispatches fnmatch repo tenant_id event_type rs
  unfolding plain matching_rules
  plain-matching_rules fnmatch event_type [] = refl
  plain-matching_rules fnmatch event_type (r ∷ rs) =
      let rest = plain-matching_rules fnmatch event_type rs in
      elim (Bool-cases (r.tenant_id == tenant_id && r.is_active)) [
        | inl own ↦ elim (Bool-cases (fnmatch event_type r.event_type_pattern)) [
          | inl hit ↦
              rw (own, hit)
                (ap (cons_dispatch r (own_target repo tenant_id r)) rest
                  ∙ own_step r repo tenant_id r.to_contact r.contact_id
                      (own_dispatches fnmatch repo tenant_id event_type rs))
          | inr miss ↦ rw (own, miss) rest
        ]
        | inr other ↦ rw other rest
      ]

module _ {L : Type 0} (dispatch : Dispatch → Option L) where
  -- For rules with distinct numbers the contacts that are looked up before the dispatch are those of the
  -- rules themselves: what is sent is, for each active rule of the tenant whose pattern matches, in
  -- the order of the rules and once each, the webhook or the telephone of the rule's own contact, where
  -- that is the first contact of its number that belongs to the tenant and is not removed, and it is
  -- active; nothing else is sent.
  pub evaluate_and_dispatch-own_dispatches :
      (fnmatch : ℕ → ℕ → Bool) (repo : Option (List Contact)) (tenant_id event_type : ℕ)
      (rules : List NotificationRule)
      → Distinct rules
      → (evaluate_and_dispatch dispatch fnmatch repo tenant_id event_type rules).0
        ≡ own_dispatches fnmatch repo tenant_id event_type rules
  unfolding evaluate_and_dispatch
  evaluate_and_dispatch-own_dispatches fnmatch repo tenant_id event_type rules h =
      let matching = matching_rules fnmatch tenant_id event_type rules in
      dispatches-plain repo tenant_id (resolve repo tenant_id matching []) matching (
        resolved repo tenant_id matching []
          (matching-Distinct fnmatch tenant_id event_type rules h))
      ∙ plain-matching_rules repo tenant_id fnmatch event_type rules

  abbrev pub raises : Dispatch → Bool
  raises x = is_lost (dispatch x)

  abbrev pub any_raises : List Dispatch → Bool
  any_raises [] = false
  any_raises (x ∷ xs) = raises x || any_raises xs

  gather-any_raises : (xs : List Dispatch) → is_lost (gather dispatch xs) ≡ any_raises xs
  gather-any_raises [] = refl
  gather-any_raises (x ∷ xs) = let rest = gather dispatch xs in ground (arith, gather-any_raises xs)

  -- For rules with distinct numbers the logs are all lost exactly where the dispatch of one of the active
  -- rules of the tenant that match, to its own webhook or contact, raises.
  pub evaluate_and_dispatch-any_raises :
      (fnmatch : ℕ → ℕ → Bool) (repo : Option (List Contact)) (tenant_id event_type : ℕ)
      (rules : List NotificationRule)
      → Distinct rules
      → is_lost (evaluate_and_dispatch dispatch fnmatch repo tenant_id event_type rules).1
        ≡ any_raises (own_dispatches fnmatch repo tenant_id event_type rules)
  unfolding evaluate_and_dispatch
  evaluate_and_dispatch-any_raises fnmatch repo tenant_id event_type rules h =
      let sent = (evaluate_and_dispatch dispatch fnmatch repo tenant_id event_type rules).0 in
      gather-any_raises sent
      ∙ ap any_raises
          (evaluate_and_dispatch-own_dispatches fnmatch repo tenant_id event_type rules h)
