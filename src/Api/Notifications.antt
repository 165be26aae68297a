-- ===== src/Api/Notifications.antt =====
-- The rules of notification: NotificationService.evaluate_and_dispatch of
-- api/src/vms/notifications/service.py over the rules of api/src/vms/notifications/domain.py. The
-- pattern match is the standard library's fnmatch, an argument; so is what a dispatch answers.
pub mod Targets
mod Tests
use next_sec.Prelude.{
  ℕ, Bool, true, false, ◌&&◌, not, Option, none, some, List, [], ◌∷◌, ◌==◌, if◌then◌else◌, select,
}
use next_sec.Prelude.Dict.{Dict, lookup, insert}

-- `contact_id` is `none` where it is None or empty.
pub record NotificationRule : Type 0 where
  pub id : ℕ
  pub tenant_id : ℕ
  pub event_type_pattern : ℕ
  pub to_contact : Bool
  pub contact_id : Option ℕ
  pub is_active : Bool

pub record Contact : Type 0 where
  pub id : ℕ
  pub tenant_id : ℕ
  pub phone_number : ℕ
  pub is_active : Bool
  pub is_deleted : Bool

-- Where a notification goes: the rule's own URL, or a telephone.
pub data Target : Type 0 where
  webhook : Target
  phone : ℕ → Target

-- `list_by_tenant(tenant_id, active_only=True)`
abbrev pub is_of_tenant : ℕ → NotificationRule → Bool
is_of_tenant tenant_id r = r.tenant_id == tenant_id && r.is_active

unfoldable pub matching_rules :
    (ℕ → ℕ → Bool) → ℕ → ℕ → List NotificationRule → List NotificationRule
matching_rules fnmatch tenant_id event_type rules =
    select (λ r. fnmatch event_type r.event_type_pattern) (select (is_of_tenant tenant_id) rules)

-- `get_by_id(contact_id, tenant_id)`, which leaves out what was removed.
abbrev pub find_contact : ℕ → ℕ → List Contact → Option Contact
find_contact contact_id tenant_id [] = none
find_contact contact_id tenant_id (c ∷ cs) =
    if c.id == contact_id && c.tenant_id == tenant_id && not c.is_deleted
    then some c
    else find_contact contact_id tenant_id cs

-- The contact of a rule: none without a repository, without a contact, or where it is not found.
abbrev pub contact_of : Option (List Contact) → ℕ → Option ℕ → Option Contact
contact_of (some contacts) tenant_id (some contact_id) = find_contact contact_id tenant_id contacts
contact_of _ tenant_id _ = none

-- The loop that fills `contacts_by_rule`.
unfoldable pub resolve :
    Option (List Contact)
    → ℕ
    → List NotificationRule
    → Dict (Option Contact)
    → Dict (Option Contact)
resolve repo tenant_id [] found = found
resolve repo tenant_id (r ∷ rs) found =
    resolve repo tenant_id rs
      (if r.to_contact then insert r.id (contact_of repo tenant_id r.contact_id) found else found)

-- `contacts_by_rule.get(rule.id)`
abbrev pub or_missing : Option (Option Contact) → Option Contact
or_missing none = none
or_missing (some c) = c

-- `not contact or not contact.is_active`
abbrev pub reachable : Option Contact → Option Target
reachable none = none
reachable (some c) = if c.is_active then some (Target.phone c.phone_number) else none

abbrev pub target_of : Dict (Option Contact) → NotificationRule → Option Target
target_of found r =
    if r.to_contact then reachable (or_missing (lookup r.id found)) else some Target.webhook

-- A rule that is sent somewhere.
abbrev pub Dispatch : Type 0
Dispatch = NotificationRule × Target

abbrev pub cons_dispatch : NotificationRule → Option Target → List Dispatch → List Dispatch
cons_dispatch r none rest = rest
cons_dispatch r (some t) rest = (r, t) ∷ rest

abbrev pub dispatches : Dict (Option Contact) → List NotificationRule → List Dispatch
dispatches found [] = []
dispatches found (r ∷ rs) = cons_dispatch r (target_of found r) (dispatches found rs)

module _ {L : Type 0} (dispatch : Dispatch → Option L) where
  abbrev pub and_log : Option L → Option (List L) → Option (List L)
  and_log none rest = none
  and_log (some log) none = none
  and_log (some log) (some logs) = some (log ∷ logs)

  -- `asyncio.gather`: all dispatches are made; where one raises, so does the call.
  abbrev pub gather : List Dispatch → Option (List L)
  gather [] = some []
  gather (x ∷ xs) = and_log (dispatch x) (gather xs)

  -- What is sent, and the logs that are kept, or `none` where the call raises and keeps none.
  unfoldable pub evaluate_and_dispatch :
      (ℕ → ℕ → Bool)
      → Option (List Contact)
      → ℕ
      → ℕ
      → List NotificationRule
      → List Dispatch × Option (List L)
  unfolding matching_rules resolve
  evaluate_and_dispatch fnmatch repo tenant_id event_type rules =
      let matching = matching_rules fnmatch tenant_id event_type rules in
      let sent = dispatches (resolve repo tenant_id matching []) matching in (sent, gather sent)
