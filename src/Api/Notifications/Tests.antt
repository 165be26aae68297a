-- ===== src/Api/Notifications/Tests.antt =====
-- One event for api/src/vms/notifications/service.py: a rule with a URL, a rule with an active contact, a rule
-- with an inactive one and a rule of another tenant.
use next_sec.Prelude.{
  if◌then◌else◌, ◌==◌, none, ℕ, ◌≡◌, refl, true, false, Option, none, some, List, [], ◌∷◌,
}
use next_sec.Api.Notifications.{
  NotificationRule, Contact, Dispatch, matching_rules, resolve, evaluate_and_dispatch,
}
use next_sec.Api.Notifications.Targets.{
  is_lost, any_raises, own_dispatches, evaluate_and_dispatch-own_dispatches,
  evaluate_and_dispatch-any_raises,
}

abbrev rule_of : ℕ → ℕ → Option ℕ → NotificationRule
rule_of id tenant_id none = record {
  id = id;
  tenant_id = tenant_id;
  event_type_pattern = 0;
  to_contact = false;
  contact_id = none;
  is_active = true;
}
rule_of id tenant_id (some c) = record {
  id = id;
  tenant_id = tenant_id;
  event_type_pattern = 0;
  to_contact = true;
  contact_id = some c;
  is_active = true;
}

abbrev four_rules : List NotificationRule
four_rules = rule_of 1 7 none ∷ rule_of 2 7 (some 5) ∷ rule_of 3 7 (some 6) ∷ rule_of 4 8 none ∷ []

abbrev contacts : List Contact
contacts =
    record { id = 5; tenant_id = 7; phone_number = 551; is_active = true; is_deleted = false }
    ∷ record { id = 6; tenant_id = 7; phone_number = 552; is_active = false; is_deleted = false }
    ∷ []

abbrev log_of : Dispatch → Option ℕ
log_of x = some x.0.id

evaluate_and_dispatch-own_dispatches_example :
    (evaluate_and_dispatch log_of (λ _ _. true) (some contacts) 7 9 four_rules).0
    ≡ own_dispatches (λ _ _. true) (some contacts) 7 9 four_rules
evaluate_and_dispatch-own_dispatches_example =
    evaluate_and_dispatch-own_dispatches log_of (λ _ _. true) (some contacts) 7 9 four_rules
      (refl, (refl, (refl, (refl, tt))))

-- The rule with a URL has no secret, so that its signature raises.
abbrev log_or_raise : Dispatch → Option ℕ
log_or_raise x = if x.0.id == 1 then none else some x.0.id

no_logs : (evaluate_and_dispatch log_or_raise (λ _ _. true) (some contacts) 7 9 four_rules).1 ≡ none
unfolding evaluate_and_dispatch matching_rules resolve
no_logs = refl

evaluate_and_dispatch-any_raises_example :
    is_lost (evaluate_and_dispatch log_or_raise (λ _ _. true) (some contacts) 7 9 four_rules).1
    ≡ any_raises log_or_raise (own_dispatches (λ _ _. true) (some contacts) 7 9 four_rules)
evaluate_and_dispatch-any_raises_example =
    evaluate_and_dispatch-any_raises log_or_raise (λ _ _. true) (some contacts) 7 9 four_rules
      (refl, (refl, (refl, (refl, tt))))
