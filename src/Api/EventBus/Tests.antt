-- ===== src/Api/EventBus/Tests.antt =====
-- A bus with three handlers, of which one raises: api/src/vms/infrastructure/messaging/event_bus.py.
use next_sec.Prelude.{ℕ, ◌+◌, ◌-◌, ◌≡◌, refl, Bool, true, some, List, [], ◌∷◌, map, ◌==◌}
use next_sec.Api.EventBus.{
  FieldValue, DomainEvent, EventClass, Incoming, message_of, new_bus, register, publish, listen,
  subscribe, handler_count,
}
use next_sec.Api.EventBus.Delivery.{
  subscribe_all, subscribed, received, publish-subscribe_all, listen-message_of,
}

abbrev subs : List (ℕ × ℕ)
subs = (5, 70) ∷ (6, 80) ∷ (5, 90) ∷ []

-- A CameraCreated with the camera's id, in field 1, and its name, in field 2.
abbrev event : DomainEvent
event = record {
  event_type = 5;
  occurred_at = 1000;
  fields = (1, FieldValue.entity_id 33) ∷ (2, FieldValue.plain 44) ∷ [];
}

abbrev camera_created : EventClass
camera_created = record { name = 5; known = 1 ∷ 2 ∷ 3 ∷ [] }

abbrev seventy_raises : ℕ → DomainEvent → Bool
seventy_raises h e = h == 70

three_handlers : handler_count (subscribe_all subs new_bus) ≡ 3
unfolding handler_count subscribe new_bus
three_handlers = refl

publish-subscribe_all_example :
    publish seventy_raises (λ _. true) event (subscribe_all subs new_bus)
    ≡ map (λ h. record { handler = h; event = event; raised = h == 70 }) (subscribed 5 subs)
publish-subscribe_all_example = publish-subscribe_all seventy_raises (λ _. true) event subs refl

abbrev to_text : ℕ → ℕ
to_text n = n + 500

listen-message_of_example :
    listen seventy_raises
      (λ text. some (text - 500))
      9
      (Incoming.message (message_of to_text to_text event) ∷ [])
      (register 5 camera_created (subscribe_all subs new_bus))
    ≡ map
        (λ h. record { handler = h; event = received to_text event; raised = h == 70 })
        (subscribed 5 subs)
listen-message_of_example =
    listen-message_of seventy_raises (λ text. some (text - 500)) 9 to_text to_text event
      camera_created subs (refl, (refl, (refl, tt))) refl

-- The camera's id is not what was published.
id_lost :
    (received to_text event).fields ≡ (1, FieldValue.wrapped 533) ∷ (2, FieldValue.plain 44) ∷ []
id_lost = refl
