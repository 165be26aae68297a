-- ===== src/Api/EventBus.antt =====
-- The bus of domain events: classes EventRegistry and DomainEventBus of
-- api/src/vms/infrastructure/messaging/event_bus.py, with DomainEvent of api/src/vms/shared/events.py.
-- Redis, `str`, `fromisoformat` and the handlers are arguments: what they answer, and which handlers
-- raise. Names and handlers are numbers.
pub mod Delivery
mod Tests
use next_sec.Prelude.{
  ℕ, ◌+◌, Bool, true, false, Option, none, some, List, [], ◌∷◌, ◌++◌, ◌==◌, if◌then◌else◌, length,
  elem, ◌&&◌,
}
use next_sec.Prelude.Dict.{Dict, lookup, insert}

-- The value of a field: a text, a number or None; an EntityId, which wraps a UUID; or the dict of one,
-- with a text for the UUID.
pub data FieldValue : Type 0 where
  plain : ℕ → FieldValue
  entity_id : ℕ → FieldValue
  wrapped : ℕ → FieldValue

-- `event_type` is the name of the class, and `fields` has those of the subclass.
pub record DomainEvent : Type 0 where
  pub event_type : ℕ
  pub occurred_at : ℕ
  pub fields : List (ℕ × FieldValue)

-- A class of events: its name, and its fields, which all have a default.
pub record EventClass : Type 0 where
  pub name : ℕ
  pub known : List ℕ

-- A decoded message: `event_type` and `occurred_at` may be absent or empty.
pub record Message : Type 0 where
  pub event_type : Option ℕ
  pub occurred_at : Option ℕ
  pub fields : List (ℕ × FieldValue)

-- What the channel brings: a notice of the subscription, a text that is no JSON, or a message.
pub data Incoming : Type 0 where
  notice : Incoming
  invalid : Incoming
  message : Message → Incoming

-- A handler that was run with an event, and whether it raised.
pub record Call : Type 0 where
  pub handler : ℕ
  pub event : DomainEvent
  pub raised : Bool

pub record DomainEventBus : Type 0 where
  pub event_types : Dict EventClass
  pub handlers : Dict (List ℕ)

unfoldable pub new_bus : DomainEventBus
new_bus = record { event_types = []; handlers = [] }

-- `EventRegistry.register`
unfoldable pub register : ℕ → EventClass → DomainEventBus → DomainEventBus
register event_type event_class b = record b {
  event_types = insert event_type event_class b.event_types;
}

abbrev pub handlers_or_none : Option (List ℕ) → List ℕ
handlers_or_none none = []
handlers_or_none (some hs) = hs

-- `self._handlers.get(event_type, [])`
abbrev pub handlers_of : ℕ → DomainEventBus → List ℕ
handlers_of event_type b = handlers_or_none (lookup event_type b.handlers)

unfoldable pub subscribe : ℕ → ℕ → DomainEventBus → DomainEventBus
subscribe event_type handler b = record b {
  handlers = insert event_type (handlers_of event_type b ++ handler ∷ []) b.handlers;
}

module _ (raises : ℕ → DomainEvent → Bool) where
  -- The loop with its `try`: a handler that raises does not stop the next.
  abbrev pub run_handlers : DomainEvent → List ℕ → List Call
  run_handlers e [] = []
  run_handlers e (h ∷ hs) =
      record { handler = h; event = e; raised = raises h e } ∷ run_handlers e hs

  unfoldable pub dispatch_locally : DomainEvent → DomainEventBus → List Call
  dispatch_locally e b = run_handlers e (handlers_of e.event_type b)

  -- Redis takes the message or raises; in that case nothing is dispatched, and the error is logged.
  unfoldable pub publish : (DomainEvent → Bool) → DomainEvent → DomainEventBus → List Call
  unfolding dispatch_locally
  publish redis_ok e b = if redis_ok e then dispatch_locally e b else []

  unfoldable pub publish_many : (DomainEvent → Bool) → List DomainEvent → DomainEventBus → List Call
  unfolding publish
  publish_many redis_ok [] b = []
  publish_many redis_ok (e ∷ es) b = publish redis_ok e b ++ publish_many redis_ok es b

-- `json.dumps(event.to_dict(), default=str)` read back: `asdict` makes a dict of an EntityId, and `str`
-- a text of its UUID and of the time.
abbrev pub json_value : (ℕ → ℕ) → FieldValue → FieldValue
json_value str (FieldValue.plain x) = FieldValue.plain x
json_value str (FieldValue.entity_id uuid) = FieldValue.wrapped (str uuid)
json_value str (FieldValue.wrapped text) = FieldValue.wrapped text

abbrev pub json_fields : (ℕ → ℕ) → List (ℕ × FieldValue) → List (ℕ × FieldValue)
json_fields str [] = []
json_fields str ((name, value) ∷ fs) = (name, json_value str value) ∷ json_fields str fs

abbrev pub message_of : (ℕ → ℕ) → (ℕ → ℕ) → DomainEvent → Message
message_of str_time str e = record {
  event_type = some e.event_type;
  occurred_at = some (str_time e.occurred_at);
  fields = json_fields str e.fields;
}

-- `cls(**data)` raises on a keyword that the class does not have.
abbrev pub all_known : EventClass → List (ℕ × FieldValue) → Bool
all_known c [] = true
all_known c ((name, _) ∷ fs) = elem name c.known && all_known c fs

-- `fromisoformat` and the clock, for an event without a time.
module _ (fromisoformat : ℕ → Option ℕ) (now : ℕ) where
  abbrev pub time_of : Option ℕ → Option ℕ
  time_of none = some now
  time_of (some text) = fromisoformat text

  abbrev pub instance_of : EventClass → List (ℕ × FieldValue) → Option ℕ → Option DomainEvent
  instance_of c fs none = none
  instance_of c fs (some at) =
      if all_known c fs
      then some (record { event_type = c.name; occurred_at = at; fields = fs })
      else none

  -- An exception is `none`.
  abbrev pub from_dict : EventClass → Message → Option DomainEvent
  from_dict c m = instance_of c m.fields (time_of m.occurred_at)

  abbrev pub of_class : Option EventClass → Message → Option DomainEvent
  of_class none m = none
  of_class (some event_class) m = from_dict event_class m

  abbrev pub of_type : Option ℕ → Message → DomainEventBus → Option DomainEvent
  of_type none m b = none
  of_type (some event_type) m b = of_class (lookup event_type b.event_types) m

  -- `EventRegistry.reconstruct`; a `from_dict` that raises gives `none`.
  unfoldable pub reconstruct : Message → DomainEventBus → Option DomainEvent
  reconstruct m b = of_type m.event_type m b

module _ (raises : ℕ → DomainEvent → Bool) (fromisoformat : ℕ → Option ℕ) (now : ℕ) where
  abbrev pub dispatch_found : Option DomainEvent → DomainEventBus → List Call
  dispatch_found none b = []
  dispatch_found (some e) b = dispatch_locally raises e b

  abbrev pub receive : Incoming → DomainEventBus → List Call
  receive Incoming.notice b = []
  receive Incoming.invalid b = []
  receive (Incoming.message m) b = dispatch_found (reconstruct fromisoformat now m b) b

  -- The loop of the listener over what the channel brings.
  unfoldable pub listen : List Incoming → DomainEventBus → List Call
  unfolding dispatch_locally reconstruct
  listen [] b = []
  listen (x ∷ xs) b = receive x b ++ listen xs b

abbrev pub sum_lengths : Dict (List ℕ) → ℕ
sum_lengths [] = 0
sum_lengths ((_, hs) ∷ d) = length hs + sum_lengths d

unfoldable pub handler_count : DomainEventBus → ℕ
handler_count b = sum_lengths b.handlers
