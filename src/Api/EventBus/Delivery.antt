-- ===== src/Api/EventBus/Delivery.antt =====
-- Who gets an event of api/src/vms/infrastructure/messaging/event_bus.py.
use next_sec.Prelude.{
  ℕ, ◌≡◌, refl, Bool, true, false, Option, some, List, [], ◌∷◌, ◌++◌, map, arith, ◌==◌,
  if◌then◌else◌, ap, ◌∙◌, sym, none, elem, All,
}
use mathlib.Core.List.{append-nil, append_assoc}
use next_sec.Prelude.Dict.{lookup, lookup-insert}
use next_sec.Api.EventBus.{
  FieldValue, DomainEvent, EventClass, Incoming, DomainEventBus, json_value, json_fields,
  message_of, all_known, instance_of, from_dict, new_bus, register, handlers_of, subscribe,
  of_class, dispatch_found, run_handlers, dispatch_locally, publish, listen,
}

-- The subscriptions in order, each a type and a handler.
abbrev pub subscribe_all : List (ℕ × ℕ) → DomainEventBus → DomainEventBus
subscribe_all [] b = b
subscribe_all ((event_type, handler) ∷ subs) b = subscribe_all subs (subscribe event_type handler b)

-- The handlers that were subscribed for a type, in the order of their subscription.
abbrev pub subscribed : ℕ → List (ℕ × ℕ) → List ℕ
subscribed k [] = []
subscribed k ((event_type, handler) ∷ subs) =
    if k == event_type then handler ∷ subscribed k subs else subscribed k subs

handlers_of-subscribe :
    (k event_type handler : ℕ) (b : DomainEventBus)
    → handlers_of k (subscribe event_type handler b)
      ≡ (if k == event_type then handlers_of k b ++ handler ∷ [] else handlers_of k b)
unfolding subscribe
handlers_of-subscribe k event_type handler b =
    ground (arith, lookup-insert k event_type (handlers_of event_type b ++ handler ∷ []) b.handlers)

handlers_of-subscribe_all :
    (k : ℕ) (subs : List (ℕ × ℕ)) (b : DomainEventBus)
    → handlers_of k (subscribe_all subs b) ≡ handlers_of k b ++ subscribed k subs
handlers_of-subscribe_all k [] b = sym (append-nil (handlers_of k b))
handlers_of-subscribe_all k ((event_type, handler) ∷ subs) b =
    handlers_of-subscribe_all k subs (subscribe event_type handler b)
    ∙ ap (λ hs. hs ++ subscribed k subs) (handlers_of-subscribe k event_type handler b)
    ∙ by_type (k == event_type) (handlers_of k b) handler (subscribed k subs)
  where
    by_type :
        (same : Bool) (old : List ℕ) (h : ℕ) (rest : List ℕ)
        → (if same then old ++ h ∷ [] else old) ++ rest ≡ old ++ (if same then h ∷ rest else rest)
    by_type true old h rest = append_assoc old (h ∷ []) rest
    by_type false old h rest = refl

run_handlers_lem :
    (raises : ℕ → DomainEvent → Bool) (e : DomainEvent) (hs : List ℕ)
    → run_handlers raises e hs
      ≡ map (λ h. record { handler = h; event = e; raised = raises h e }) hs
run_handlers_lem raises e [] = refl
run_handlers_lem raises e (h ∷ hs) =
    ap (λ cs. record { handler = h; event = e; raised = raises h e } ∷ cs)
      (run_handlers_lem raises e hs)

-- Whatever subscriptions come in whatever order, an event that Redis takes is given to each handler that
-- was subscribed for its type, once for each subscription and in their order, and to no other; a
-- handler that raises keeps no other from the event.
pub publish-subscribe_all :
    (raises : ℕ → DomainEvent → Bool) (redis_ok : DomainEvent → Bool) (e : DomainEvent)
    (subs : List (ℕ × ℕ))
    → redis_ok e ≡ true
    → publish raises redis_ok e (subscribe_all subs new_bus)
      ≡ map
          (λ h. record { handler = h; event = e; raised = raises h e })
          (subscribed e.event_type subs)
unfolding publish new_bus
publish-subscribe_all raises redis_ok e subs ok =
    ap (λ b. if b then dispatch_locally raises e (subscribe_all subs new_bus) else []) ok
    ∙ ap (run_handlers raises e) (handlers_of-subscribe_all e.event_type subs new_bus)
    ∙ run_handlers_lem raises e (subscribed e.event_type subs)

-- An event as a handler behind Redis gets it: each EntityId has become the dict of its text.
abbrev pub arrives : (ℕ → ℕ) → FieldValue → FieldValue
arrives str (FieldValue.plain x) = FieldValue.plain x
arrives str (FieldValue.entity_id uuid) = FieldValue.wrapped (str uuid)
arrives str (FieldValue.wrapped text) = FieldValue.wrapped text

abbrev pub received : (ℕ → ℕ) → DomainEvent → DomainEvent
received str e = record e { fields = map (λ x. (x.0, arrives str x.1)) e.fields }

-- The class has each field of the event.
abbrev pub IsInstance : EventClass → DomainEvent → Type 0
IsInstance c e = (c.name ≡ e.event_type) × All (λ x. elem x.0 c.known ≡ true) e.fields

arrives_lem : (str : ℕ → ℕ) (v : FieldValue) → json_value str v ≡ arrives str v
arrives_lem str (FieldValue.plain x) = refl
arrives_lem str (FieldValue.entity_id uuid) = refl
arrives_lem str (FieldValue.wrapped text) = refl

fields_lem :
    (str : ℕ → ℕ) (c : EventClass) (fs : List (ℕ × FieldValue))
    → All (λ x. elem x.0 c.known ≡ true) fs
    → (json_fields str fs ≡ map (λ x. (x.0, arrives str x.1)) fs)
      × (all_known c (json_fields str fs) ≡ true)
fields_lem str c [] h = (refl, refl)
fields_lem str c ((name, v) ∷ fs) h =
    let rest = fields_lem str c fs h.1 in
    (
      ap (λ w. (name, w) ∷ json_fields str fs) (arrives_lem str v)
          ∙ ap (λ ws. (name, arrives str v) ∷ ws) rest.0,
      rw h.0 rest.1,
    )

-- Through Redis: an instance that listens, and has the class of an event registered under its name, runs
-- for it exactly the handlers that were subscribed for its type, once for each subscription and in
-- their order, with an event of the same type and time in which each EntityId has become a dict with
-- its text. The text of a time is read back as that time.
pub listen-message_of :
    (raises : ℕ → DomainEvent → Bool) (fromisoformat : ℕ → Option ℕ) (now : ℕ)
    (str_time str : ℕ → ℕ) (e : DomainEvent) (c : EventClass) (subs : List (ℕ × ℕ))
    → IsInstance c e
    → fromisoformat (str_time e.occurred_at) ≡ some e.occurred_at
    → listen raises fromisoformat now
        (Incoming.message (message_of str_time str e) ∷ [])
        (register e.event_type c (subscribe_all subs new_bus))
      ≡ map
          (λ h. record { handler = h; event = received str e; raised = raises h (received str e) })
          (subscribed e.event_type subs)
unfolding listen register new_bus
listen-message_of raises fromisoformat now str_time str e c subs is reads =
    let b = register e.event_type c (subscribe_all subs new_bus) in
    let m = message_of str_time str e in
    let fields = fields_lem str c e.fields is.1 in
    let found : lookup e.event_type b.event_types ≡ some c =
      ground (
        arith,
        lookup-insert e.event_type e.event_type c (subscribe_all subs new_bus).event_types,
      ) in
    let read : from_dict fromisoformat now c m ≡ some (received str e) =
      ap (instance_of fromisoformat now c m.fields) reads
      ∙ ap
          (λ t.
            if t
            then some
                (record { event_type = c.name; occurred_at = e.occurred_at; fields = m.fields })
            else none)
          fields.1
      ∙ ap (λ fs. some (record { event_type = c.name; occurred_at = e.occurred_at; fields = fs }))
          fields.0
      ∙ ap
          (λ n. some (record {
            event_type = n;
            occurred_at = e.occurred_at;
            fields = (received str e).fields;
          }))
          is.0 in
    append-nil (
      dispatch_found raises fromisoformat now
        (of_class fromisoformat now (lookup e.event_type b.event_types) m) b)
    ∙ ap (λ o. dispatch_found raises fromisoformat now (of_class fromisoformat now o m) b) found
    ∙ ap (λ o. dispatch_found raises fromisoformat now o b) read
    ∙ ap (run_handlers raises (received str e))
        (handlers_of-subscribe_all e.event_type subs new_bus)
    ∙ run_handlers_lem raises (received str e) (subscribed e.event_type subs)
