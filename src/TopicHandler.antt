-- ===== src/TopicHandler.antt =====
-- `TopicHandler`: the handlers of each topic, by name, and the dispatch of a message to them
-- (internal/shared/messaging/handler.go). The maps are association lists; Go ranges over a map in any
-- order, and here that is the order of the list.
pub mod Dispatching
use text.Mathlib.Text.{◌==◌ as str_eq}
use recs.Prelude.{String, Bool, true, false, Option, none, some, List, [], ◌∷◌, ◌++◌, if◌then◌else◌}
use recs.Errors.{Error, Result, ok, err, no_handlers, wrong_message_type, joined}
use recs.Action.{Action}
use recs.Messages.Envelopes.{Json, Outcome, finished, panicked, load}

-- `untypedHandler`; `none` stands for a panic in the test
pub record UntypedHandler (World Payload : Type 0) : Type 0 where
  pub name : String
  pub can_handle : Payload → Option Bool
  pub handle_untyped : Payload → World → Outcome (Unit {0}) × World

-- `Handler[*M]`
pub record Handler (World M : Type 0) : Type 0 where
  pub name : String
  pub handle : M → Action World Unit

-- `errors.Join`
abbrev pub join : Error → List Error → Error
join e [] = e
join e (e' ∷ es) = joined e (join e' es)

-- the error at the end of the loop
unfoldable pub joined_errors : List Error → Result (Unit {0})
joined_errors [] = ok tt
joined_errors (e ∷ es) = err (join e es)

-- the handlers of one topic, and of all
abbrev pub Handlers : Type 0 → Type 0 → Type 0
Handlers World Payload = List (UntypedHandler World Payload)

abbrev pub TopicHandler : Type 0 → Type 0 → Type 0
TopicHandler World Payload = List (String × Handlers World Payload)

module _ {World Payload : Type 0} where
  -- `handlerAdapter[*M]`, for messages with a name in their envelope
  unfoldable pub handler_adapter :
      {M : Type 0} → Json Payload M → String → Handler World M → UntypedHandler World Payload
  unfolding load
  handler_adapter json message_name h = record {
    name = h.name;
    can_handle = λ payload. elim (load json message_name payload) [
      | panicked ↦ none
      | finished (err e) ↦ some false
      | finished (ok m) ↦ some true
    ];
    handle_untyped = λ payload w. elim (load json message_name payload) [
      | panicked ↦ (panicked, w)
      | finished (err e) ↦ (finished (err (wrong_message_type h.name)), w)
      | finished (ok m) ↦ let (r, w') = h.handle m w in (finished r, w')
    ];
  }

  unfoldable pub handlers_of : String → TopicHandler World Payload → Handlers World Payload
  handlers_of topic [] = []
  handlers_of topic ((t, hs) ∷ r) = if str_eq t topic then hs else handlers_of topic r

  unfoldable pub has_name : String → Handlers World Payload → Bool
  has_name name [] = false
  has_name name (h ∷ hs) = if str_eq h.name name then true else has_name name hs

  unfoldable pub set_handlers :
      String → Handlers World Payload → TopicHandler World Payload → TopicHandler World Payload
  set_handlers topic hs [] = (topic, hs) ∷ []
  set_handlers topic hs ((t, old) ∷ r) =
      if str_eq t topic then (topic, hs) ∷ r else (t, old) ∷ set_handlers topic hs r

  -- `register`; `none` is the panic on a name that is taken
  unfoldable pub register :
      TopicHandler World Payload
      → String
      → UntypedHandler World Payload
      → Option (TopicHandler World Payload)
  unfolding handlers_of has_name set_handlers
  register r topic h =
      if has_name h.name (handlers_of topic r)
      then none
      else some (set_handlers topic (handlers_of topic r ++ h ∷ []) r)

  -- `RegisterTopicHandler`
  unfoldable pub register_topic_handler :
      {M : Type 0}
      → Json Payload M
      → String
      → TopicHandler World Payload
      → String
      → Handler World M
      → Option (TopicHandler World Payload)
  unfolding register handler_adapter
  register_topic_handler json message_name r topic h =
      register r topic (handler_adapter json message_name h)

  -- the loop of `Dispatch`, with the errors so far
  unfoldable pub dispatch_to :
      Handlers World Payload → Payload → List Error → World → Outcome (Unit {0}) × World
  unfolding joined_errors
  dispatch_to [] msg errs w = (finished (joined_errors errs), w)
  dispatch_to (h ∷ hs) msg errs w = elim (h.can_handle msg) [
    | none ↦ (panicked, w)
    | some false ↦ dispatch_to hs msg errs w
    | some true ↦
        let (r, w') = h.handle_untyped msg w in
        elim r [
          | panicked ↦ (panicked, w')
          | finished (ok _) ↦ dispatch_to hs msg errs w'
          | finished (err e) ↦ dispatch_to hs msg (errs ++ e ∷ []) w'
        ]
  ]

  -- `len(hs) == 0`
  unfoldable pub dispatch_any :
      Handlers World Payload → String → Payload → World → Outcome (Unit {0}) × World
  unfolding dispatch_to
  dispatch_any [] topic msg w = (finished (err (no_handlers topic)), w)
  dispatch_any (h ∷ hs) topic msg w = dispatch_to (h ∷ hs) msg [] w

  unfoldable pub dispatch :
      TopicHandler World Payload → String → Payload → World → Outcome (Unit {0}) × World
  unfolding handlers_of dispatch_any
  dispatch r topic msg w = dispatch_any (handlers_of topic r) topic msg w
