-- ===== src/Subscription.antt =====
-- A subscription to a topic: the goroutine of the subscriber, which receives messages and passes them
-- on (`Subscribe`, `safeProcessSnsMessage` in internal/shared/platform/amazon_sns/sns_subscriber.go),
-- and the listener, which handles them (`Listen` in internal/app/message_processor.go). Either may be
-- next where both can go on; the channel between them has no buffer, so passing a message on and
-- handling it is one step. Other programs change the world only while it is handled.
pub mod Processing
use recs.Prelude.{String, Bool, true, false, Option, none, some, List, [], ◌∷◌, ◌++◌, ◌≡◌}
use recs.Errors.{Error, Result, ok, err}
use recs.TopicHandler.{TopicHandler}
use recs.Sns.{SnsMessage}
use recs.Listener.{Verdict, Listening, waiting, returned, safe_process_message}

pub record State (World Payload : Type 0) : Type 0 where
  -- whether the goroutine runs; its channel is open as long as it does
  pub forwarding : Bool
  -- the message that the goroutine has received and is passing on
  pub held : Option (SnsMessage Payload)
  pub listening : Listening
  pub world : World
  -- whether the context is done, and whether the channel of the wrapped subscriber is closed
  pub cancelled : Bool
  pub closed : Bool
  -- what has happened: the messages received, those passed on with their verdicts, those dropped
  pub received : List (SnsMessage Payload)
  pub passed : List (SnsMessage Payload)
  pub verdicts : List Verdict
  pub dropped : List (SnsMessage Payload)

-- the two loops begin
abbrev pub subscribed : {World Payload : Type 0} → World → State World Payload
subscribed w = record {
  forwarding = true;
  held = none;
  listening = waiting;
  world = w;
  cancelled = false;
  closed = false;
  received = [];
  passed = [];
  verdicts = [];
  dropped = [];
}

module _ {World Payload : Type 0} (topic_handler : TopicHandler World Payload)
    (topic : String) where
  -- the listener's call on a message
  unfoldable pub handle : SnsMessage Payload → State World Payload → State World Payload
  unfolding safe_process_message
  handle m s =
      let (verdict, w) = safe_process_message topic_handler topic m.payload s.world in
      record s {
        held = none;
        world = w;
        passed = s.passed ++ m ∷ [];
        verdicts = s.verdicts ++ verdict ∷ [];
      }

  pub data Step (s : State World Payload) (t : State World Payload) : Type 0 where
    -- the environment: the context is done, the wrapped channel is closed
    cancels : t ≡ record s { cancelled = true } → Step s t
    closes : t ≡ record s { closed = true } → Step s t
    -- the goroutine's `select`: a message, the end of the channel, the end of the context
    receives :
        (m : SnsMessage Payload)
        → s.forwarding ≡ true
        → s.held ≡ none
        → s.closed ≡ false
        → t ≡ record s { held = some m; received = s.received ++ m ∷ [] }
        → Step s t
    ends :
        s.forwarding ≡ true
        → s.held ≡ none
        → s.closed ≡ true
        → t ≡ record s { forwarding = false }
        → Step s t
    stops :
        s.forwarding ≡ true
        → s.held ≡ none
        → s.cancelled ≡ true
        → t ≡ record s { forwarding = false }
        → Step s t
    -- `safeProcessSnsMessage`: the listener takes the message, or the context is done
    passes :
        (m : SnsMessage Payload)
        → s.held ≡ some m
        → s.listening ≡ waiting
        → t ≡ handle m s
        → Step s t
    drops :
        (m : SnsMessage Payload)
        → s.held ≡ some m
        → s.cancelled ≡ true
        → t ≡ record s { held = none; dropped = s.dropped ++ m ∷ [] }
        → Step s t
    -- the listener's `select`: the end of the context, the end of the goroutine's channel
    leaves :
        (e : Error)
        → s.listening ≡ waiting
        → s.cancelled ≡ true
        → t ≡ record s { listening = returned (err e) }
        → Step s t
    finishes :
        s.listening ≡ waiting
        → s.forwarding ≡ false
        → t ≡ record s { listening = returned (ok tt) }
        → Step s t

  pub data Reach (w : World) : State World Payload → Type 0 where
    start : Reach w (subscribed w)
    next : {s t : State World Payload} → Reach w s → Step s t → Reach w t
