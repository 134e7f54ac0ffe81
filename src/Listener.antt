-- ===== src/Listener.antt =====
-- `TopicListener`: a message is acknowledged or not by how its dispatch ends
-- (internal/app/message_processor.go).
pub mod Outcomes
pub mod Verdicts
use recs.Prelude.{String, List, [], ◌∷◌}
use recs.Errors.{Error, Result, ok, err}
use recs.Messages.Envelopes.{Outcome, finished, panicked}
use recs.TopicHandler.{TopicHandler, dispatch}

-- the call that is made on a message
pub data Verdict : Type 0 where
  ack nack : Verdict

-- what the loop's `select` sees next: a message, the end of the channel, or that of the context
pub data Event (Payload : Type 0) : Type 0 where
  delivered : Payload → Event Payload
  closed : Event Payload
  cancelled : Error → Event Payload

-- `Listen` waits for another event, or has returned
pub data Listening : Type 0 where
  waiting : Listening
  returned : Result (Unit {0}) → Listening

module _ {World Payload : Type 0} (topic_handler : TopicHandler World Payload)
    (topic : String) where
  -- `safeProcessMessage`; the deferred function recovers from a panic
  unfoldable pub safe_process_message : Payload → World → Verdict × World
  unfolding dispatch
  safe_process_message m w =
      let (o, w') = dispatch topic_handler topic m w in
      elim o [ panicked ↦ (nack, w') | finished (err e) ↦ (nack, w') | finished (ok _) ↦ (ack, w') ]

  -- the loop of `Listen`, over what happens
  unfoldable pub listen : List (Event Payload) → World → List Verdict × Listening × World
  unfolding safe_process_message
  listen [] w = ([], waiting, w)
  listen (closed ∷ events) w = ([], returned (ok tt), w)
  listen (cancelled e ∷ events) w = ([], returned (err e), w)
  listen (delivered m ∷ events) w =
      let (verdict, w') = safe_process_message m w in
      let (verdicts, state, v) = listen events w' in (verdict ∷ verdicts, state, v)
