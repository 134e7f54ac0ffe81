-- ===== src/Listener/Outcomes.antt =====
-- What the listener makes of the outcomes of dispatching messages.
use recs.Prelude.{String, ◌≡◌, refl, List, [], ◌∷◌, ◌++◌, map, arith}
use recs.Errors.{Error, ok, err}
use recs.Messages.Envelopes.{Outcome, finished, panicked}
use recs.TopicHandler.{TopicHandler, dispatch}
use recs.Listener.{Verdict, ack, nack, Event, delivered, safe_process_message, listen}

module _ {World Payload : Type 0} (topic_handler : TopicHandler World Payload)
    (topic : String) where
  -- From a world, messages with their verdicts lead to a world: each one is dispatched in the world
  -- that the one before it left, and is acknowledged if its dispatch succeeded and refused if that
  -- returned an error or panicked.
  pub data Handled : World → List Payload → List Verdict → World → Type 0 where
    none_left : {w : World} → Handled w [] [] w
    succeeded :
        {m : Payload} {ms : List Payload} {vs : List Verdict} {w w' v : World}
        → dispatch topic_handler topic m w ≡ (finished (ok tt), w')
        → Handled w' ms vs v
        → Handled w (m ∷ ms) (ack ∷ vs) v
    failed :
        {m : Payload} {ms : List Payload} {vs : List Verdict} {w w' v : World} (e : Error)
        → dispatch topic_handler topic m w ≡ (finished (err e), w')
        → Handled w' ms vs v
        → Handled w (m ∷ ms) (nack ∷ vs) v
    recovered :
        {m : Payload} {ms : List Payload} {vs : List Verdict} {w w' v : World}
        → dispatch topic_handler topic m w ≡ (panicked, w')
        → Handled w' ms vs v
        → Handled w (m ∷ ms) (nack ∷ vs) v

  -- one message before the others
  Handled-cons :
      (m : Payload) (ms : List Payload) (vs : List Verdict) (w w' v : World) (o : Outcome Unit)
      → dispatch topic_handler topic m w ≡ (o, w')
      → Handled w' ms vs v
      → (verdict : Verdict) × (safe_process_message topic_handler topic m w ≡ (verdict, w'))
        × Handled w (m ∷ ms) (verdict ∷ vs) v
  unfolding safe_process_message
  Handled-cons m ms vs w w' v (finished (ok _)) e h = (ack, ground arith, succeeded e h)
  Handled-cons m ms vs w w' v (finished (err x)) e h = (nack, ground arith, failed x e h)
  Handled-cons m ms vs w w' v panicked e h = (nack, ground arith, recovered e h)

  -- Of messages that are delivered before anything else happens, each gets one verdict, in order,
  -- by the outcome of its dispatch in the world that the messages before it left, whatever their
  -- outcomes were, errors and panics included; what happens next is met in the world that they
  -- leave.
  pub listen-Handled :
      (ms : List Payload) (rest : List (Event Payload)) (w : World)
      → (verdicts : List Verdict) × (v : World) × Handled w ms verdicts v
        × (listen topic_handler topic (map delivered ms ++ rest) w ≡ (
          verdicts ++ (listen topic_handler topic rest v).0,
          (listen topic_handler topic rest v).1,
          (listen topic_handler topic rest v).2,
        ))
  unfolding listen
  listen-Handled [] rest w = ([], w, none_left, refl)
  listen-Handled (m ∷ ms) rest w =
      let o = (dispatch topic_handler topic m w).0 in
      let w' = (dispatch topic_handler topic m w).1 in
      let (vs, v, h, e) = listen-Handled ms rest w' in
      let (verdict, p, hs) = Handled-cons m ms vs w w' v o refl h in
      (verdict ∷ vs, v, hs, rw (p, e) refl)
