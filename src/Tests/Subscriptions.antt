-- ===== src/Tests/Subscriptions.antt =====
-- The theorem on subscriptions, where two of three messages are handled before the context is done.
use recs.Prelude.{ℕ, ◌+◌, refl, true, false, none, some, [], ◌∷◌, ◌++◌}
use recs.Errors.{ok, err, external}
use recs.Messages.Envelopes.{finished}
use recs.TopicHandler.{TopicHandler}
use recs.Listener.{returned}
use recs.Sns.{SnsMessage}
use recs.Subscription.{
  State, subscribed, handle, Reach, start, next, receives, passes, cancels, drops, leaves, stops,
}
use recs.Subscription.Processing.{IsProcessing, Reach-IsProcessing}

-- a handler that adds each payload to the world
abbrev adding : TopicHandler ℕ ℕ
adding =
    (
      "topic",
      record {
        name = "adding";
        can_handle = λ m. some true;
        handle_untyped = λ m w. (finished (ok tt), m + w);
      }
          ∷ [],
    )
    ∷ []

abbrev message : ℕ → SnsMessage ℕ
message m = record { uuid = "id"; payload = m; metadata = [] }

-- a message is received, and the listener takes it
abbrev taken : ℕ → State ℕ ℕ → State ℕ ℕ
taken m s =
    handle adding "topic" (message m)
      (record s { held = some (message m); received = s.received ++ message m ∷ [] })

abbrev two_taken : State ℕ ℕ
two_taken = taken 5 (taken 2 (subscribed 0))

-- the third is received, the context is done, the listener leaves, and the goroutine drops it and ends
abbrev third_held : State ℕ ℕ
third_held = record two_taken {
  held = some (message 9);
  received = two_taken.received ++ message 9 ∷ [];
  cancelled = true;
}

abbrev abandoned : State ℕ ℕ
abandoned = record third_held {
  held = none;
  dropped = message 9 ∷ [];
  listening = returned (err (external 1));
  forwarding = false;
}

abandoned_reached : Reach adding "topic" 0 abandoned
unfolding handle
abandoned_reached =
    next
      (next
        (next
          (next
            (next
              (next
                (next
                  (next (next start (receives (message 2) refl refl refl refl))
                    (passes (message 2) refl refl refl))
                  (receives (message 5) refl refl refl refl))
                (passes (message 5) refl refl refl))
              (receives (message 9) refl refl refl refl))
            (cancels refl))
          (leaves (external 1) refl refl refl))
        (drops (message 9) refl refl refl))
      (stops refl refl refl refl)

Reach-IsProcessing_example : IsProcessing adding "topic" 0 abandoned
Reach-IsProcessing_example = Reach-IsProcessing adding "topic" 0 abandoned abandoned_reached
