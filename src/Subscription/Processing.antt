-- ===== src/Subscription/Processing.antt =====
-- Which messages are handled, and in what order.
use recs.Prelude.{String, false, Option, none, some, List, [], ◌∷◌, ◌++◌, map, ◌≡◌, refl}
use mathlib.Core.List.{map-append, append-nil}
use recs.Errors.{ok}
use recs.TopicHandler.{TopicHandler}
use recs.Sns.{SnsMessage}
use recs.Listener.{Verdict, returned, safe_process_message}
use recs.Subscription.{
  State, subscribed, handle, Step, cancels, closes, receives, ends, stops, passes, drops, leaves,
  finishes, Reach, start, next,
}

abbrev pub held_list : {M : Type 0} → Option M → List M
held_list none = []
held_list (some m) = m ∷ []

-- A list that is merged from two: each element is the next of the one or of the other.
pub data Merges {M : Type 0} : List M → List M → List M → Type 0 where
  both_empty : Merges [] [] []
  next_left :
      {ls rs ms : List M} (m : M) → Merges ls rs ms → Merges (ls ++ m ∷ []) rs (ms ++ m ∷ [])
  next_right :
      {ls rs ms : List M} (m : M) → Merges ls rs ms → Merges ls (rs ++ m ∷ []) (ms ++ m ∷ [])

module _ {World Payload : Type 0} (topic_handler : TopicHandler World Payload)
    (topic : String) where
  -- messages processed one after another
  unfoldable pub process_all : List Payload → World → List Verdict × World
  process_all [] w = ([], w)
  process_all (m ∷ ms) w =
      let (verdict, w') = safe_process_message topic_handler topic m w in
      let (verdicts, v) = process_all ms w' in (verdict ∷ verdicts, v)

  process_all-append :
      (ms : List Payload) (m : Payload) (w : World)
      → process_all (ms ++ m ∷ []) w ≡ (
          let (verdicts, v) = process_all ms w in
          let (verdict, v') = safe_process_message topic_handler topic m v in
          (verdicts ++ verdict ∷ [], v'))
  unfolding process_all
  process_all-append [] m w = refl
  process_all-append (n ∷ ms) m w =
      rw (process_all-append ms m (safe_process_message topic_handler topic n w).1) refl

  -- What holds of a subscription from a world on: the messages that were passed on were handled one
  -- after another in the order in which they came; the messages received are those passed on and
  -- those dropped, merged in order, and then the one that is being passed on; before the context is done none is dropped, so they are passed on in order;
  -- the goroutine holds no message when it ends; and the listener returns without an error only after
  -- the goroutine has ended.
  pub record IsProcessing (w : World) (s : State World Payload) : Type 0 where
    pub in_order :
        process_all (map (λ (m : SnsMessage Payload). m.payload) s.passed) w ≡ (s.verdicts, s.world)
    pub accounted :
        (ms : List (SnsMessage Payload)) × Merges s.passed s.dropped ms
        × (s.received ≡ ms ++ held_list s.held)
    pub undropped :
        s.cancelled ≡ false → (s.dropped ≡ []) × (s.received ≡ s.passed ++ held_list s.held)
    pub ended : s.forwarding ≡ false → s.held ≡ none
    pub done : s.listening ≡ returned (ok tt) → s.forwarding ≡ false

  subscribed-IsProcessing : (w : World) → IsProcessing w (subscribed w)
  unfolding process_all
  subscribed-IsProcessing w = record {
    in_order = refl;
    accounted = ([], both_empty, refl);
    undropped = λ c. (refl, refl);
    ended = λ e. refl;
    done = λ e. cc;
  }

  accounted_receives :
      (w : World) (s : State World Payload) (m : SnsMessage Payload)
      → s.held ≡ none
      → IsProcessing w s
      → (ms : List (SnsMessage Payload)) × Merges s.passed s.dropped ms
        × (s.received ++ m ∷ [] ≡ ms ++ m ∷ [])
  accounted_receives w s m h i =
      let (ms, merges, e) = i.accounted in (ms, merges, simp (e, h, append-nil))

  accounted_passes :
      (w : World) (s : State World Payload) (m : SnsMessage Payload)
      → s.held ≡ some m
      → IsProcessing w s
      → (ms : List (SnsMessage Payload)) × Merges (s.passed ++ m ∷ []) s.dropped ms
        × (s.received ≡ ms ++ [])
  accounted_passes w s m h i =
      let (ms, merges, e) = i.accounted in
      (ms ++ m ∷ [], next_left m merges, simp (e, h, append-nil))

  accounted_drops :
      (w : World) (s : State World Payload) (m : SnsMessage Payload)
      → s.held ≡ some m
      → IsProcessing w s
      → (ms : List (SnsMessage Payload)) × Merges s.passed (s.dropped ++ m ∷ []) ms
        × (s.received ≡ ms ++ [])
  accounted_drops w s m h i =
      let (ms, merges, e) = i.accounted in
      (ms ++ m ∷ [], next_right m merges, simp (e, h, append-nil))

  Step-IsProcessing :
      (w : World) (s t : State World Payload)
      → Step topic_handler topic s t
      → IsProcessing w s
      → IsProcessing w t
  unfolding handle
  Step-IsProcessing w s t (cancels e) i = rw e (record {
    in_order = i.in_order;
    accounted = i.accounted;
    undropped = λ c. cc;
    ended = i.ended;
    done = i.done;
  })
  Step-IsProcessing w s t (closes e) i = rw e (record {
    in_order = i.in_order;
    accounted = i.accounted;
    undropped = i.undropped;
    ended = i.ended;
    done = i.done;
  })
  Step-IsProcessing w s t (receives m f h c e) i = rw e (record {
    in_order = i.in_order;
    accounted = accounted_receives w s m h i;
    undropped = λ c. ((i.undropped c).0, simp ((i.undropped c).1, h, append-nil));
    ended = λ g. cc;
    done = i.done;
  })
  Step-IsProcessing w s t (ends f h c e) i = rw e (record {
    in_order = i.in_order;
    accounted = i.accounted;
    undropped = i.undropped;
    ended = λ g. h;
    done = λ l. refl;
  })
  Step-IsProcessing w s t (stops f h c e) i = rw e (record {
    in_order = i.in_order;
    accounted = i.accounted;
    undropped = i.undropped;
    ended = λ g. h;
    done = λ l. refl;
  })
  Step-IsProcessing w s t (passes m h l e) i = rw e (record {
    in_order = simp (map-append, process_all-append, i.in_order);
    accounted = accounted_passes w s m h i;
    undropped = λ c. ((i.undropped c).0, simp ((i.undropped c).1, h, append-nil));
    ended = λ g. refl;
    done = i.done;
  })
  Step-IsProcessing w s t (drops m h c e) i = rw e (record {
    in_order = i.in_order;
    accounted = accounted_drops w s m h i;
    undropped = λ d. cc;
    ended = λ g. refl;
    done = i.done;
  })
  Step-IsProcessing w s t (leaves x l c e) i = rw e (record {
    in_order = i.in_order;
    accounted = i.accounted;
    undropped = i.undropped;
    ended = i.ended;
    done = λ d. cc;
  })
  Step-IsProcessing w s t (finishes l f e) i = rw e (record {
    in_order = i.in_order;
    accounted = i.accounted;
    undropped = i.undropped;
    ended = i.ended;
    done = λ d. f;
  })

  -- In every state that a subscription to a topic reaches from a world, whatever the order in which
  -- the goroutine, the listener, the end of the context and the end of the wrapped subscriber come:
  -- the messages passed on were handled one after another in that order, from that world to the
  -- state's; the messages received, in their order, are
  -- those passed on and those dropped, each in their own order, and then the one held, if any; as long as the context
  -- is not done, none is dropped and they are passed on in the order received; the goroutine ends
  -- with no message held; and the listener returns without an error only when it has ended.
  pub Reach-IsProcessing :
      (w : World) (s : State World Payload) → Reach topic_handler topic w s → IsProcessing w s
  Reach-IsProcessing w s start = subscribed-IsProcessing w
  Reach-IsProcessing w s (next {s = r} before step) =
      Step-IsProcessing w r s step (Reach-IsProcessing w r before)
