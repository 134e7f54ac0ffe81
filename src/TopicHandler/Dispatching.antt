-- ===== src/TopicHandler/Dispatching.antt =====
-- Which handlers a message reaches.
use mathlib.Core.List.{append-nil, append_assoc}
use recs.Prelude.{String, ◌≡◌, ◌≢◌, refl, true, false, some, List, [], ◌∷◌, ◌++◌, arith}
use recs.Errors.{Error, ok, err}
use recs.Messages.Envelopes.{finished}
use recs.TopicHandler.{
  UntypedHandler, Handlers, TopicHandler, joined_errors, dispatch_to, dispatch_any, dispatch,
  handlers_of,
}

module _ {World Payload : Type 0} (msg : Payload) where
  -- Handlers that run one after another from a world, each on the message if it can load it; the
  -- errors are those of the handlers that failed.
  pub data Runs : Handlers World Payload → World → List Error → World → Type 0 where
    done : {w : World} → Runs [] w [] w
    skips :
        {h : UntypedHandler World Payload} {hs : Handlers World Payload} {w v : World}
        {es : List Error}
        → h.can_handle msg ≡ some false
        → Runs hs w es v
        → Runs (h ∷ hs) w es v
    handles :
        {h : UntypedHandler World Payload} {hs : Handlers World Payload} {w w' v : World}
        {es : List Error}
        → h.can_handle msg ≡ some true
        → h.handle_untyped msg w ≡ (finished (ok tt), w')
        → Runs hs w' es v
        → Runs (h ∷ hs) w es v
    fails :
        {h : UntypedHandler World Payload} {hs : Handlers World Payload} {w w' v : World}
        {es : List Error} (e : Error)
        → h.can_handle msg ≡ some true
        → h.handle_untyped msg w ≡ (finished (err e), w')
        → Runs hs w' es v
        → Runs (h ∷ hs) w (e ∷ es) v

  dispatch_to-Runs :
      {hs : Handlers World Payload} {w v : World} {es : List Error} (errs : List Error)
      → Runs hs w es v
      → dispatch_to hs msg errs w ≡ (finished (joined_errors (errs ++ es)), v)
  unfolding dispatch_to
  dispatch_to-Runs errs done = rw append-nil
  dispatch_to-Runs errs (skips c r) = rw (c, dispatch_to) (dispatch_to-Runs errs r)
  dispatch_to-Runs errs (handles c h r) = ground (arith, dispatch_to-Runs errs r)
  dispatch_to-Runs errs (fails {es = more} e c h r) =
      ground (arith, dispatch_to-Runs (errs ++ e ∷ []) r, append_assoc errs (e ∷ []) more)

  dispatch_any-Runs :
      (hs : Handlers World Payload) (topic : String) {w v : World} {es : List Error}
      → hs ≢ []
      → Runs hs w es v
      → dispatch_any hs topic msg w ≡ (finished (joined_errors es), v)
  unfolding dispatch_any
  dispatch_any-Runs [] topic n r = absurd (n refl)
  dispatch_any-Runs (h ∷ hs) topic n r = dispatch_to-Runs [] r

  -- A message is handled by each handler of its topic that can load it, one after another, also
  -- after one has failed; the dispatch succeeds if none failed, and otherwise returns all errors.
  pub dispatch-Runs :
      (r : TopicHandler World Payload) (topic : String) {w v : World} {es : List Error}
      → handlers_of topic r ≢ []
      → Runs (handlers_of topic r) w es v
      → dispatch r topic msg w ≡ (finished (joined_errors es), v)
  unfolding dispatch
  dispatch-Runs r topic n runs = dispatch_any-Runs (handlers_of topic r) topic n runs
