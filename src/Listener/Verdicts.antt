-- ===== src/Listener/Verdicts.antt =====
-- What becomes of messages.
use recs.Prelude.{String, ◌≡◌, refl, ap, ◌∙◌, some, List, [], ◌∷◌, arith}
use recs.Errors.{Error, Result, ok, err}
use recs.SharedKernel.{ActiveUserKey, new_active_user_key}
use recs.Uuid.{Uuid}
use recs.Service
use recs.Service.{VotingService}
use recs.Operation.Direct
use recs.Operation.DeleteRomances.{delete_romances}
use recs.Messages.{
  Message, new_delete_romances_message, new_delete_romances_group_message, delete_romances_topic,
  delete_romances_group_topic,
}
use recs.Messages.Envelopes.{
  Codec, Json, finished, load, payload_of, del_romances_message_name,
  del_romances_group_message_name,
}
use recs.Messages.Envelopes.RoundTrip.{IsCodec, load-payload_of}
use recs.TopicHandler.{
  Handler, TopicHandler, handler_adapter, dispatch, dispatch_any, dispatch_to, handlers_of,
  joined_errors,
}
use recs.Handlers.{
  new_prepared_topic_handler, delete_romances_handler, delete_romances_group_handler,
  handle_delete_romances, handle_delete_romances_group,
}
use recs.Listener.{Verdict, ack, nack, safe_process_message}

-- the verdict on a call, and the world that it leaves
abbrev pub verdict_of : {World : Type 0} → Result (Unit {0}) × World → Verdict × World
verdict_of (ok _, w) = (ack, w)
verdict_of (err e, w) = (nack, w)

-- a topic with one handler
module _ {World Payload M : Type 0} (json : Json Payload M) (message_name : String)
    (h : Handler World M) (r : TopicHandler World Payload) (topic : String)
    (one : handlers_of topic r ≡ handler_adapter json message_name h ∷ []) where
  dispatch_one :
      (payload : Payload) (w : World)
      → dispatch r topic payload w
        ≡ dispatch_to (handler_adapter json message_name h ∷ []) payload [] w
  unfolding dispatch dispatch_any
  dispatch_one payload w = ap (λ hs. dispatch_any hs topic payload w) one

  dispatch_loaded :
      (payload : Payload) {m : M} (w : World)
      → load json message_name payload ≡ finished (ok m)
      → dispatch_to (handler_adapter json message_name h ∷ []) payload [] w
        ≡ (let (x, w') = h.handle m w in (finished x, w'))
  unfolding dispatch_to handler_adapter joined_errors
  dispatch_loaded payload w e = ground arith

  process_loaded :
      (payload : Payload) {m : M} (w : World)
      → load json message_name payload ≡ finished (ok m)
      → safe_process_message r topic payload w ≡ verdict_of (h.handle m w)
  unfolding safe_process_message
  process_loaded payload w e = ground (arith, dispatch_one payload w, dispatch_loaded payload w e)

  process_refused :
      (payload : Payload) {e : Error} (w : World)
      → load json message_name payload ≡ finished (err e)
      → safe_process_message r topic payload w ≡ (ack, w)
  unfolding safe_process_message dispatch_to handler_adapter joined_errors
  process_refused payload w e = ground (arith, dispatch_one payload w)

module _ {World Payload : Type 0} (v : VotingService World) (codec : Codec Payload) where
  -- one handler for each topic
  abbrev pub prepared : TopicHandler World Payload
  prepared =
      (
        delete_romances_topic,
        handler_adapter codec.romances del_romances_message_name (delete_romances_handler v) ∷ [],
      )
      ∷ (
        delete_romances_group_topic,
        handler_adapter codec.romances_group del_romances_group_message_name
              (delete_romances_group_handler v)
            ∷ [],
      )
      ∷ []

  pub new_prepared_topic_handler-prepared : new_prepared_topic_handler v codec ≡ some prepared
  unfolding new_prepared_topic_handler
  new_prepared_topic_handler-prepared = refl

  module _ (is_codec : IsCodec codec) {reg : TopicHandler World Payload}
      (registered : new_prepared_topic_handler v codec ≡ some reg) where
    reg-prepared : reg ≡ prepared
    reg-prepared = cc new_prepared_topic_handler-prepared

    one_romances :
        handlers_of delete_romances_topic reg
        ≡ handler_adapter codec.romances del_romances_message_name (delete_romances_handler v) ∷ []
    unfolding handlers_of
    one_romances = rw reg-prepared refl

    one_romances_group :
        handlers_of delete_romances_group_topic reg
        ≡ handler_adapter codec.romances_group del_romances_group_message_name
            (delete_romances_group_handler v)
          ∷ []
    unfolding handlers_of
    one_romances_group = rw reg-prepared refl

    handle_group :
        (key : ActiveUserKey) (peer_ids : List Uuid) (w : World)
        → new_active_user_key key.country_id key.active_user_id ≡ ok key
        → handle_delete_romances_group v (new_delete_romances_group_message key peer_ids) w
          ≡ v.romances.delete_romances_group key peer_ids w
    unfolding handle_delete_romances_group Service.delete_romances_group
        Direct.delete_romances_group
    handle_group key peer_ids w k = rw k refl

    handle_romances :
        (key : ActiveUserKey) (w : World)
        → new_active_user_key key.country_id key.active_user_id ≡ ok key
        → handle_delete_romances v (new_delete_romances_message key) w
          ≡ delete_romances v.romances v.publisher key w
    unfolding handle_delete_romances Service.delete_romances
    handle_romances key w k = rw k refl

    -- The messages that the deletion of a user's romances publishes are handled by what they ask
    -- for, once: a request by the deletion of the romances, and a group by the deletion of the
    -- group; each is acknowledged exactly if that succeeds. The user's key must be valid.
    pub published_processed :
        (key : ActiveUserKey) (peer_ids : List Uuid) (w : World)
        → new_active_user_key key.country_id key.active_user_id ≡ ok key
        → (safe_process_message reg delete_romances_topic
              (payload_of codec (Message.delete_romances (new_delete_romances_message key)))
              w
            ≡ verdict_of (delete_romances v.romances v.publisher key w))
          × (safe_process_message reg delete_romances_group_topic
                (payload_of codec
                  (Message.delete_romances_group (new_delete_romances_group_message key peer_ids)))
                w
              ≡ verdict_of (v.romances.delete_romances_group key peer_ids w))
    published_processed key peer_ids w k =
        let (m, g, n, o) =
          load-payload_of codec is_codec (new_delete_romances_message key)
            (new_delete_romances_group_message key peer_ids) in
        (
          process_loaded codec.romances del_romances_message_name (delete_romances_handler v) reg
                delete_romances_topic one_romances _ w m
              ∙ ap verdict_of (handle_romances key w k),
          process_loaded codec.romances_group del_romances_group_message_name
                (delete_romances_group_handler v) reg delete_romances_group_topic one_romances_group
                _ w g
              ∙ ap verdict_of (handle_group key peer_ids w k),
        )

    -- A message of one of the two kinds on the other's topic is acknowledged, and nothing is done.
    pub misplaced_acknowledged :
        (key : ActiveUserKey) (peer_ids : List Uuid) (w : World)
        → (safe_process_message reg delete_romances_group_topic
              (payload_of codec (Message.delete_romances (new_delete_romances_message key)))
              w
            ≡ (ack, w))
          × (safe_process_message reg delete_romances_topic
                (payload_of codec
                  (Message.delete_romances_group (new_delete_romances_group_message key peer_ids)))
                w
              ≡ (ack, w))
    misplaced_acknowledged key peer_ids w =
        let (m, g, n, o) =
          load-payload_of codec is_codec (new_delete_romances_message key)
            (new_delete_romances_group_message key peer_ids) in
        (
          process_refused codec.romances_group del_romances_group_message_name
              (delete_romances_group_handler v) reg delete_romances_group_topic one_romances_group _
              w n,
          process_refused codec.romances del_romances_message_name (delete_romances_handler v) reg
              delete_romances_topic one_romances _ w o,
        )
