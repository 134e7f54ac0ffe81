-- ===== src/Handlers.antt =====
-- The handlers of the two topics and their registration
-- (internal/context/voting/application/messaging/handler, internal/app/bootstrap).
use recs.Prelude.{Option, none, some, [], String}
use recs.Action.{Action, lift, ◌>>=◌}
use recs.SharedKernel.{new_active_user_key}
use recs.Messages.{
  DeleteRomancesMessage, DeleteRomancesGroupMessage, delete_romances_topic,
  delete_romances_group_topic,
}
use recs.Messages.Envelopes.{Codec, del_romances_message_name, del_romances_group_message_name}
use recs.TopicHandler.{Handler, TopicHandler, register_topic_handler}
use recs.Service
use recs.Service.{VotingService}

abbrev pub delete_romances_group_handler_name : String
delete_romances_group_handler_name = "delete_romances_group_handler"

abbrev pub delete_romances_handler_name : String
delete_romances_handler_name = "delete_romances_handler"

module _ {World : Type 0} (v : VotingService World) where
  unfoldable pub handle_delete_romances : DeleteRomancesMessage → Action World Unit
  handle_delete_romances message =
      Service.delete_romances v
        (record { country_id = message.country_id; active_user_id = message.active_user_id })

  unfoldable pub handle_delete_romances_group : DeleteRomancesGroupMessage → Action World Unit
  unfolding new_active_user_key
  handle_delete_romances_group message = do
    user_key ← lift (new_active_user_key message.country_id message.active_user_id)
    Service.delete_romances_group v user_key message.peer_ids

  abbrev pub delete_romances_handler : Handler World DeleteRomancesMessage
  delete_romances_handler = record {
    name = delete_romances_handler_name;
    handle = handle_delete_romances;
  }

  abbrev pub delete_romances_group_handler : Handler World DeleteRomancesGroupMessage
  delete_romances_group_handler = record {
    name = delete_romances_group_handler_name;
    handle = handle_delete_romances_group;
  }

  -- `NewPreparedTopicHandler`; `none` is the panic of a registration
  unfoldable pub new_prepared_topic_handler :
      {Payload : Type 0} → Codec Payload → Option (TopicHandler World Payload)
  unfolding register_topic_handler
  new_prepared_topic_handler codec =
      elim (register_topic_handler codec.romances del_romances_message_name [] delete_romances_topic
        delete_romances_handler) [
          | none ↦ none
          | some reg ↦
              register_topic_handler codec.romances_group del_romances_group_message_name reg
                delete_romances_group_topic delete_romances_group_handler
        ]
