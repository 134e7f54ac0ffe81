-- ===== src/Messages.antt =====
-- The messages of the two topics, and the interface of the publisher
-- (internal/context/voting/application/messaging/message, internal/shared/messaging/publisher.go).
pub mod Envelopes
use recs.Prelude.{ℕ, String, List}
use recs.Action.{Action}
use recs.Uuid.{Uuid}
use recs.SharedKernel.{ActiveUserKey}

pub record DeleteRomancesMessage : Type 0 where
  pub active_user_id : Uuid
  pub country_id : ℕ

abbrev pub new_delete_romances_message : ActiveUserKey → DeleteRomancesMessage
new_delete_romances_message key = record {
  active_user_id = key.active_user_id;
  country_id = key.country_id;
}

pub record DeleteRomancesGroupMessage : Type 0 where
  pub active_user_id : Uuid
  pub country_id : ℕ
  pub peer_ids : List Uuid

abbrev pub new_delete_romances_group_message :
    ActiveUserKey → List Uuid → DeleteRomancesGroupMessage
new_delete_romances_group_message key peer_ids = record {
  active_user_id = key.active_user_id;
  country_id = key.country_id;
  peer_ids = peer_ids;
}

-- the types that implement `Message`
pub data Message : Type 0 where
  delete_romances : DeleteRomancesMessage → Message
  delete_romances_group : DeleteRomancesGroupMessage → Message

abbrev pub delete_romances_topic : String
delete_romances_topic = "delete-romances.fifo"

abbrev pub delete_romances_group_topic : String
delete_romances_group_topic = "delete-romances-group.fifo"

pub record Publisher (World : Type 0) : Type 0 where
  pub publish : String → Message → Action World Unit
