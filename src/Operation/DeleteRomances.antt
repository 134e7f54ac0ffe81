-- ===== src/Operation/DeleteRomances.antt =====
-- `DeleteRomancesOperation` (internal/context/voting/application/operation/delete_romances_operation.go),
-- over any store and any publisher. The channel of peers is the list of what it delivers, so that all
-- pages are read before the first group is published, where the code reads on while it publishes.
pub mod Groups
use recs.Prelude.{ℕ, List, [], ◌∷◌, ◌++◌, length, ◌==◌, if◌then◌else◌}
use recs.Errors.{Result, ok, err}
use recs.Action.{Action, pure, ◌>>=◌, ◌>>◌}
use recs.Uuid.{Uuid}
use recs.SharedKernel.{ActiveUserKey}
use recs.Repositories.{RomancesRepository}
use recs.Messages.{
  Publisher, Message, new_delete_romances_group_message, delete_romances_group_topic,
}

abbrev pub get_romances_group_limit : ℕ
get_romances_group_limit = 25

module _ {World : Type 0} (publisher : Publisher World) (user_key : ActiveUserKey) where
  unfoldable pub publish_group : List Uuid → Action World Unit
  publish_group peer_ids =
      publisher.publish delete_romances_group_topic
        (Message.delete_romances_group (new_delete_romances_group_message user_key peer_ids))

  -- what follows the loop
  unfoldable pub publish_last_group : List Uuid → Action World Unit
  publish_last_group [] = pure tt
  publish_last_group (peer_id ∷ peer_ids) = publish_group (peer_id ∷ peer_ids)

  -- the loop over the channel, with the group that is being filled
  unfoldable pub publish_peers : List Uuid → List Uuid → Action World Unit
  publish_peers [] peer_ids = publish_last_group peer_ids
  publish_peers (peer_id ∷ rest) peer_ids =
      let group = peer_ids ++ peer_id ∷ [] in
      let published = publish_group group >> publish_peers rest [] in
      let kept = publish_peers rest group in
      if length group == get_romances_group_limit then published else kept

module _ {World : Type 0} (romances : RomancesRepository World) (publisher : Publisher World) where
  unfoldable pub delete_romances : ActiveUserKey → Action World Unit
  delete_romances user_key = do
    peer_ids_chan ← romances.get_all_peers_for_active_user user_key
    publish_peers publisher user_key peer_ids_chan []
