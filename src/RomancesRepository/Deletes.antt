-- ===== src/RomancesRepository/Deletes.antt =====
-- `DeleteRomance` and `DeleteRomancesGroup`
-- (internal/context/voting/infrastructure/persistence/romances_repository.go).
pub mod Batches
use recs.Prelude.{
  ℕ, ◌+◌, String, Option, none, some, List, [], ◌∷◌, ◌++◌, length, ◌==◌, if◌then◌else◌,
}
use recs.Errors.{Result, ok, err}
use recs.Action.{Action, pure, lift, ◌>>=◌, ◌>>◌}
use recs.Uuid.{Uuid}
use recs.SharedKernel.{ActiveUserKey, VoteId, new_vote_id, country_id}
use recs.Dynamo.{get_dynamodb_region_by_country}
use recs.Dynamo.Attributes.{Item}
use recs.Platform.{Platform}
use recs.RomancesRepository.PrimaryKey.{new_romance_primary_key}
use recs.RomancesRepository.Get.{romances_table_name, get_romances_table_key}

module _ {World : Type 0} (p : Platform World) where
  unfoldable pub delete_romance : VoteId → Action World Unit
  unfolding get_romances_table_key new_romance_primary_key get_dynamodb_region_by_country
  delete_romance vote_id = do
    out ← p.client.delete_item (record {
      key = get_romances_table_key p (new_romance_primary_key vote_id);
      table_name = romances_table_name;
      region = some (get_dynamodb_region_by_country (country_id vote_id));
    })
    pure tt

  -- one `BatchWriteItem`; its output, and so what was not processed, is dropped
  unfoldable pub write_batch : List Item → Action World Unit
  write_batch batch = do
    unprocessed ←
        p.client.batch_write_item (record { table_name = romances_table_name; delete_keys = batch })
    pure tt

  -- what follows the loop
  unfoldable pub write_last_batch : List Item → Action World Unit
  write_last_batch [] = pure tt
  write_last_batch (key ∷ batch) = write_batch (key ∷ batch)

  -- the loop over the peers, with the batch that is being filled
  unfoldable pub delete_peers : ActiveUserKey → List Uuid → List Item → Action World Unit
  unfolding get_romances_table_key
  delete_peers user_key [] batch = write_last_batch batch
  delete_peers user_key (peer_id ∷ peer_ids) batch = do
    vote_id ← lift (new_vote_id user_key.country_id user_key.active_user_id peer_id)
    let batch' = batch ++ get_romances_table_key p (new_romance_primary_key vote_id) ∷ []
    let written = write_batch batch' >> delete_peers user_key peer_ids []
    let kept = delete_peers user_key peer_ids batch'
    if length batch' == 25 then written else kept

  unfoldable pub delete_romances_group : ActiveUserKey → List Uuid → Action World Unit
  delete_romances_group user_key peer_ids = delete_peers user_key peer_ids []
