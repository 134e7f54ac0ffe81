-- ===== src/Tests/Deletions.antt =====
-- The theorems on deletions, for two peers.
use recs.Prelude.{ℕ, suc, ◌≡◌, refl, List, [], ◌∷◌}
use recs.Errors.{ok, err, version_conflict}
use recs.Uuid.{Uuid}
use recs.SharedKernel.Validity.{new_vote_id-accepts}
use recs.Dynamo.Attributes.{Item}
use recs.Grouping.{concat, AreGroups}
use recs.Messages.{Publisher}
use recs.Repositories.{RomancesRepository}
use recs.Operation.DeleteRomances.{delete_romances}
use recs.Operation.DeleteRomances.Groups.{delete_romances_groups, publish_each}
use recs.RomancesRepository.Deletes.{delete_romances_group}
use recs.RomancesRepository.Deletes.Batches.{
  AreVoteIds, rows, write_each, delete_romances_group_batches,
}
use recs.Tests.Memory.{bob, platform, alice_key, alice_to_bob, alice_to_bob-IsVoteId}

-- a world that counts the messages
abbrev counting : Publisher ℕ
counting = record { publish = λ topic message w. (ok tt, suc w) }

abbrev romances : RomancesRepository ℕ
romances = record {
  get_romance = λ id w. (err version_conflict, w);
  get_all_peers_for_active_user = λ key w. (ok (bob ∷ bob ∷ []), w);
  delete_romance = λ id w. (ok tt, w);
  delete_romances_group = λ key peers w. (ok tt, w);
  add_active_user_vote_to_romance = λ r t at w. (ok r, w);
  change_active_user_vote_type_in_romance = λ r t w. (ok r, w);
  delete_active_user_vote_from_romance = λ r w. (ok tt, w);
}

delete_romances_groups_example :
    (gs : List (List Uuid)) × (concat gs ≡ bob ∷ bob ∷ [])
    × AreGroups 25 gs
    × (delete_romances romances counting alice_key 0 ≡ publish_each counting alice_key gs 0)
delete_romances_groups_example =
    delete_romances_groups romances counting alice_key 0 0 (bob ∷ bob ∷ []) refl

bob-AreVoteIds : AreVoteIds alice_key (bob ∷ []) (alice_to_bob ∷ [])
bob-AreVoteIds = (new_vote_id-accepts alice_to_bob alice_to_bob-IsVoteId, tt)

delete_romances_group_batches_example :
    (batches : List (List Item)) × (concat batches ≡ rows platform (alice_to_bob ∷ []))
    × AreGroups 25 batches
    × (delete_romances_group platform alice_key (bob ∷ []) ≡ write_each platform batches)
delete_romances_group_batches_example =
    delete_romances_group_batches platform alice_key (bob ∷ []) (alice_to_bob ∷ []) bob-AreVoteIds
