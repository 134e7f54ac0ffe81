-- ===== src/Tests/EndToEnd.antt =====
-- The theorems that compose the operations with the repository, at a database in memory, and those on
-- pages.
use recs.Prelude.{
  ℕ, ◌+◌, ◌^◌, ◌<◌, ◌≤◌, ◌≡◌, ◌≢◌, refl, true, false, String, Option, none, some, List, [], ◌∷◌,
  ◌++◌, arith,
}
use recs.Errors.{ok, err}
use recs.Uuid.{uuid_eq, bytes_less, bytes_compare}
use recs.Time.{Time, from_unix}
use recs.Romance.{Vote, Romance, create_empty_romance, empty_vote}
use recs.SharedKernel.{VoteId, to_peer_vote_id}
use recs.RomancesRepository.Represents.{Represents, absent, row, row_key, is_pk, IsBase-or_key}
use recs.RomancesRepository.PrimaryKey.{new_romance_primary_key}
use recs.RomancesRepository.Get.{romances_table_name}
use recs.RomancesRepository.Peers.{peers_query, peer_of, get_all_peers_for_active_user}
use recs.RomancesRepository.Peers.Paging.{SentAs, last_page, more_pages, get_all_peers-Pages}
use recs.Prelude.Int.{pos}
use recs.Documents.Decoding.{is_int32, fits, document_of}
use recs.Dynamo.{Client}
use recs.Dynamo.Attributes.{Item, AttributeValue, put, get}
use recs.Platform.{Platform}
use recs.Operation.Transitions.{is_vote_type_change_allowed}
use recs.Operation.AddUserVote.{add_user_vote}
use recs.Persistence.{new_romances_repository, new_counters_repository}
use recs.Persistence.AddedVotes.{TransactsKeep}
use recs.Persistence.Rows.{Stands}
use recs.Persistence.AddUserVote.{add_user_vote_stands}
use recs.RomancesRepository.Writes.Refinement.{voted, changed, IsRow-added}
use recs.RomancesRepository.Writes.Added.{added_item}
use recs.RomancesRepository.Ttl.{get_ttl_seconds_for_votes_pair}
use recs.Dynamo.Expressions.{or_key}
use recs.VoteType
use recs.Operation.ChangeUserVote.{change_user_vote}
use recs.Operation.DeleteUserVote.{delete_user_vote}
use recs.Persistence.ChangeUserVote.{change_user_vote_stands}
use recs.Persistence.DeleteUserVote.{delete_user_vote_stands, remaining}
use recs.Tests.Memory.{
  Memory, alice, bob, noon, platform, platform-IsLawful, alice_to_bob, alice_to_bob-IsVoteId,
  stored, alice_key,
}
use recs.Tests.Rows.{empty, no-small, noon-is_int32}

pub platform-TransactsKeep : TransactsKeep platform stored
platform-TransactsKeep i w table h = refl

pub always_noon : (w : Memory) → is_int32 (platform.now w).0.unix ≡ true
always_noon w = refl

abbrev pub bob_to_alice : VoteId
bob_to_alice = record {
  active_user_key = record { country_id = 7; active_user_id = bob };
  peer_user_id = alice;
}

-- Alice and Bob, who have not voted
abbrev pub strangers : Romance
strangers = record {
  active_user_vote = empty_vote alice_to_bob;
  peer_user_vote = empty_vote bob_to_alice;
  version = 0;
}

pub strangers-Represents :
    Represents platform alice_to_bob
      (stored empty romances_table_name (row_key platform alice_to_bob))
      strangers
unfolding create_empty_romance to_peer_vote_id
strangers-Represents = absent refl refl

pub strangers-room : strangers.version + 1 < 2 ^ 32
strangers-room = omega arith

abbrev pub first_no : Vote
first_no = (voted strangers 2 noon noon).active_user_vote

-- the database after Alice's first vote
abbrev pub voted_memory : Memory
voted_memory =
    (add_user_vote (new_romances_repository platform 5) (new_counters_repository platform)
      platform.now alice_to_bob 2 noon empty).1

pub first_added :
    add_user_vote
      (new_romances_repository platform 5)
      (new_counters_repository platform)
      platform.now
      alice_to_bob
      2
      noon
      empty
    ≡ (ok first_no, voted_memory)
unfolding add_user_vote recs.Operation.Retry.retry recs.Operation.AddUserVote.attempt_add
    recs.RomancesRepository.Get.get_romance recs.Tests.Memory.get recs.Operation.AddUserVote.vote_on
    is_vote_type_change_allowed recs.Repositories.new_counter_update_group
    recs.Operation.AddUserVote.write_vote
    recs.RomancesRepository.Writes.add_active_user_vote_to_romance recs.Tests.Memory.update
    recs.Dynamo.Expressions.admits recs.Dynamo.Expressions.update_of fits uuid_eq bytes_less
    bytes_compare recs.Documents.Decoding.document_of recs.Dynamo.Attributes.delete
    recs.Dynamo.Attributes.get recs.Dynamo.Attributes.put recs.Dynamo.Expressions.add_numbers
    recs.Dynamo.Expressions.apply_update recs.Dynamo.Expressions.attribute_eq
    recs.Dynamo.Expressions.condition_holds recs.Dynamo.Expressions.evaluate
    recs.Dynamo.Expressions.none_exists recs.Dynamo.Expressions.remove_all
    recs.Dynamo.Expressions.resolve recs.Dynamo.Expressions.set_all
    recs.Dynamo.get_dynamodb_region_by_country recs.Errors.is_conditional_check_failed
    recs.Errors.is_version_conflict recs.Operation.AddUserVote.incr_counters
    recs.Operation.AddUserVote.moves_no_counters recs.Operation.AddUserVote.moves_yes_counters
    recs.Operation.Transitions.allowed_vote_transitions recs.Operation.Transitions.contains
    recs.Prelude.Int.floor_to recs.Prelude.Int.◌+ℤ◌ create_empty_romance
    recs.RomancesRepository.Get.get_input recs.RomancesRepository.Get.get_romances_table_key
    recs.RomancesRepository.Get.read_romance recs.RomancesRepository.PrimaryKey.is_partition_key
    new_romance_primary_key recs.RomancesRepository.Transform.assemble_romance
    recs.RomancesRepository.Transform.transform_romance_item_to_entity
    recs.RomancesRepository.Ttl.get_ttl_seconds_for_votes_pair
    recs.RomancesRepository.Writes.add_input recs.RomancesRepository.Writes.conflict_or
    recs.RomancesRepository.Writes.read_updated recs.SharedKernel.new_active_user_key
    recs.SharedKernel.new_vote_id recs.SharedKernel.to_peer_vote_id recs.Time.hour_start
    recs.Time.is_zero recs.Time.unix_to_time_ptr recs.VoteType.is_negative recs.VoteType.is_positive
first_added = refl

add_user_vote_stands_example :
    (is_vote_type_change_allowed strangers.active_user_vote 2 ≡ ok tt)
    × (now : Time) × (first_no ≡ (voted strangers 2 noon now).active_user_vote)
    × Stands platform stored strangers alice_to_bob-IsVoteId platform-IsLawful voted_memory
        (voted strangers 2 noon now)
add_user_vote_stands_example =
    add_user_vote_stands platform stored platform-TransactsKeep 5 strangers alice_to_bob-IsVoteId
      platform-IsLawful 2 noon strangers-room no-small noon-is_int32 always_noon empty voted_memory
      first_no strangers-Represents first_added

-- A database whose queries have a page with one row, and an empty one after it.
abbrev pager : Platform Memory
pager = record platform {
  client = record platform.client {
    query = λ i m. elim i.exclusive_start_key [
      | none ↦ (
        ok (record {
          items = put "v" (AttributeValue.n (pos 2)) (row_key platform alice_to_bob) ∷ [];
          last_evaluated_key = some (row_key platform alice_to_bob);
        }),
        m,
      )
      | some key ↦ (ok (record { items = []; last_evaluated_key = none }), m)
    ];
  };
}

first_page :
    SentAs pager alice_key
      (put "v" (AttributeValue.n (pos 2)) (row_key platform alice_to_bob) ∷ [])
      (bob ∷ [])
unfolding peer_of fits document_of put get recs.RomancesRepository.Get.get_romances_table_key
    recs.RomancesRepository.Transform.transform_romance_item_to_entity
    recs.RomancesRepository.Transform.assemble_romance
    recs.RomancesRepository.PrimaryKey.is_partition_key new_romance_primary_key uuid_eq bytes_less
    bytes_compare recs.SharedKernel.new_active_user_key recs.SharedKernel.new_vote_id
    recs.SharedKernel.to_peer_vote_id recs.Time.unix_to_time_ptr
first_page = (refl, tt)

get_all_peers-Pages_example :
    (get_all_peers_for_active_user pager alice_key 3 empty ≡ some (bob ∷ [], empty))
    × (◌≡◌ {A = ℕ} 2 1 → some (row_key platform alice_to_bob) ≡ none)
    × (1 < 2 → some (row_key platform alice_to_bob) ≢ none)
unfolding peers_query
get_all_peers-Pages_example =
    get_all_peers-Pages pager alice_key 3 2 1 (omega arith) (omega arith)
      (more_pages (bob ∷ []) {more = []} refl first_page (last_page refl tt))
      (last_page {peers = []} refl tt)

-- Alice has voted "no" on Bob, and no other row is read.
abbrev no_romance : Romance
no_romance = voted strangers 2 noon noon

abbrev no_row : Item
no_row =
    added_item (is_pk platform alice_to_bob) 2 noon.unix noon.unix 1
      (get_ttl_seconds_for_votes_pair platform.config 2 0)
      (or_key (row_key platform alice_to_bob) [])

abbrev no_memory : Memory
no_memory table key = no_row

no_romance-Represents :
    Represents platform alice_to_bob
      (stored no_memory romances_table_name (row_key platform alice_to_bob))
      no_romance
no_romance-Represents = row (
    IsRow-added platform alice_to_bob (IsBase-or_key platform alice_to_bob strangers-Represents)
      strangers-room 2 noon noon (get_ttl_seconds_for_votes_pair platform.config 2 0) no-small
      noon-is_int32 noon-is_int32)

no_romance-room : no_romance.version + 1 < 2 ^ 32
no_romance-room = omega arith

yes-small : 1 < 256
yes-small = omega arith

abbrev first_yes : Vote
first_yes = (changed no_romance 1 noon).active_user_vote

abbrev changed_memory : Memory
changed_memory = (change_user_vote (new_romances_repository platform 5) alice_to_bob 1 no_memory).1

abbrev deleted_memory : Memory
deleted_memory = (delete_user_vote (new_romances_repository platform 5) alice_to_bob no_memory).1

no_answered :
    (change_user_vote (new_romances_repository platform 5) alice_to_bob 1 no_memory
      ≡ (ok first_yes, changed_memory))
    × (delete_user_vote (new_romances_repository platform 5) alice_to_bob no_memory
        ≡ (ok tt, deleted_memory))
unfolding change_user_vote delete_user_vote recs.Operation.Retry.retry
    recs.Operation.ChangeUserVote.attempt_change recs.Operation.ChangeUserVote.change_on
    recs.Operation.DeleteUserVote.attempt_delete recs.RomancesRepository.Get.get_romance
    recs.Tests.Memory.get is_vote_type_change_allowed
    recs.RomancesRepository.Writes.change_active_user_vote_type_in_romance
    recs.RomancesRepository.Writes.delete_active_user_vote_from_romance
    recs.RomancesRepository.Writes.change_input recs.RomancesRepository.Writes.delete_input
    VoteType.is_empty recs.Romance.is_empty recs.Tests.Memory.update recs.Dynamo.Expressions.admits
    recs.Dynamo.Expressions.update_of fits uuid_eq bytes_less bytes_compare
    recs.Documents.Decoding.document_of recs.Dynamo.Attributes.delete recs.Dynamo.Attributes.get
    recs.Dynamo.Attributes.put recs.Dynamo.Expressions.add_numbers
    recs.Dynamo.Expressions.apply_update recs.Dynamo.Expressions.attribute_eq
    recs.Dynamo.Expressions.condition_holds recs.Dynamo.Expressions.evaluate
    recs.Dynamo.Expressions.none_exists recs.Dynamo.Expressions.remove_all
    recs.Dynamo.Expressions.resolve recs.Dynamo.Expressions.set_all
    recs.Dynamo.get_dynamodb_region_by_country recs.Errors.is_conditional_check_failed
    recs.Errors.is_version_conflict recs.Operation.Transitions.allowed_vote_transitions
    recs.Operation.Transitions.contains recs.Prelude.Int.floor_to recs.Prelude.Int.◌+ℤ◌
    create_empty_romance recs.RomancesRepository.Get.get_input
    recs.RomancesRepository.Get.get_romances_table_key recs.RomancesRepository.Get.read_romance
    recs.RomancesRepository.PrimaryKey.is_partition_key new_romance_primary_key
    recs.RomancesRepository.Transform.assemble_romance
    recs.RomancesRepository.Transform.transform_romance_item_to_entity
    recs.RomancesRepository.Ttl.get_ttl_seconds_for_votes_pair
    recs.RomancesRepository.Writes.add_input recs.RomancesRepository.Writes.conflict_or
    recs.RomancesRepository.Writes.read_updated recs.SharedKernel.new_active_user_key
    recs.SharedKernel.new_vote_id recs.SharedKernel.to_peer_vote_id recs.Time.hour_start
    recs.Time.is_zero recs.Time.unix_to_time_ptr recs.VoteType.is_negative recs.VoteType.is_positive
no_answered = (refl, refl)

change_user_vote_stands_example :
    (is_vote_type_change_allowed no_romance.active_user_vote 1 ≡ ok tt)
    × (VoteType.is_empty 2 ≡ false)
    × (now : Time) × (first_yes ≡ (changed no_romance 1 now).active_user_vote)
    × Stands platform stored no_romance alice_to_bob-IsVoteId platform-IsLawful changed_memory
        (changed no_romance 1 now)
change_user_vote_stands_example =
    change_user_vote_stands platform stored 5 no_romance alice_to_bob-IsVoteId platform-IsLawful 1
      no_romance-room yes-small always_noon no_memory changed_memory first_yes no_romance-Represents
      no_answered.0

delete_user_vote_stands_example :
    Stands platform stored no_romance alice_to_bob-IsVoteId platform-IsLawful deleted_memory
      (remaining no_romance)
delete_user_vote_stands_example =
    delete_user_vote_stands platform stored 5 no_romance alice_to_bob-IsVoteId platform-IsLawful
      no_romance-room no_memory deleted_memory no_romance-Represents no_answered.1
