-- ===== src/Tests/Rows.antt =====
-- The theorems on the store of romances, at a database in memory.
use recs.Prelude.{◌+◌, ◌^◌, ◌<◌, ◌≡◌, ◌≢◌, refl, true, false, some, [], arith}
use recs.Errors.{ok, err, version_conflict}
use recs.Uuid.{uuid_eq, bytes_less, bytes_compare}
use recs.SharedKernel.{to_peer_vote_id}
use recs.VoteType
use recs.Romance.{Romance, create_empty_romance}
use recs.Dynamo.Attributes.{Item, get, put, delete}
use recs.Dynamo.Expressions.{
  admits, update_of, condition_holds, apply_update, resolve, evaluate, set_all, remove_all,
  attribute_eq,
}
use recs.Documents.Decoding.{is_int32, fits}
use recs.RomancesRepository.Transform.Perspective.{swap_romance}
use recs.RomancesRepository.Get.{get_romance, get_input, romances_table_name}
use recs.RomancesRepository.Represents.{Represents, absent, row, row_key, is_pk, IsRow}
use recs.RomancesRepository.Writes.{
  add_input, add_active_user_vote_to_romance, change_input, change_active_user_vote_type_in_romance,
  delete_input, delete_active_user_vote_from_romance,
}
use recs.RomancesRepository.Writes.Refinement.{voted}
use recs.RomancesRepository.Writes.Added.{added_item}
use recs.RomancesRepository.Writes.Changed.{changed_item}
use recs.RomancesRepository.Writes.Deleted.{deleted_item}
use recs.RomancesRepository.Ttl.{get_ttl_seconds_for_votes_pair}
use recs.RomancesRepository.Storage.{add_stores}
use recs.RomancesRepository.Reading.{peer_reads_added}
use recs.RomancesRepository.Locking.{stale_add_refused, stale_change_refused}
use recs.Tests.Memory.{
  Memory, alice, bob, noon, platform, platform-IsLawful, alice_to_bob, alice_to_bob-IsVoteId,
  stored, update, store, key_eq,
}

-- nothing is stored
abbrev pub empty : Memory
empty table key = []

abbrev pub strangers : Romance
strangers = create_empty_romance alice_to_bob

pub strangers-Represents :
    Represents platform alice_to_bob
      (stored empty romances_table_name (row_key platform alice_to_bob))
      strangers
strangers-Represents = absent refl refl

-- what the database returns for a first vote
abbrev first_item : Item
first_item =
    added_item (is_pk platform alice_to_bob) 2 noon.unix noon.unix 1
      (get_ttl_seconds_for_votes_pair platform.config 2 0) (row_key platform alice_to_bob)

first_answer :
    (platform.client.update_item (add_input platform strangers 2 noon noon) empty).0 ≡ ok first_item
unfolding add_input create_empty_romance update admits update_of condition_holds apply_update
    resolve evaluate set_all remove_all get attribute_eq uuid_eq bytes_less bytes_compare
first_answer = refl

pub strangers-room : strangers.version + 1 < 2 ^ 32
unfolding create_empty_romance
strangers-room = omega arith

pub no-small : 2 < 256
no-small = omega arith

pub noon-is_int32 : is_int32 noon.unix ≡ true
noon-is_int32 = refl

-- Alice votes "no" on Bob
abbrev pub voted_memory : Memory
voted_memory = (add_active_user_vote_to_romance platform strangers 2 noon empty).1

abbrev voted_romance : Romance
voted_romance = voted strangers 2 noon noon

add_stores_example :
    let (out, w') = add_active_user_vote_to_romance platform strangers 2 noon empty in
    (out ≡ ok voted_romance)
    × Represents platform alice_to_bob
        (stored w' romances_table_name (row_key platform alice_to_bob))
        voted_romance
unfolding create_empty_romance
add_stores_example =
    add_stores platform stored strangers alice_to_bob-IsVoteId platform-IsLawful 2 noon empty
      first_answer strangers-Represents strangers-room no-small noon-is_int32 noon-is_int32

peer_answer :
    (platform.client.get_item (get_input platform (to_peer_vote_id alice_to_bob)) voted_memory).0
    ≡ ok (
        some (
          stored voted_memory romances_table_name
            (get_input platform (to_peer_vote_id alice_to_bob)).key))
unfolding get_input recs.Tests.Memory.get
peer_answer = refl

peer_reads_added_example :
    (get_romance platform (to_peer_vote_id alice_to_bob) voted_memory).0
    ≡ ok (swap_romance voted_romance)
unfolding create_empty_romance
peer_reads_added_example =
    peer_reads_added platform stored strangers alice_to_bob-IsVoteId platform-IsLawful 2 noon empty
      first_answer peer_answer strangers-Represents strangers-room no-small noon-is_int32
      noon-is_int32

-- Alice changes her vote to "yes"
abbrev changed_memory : Memory
changed_memory = (change_active_user_vote_type_in_romance platform voted_romance 1 voted_memory).1

abbrev voted_row : Item
voted_row = stored voted_memory romances_table_name (row_key platform alice_to_bob)

voted-Represents : Represents platform alice_to_bob voted_row voted_romance
voted-Represents = add_stores_example.1

voted-IsRow : IsRow platform alice_to_bob voted_row voted_romance
unfolding add_active_user_vote_to_romance add_input create_empty_romance update admits update_of
    condition_holds apply_update resolve evaluate set_all remove_all get put attribute_eq uuid_eq
    bytes_less bytes_compare store key_eq
voted-IsRow = elim voted-Represents [ absent e f ↦ cc | row h ↦ h ]

change_answer :
    (platform.client.update_item (change_input platform voted_romance 1 noon) voted_memory).0
    ≡ ok (
        changed_item
          (is_pk platform alice_to_bob)
          1
          noon.unix
          2
          (get_ttl_seconds_for_votes_pair platform.config 1 0)
          voted_row)
unfolding add_active_user_vote_to_romance add_input change_input create_empty_romance update admits
    update_of condition_holds apply_update resolve evaluate set_all remove_all get put attribute_eq
    uuid_eq bytes_less bytes_compare store key_eq fits
change_answer = refl

delete_answer :
    (platform.client.update_item (delete_input platform voted_romance) voted_memory).0
    ≡ ok (
        deleted_item
          (is_pk platform alice_to_bob)
          2
          (get_ttl_seconds_for_votes_pair platform.config 0 0)
          voted_row)
unfolding add_active_user_vote_to_romance add_input delete_input create_empty_romance update admits
    update_of condition_holds apply_update resolve evaluate set_all remove_all get put delete
    attribute_eq uuid_eq bytes_less bytes_compare store key_eq fits
delete_answer = refl

yes-small : 1 < 256
yes-small = omega arith

no-not-empty : VoteType.is_empty voted_romance.active_user_vote.vote_type ≡ false
unfolding VoteType.is_empty
no-not-empty = refl

yes-not-empty : VoteType.is_empty 1 ≡ false
unfolding VoteType.is_empty
yes-not-empty = refl

strangers-stale : strangers.version ≢ voted_romance.version
unfolding create_empty_romance
strangers-stale = omega arith

-- Alice votes twice on the romance that was read once
stale_add_refused_example :
    let (out, w') = add_active_user_vote_to_romance platform strangers 1 noon voted_memory in
    (out ≡ err version_conflict) × (stored w' ≡ stored voted_memory)
unfolding create_empty_romance
stale_add_refused_example =
    stale_add_refused platform stored strangers voted_romance platform-IsLawful voted_memory
      strangers-stale 1 noon voted-Represents

-- what was read before the vote was changed elsewhere
abbrev outdated : Romance
outdated = record voted_romance { version = 5 }

outdated-stale : outdated.version ≢ voted_romance.version
unfolding create_empty_romance
outdated-stale = omega arith

stale_change_refused_example :
    let (out, w') = change_active_user_vote_type_in_romance platform outdated 1 voted_memory in
    let (gone, w'') = delete_active_user_vote_from_romance platform outdated voted_memory in
    (out ≡ err version_conflict)
    × (stored w' ≡ stored voted_memory)
    × (gone ≡ err version_conflict)
    × (stored w'' ≡ stored voted_memory)
unfolding create_empty_romance
stale_change_refused_example =
    stale_change_refused platform stored outdated voted_romance platform-IsLawful voted_memory
      outdated-stale 1 voted-IsRow no-not-empty yes-not-empty
