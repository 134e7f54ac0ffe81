-- ===== src/Tests/Interleavings.antt =====
-- The theorem on requests that overlap: Alice and Bob vote on one another at once.
use mathlib.Core.List.Memᴰ.{head, tail}
use recs.Prelude.{ℕ, ◌+◌, ◌^◌, ◌<◌, ◌≡◌, refl, true, false, some, [], ◌∷◌, arith, length}
use recs.Errors.{ok, err, version_conflict, is_version_conflict}
use recs.SharedKernel.{to_peer_vote_id}
use recs.Romance.{Romance}
use recs.Documents.Decoding.{is_int32}
use recs.RomancesRepository.Get.{get_romance}
use recs.RomancesRepository.Transform.Perspective.{swap_romance}
use recs.RomancesRepository.Writes.Refinement.{voted}
use recs.Interleaving.{
  Write, add_vote, Held, State, write_to, Reach, start, next, reads, accepts, conflicts,
}
use recs.Interleaving.Invariant.{IsSerial, Reach-IsSerial}
use recs.Tests.Memory.{
  Memory, noon, platform, platform-IsLawful, alice_to_bob, alice_to_bob-IsVoteId, stored,
}
use recs.Tests.Rows.{empty, no-small, noon-is_int32}
use recs.Interleaving.{Accepted}
use recs.Interleaving.Runs.{Steps, Entry, add_user_vote_runs}
use recs.Tests.EndToEnd.{
  strangers, strangers-Represents, always_noon, platform-TransactsKeep, first_added, first_no,
  voted_memory,
}

-- what both have read
abbrev by_alice : Held
by_alice = record { is_first = true; romance = strangers }

abbrev by_bob : Held
by_bob = record { is_first = false; romance = swap_romance strangers }

abbrev no_at_noon : Write
no_at_noon = add_vote 2 noon

abbrev first_voted : Memory
first_voted = (write_to platform no_at_noon strangers empty).1

-- Both read, and both vote: the first vote is accepted, and the other is refused.
abbrev overlapped : State Memory
overlapped = record {
  world = first_voted;
  held = by_bob ∷ by_alice ∷ [];
  log =
      record {
        held = by_alice;
        write = no_at_noon;
        now = noon;
        answer = some (voted strangers 2 noon noon);
      }
      ∷ [];
}

answers :
    (get_romance platform alice_to_bob empty ≡ (ok strangers, empty))
    × (get_romance platform (to_peer_vote_id alice_to_bob) empty ≡ (ok by_bob.romance, empty))
    × (write_to platform no_at_noon strangers empty
        ≡ (ok (some (voted strangers 2 noon noon)), first_voted))
    × (write_to platform no_at_noon by_bob.romance first_voted
        ≡ (err version_conflict, first_voted))
unfolding write_to get_romance to_peer_vote_id recs.Tests.Memory.get
    recs.RomancesRepository.Writes.add_active_user_vote_to_romance recs.Tests.Memory.update
    recs.Dynamo.Expressions.admits recs.Dynamo.Expressions.update_of recs.Documents.Decoding.fits
    recs.Uuid.uuid_eq recs.Uuid.bytes_less recs.Uuid.bytes_compare
    recs.Documents.Decoding.document_of recs.Dynamo.Attributes.delete recs.Dynamo.Attributes.get
    recs.Dynamo.Attributes.put recs.Dynamo.Expressions.add_numbers
    recs.Dynamo.Expressions.apply_update recs.Dynamo.Expressions.attribute_eq
    recs.Dynamo.Expressions.condition_holds recs.Dynamo.Expressions.evaluate
    recs.Dynamo.Expressions.none_exists recs.Dynamo.Expressions.remove_all
    recs.Dynamo.Expressions.resolve recs.Dynamo.Expressions.set_all
    recs.Dynamo.get_dynamodb_region_by_country recs.Errors.is_conditional_check_failed
    recs.Prelude.Int.floor_to recs.Prelude.Int.◌+ℤ◌ recs.Romance.create_empty_romance
    recs.RomancesRepository.Get.get_input recs.RomancesRepository.Get.get_romances_table_key
    recs.RomancesRepository.Get.read_romance recs.RomancesRepository.PrimaryKey.is_partition_key
    recs.RomancesRepository.PrimaryKey.new_romance_primary_key
    recs.RomancesRepository.Transform.assemble_romance
    recs.RomancesRepository.Transform.transform_romance_item_to_entity
    recs.RomancesRepository.Ttl.get_ttl_seconds_for_votes_pair
    recs.RomancesRepository.Writes.add_input recs.RomancesRepository.Writes.conflict_or
    recs.RomancesRepository.Writes.read_updated recs.SharedKernel.new_active_user_key
    recs.SharedKernel.new_vote_id recs.Time.hour_start recs.Time.is_zero recs.Time.unix_to_time_ptr
    recs.VoteType.is_negative recs.VoteType.is_positive recs.Tests.Memory.store is_version_conflict
    recs.Tests.Memory.key_eq
answers = (refl, refl, refl, refl)

overlapped_reached : Reach platform stored alice_to_bob empty overlapped
unfolding is_version_conflict
overlapped_reached =
    next
      (next
        (next (next start (reads true strangers empty answers.0 refl))
          (reads false by_bob.romance empty answers.1 refl))
        (accepts by_alice no_at_noon (some (voted strangers 2 noon noon)) first_voted
          (tail (head refl)) (no-small, noon-is_int32) refl answers.2 refl))
      (conflicts by_bob no_at_noon version_conflict first_voted (head refl)
        (no-small, noon-is_int32) answers.3 refl refl)

overlapped-room : strangers.version + length overlapped.log + 1 < 2 ^ 32
overlapped-room = omega arith

Reach-IsSerial_example :
    IsSerial platform stored alice_to_bob alice_to_bob-IsVoteId platform-IsLawful always_noon
      strangers overlapped
Reach-IsSerial_example =
    Reach-IsSerial platform stored alice_to_bob alice_to_bob-IsVoteId platform-IsLawful always_noon
      strangers empty overlapped strangers-Represents overlapped-room overlapped_reached

-- a state in which nothing has happened
abbrev idle : State Memory
idle = record { world = empty; held = []; log = [] }

add_user_vote_runs_example :
    (t : State Memory) × Steps platform stored alice_to_bob idle t
    × (t.world ≡ voted_memory)
    × (a : Accepted) × (t.log ≡ a ∷ [])
    × Entry true 2 noon first_no a
add_user_vote_runs_example =
    add_user_vote_runs platform stored alice_to_bob platform-TransactsKeep 5 platform-IsLawful true
      2 noon (no-small, noon-is_int32) idle first_no voted_memory first_added
