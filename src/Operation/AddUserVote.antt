-- ===== src/Operation/AddUserVote.antt =====
-- `AddUserVoteOperation` (internal/context/voting/application/operation/add_user_vote_operation.go),
-- over any two stores and any clock.
pub mod Guards
pub mod Success
pub mod Histories
pub mod Counting
use recs.Prelude.{ℕ, Bool, not, ◌&&◌, ◌==◌, if◌then◌else◌}
use recs.Errors.{Error, Result, ok, err, vote_duplicate}
use recs.Config.{dynamo_db_version_conflict_retries_count}
use recs.SharedKernel.{VoteId}
use recs.Time.{Time}
use recs.VoteType.{VoteType, is_positive, is_negative}
use recs.Romance.{Vote, Romance}
use recs.Repositories.{
  RomancesRepository, CountersRepository, CounterUpdateGroup, new_counter_update_group,
}
use recs.Operation.Transitions.{is_vote_type_change_allowed}
use recs.Operation.Retry.{Attempt, finished, write_failed, retry}

-- `newVoteIsPositive && oldVoteIsNotPositive`
unfoldable pub moves_yes_counters : VoteType → VoteType → Bool
unfolding is_positive
moves_yes_counters old_vote_type new_vote_type =
    is_positive new_vote_type && not (is_positive old_vote_type)

-- `newVoteIsNegative && oldVoteIsNotNegative`
unfoldable pub moves_no_counters : VoteType → VoteType → Bool
unfolding is_negative
moves_no_counters old_vote_type new_vote_type =
    is_negative new_vote_type && not (is_negative old_vote_type)

module _ {World : Type 0} (romances : RomancesRepository World)
    (counters : CountersRepository World) (now : World → Time × World) where
  -- the two increments, by the vote types before and after the write
  unfoldable pub incr_counters : VoteId → VoteType → VoteType → CounterUpdateGroup → World → World
  unfolding moves_yes_counters moves_no_counters
  incr_counters vote_id old_vote_type vote_type group w =
      let w' =
        if moves_yes_counters old_vote_type vote_type
        then counters.incr_yes_counters vote_id group w
        else w in
      if moves_no_counters old_vote_type vote_type
      then counters.incr_no_counters vote_id group w'
      else w'

  -- the write, and what follows it
  unfoldable pub write_vote :
      VoteId → VoteType → Time → Romance → CounterUpdateGroup → World → Attempt Vote × World
  write_vote vote_id vote_type voted_at romance group w =
      let (r, w') = romances.add_active_user_vote_to_romance romance vote_type voted_at w in
      elim r [
        | err e ↦ (write_failed e, w')
        | ok updated ↦ (
          finished (ok updated.active_user_vote),
          incr_counters vote_id romance.active_user_vote.vote_type vote_type group w',
        )
      ]

  -- the loop's body once the romance is read
  unfoldable pub vote_on : VoteId → VoteType → Time → Romance → World → Attempt Vote × World
  vote_on vote_id vote_type voted_at romance w =
      elim (is_vote_type_change_allowed romance.active_user_vote vote_type) [
        | err e ↦ (finished (err e), w)
        | ok _ ↦
            if vote_type == romance.active_user_vote.vote_type
            then (finished (err vote_duplicate), w)
            else let (current_time, w') = now w in
              elim (new_counter_update_group current_time) [
                | err e ↦ (finished (err e), w')
                | ok group ↦ write_vote vote_id vote_type voted_at romance group w'
              ]
      ]

  -- the loop's body
  unfoldable pub attempt_add : VoteId → VoteType → Time → World → Attempt Vote × World
  attempt_add vote_id vote_type voted_at w =
      let (r, w') = romances.get_romance vote_id w in
      elim r [
        | err e ↦ (finished (err e), w')
        | ok romance ↦ vote_on vote_id vote_type voted_at romance w'
      ]

  unfoldable pub add_user_vote : VoteId → VoteType → Time → World → Result Vote × World
  add_user_vote vote_id vote_type voted_at =
      retry (attempt_add vote_id vote_type voted_at) dynamo_db_version_conflict_retries_count
