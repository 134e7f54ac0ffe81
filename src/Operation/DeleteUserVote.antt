-- ===== src/Operation/DeleteUserVote.antt =====
-- `DeleteUserVoteOperation`
-- (internal/context/voting/application/operation/delete_user_vote_operation.go), over any store.
pub mod Success
use recs.Errors.{Result, ok, err}
use recs.Config.{dynamo_db_version_conflict_retries_count}
use recs.SharedKernel.{VoteId}
use recs.Repositories.{RomancesRepository}
use recs.Operation.Retry.{Attempt, finished, write_failed, retry}

module _ {World : Type 0} (romances : RomancesRepository World) where
  -- the loop's body
  unfoldable pub attempt_delete : VoteId → World → Attempt Unit × World
  attempt_delete vote_id w =
      let (r, w') = romances.get_romance vote_id w in
      elim r [
        | err e ↦ (finished (err e), w')
        | ok romance ↦
            let (d, w'') = romances.delete_active_user_vote_from_romance romance w' in
            elim d [ err e ↦ (write_failed e, w'') | ok _ ↦ (finished (ok tt), w'') ]
      ]

  unfoldable pub delete_user_vote : VoteId → World → Result (Unit {0}) × World
  delete_user_vote vote_id = retry (attempt_delete vote_id) dynamo_db_version_conflict_retries_count
