-- ===== src/Operation/ChangeUserVote.antt =====
-- `ChangeUserVoteOperation`
-- (internal/context/voting/application/operation/change_user_vote_operation.go), over any store.
pub mod Success
use recs.Prelude.{◌==◌, if◌then◌else◌}
use recs.Errors.{Result, ok, err, vote_duplicate}
use recs.Config.{dynamo_db_version_conflict_retries_count}
use recs.SharedKernel.{VoteId}
use recs.VoteType.{VoteType}
use recs.Romance.{Vote, Romance}
use recs.Repositories.{RomancesRepository}
use recs.Operation.Transitions.{is_vote_type_change_allowed}
use recs.Operation.Retry.{Attempt, finished, write_failed, retry}

module _ {World : Type 0} (romances : RomancesRepository World) where
  -- the loop's body once the romance is read
  unfoldable pub change_on : VoteType → Romance → World → Attempt Vote × World
  change_on new_vote_type romance w =
      elim (is_vote_type_change_allowed romance.active_user_vote new_vote_type) [
        | err e ↦ (finished (err e), w)
        | ok _ ↦
            if new_vote_type == romance.active_user_vote.vote_type
            then (finished (err vote_duplicate), w)
            else let (r, w') =
                romances.change_active_user_vote_type_in_romance romance new_vote_type w in
              elim r [
                | err e ↦ (write_failed e, w')
                | ok updated ↦ (finished (ok updated.active_user_vote), w')
              ]
      ]

  -- the loop's body
  unfoldable pub attempt_change : VoteId → VoteType → World → Attempt Vote × World
  attempt_change vote_id new_vote_type w =
      let (r, w') = romances.get_romance vote_id w in
      elim r [ err e ↦ (finished (err e), w') | ok romance ↦ change_on new_vote_type romance w' ]

  unfoldable pub change_user_vote : VoteId → VoteType → World → Result Vote × World
  change_user_vote vote_id new_vote_type =
      retry (attempt_change vote_id new_vote_type) dynamo_db_version_conflict_retries_count
