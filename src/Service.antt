-- ===== src/Service.antt =====
-- `VotingService`: each method makes a key of a command's ids and runs one operation
-- (internal/context/voting/application/voting_service.go).
use recs.Prelude.{ℕ, Option, List}
use recs.Action.{Action, lift, ◌>>=◌}
use recs.Uuid.{Uuid}
use recs.SharedKernel.{ActiveUserKey, new_active_user_key, new_vote_id}
use recs.Time.{Time}
use recs.Romance.{Vote, Romance}
use recs.Repositories.{RomancesRepository, CountersRepository, CountersGroup}
use recs.Messages.{Publisher}
use recs.HoursOffsets.{new_hours_offset_groups}
use recs.Commands.{
  VoteAdd, ChangeVoteType, DeleteVote, VoteGet, RomanceGet, DeleteRomance, DeleteRomances,
  LifetimeCountersGet, HourlyCountersGet,
}
use recs.Operation.AddUserVote
use recs.Operation.ChangeUserVote
use recs.Operation.DeleteUserVote
use recs.Operation
use recs.Operation.Direct

-- what the operations are built of
pub record VotingService (World : Type 0) : Type 0 where
  pub romances : RomancesRepository World
  pub counters : CountersRepository World
  pub publisher : Publisher World
  pub now : World → Time × World

module _ {World : Type 0} (v : VotingService World) where
  unfoldable pub add_user_vote : VoteAdd → Action World Vote
  unfolding new_vote_id
  add_user_vote command = do
    vote_id ← lift (new_vote_id command.country_id command.active_user_id command.peer_id)
    AddUserVote.add_user_vote v.romances v.counters v.now vote_id command.vote_type command.voted_at

  unfoldable pub get_user_vote : VoteGet → Action World Vote
  unfolding new_vote_id
  get_user_vote get = do
    vote_id ← lift (new_vote_id get.country_id get.active_user_id get.peer_id)
    Direct.get_user_vote v.romances vote_id

  unfoldable pub delete_user_vote : DeleteVote → Action World Unit
  unfolding new_vote_id
  delete_user_vote command = do
    vote_id ← lift (new_vote_id command.country_id command.active_user_id command.peer_id)
    DeleteUserVote.delete_user_vote v.romances vote_id

  unfoldable pub change_user_vote : ChangeVoteType → Action World Vote
  unfolding new_vote_id
  change_user_vote command = do
    vote_id ← lift (new_vote_id command.country_id command.active_user_id command.peer_id)
    ChangeUserVote.change_user_vote v.romances vote_id command.new_type

  unfoldable pub get_romance : RomanceGet → Action World Romance
  unfolding new_vote_id
  get_romance get = do
    vote_id ← lift (new_vote_id get.country_id get.active_user_id get.peer_id)
    Direct.get_romance v.romances vote_id

  unfoldable pub delete_romance : DeleteRomance → Action World Unit
  unfolding new_vote_id
  delete_romance command = do
    vote_id ← lift (new_vote_id command.country_id command.active_user_id command.peer_id)
    Direct.delete_romance v.romances vote_id

  unfoldable pub delete_romances_request : DeleteRomances → Action World Unit
  unfolding new_active_user_key
  delete_romances_request command = do
    user_key ← lift (new_active_user_key command.country_id command.active_user_id)
    Direct.delete_romances_request v.publisher user_key

  unfoldable pub delete_romances : DeleteRomances → Action World Unit
  unfolding new_active_user_key
  delete_romances command = do
    user_key ← lift (new_active_user_key command.country_id command.active_user_id)
    Operation.DeleteRomances.delete_romances v.romances v.publisher user_key

  unfoldable pub delete_romances_group : ActiveUserKey → List Uuid → Action World Unit
  delete_romances_group = Direct.delete_romances_group v.romances

  unfoldable pub get_lifetime_counters : LifetimeCountersGet → Action World (Option CountersGroup)
  unfolding new_active_user_key
  get_lifetime_counters query = do
    active_user_key ← lift (new_active_user_key query.country_id query.active_user_id)
    Direct.get_lifetime_counters v.counters active_user_key

  unfoldable pub get_hourly_counters : HourlyCountersGet → Action World (List (ℕ × CountersGroup))
  unfolding new_active_user_key
  get_hourly_counters query = do
    active_user_key ← lift (new_active_user_key query.country_id query.active_user_id)
    hours_offset_groups ← lift (new_hours_offset_groups query.hours_offset_groups)
    Direct.get_hourly_counters v.counters active_user_key hours_offset_groups
