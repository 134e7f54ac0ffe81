-- ===== src/Operation/Direct.antt =====
-- The operations that make one call of a store or of the publisher
-- (internal/context/voting/application/operation/{get_romance,get_user_vote,delete_romance,
-- delete_romances_group,delete_romances_request,get_lifetime_counters,get_hourly_counters}_operation.go).
use recs.Prelude.{ℕ, Option, List}
use recs.Action.{Action, pure, ◌>>=◌}
use recs.Uuid.{Uuid}
use recs.SharedKernel.{ActiveUserKey, VoteId}
use recs.Romance.{Vote, Romance}
use recs.Repositories.{RomancesRepository, CountersRepository, CountersGroup}
use recs.Messages.{Publisher, Message, new_delete_romances_message, delete_romances_topic}

module _ {World : Type 0} (romances : RomancesRepository World) where
  unfoldable pub get_romance : VoteId → Action World Romance
  get_romance = romances.get_romance

  unfoldable pub get_user_vote : VoteId → Action World Vote
  get_user_vote vote_id = do romance ← romances.get_romance vote_id; pure romance.active_user_vote

  unfoldable pub delete_romance : VoteId → Action World Unit
  delete_romance = romances.delete_romance

  unfoldable pub delete_romances_group : ActiveUserKey → List Uuid → Action World Unit
  delete_romances_group = romances.delete_romances_group

unfoldable pub delete_romances_request :
    {World : Type 0} → Publisher World → ActiveUserKey → Action World Unit
delete_romances_request publisher user_key =
    publisher.publish delete_romances_topic
      (Message.delete_romances (new_delete_romances_message user_key))

module _ {World : Type 0} (counters : CountersRepository World) where
  unfoldable pub get_lifetime_counters : ActiveUserKey → Action World (Option CountersGroup)
  get_lifetime_counters = counters.get_lifetime_counter

  unfoldable pub get_hourly_counters :
      ActiveUserKey → List ℕ → Action World (List (ℕ × CountersGroup))
  get_hourly_counters = counters.get_hourly_counters
