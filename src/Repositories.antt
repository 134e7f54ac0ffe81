-- ===== src/Repositories.antt =====
-- The interfaces of the two stores, as the operations see them
-- (internal/context/voting/domain/romance/repository, internal/context/voting/domain/counter/repository),
-- with the value object and the entity that the counters' one names
-- (internal/context/voting/domain/counter).
use recs.Prelude.{ℕ, Option, List, if◌then◌else◌}
use recs.Prelude.Int.{ℤ}
use recs.Errors.{Result, ok, err, new_error}
use recs.Action.{Action}
use recs.Uuid.{Uuid}
use recs.SharedKernel.{ActiveUserKey, VoteId}
use recs.Time.{Time, is_zero, hour_start}
use recs.VoteType.{VoteType}
use recs.Romance.{Romance}

pub record CounterUpdateGroup : Type 0 where
  pub hour_start_time : Time

unfoldable pub new_counter_update_group : Time → Result CounterUpdateGroup
unfolding is_zero hour_start
new_counter_update_group event_time =
    if is_zero event_time
    then err (new_error "eventTime must not be zero")
    else ok (record { hour_start_time = hour_start event_time })

-- A group of counters of one user.
pub record CountersGroup : Type 0 where
  pub active_user_key : ActiveUserKey
  pub hour_unix_timestamp : ℤ
  pub incoming_yes : ℕ
  pub incoming_no : ℕ
  pub outgoing_yes : ℕ
  pub outgoing_no : ℕ

-- The peers come through a channel: the list of what is sent until it is closed.
pub record RomancesRepository (World : Type 0) : Type 0 where
  pub get_romance : VoteId → Action World Romance
  pub get_all_peers_for_active_user : ActiveUserKey → Action World (List Uuid)
  pub delete_romance : VoteId → Action World Unit
  pub delete_romances_group : ActiveUserKey → List Uuid → Action World Unit
  pub add_active_user_vote_to_romance : Romance → VoteType → Time → Action World Romance
  pub change_active_user_vote_type_in_romance : Romance → VoteType → Action World Romance
  pub delete_active_user_vote_from_romance : Romance → Action World Unit

-- `none` is the zero value that is returned for a user without a row. The two increments return nothing: what goes wrong is only logged.
pub record CountersRepository (World : Type 0) : Type 0 where
  pub get_lifetime_counter : ActiveUserKey → Action World (Option CountersGroup)
  pub get_hourly_counters : ActiveUserKey → List ℕ → Action World (List (ℕ × CountersGroup))
  pub incr_yes_counters : VoteId → CounterUpdateGroup → World → World
  pub incr_no_counters : VoteId → CounterUpdateGroup → World → World
