-- ===== src/Persistence.antt =====
-- The repositories over a platform, as the interfaces that the operations see
-- (internal/context/voting/infrastructure/persistence). The loop over the pages of peers has fuel.
pub mod Rows
pub mod AddedVotes
pub mod AddUserVote
pub mod ChangeUserVote
pub mod DeleteUserVote
use recs.Prelude.{ℕ, none, some}
use recs.Errors.{ok, err, out_of_fuel}
use recs.Platform.{Platform}
use recs.Repositories.{RomancesRepository, CountersRepository}
use recs.RomancesRepository.Get.{get_romance}
use recs.RomancesRepository.Peers.{get_all_peers_for_active_user}
use recs.RomancesRepository.Deletes.{delete_romance, delete_romances_group}
use recs.RomancesRepository.Writes.{
  add_active_user_vote_to_romance, change_active_user_vote_type_in_romance,
  delete_active_user_vote_from_romance,
}
use recs.CountersRepository.Increments.{get_lifetime_counter, incr_yes_counters, incr_no_counters}
use recs.CountersRepository.Hourly.{get_hourly_counters}

module _ {World : Type 0} (p : Platform World) where
  abbrev pub new_romances_repository : ℕ → RomancesRepository World
  new_romances_repository fuel = record {
    get_romance = get_romance p;
    get_all_peers_for_active_user = λ user_key w.
        elim (get_all_peers_for_active_user p user_key fuel w) [
          | none ↦ (err out_of_fuel, w)
          | some (peers, w') ↦ (ok peers, w')
        ];
    delete_romance = delete_romance p;
    delete_romances_group = delete_romances_group p;
    add_active_user_vote_to_romance = add_active_user_vote_to_romance p;
    change_active_user_vote_type_in_romance = change_active_user_vote_type_in_romance p;
    delete_active_user_vote_from_romance = delete_active_user_vote_from_romance p;
  }

  abbrev pub new_counters_repository : CountersRepository World
  new_counters_repository = record {
    get_lifetime_counter = get_lifetime_counter p;
    get_hourly_counters = get_hourly_counters p;
    incr_yes_counters = incr_yes_counters p;
    incr_no_counters = incr_no_counters p;
  }
