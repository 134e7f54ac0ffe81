-- ===== src/Tests/Stores.antt =====
-- Stores whose world is a number: a romance whose version counts the writes.
use recs.Prelude.{ℕ, zero, suc, ◌+◌, ◌≢◌, none, [], ◌∷◌}
use recs.Errors.{Result, ok, err, version_conflict}
use recs.Time.{Time}
use recs.Romance.{Romance, empty_vote}
use recs.Repositories.{RomancesRepository, CountersRepository}
use recs.Operation.Transitions.{is_vote_type_change_allowed}
use recs.Service.{VotingService}
use recs.Tests.Memory.{bob, noon, alice_to_bob}

-- A store of one romance, whose version is the number of writes. The first write conflicts.
abbrev pub known : ℕ → Romance
known version = record {
  active_user_vote = record (empty_vote alice_to_bob) { vote_type = 2 };
  peer_user_vote = empty_vote alice_to_bob;
  version = version;
}

abbrev pub add_result : ℕ → Result Romance
add_result zero = err version_conflict
add_result (suc w) = ok (known (suc w))

abbrev pub delete_result : ℕ → Result (Unit {0})
delete_result zero = err version_conflict
delete_result (suc w) = ok tt

abbrev pub romances : RomancesRepository ℕ
romances = record {
  get_romance = λ id w. (ok (known w), w);
  get_all_peers_for_active_user = λ key w. (ok (bob ∷ []), w);
  delete_romance = λ id w. (ok tt, w);
  delete_romances_group = λ key peers w. (ok tt, w);
  add_active_user_vote_to_romance = λ r t at w. (add_result w, suc w);
  change_active_user_vote_type_in_romance = λ r t w. (add_result w, suc w);
  delete_active_user_vote_from_romance = λ r w. (delete_result w, suc w);
}

abbrev pub counters : CountersRepository ℕ
counters = record {
  get_lifetime_counter = λ key w. (ok none, w);
  get_hourly_counters = λ key hours w. (ok [], w);
  incr_yes_counters = λ id group w. 100 + w;
  incr_no_counters = λ id group w. 1000 + w;
}

abbrev pub now : ℕ → Time × ℕ
now w = (noon, w)

abbrev pub voting_service : VotingService ℕ
voting_service = record {
  romances = romances;
  counters = counters;
  publisher = record { publish = λ topic message w. (ok tt, w) };
  now = now;
}

pub no_again : is_vote_type_change_allowed (known 4).active_user_vote 2 ≢ ok tt
unfolding is_vote_type_change_allowed
no_again e = cc
