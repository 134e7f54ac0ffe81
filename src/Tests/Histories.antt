-- ===== src/Tests/Histories.antt =====
-- All the votes of one user on one peer, on stores that hold one vote and count the increments.
use recs.Prelude.{◌+◌, [], none}
use recs.Errors.{ok}
use recs.Time.{Time}
use recs.VoteType.{VoteType}
use recs.Romance.{Vote, Romance, empty_vote}
use recs.Repositories.{RomancesRepository, CountersRepository}
use recs.Operation.AddUserVote.Counting.{Watched}
use recs.Tests.Memory.{noon, alice_to_bob}

abbrev vote_of : VoteType → Vote
vote_of vote_type = record (empty_vote alice_to_bob) { vote_type = vote_type }

abbrev romance_with : Vote → Romance
romance_with vote = record {
  active_user_vote = vote;
  peer_user_vote = empty_vote alice_to_bob;
  version = 1;
}

abbrev romances : RomancesRepository Watched
romances = record {
  get_romance = λ id w. (ok (romance_with w.stored), w);
  get_all_peers_for_active_user = λ key w. (ok [], w);
  delete_romance = λ id w. (ok tt, w);
  delete_romances_group = λ key peers w. (ok tt, w);
  add_active_user_vote_to_romance =
      λ r t at w. (ok (romance_with (vote_of t)), record w { stored = vote_of t });
  change_active_user_vote_type_in_romance = λ r t w. (ok r, w);
  delete_active_user_vote_from_romance = λ r w. (ok tt, w);
}

abbrev counters : CountersRepository Watched
counters = record {
  get_lifetime_counter = λ key w. (ok none, w);
  get_hourly_counters = λ key hours w. (ok [], w);
  incr_yes_counters = λ id group w. record w { yes = w.yes + 1 };
  incr_no_counters = λ id group w. record w { no = w.no + 1 };
}

abbrev now : Watched → Time × Watched
now w = (noon, w)

abbrev itself : Watched → Watched
itself w = w

abbrev at_first : Watched
at_first = record { stored = empty_vote alice_to_bob; yes = 0; no = 0 }

abbrev at_last : Watched
at_last = record { stored = vote_of 3; yes = 1; no = 1 }
