-- ===== src/Tests/Votes.antt =====
-- The theorems on the operations that vote, on the repository with a database in memory.
use recs.Prelude.{ℕ, zero, suc, ◌≤◌, ◌≡◌, ◌≢◌, refl, true, List, [], ◌∷◌}
use recs.Errors.{ok, err, version_conflict, vote_duplicate, is_version_conflict}
use recs.Romance.{Romance, Vote, empty_vote}
use recs.Repositories.{new_counter_update_group}
use recs.Operation.Retry.{Attempt, finished, write_failed, retry}
use recs.Operation.Retry.Bounds.{Conflicts, start, again, Traced, retry_lem}
use recs.Operation.Transitions.{is_vote_type_change_allowed}
use recs.Operation.AddUserVote.{add_user_vote, attempt_add, vote_on, write_vote, incr_counters}
use recs.Operation.AddUserVote.Guards.{add-ne-duplicate}
use recs.Operation.AddUserVote.Success.{Adds, add_success}
use recs.Operation.AddUserVote.Histories.{Accepted}
use recs.Tests.Stores.{known, romances, counters, now}
use recs.Tests.Memory.{noon, alice_to_bob}
use recs.Operation.ChangeUserVote.{change_user_vote, attempt_change, change_on}
use recs.Operation.DeleteUserVote.{delete_user_vote, attempt_delete}

-- a counter of the conflicts that are still to come, then a result
abbrev conflicts : ℕ → Attempt ℕ × ℕ
conflicts zero = (finished (ok 7), 0)
conflicts (suc k) = (write_failed version_conflict, k)

retry_lem_example : Traced conflicts 3 2
retry_lem_example = retry_lem conflicts 3 2

conflict_again : is_version_conflict version_conflict ≡ true
unfolding is_version_conflict
conflict_again = refl

three_conflicts : Conflicts conflicts 3 9 6
three_conflicts =
    again version_conflict refl conflict_again (
      again version_conflict refl conflict_again (again version_conflict refl conflict_again start))

-- "yes" after "no": a conflict, a write, and one move of the "yes" counters
yes_added :
    add_user_vote romances counters now alice_to_bob 1 noon 0 ≡ (ok (known 1).active_user_vote, 102)
unfolding add_user_vote retry attempt_add vote_on is_vote_type_change_allowed
    new_counter_update_group write_vote is_version_conflict incr_counters
yes_added = refl

add_success_example :
    (n : ℕ) × (v : ℕ) × (n ≤ 3)
    × Conflicts (attempt_add romances counters now alice_to_bob 1 noon) n 0 v
    × Adds romances counters now alice_to_bob 1 noon v (known 1).active_user_vote 102
add_success_example =
    add_success romances counters now alice_to_bob 1 noon 0 102 (known 1).active_user_vote yes_added

reads_other : (w : ℕ) → (romances.get_romance alice_to_bob w).0 ≢ err vote_duplicate
reads_other w e = cc

writes_other :
    (r : Romance) (w : ℕ)
    → (romances.add_active_user_vote_to_romance r 2 noon w).0 ≢ err vote_duplicate
writes_other r zero e = cc
writes_other r (suc w) e = cc

add-ne-duplicate_example :
    (add_user_vote romances counters now alice_to_bob 2 noon 4).0 ≢ err vote_duplicate
add-ne-duplicate_example =
    add-ne-duplicate romances counters now alice_to_bob 2 noon reads_other writes_other 4

-- "no", then "yes", then "crush"
abbrev nothing : Vote
nothing = empty_vote alice_to_bob

abbrev history : List Vote
history =
    record nothing { vote_type = 2 }
    ∷ record nothing { vote_type = 1 }
    ∷ record nothing { vote_type = 3 }
    ∷ []

history-Accepted : Accepted nothing history
unfolding is_vote_type_change_allowed
history-Accepted = (refl, (refl, (refl, tt)))

no_changed : change_user_vote romances alice_to_bob 1 0 ≡ (ok (known 1).active_user_vote, 2)
unfolding change_user_vote retry attempt_change change_on is_vote_type_change_allowed
    is_version_conflict
no_changed = refl

no_deleted : delete_user_vote romances alice_to_bob 0 ≡ (ok tt, 2)
unfolding delete_user_vote retry attempt_delete is_version_conflict
no_deleted = refl
