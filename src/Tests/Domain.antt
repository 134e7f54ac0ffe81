-- ===== src/Tests/Domain.antt =====
-- The theorems on values, at concrete ones.
use recs.Prelude.{ℕ, ◌<◌, ◌≡◌, ◌≢◌, List, [], ◌∷◌, arith, ◌↔◌}
use mathlib.Core.List.{Perm}
use recs.Errors.{ok}
use recs.SharedKernel.{new_vote_id}
use recs.SharedKernel.Validity.{IsVoteId, new_vote_id_iff}
use recs.HoursOffsets.{new_hours_offset_groups}
use recs.HoursOffsets.Validation.{AreOffsets, IsAscending, new_hours_offset_groups-IsAscending}
use recs.Operation.Transitions.{is_vote_type_change_allowed}
use recs.Operation.Transitions.Ranks.{is_vote_type_change_allowed_iff, rank, IsKnown}
use recs.Romance.{empty_vote}
use recs.Tests.Memory.{alice, bob, alice_to_bob}

is_vote_type_change_allowed_iff_example :
    (is_vote_type_change_allowed (record (empty_vote alice_to_bob) { vote_type = 2 }) 1 ≡ ok tt)
    ↔ (IsKnown 2 × IsKnown 1 × (rank 2 < rank 1))
is_vote_type_change_allowed_iff_example =
    is_vote_type_change_allowed_iff (record (empty_vote alice_to_bob) { vote_type = 2 }) 1

abbrev a_day_and_an_hour : List ℕ
a_day_and_an_hour = 24 ∷ 1 ∷ []

a_day_and_an_hour-AreOffsets : AreOffsets a_day_and_an_hour
a_day_and_an_hour-AreOffsets =
    (omega arith, omega arith, ((λ e. omega arith), tt), (omega arith, omega arith, tt, tt))

a_day_and_an_hour-ne-nil : a_day_and_an_hour ≢ []
a_day_and_an_hour-ne-nil e = cc

new_hours_offset_groups-IsAscending_example :
    (values : List ℕ) × (new_hours_offset_groups a_day_and_an_hour ≡ ok values)
    × Perm values a_day_and_an_hour
    × IsAscending values
new_hours_offset_groups-IsAscending_example =
    new_hours_offset_groups-IsAscending a_day_and_an_hour a_day_and_an_hour-ne-nil
      a_day_and_an_hour-AreOffsets

new_vote_id_iff_example :
    (new_vote_id 7 alice bob ≡ ok alice_to_bob)
    ↔ ((◌≡◌ {A = ℕ} 7 7) × (alice ≡ alice) × (bob ≡ bob) × IsVoteId alice_to_bob)
new_vote_id_iff_example = new_vote_id_iff 7 alice bob alice_to_bob
