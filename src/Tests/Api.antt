-- ===== src/Tests/Api.antt =====
-- The theorems on the API, at concrete requests.
use recs.Prelude.{ℕ, String, ◌≡◌, ◌≢◌, ◌≤◌, ◌↔◌, refl, List, [], ◌∷◌, map}
use recs.Prelude.Int.{pos, negsuc}
use recs.Errors.{Error, ok}
use recs.SharedKernel.{new_vote_id}
use recs.SharedKernel.Validity.{new_vote_id-accepts}
use recs.Contract.{
  unmarshal_add_user_vote_type, marshal_add_user_vote_type, marshal_read_user_vote_type,
}
use recs.Contract.Texts.{add_user_vote_type_round_trip}
use recs.Commands.{HourlyCountersGet, VoteAdd}
use recs.Commands.Resolve.{resolve, resolve_iff}
use recs.HoursOffsets.Validation.{AreOffsets}
use recs.Responses.{ApiError}
use recs.Routes.{failed, add_vote_route}
use recs.Routes.Refusals.{not_allowed, add_vote_route-refused}
use recs.Tests.Memory.{alice, bob, noon, alice_to_bob, alice_to_bob-IsVoteId}
use recs.Tests.Stores.{known, voting_service, no_again}

add_user_vote_type_round_trip_example : (unmarshal_add_user_vote_type "crush" ≡ ok 3) ↔ (
    (1 ≤ 3)
    × (3 ≤ 4)
    × (marshal_read_user_vote_type 3 ≡ "crush")
    × (marshal_add_user_vote_type 3 ≡ "crush"))
add_user_vote_type_round_trip_example = add_user_vote_type_round_trip "crush" 3

abbrev last_hours : HourlyCountersGet
last_hours = record {
  country_id = 7;
  active_user_id = alice;
  hours_offset_groups_raw = pos 1 ∷ negsuc 254 ∷ [];
  hours_offset_groups = [];
}

abbrev twice : List ℕ
twice = 1 ∷ 1 ∷ []

-- -255 is not taken for 1
resolve_iff_example :
    (resolve last_hours ≡ ok (record last_hours { hours_offset_groups = twice }))
    ↔ ((last_hours.hours_offset_groups_raw ≡ map pos twice) × (twice ≢ []) × AreOffsets twice)
resolve_iff_example = resolve_iff last_hours twice

abbrev no_text : Error → String
no_text e = ""

abbrev another_no : VoteAdd
another_no = record {
  country_id = 7;
  active_user_id = alice;
  peer_id = bob;
  vote_type = 2;
  voted_at = noon;
}

pair_accepted : new_vote_id 7 alice bob ≡ ok alice_to_bob
pair_accepted = new_vote_id-accepts alice_to_bob alice_to_bob-IsVoteId

add_vote_route-refused_example :
    add_vote_route no_text voting_service another_no 4
    ≡ (failed (ApiError.huma (not_allowed 2 2)), 4)
add_vote_route-refused_example =
    add_vote_route-refused no_text voting_service (known 4) alice_to_bob 4 4 refl another_no
      pair_accepted no_again
