-- ===== src/Routes.antt =====
-- The handlers of the API's routes: each runs one method of the service and turns what it returns
-- into a response (internal/context/voting/interface/api/rest/v1/register.go). Paths, methods and the
-- decoding of requests are the web framework's.
pub mod Refusals
use recs.Prelude.{ℕ, String, List}
use recs.Errors.{Error, Result, ok, err}
use recs.Action.{Action}
use recs.Commands.{
  VoteAdd, ChangeVoteType, DeleteVote, VoteGet, RomanceGet, DeleteRomance, DeleteRomances,
  LifetimeCountersGet, HourlyCountersGet,
}
use recs.Responses.{
  ApiError, to_api_error, Vote, new_vote_from_entity, RomanceBody, romance_get_response,
  CountersBody, lifetime_counters_get_response, hourly_counters_get_response,
}
use recs.Service
use recs.Service.{VotingService}

-- a response, or an error
pub data Answer (B : Type 0) : Type 0 where
  replied : B → Answer B
  failed : ApiError → Answer B

module _ {World : Type 0} (other : Error → String) (v : VotingService World) where
  -- `if err != nil { return nil, response.ToApiError(err) }`, and the response otherwise
  unfoldable pub answer : {A B : Type 0} → (A → B) → Action World A → World → Answer B × World
  answer response call w =
      let (r, w') = call w in
      elim r [ ok a ↦ (replied (response a), w') | err e ↦ (failed (to_api_error other e), w') ]

  unfoldable pub get_romance_route : RomanceGet → World → Answer RomanceBody × World
  unfolding answer
  get_romance_route get = answer romance_get_response (Service.get_romance v get)

  unfoldable pub delete_romance_route : DeleteRomance → World → Answer (Unit {0}) × World
  unfolding answer
  delete_romance_route command = answer (λ _. tt) (Service.delete_romance v command)

  unfoldable pub delete_romances_route : DeleteRomances → World → Answer (Unit {0}) × World
  unfolding answer
  delete_romances_route command = answer (λ _. tt) (Service.delete_romances_request v command)

  unfoldable pub get_vote_route : VoteGet → World → Answer Vote × World
  unfolding answer
  get_vote_route get = answer new_vote_from_entity (Service.get_user_vote v get)

  unfoldable pub add_vote_route : VoteAdd → World → Answer Vote × World
  unfolding answer
  add_vote_route command = answer new_vote_from_entity (Service.add_user_vote v command)

  unfoldable pub change_vote_route : ChangeVoteType → World → Answer Vote × World
  unfolding answer
  change_vote_route command = answer new_vote_from_entity (Service.change_user_vote v command)

  unfoldable pub delete_vote_route : DeleteVote → World → Answer (Unit {0}) × World
  unfolding answer
  delete_vote_route command = answer (λ _. tt) (Service.delete_user_vote v command)

  unfoldable pub get_lifetime_counters_route :
      LifetimeCountersGet → World → Answer CountersBody × World
  unfolding answer
  get_lifetime_counters_route query =
      answer lifetime_counters_get_response (Service.get_lifetime_counters v query)

  unfoldable pub get_hourly_counters_route :
      HourlyCountersGet → World → Answer (List (ℕ × CountersBody)) × World
  unfolding answer
  get_hourly_counters_route query =
      answer hourly_counters_get_response (Service.get_hourly_counters v query)
