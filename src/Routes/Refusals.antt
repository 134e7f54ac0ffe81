-- ===== src/Routes/Refusals.antt =====
-- What a client is told when a vote is refused.
use Prim.Native.String.{◌++◌ as ◌<>◌}
use recs.Prelude.{String, ◌≡◌, ◌≢◌, refl, ap, ◌∙◌, arith}
use recs.Errors.{Error, ok, err, changing_vote_type}
use recs.SharedKernel.{VoteId, new_vote_id}
use recs.VoteType.{VoteType, to_string}
use recs.Romance.{Romance}
use recs.Commands.{VoteAdd, ChangeVoteType}
use recs.Action.{Action}
use recs.Operation.Transitions.{is_vote_type_change_allowed}
use recs.Operation.AddUserVote.Guards.{add_refused}
use recs.Operation.ChangeUserVote.Success.{change_refused}
use recs.Responses.{ApiError, HumaApiError, to_api_error}
use recs.Service
use recs.Service.{VotingService}
use recs.Routes.{failed, answer, add_vote_route, change_vote_route}

-- the answer to a vote that may not follow the stored one
abbrev pub not_allowed : VoteType → VoteType → HumaApiError
not_allowed old_vote new_vote = record {
  status = 400;
  message =
      "wrong vote: vote type change from `"
      <> (to_string old_vote <> ("` to `" <> (to_string new_vote <> "` is not allowed")));
}

module _ {World : Type 0} (other : Error → String) (v : VotingService World) where
  answer-err :
      {A B : Type 0} (response : A → B) (call : Action World A) {e : Error} {w w' : World}
      → call w ≡ (err e, w')
      → answer other v response call w ≡ (failed (to_api_error other e), w')
  unfolding answer
  answer-err response call h = ground arith

  module _ (romance : Romance) (id : VoteId) (w w' : World)
      (h : v.romances.get_romance id w ≡ (ok romance, w')) where
    add_refused_error :
        (command : VoteAdd)
        → new_vote_id command.country_id command.active_user_id command.peer_id ≡ ok id
        → is_vote_type_change_allowed romance.active_user_vote command.vote_type ≢ ok tt
        → Service.add_user_vote v command w
          ≡ (err (changing_vote_type romance.active_user_vote.vote_type command.vote_type), w')
    unfolding Service.add_user_vote
    add_refused_error command k n = rw k (
        add_refused v.romances v.counters v.now id command.vote_type command.voted_at romance w w' h
          n)

    change_refused_error :
        (command : ChangeVoteType)
        → new_vote_id command.country_id command.active_user_id command.peer_id ≡ ok id
        → is_vote_type_change_allowed romance.active_user_vote command.new_type ≢ ok tt
        → Service.change_user_vote v command w
          ≡ (err (changing_vote_type romance.active_user_vote.vote_type command.new_type), w')
    unfolding Service.change_user_vote
    change_refused_error command k n =
        rw k (change_refused v.romances id command.new_type romance w w' h n)

    to_api_error-changing_vote_type :
        (old_vote new_vote : VoteType)
        → to_api_error other (changing_vote_type old_vote new_vote)
          ≡ ApiError.huma (not_allowed old_vote new_vote)
    unfolding to_api_error
    to_api_error-changing_vote_type old_vote new_vote = refl

    -- A request to add a vote that is not allowed after the stored one is answered with status 400
    -- and a message that names both types as the API shows them, and writes nothing.
    pub add_vote_route-refused :
        (command : VoteAdd)
        → new_vote_id command.country_id command.active_user_id command.peer_id ≡ ok id
        → is_vote_type_change_allowed romance.active_user_vote command.vote_type ≢ ok tt
        → add_vote_route other v command w ≡ (
          failed (ApiError.huma (not_allowed romance.active_user_vote.vote_type command.vote_type)),
          w',
        )
    unfolding add_vote_route
    add_vote_route-refused command k n =
        answer-err _ (Service.add_user_vote v command) (add_refused_error command k n)
        ∙ ap (λ e. (failed e, w')) (to_api_error-changing_vote_type _ _)

    -- So is a request to change one.
    pub change_vote_route-refused :
        (command : ChangeVoteType)
        → new_vote_id command.country_id command.active_user_id command.peer_id ≡ ok id
        → is_vote_type_change_allowed romance.active_user_vote command.new_type ≢ ok tt
        → change_vote_route other v command w ≡ (
          failed (ApiError.huma (not_allowed romance.active_user_vote.vote_type command.new_type)),
          w',
        )
    unfolding change_vote_route
    change_vote_route-refused command k n =
        answer-err _ (Service.change_user_vote v command) (change_refused_error command k n)
        ∙ ap (λ e. (failed e, w')) (to_api_error-changing_vote_type _ _)
