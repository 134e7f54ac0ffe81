-- ===== src/Wiring/Votes.antt =====
-- Votes, from a request to the stored row and back to an answer.
use recs.Prelude.{ℕ, ◌+◌, ◌^◌, ◌<◌, String, ◌≡◌, refl, ap, sym, ◌∙◌, true, arith}
use recs.Errors.{Error, Result, ok, err}
use recs.Action.{Action}
use recs.SharedKernel.{new_vote_id}
use recs.SharedKernel.Validity.{IsVoteId}
use recs.Time.{Time}
use recs.Romance.{Romance}
use recs.Dynamo.Attributes.{Item}
use recs.Documents.Decoding.{is_int32}
use recs.Platform.{Platform}
use recs.Commands.{VoteAdd, RomanceGet}
use recs.RomancesRepository.Get.{get_romance}
use recs.RomancesRepository.Represents.{IsLawful}
use recs.RomancesRepository.Writes.Refinement.{voted}
use recs.Operation.AddUserVote.{add_user_vote}
use recs.Operation.Direct
use recs.Persistence.{new_romances_repository, new_counters_repository}
use recs.Persistence.Rows.{Stands, read_done}
use recs.Persistence.AddedVotes.{TransactsKeep}
use recs.Persistence.AddUserVote.{add_user_vote_stands}
use recs.Messages.Envelopes.{Codec}
use recs.Sns.{Sns}
use recs.Service
use recs.Service.{VotingService}
use recs.Responses.{new_vote_from_entity, romance_get_response, RomanceBody, Vote}
use recs.Routes.{replied, answer, add_vote_route, get_romance_route}
use recs.Wiring.{initialize_voting_service}

module _ {World : Type 0} (other : Error → String) (v : VotingService World) where
  -- an answer with a body comes from a call that succeeded
  answer-replied :
      {A B : Type 0} (response : A → B) (call : Action World A) (r : Result A) (w out : World)
      (body : B)
      → (call w).0 ≡ r
      → answer other v response call w ≡ (replied body, out)
      → (a : A) × (call w ≡ (ok a, out)) × (body ≡ response a)
  unfolding answer
  answer-replied response call (ok a) w out body c h = (a, ground arith, ground arith)
  answer-replied response call (err e) w out body c h = absurd (ground arith)

module _ {World Payload : Type 0} (p : Platform World) (stored : World → String → Item → Item)
    (transacts_keep : TransactsKeep p stored) (fuel : ℕ) (sns : Sns World Payload)
    (codec : Codec Payload) (other : Error → String) (r : Romance)
    (valid : IsVoteId r.active_user_vote.id) (lawful : IsLawful p stored r.active_user_vote.id)
    (command : VoteAdd)
    (accepted : new_vote_id command.country_id command.active_user_id command.peer_id
      ≡ ok r.active_user_vote.id)
    (room : r.version + 1 < 2 ^ 32) (named : command.vote_type < 256)
    (at_int32 : is_int32 command.voted_at.unix ≡ true)
    (now_int32 : (w : World) → is_int32 (p.now w).0.unix ≡ true) where
  abbrev service : VotingService World
  service = initialize_voting_service p fuel sns codec

  service_adds :
      (w : World)
      → Service.add_user_vote service command w
        ≡ add_user_vote
            (new_romances_repository p fuel)
            (new_counters_repository p)
            p.now
            r.active_user_vote.id
            command.vote_type
            command.voted_at
            w
  unfolding Service.add_user_vote
  service_adds w = rw accepted refl

  add_vote_route-Stands :
      (w out : World) (body : Vote)
      → Stands p stored r valid lawful w r
      → add_vote_route other service command w ≡ (replied body, out)
      → (now : Time) × (body
          ≡ new_vote_from_entity (voted r command.vote_type command.voted_at now).active_user_vote)
        × Stands p stored r valid lawful out (voted r command.vote_type command.voted_at now)
  unfolding add_vote_route
  add_vote_route-Stands w out body b h =
      let (vote, called, shown) =
        answer-replied other service new_vote_from_entity (Service.add_user_vote service command) _
          w out body refl h in
      let (allowed, now, same, stands) =
        add_user_vote_stands p stored transacts_keep fuel r valid lawful command.vote_type
          command.voted_at room named at_int32 now_int32 w out vote b
          (sym (service_adds w) ∙ called) in
      (now, shown ∙ ap new_vote_from_entity same, stands)

  service_gets :
      (get : RomanceGet) (w : World)
      → new_vote_id get.country_id get.active_user_id get.peer_id ≡ ok r.active_user_vote.id
      → Service.get_romance service get w ≡ get_romance p r.active_user_vote.id w
  unfolding Service.get_romance Direct.get_romance
  service_gets get w k = rw k refl

  -- what a client is shown of a romance for which the row stands
  get_romance_route_shows :
      (get : RomanceGet) (now : Time) (w out : World) (body : RomanceBody)
      → new_vote_id get.country_id get.active_user_id get.peer_id ≡ ok r.active_user_vote.id
      → Stands p stored r valid lawful w (voted r command.vote_type command.voted_at now)
      → get_romance_route other service get w ≡ (replied body, out)
      → body ≡ romance_get_response (voted r command.vote_type command.voted_at now)
  unfolding get_romance_route
  get_romance_route_shows get now w out body k b h =
      let (romance, called, shown) =
        answer-replied other service romance_get_response (Service.get_romance service get) _ w out
          body refl h in
      let (same, kept) =
        read_done p stored (voted r command.vote_type command.voted_at now) valid lawful w out
          romance b (sym (service_gets get w k) ∙ called) in
      shown ∙ ap romance_get_response same

  -- When a request to add a vote is answered with a vote, and the next request is for the same
  -- romance and is answered with it, then that shows the vote that the first answer shows, and the
  -- peer's vote as it was. The pair's row stood for a romance of theirs before, its version has room
  -- in a uint32, the times fit an int32, and nobody else writes the row at the same time.
  pub vote_then_get :
      (get : RomanceGet) (w out last : World) (body : Vote) (shown : RomanceBody)
      → new_vote_id get.country_id get.active_user_id get.peer_id ≡ ok r.active_user_vote.id
      → Stands p stored r valid lawful w r
      → add_vote_route other service command w ≡ (replied body, out)
      → get_romance_route other service get out ≡ (replied shown, last)
      → (shown.active_user_vote ≡ body)
        × (shown.peer_user_vote ≡ new_vote_from_entity r.peer_user_vote)
        × (shown.active_user_vote.vote_type ≡ command.vote_type)
  vote_then_get get w out last body shown k b added got =
      let (now, same, stands) = add_vote_route-Stands w out body b added in
      let e = get_romance_route_shows get now out last shown k stands got in
      (
        ap (λ x. x.active_user_vote) e ∙ sym same,
        ap (λ x. x.peer_user_vote) e,
        ap (λ x. x.active_user_vote.vote_type) e,
      )
