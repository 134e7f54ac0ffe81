-- ===== src/Operation/AddUserVote/Guards.antt =====
-- When an added vote is refused, and which counters a vote moves.
use recs.Prelude.{◌≡◌, ◌≢◌, refl, sym, ◌∙◌, inl, inr, arith}
use recs.Errors.{Error, Result, ok, err, changing_vote_type, vote_duplicate}
use recs.SharedKernel.{VoteId}
use recs.Time.{Time}
use recs.VoteType.{VoteType}
use recs.Romance.{Vote, Romance}
use recs.Repositories.{RomancesRepository, CountersRepository}
use recs.Operation.Retry.{finished, write_failed}
use recs.Operation.Retry.Bounds.{Ends, returned, refused, retry_lem, retry_finished}
use recs.Repositories.{new_counter_update_group}
use recs.Operation.Transitions.{is_vote_type_change_allowed}
use recs.Operation.Transitions.Ranks.{allowed_change_differs, is_vote_type_change_allowed_cases}
use recs.Operation.AddUserVote.{add_user_vote, attempt_add, vote_on, write_vote}

module _ {World : Type 0} (romances : RomancesRepository World)
    (counters : CountersRepository World) (now : World → Time × World) (vote_id : VoteId)
    (vote_type : VoteType) (voted_at : Time) where
  vote_on_refused :
      (romance : Romance) (w : World) (e : Error)
      → is_vote_type_change_allowed romance.active_user_vote vote_type ≡ err e
      → vote_on romances counters now vote_id vote_type voted_at romance w ≡ (finished (err e), w)
  unfolding vote_on
  vote_on_refused romance w e h = ground arith

  pub attempt_add_read :
      (romance : Romance) (w w' : World)
      → romances.get_romance vote_id w ≡ (ok romance, w')
      → attempt_add romances counters now vote_id vote_type voted_at w
        ≡ vote_on romances counters now vote_id vote_type voted_at romance w'
  unfolding attempt_add
  attempt_add_read romance w w' h = ground arith

  -- A vote whose type is not allowed after the one that is stored is refused with the error that
  -- names both, in the world that the read left: nothing is written and nothing counted.
  pub add_refused :
      (romance : Romance) (w w' : World)
      → romances.get_romance vote_id w ≡ (ok romance, w')
      → is_vote_type_change_allowed romance.active_user_vote vote_type ≢ ok tt
      → add_user_vote romances counters now vote_id vote_type voted_at w
        ≡ (err (changing_vote_type romance.active_user_vote.vote_type vote_type), w')
  unfolding add_user_vote
  add_refused romance w w' h n =
      elim (is_vote_type_change_allowed_cases romance.active_user_vote vote_type) [
        | inl p ↦ absurd (n p)
        | inr p ↦
            retry_finished (attempt_add romances counters now vote_id vote_type voted_at) 3
              (attempt_add_read romance w w' h ∙ vote_on_refused romance w' _ p)
      ]

  vote_on-ne-duplicate :
      (romance : Romance) (w : World)
      → (vote_on romances counters now vote_id vote_type voted_at romance w).0
        ≢ finished (err vote_duplicate)
  unfolding vote_on write_vote new_counter_update_group
  vote_on-ne-duplicate romance w e = ground (
    arith,
    allowed_change_differs romance.active_user_vote vote_type,
    is_vote_type_change_allowed_cases romance.active_user_vote vote_type,
  )

  pub attempt_add_failed_read :
      (e : Error) (w w' : World)
      → romances.get_romance vote_id w ≡ (err e, w')
      → attempt_add romances counters now vote_id vote_type voted_at w ≡ (finished (err e), w')
  unfolding attempt_add
  attempt_add_failed_read e w w' h = ground arith

  read-ne-duplicate :
      (r : Result Romance) (w w' : World)
      → romances.get_romance vote_id w ≡ (r, w')
      → r ≢ err vote_duplicate
      → (attempt_add romances counters now vote_id vote_type voted_at w).0
        ≢ finished (err vote_duplicate)
  read-ne-duplicate (ok romance) w w' h n =
      rw (attempt_add_read romance w w' h) (vote_on-ne-duplicate romance w')
  read-ne-duplicate (err e) w w' h n = rw (attempt_add_failed_read e w w' h) (λ x. n (cc))

  -- what a write or a read returns is never `ErrVoteDuplicate`
  module _ (read_other : (w : World) → (romances.get_romance vote_id w).0 ≢ err vote_duplicate)
      (write_other : (r : Romance) (w : World)
        → (romances.add_active_user_vote_to_romance r vote_type voted_at w).0
          ≢ err vote_duplicate) where
    vote_on-failed :
        (romance : Romance) (w w' : World) (e : Error)
        → vote_on romances counters now vote_id vote_type voted_at romance w ≡ (write_failed e, w')
        → e ≢ vote_duplicate
    unfolding vote_on write_vote
    vote_on-failed romance w w' e h d = ground (arith, write_other romance (now w).1)

    Ends-ne-duplicate :
        {last : Type 0} (v : World) (out : Result Vote × World)
        → Ends (attempt_add romances counters now vote_id vote_type voted_at) last v out
        → out.0 ≢ err vote_duplicate
    Ends-ne-duplicate v out (returned r v' f o) x =
        read-ne-duplicate (romances.get_romance vote_id v).0 v (romances.get_romance vote_id v).1
          refl (read_other v) (cc)
    Ends-ne-duplicate v out (refused e v' f o c) x =
        failed (romances.get_romance vote_id v).0 (romances.get_romance vote_id v).1 refl
      where
        failed : (r : Result Romance) (u : World) → romances.get_romance vote_id v ≡ (r, u) → ⊥
        failed (ok romance) u g =
            vote_on-failed romance u v' e (sym (attempt_add_read romance v u g) ∙ f) (cc)
        failed (err e') u g = cc (attempt_add_failed_read e' v u g)

    -- If neither the read nor the write of the store returns `ErrVoteDuplicate`, the operation
    -- does not: a vote of the type that is stored is refused as a wrong vote before the test for
    -- a duplicate is reached.
    pub add-ne-duplicate :
        (w : World)
        → (add_user_vote romances counters now vote_id vote_type voted_at w).0 ≢ err vote_duplicate
    unfolding add_user_vote
    add-ne-duplicate w =
        let (n, v, b, cs, ends) =
          retry_lem (attempt_add romances counters now vote_id vote_type voted_at) 3 w in
        Ends-ne-duplicate v _ ends
