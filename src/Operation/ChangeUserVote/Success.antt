-- ===== src/Operation/ChangeUserVote/Success.antt =====
-- What has happened when a vote was changed, and when a change is refused.
use recs.Prelude.{ℕ, ◌≡◌, ◌≢◌, ◌≤◌, refl, sym, ◌∙◌, inl, inr, arith}
use recs.Errors.{Error, Result, ok, err, changing_vote_type}
use recs.SharedKernel.{VoteId}
use recs.VoteType.{VoteType}
use recs.Romance.{Vote, Romance}
use recs.Repositories.{RomancesRepository}
use recs.Operation.Retry.{finished}
use recs.Operation.Retry.Bounds.{Conflicts, Ends, returned, refused, retry_lem, retry_finished}
use recs.Operation.Transitions.{is_vote_type_change_allowed}
use recs.Operation.Transitions.Ranks.{allowed_change_differs, is_vote_type_change_allowed_cases}
use recs.Operation.ChangeUserVote.{change_user_vote, attempt_change, change_on}

module _ {World : Type 0} (romances : RomancesRepository World) (vote_id : VoteId)
    (new_vote_type : VoteType) where
  -- One pass from `w` that reads a romance on which the change is allowed and writes it once.
  pub data Changes (w : World) (vote : Vote) (out : World) : Type 0 where
    changes :
        (romance updated : Romance) (read : World)
        → romances.get_romance vote_id w ≡ (ok romance, read)
        → is_vote_type_change_allowed romance.active_user_vote new_vote_type ≡ ok tt
        → romances.change_active_user_vote_type_in_romance romance new_vote_type read
          ≡ (ok updated, out)
        → vote ≡ updated.active_user_vote
        → Changes w vote out

  pub attempt_change_read :
      (romance : Romance) (w w' : World)
      → romances.get_romance vote_id w ≡ (ok romance, w')
      → attempt_change romances vote_id new_vote_type w
        ≡ change_on romances new_vote_type romance w'
  unfolding attempt_change
  attempt_change_read romance w w' h = ground arith

  pub attempt_change_failed_read :
      (e : Error) (w w' : World)
      → romances.get_romance vote_id w ≡ (err e, w')
      → attempt_change romances vote_id new_vote_type w ≡ (finished (err e), w')
  unfolding attempt_change
  attempt_change_failed_read e w w' h = ground arith

  change_on_refused :
      (romance : Romance) (w : World) (e : Error)
      → is_vote_type_change_allowed romance.active_user_vote new_vote_type ≡ err e
      → change_on romances new_vote_type romance w ≡ (finished (err e), w)
  unfolding change_on
  change_on_refused romance w e h = ground arith

  Changes-change_on :
      (romance : Romance) (w read : World) (vote : Vote) (out : World)
      → romances.get_romance vote_id w ≡ (ok romance, read)
      → change_on romances new_vote_type romance read ≡ (finished (ok vote), out)
      → (a : Result Unit) (u : Result Romance) (written : World)
      → is_vote_type_change_allowed romance.active_user_vote new_vote_type ≡ a
      → romances.change_active_user_vote_type_in_romance romance new_vote_type read ≡ (u, written)
      → Changes w vote out
  unfolding change_on
  Changes-change_on romance w read vote out h f (ok tt) (ok updated) written a u =
      changes romance updated read h a
        (ground (arith, allowed_change_differs romance.active_user_vote new_vote_type))
        (ground (arith, allowed_change_differs romance.active_user_vote new_vote_type))
  Changes-change_on romance w read vote out h f (err e) x written a u = absurd (ground arith)
  Changes-change_on romance w read vote out h f (ok tt) (err e) written a u = absurd (ground arith)

  Changes-attempt :
      (r : Result Romance) (w read : World) (vote : Vote) (out : World)
      → romances.get_romance vote_id w ≡ (r, read)
      → attempt_change romances vote_id new_vote_type w ≡ (finished (ok vote), out)
      → Changes w vote out
  Changes-attempt (ok romance) w read vote out h f =
      Changes-change_on romance w read vote out h (sym (attempt_change_read romance w read h) ∙ f) _
        _ _ refl refl
  Changes-attempt (err e) w read vote out h f = cc (attempt_change_failed_read e w read h)

  Changes-Ends :
      {last : Type 0} (v : World) (vote : Vote) (out : World)
      → Ends (attempt_change romances vote_id new_vote_type) last v (ok vote, out)
      → Changes v vote out
  Changes-Ends v vote out (returned r v' f o) = Changes-attempt _ v _ vote out refl (cc)
  Changes-Ends v vote out (refused e v' f o c) = cc

  -- When the operation returns a vote, at most three passes have failed with a version conflict,
  -- and the pass after them read one romance on which the change is allowed, and wrote it once.
  pub change_success :
      (w out : World) (vote : Vote)
      → change_user_vote romances vote_id new_vote_type w ≡ (ok vote, out)
      → (n : ℕ) × (v : World) × (n ≤ 3)
        × Conflicts (attempt_change romances vote_id new_vote_type) n w v
        × Changes v vote out
  unfolding change_user_vote
  change_success w out vote h =
      let (n, v, b, cs, ends) = retry_lem (attempt_change romances vote_id new_vote_type) 3 w in
      (n, v, b, cs, Changes-Ends v vote out (rw h at ends))

  -- A change that is not allowed after the stored vote is refused with the error that names both
  -- types, in the world that the read left: nothing is written.
  pub change_refused :
      (romance : Romance) (w w' : World)
      → romances.get_romance vote_id w ≡ (ok romance, w')
      → is_vote_type_change_allowed romance.active_user_vote new_vote_type ≢ ok tt
      → change_user_vote romances vote_id new_vote_type w
        ≡ (err (changing_vote_type romance.active_user_vote.vote_type new_vote_type), w')
  unfolding change_user_vote
  change_refused romance w w' h n =
      elim (is_vote_type_change_allowed_cases romance.active_user_vote new_vote_type) [
        | inl p ↦ absurd (n p)
        | inr p ↦
            retry_finished (attempt_change romances vote_id new_vote_type) 3
              (attempt_change_read romance w w' h ∙ change_on_refused romance w' _ p)
      ]
