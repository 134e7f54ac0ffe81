-- ===== src/Operation/DeleteUserVote/Success.antt =====
-- What has happened when a vote was deleted.
use recs.Prelude.{ℕ, ◌≡◌, ◌≤◌, refl, arith}
use recs.Errors.{Result, ok, err}
use recs.SharedKernel.{VoteId}
use recs.Romance.{Romance}
use recs.Repositories.{RomancesRepository}
use recs.Operation.Retry.{finished}
use recs.Operation.Retry.Bounds.{Conflicts, Ends, returned, refused, retry_lem}
use recs.Operation.DeleteUserVote.{delete_user_vote, attempt_delete}

module _ {World : Type 0} (romances : RomancesRepository World) (vote_id : VoteId) where
  -- One pass from `w` that reads a romance and deletes its active vote once.
  pub data Deletes (w : World) (out : World) : Type 0 where
    deletes :
        (romance : Romance) (read : World)
        → romances.get_romance vote_id w ≡ (ok romance, read)
        → romances.delete_active_user_vote_from_romance romance read ≡ (ok tt, out)
        → Deletes w out

  Deletes-delete :
      (romance : Romance) (w read out : World)
      → romances.get_romance vote_id w ≡ (ok romance, read)
      → attempt_delete romances vote_id w ≡ (finished (ok tt), out)
      → (d : Result Unit) (deleted : World)
      → romances.delete_active_user_vote_from_romance romance read ≡ (d, deleted)
      → Deletes w out
  unfolding attempt_delete
  Deletes-delete romance w read out h f (ok tt) deleted g = deletes romance read h (ground arith)
  Deletes-delete romance w read out h f (err e) deleted g = absurd (ground arith)

  Deletes-attempt :
      (r : Result Romance) (w read out : World)
      → romances.get_romance vote_id w ≡ (r, read)
      → attempt_delete romances vote_id w ≡ (finished (ok tt), out)
      → Deletes w out
  unfolding attempt_delete
  Deletes-attempt (ok romance) w read out h f = Deletes-delete romance w read out h f _ _ refl
  Deletes-attempt (err e) w read out h f = absurd (ground arith)

  Deletes-Ends :
      {last : Type 0} (v out : World)
      → Ends (attempt_delete romances vote_id) last v (ok tt, out)
      → Deletes v out
  Deletes-Ends v out (returned r v' f o) = Deletes-attempt _ v _ out refl (cc)
  Deletes-Ends v out (refused e v' f o c) = cc

  -- When the operation succeeds, at most three passes have failed with a version conflict, and the
  -- pass after them read one romance and deleted its active vote once.
  pub delete_success :
      (w out : World)
      → delete_user_vote romances vote_id w ≡ (ok tt, out)
      → (n : ℕ) × (v : World) × (n ≤ 3)
        × Conflicts (attempt_delete romances vote_id) n w v
        × Deletes v out
  unfolding delete_user_vote
  delete_success w out h =
      let (n, v, b, cs, ends) = retry_lem (attempt_delete romances vote_id) 3 w in
      (n, v, b, cs, Deletes-Ends v out (rw h at ends))
