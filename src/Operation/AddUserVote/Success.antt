-- ===== src/Operation/AddUserVote/Success.antt =====
-- What has happened when a vote was added.
use recs.Prelude.{ℕ, ◌≡◌, ◌≤◌, refl, sym, ◌∙◌, arith}
use recs.Errors.{Result, ok, err}
use recs.SharedKernel.{VoteId}
use recs.Time.{Time}
use recs.VoteType.{VoteType}
use recs.Romance.{Vote, Romance}
use recs.Repositories.{
  RomancesRepository, CountersRepository, CounterUpdateGroup, new_counter_update_group,
}
use recs.Operation.Retry.{finished}
use recs.Operation.Retry.Bounds.{Conflicts, Ends, returned, refused, retry_lem}
use recs.Operation.Transitions.{is_vote_type_change_allowed}
use recs.Operation.Transitions.Ranks.{allowed_change_differs}
use recs.Operation.AddUserVote.{add_user_vote, attempt_add, vote_on, write_vote, incr_counters}
use recs.Operation.AddUserVote.Guards.{attempt_add_read, attempt_add_failed_read}

module _ {World : Type 0} (romances : RomancesRepository World)
    (counters : CountersRepository World) (now : World → Time × World) (vote_id : VoteId)
    (vote_type : VoteType) (voted_at : Time) where
  -- One pass from `w` that reads a romance on which the vote is allowed, writes it once, and then
  -- moves the counters once, by the vote types before and after; `out` is the world at the end.
  pub data Adds (w : World) (vote : Vote) (out : World) : Type 0 where
    adds :
        (romance updated : Romance) (group : CounterUpdateGroup) (read written : World)
        → romances.get_romance vote_id w ≡ (ok romance, read)
        → is_vote_type_change_allowed romance.active_user_vote vote_type ≡ ok tt
        → new_counter_update_group (now read).0 ≡ ok group
        → romances.add_active_user_vote_to_romance romance vote_type voted_at (now read).1
          ≡ (ok updated, written)
        → vote ≡ updated.active_user_vote
        → out
          ≡ incr_counters romances counters now vote_id romance.active_user_vote.vote_type vote_type
              group written
        → Adds w vote out

  module _ (romance : Romance) (w read : World) (vote : Vote) (out : World)
      (h : romances.get_romance vote_id w ≡ (ok romance, read))
      (f : vote_on romances counters now vote_id vote_type voted_at romance read
        ≡ (finished (ok vote), out)) where
    Adds-vote_on :
        (a : Result Unit) (g : Result CounterUpdateGroup) (u : Result Romance) (written : World)
        → is_vote_type_change_allowed romance.active_user_vote vote_type ≡ a
        → new_counter_update_group (now read).0 ≡ g
        → romances.add_active_user_vote_to_romance romance vote_type voted_at (now read).1
          ≡ (u, written)
        → Adds w vote out
    unfolding vote_on write_vote
    Adds-vote_on (ok tt) (ok group) (ok updated) written a g u =
        adds romance updated group read written h a g u
          (ground (arith, allowed_change_differs romance.active_user_vote vote_type))
          (ground (arith, allowed_change_differs romance.active_user_vote vote_type))
    Adds-vote_on (err e) x y written a g u = absurd (ground arith)
    Adds-vote_on (ok tt) (err e) y written a g u = absurd (ground arith)
    Adds-vote_on (ok tt) (ok group) (err e) written a g u = absurd (ground arith)

  Adds-attempt :
      (r : Result Romance) (w read : World) (vote : Vote) (out : World)
      → romances.get_romance vote_id w ≡ (r, read)
      → attempt_add romances counters now vote_id vote_type voted_at w ≡ (finished (ok vote), out)
      → Adds w vote out
  Adds-attempt (ok romance) w read vote out h f =
      Adds-vote_on romance w read vote out h
        (sym (attempt_add_read romances counters now vote_id vote_type voted_at romance w read h)
          ∙ f)
        _ _ _ _ refl refl refl
  Adds-attempt (err e) w read vote out h f =
      cc (attempt_add_failed_read romances counters now vote_id vote_type voted_at e w read h)

  Adds-Ends :
      {last : Type 0} (v : World) (vote : Vote) (out : World)
      → Ends (attempt_add romances counters now vote_id vote_type voted_at) last v (ok vote, out)
      → Adds v vote out
  Adds-Ends v vote out (returned r v' f o) = Adds-attempt _ v _ vote out refl (cc)
  Adds-Ends v vote out (refused e v' f o c) = cc

  -- When the operation returns a vote, at most three passes have failed with a version conflict,
  -- and in the pass after them one romance was read, on which the vote is allowed, the vote was
  -- written once, and the counters moved once and after the write.
  pub add_success :
      (w out : World) (vote : Vote)
      → add_user_vote romances counters now vote_id vote_type voted_at w ≡ (ok vote, out)
      → (n : ℕ) × (v : World) × (n ≤ 3)
        × Conflicts (attempt_add romances counters now vote_id vote_type voted_at) n w v
        × Adds v vote out
  unfolding add_user_vote
  add_success w out vote h =
      let (n, v, b, cs, ends) =
        retry_lem (attempt_add romances counters now vote_id vote_type voted_at) 3 w in
      (n, v, b, cs, Adds-Ends v vote out (rw h at ends))
