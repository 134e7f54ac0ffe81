-- ===== src/Persistence/AddUserVote.antt =====
-- `AddUserVote`, from the operation down to the stored row.
use recs.Prelude.{ℕ, ◌+◌, ◌^◌, ◌<◌, String, ◌≡◌, refl, ap, sym, ◌∙◌, inl, inr, true, arith}
use recs.Errors.{Error, Result, ok, err, is_version_conflict}
use recs.SharedKernel.{VoteId}
use recs.SharedKernel.Validity.{IsVoteId}
use recs.Time.{Time}
use recs.VoteType.{VoteType}
use recs.Romance.{Vote, Romance}
use recs.Dynamo.Attributes.{Item}
use recs.Documents.Decoding.{is_int32}
use recs.Platform.{Platform}
use recs.Repositories.{RomancesRepository, CountersRepository}
use recs.RomancesRepository.Get.{romances_table_name}
use recs.RomancesRepository.Represents.{IsLawful}
use recs.RomancesRepository.Writes.{add_active_user_vote_to_romance}
use recs.RomancesRepository.Writes.Refinement.{voted}
use recs.Operation.Retry.{Attempt, write_failed}
use recs.Operation.Transitions.{is_vote_type_change_allowed}
use recs.Operation.AddUserVote.{add_user_vote, attempt_add, vote_on, write_vote}
use recs.Operation.AddUserVote.Guards.{attempt_add_read, attempt_add_failed_read}
use recs.Operation.AddUserVote.Success.{Adds, adds, add_success}
use recs.Persistence.{new_romances_repository, new_counters_repository}
use recs.Persistence.Rows.{Stands, Conflicts-keep, read_answered, read_done}
use recs.Persistence.AddedVotes.{TransactsKeep, incr_counters-keeps, add_conflicted, add_done}

-- a pass whose write fails, over any stores
module _ {World : Type 0} (romances : RomancesRepository World)
    (counters : CountersRepository World) (now : World → Time × World) (vote_id : VoteId)
    (vote_type : VoteType) (voted_at : Time) where
  pub failed_write :
      (romance : Romance) (w w' : World) (e : Error)
      → vote_on romances counters now vote_id vote_type voted_at romance w ≡ (write_failed e, w')
      → (u : Result Romance) (written : World)
      → romances.add_active_user_vote_to_romance romance vote_type voted_at (now w).1 ≡ (u, written)
      → romances.add_active_user_vote_to_romance romance vote_type voted_at (now w).1 ≡ (err e, w')
  unfolding vote_on write_vote
  failed_write romance w w' e h (ok updated) written u = absurd (ground arith)
  failed_write romance w w' e h (err x) written u = ground arith

module _ {World : Type 0} (p : Platform World) (stored : World → String → Item → Item)
    (transacts_keep : TransactsKeep p stored) (fuel : ℕ) (r : Romance)
    (valid : IsVoteId r.active_user_vote.id) (lawful : IsLawful p stored r.active_user_vote.id)
    (vote_type : VoteType) (voted_at : Time) (room : r.version + 1 < 2 ^ 32)
    (named : vote_type < 256) (at_int32 : is_int32 voted_at.unix ≡ true)
    (now_int32 : (w : World) → is_int32 (p.now w).0.unix ≡ true) where
  abbrev attempt : World → Attempt Vote × World
  attempt =
      attempt_add (new_romances_repository p fuel) (new_counters_repository p) p.now
        r.active_user_vote.id vote_type voted_at

  abbrev RowStands : World → Romance → Type 0
  RowStands = Stands p stored r valid lawful

  pass_keeps :
      (w w' : World) (e : Error)
      → RowStands w r
      → attempt w ≡ (write_failed e, w')
      → is_version_conflict e ≡ true
      → stored w' ≡ stored w
  pass_keeps w w' e b h c = elim (read_answered p stored r valid lawful _ w refl b) [
    | inl (e', u, g) ↦ cc (
        attempt_add_failed_read (new_romances_repository p fuel) (new_counters_repository p) p.now
          r.active_user_vote.id vote_type voted_at e' w u g)
    | inr (u, g, k) ↦
        let kept : stored (p.now u).1 ≡ stored w = lawful.clock_keeps u ∙ k in
        add_conflicted p stored r valid lawful vote_type voted_at room named at_int32 now_int32 _
          (p.now u).1 w' e refl (rw kept b)
          (failed_write (new_romances_repository p fuel) (new_counters_repository p) p.now
            r.active_user_vote.id vote_type voted_at r u w' e
            (sym (
                attempt_add_read (new_romances_repository p fuel) (new_counters_repository p) p.now
                  r.active_user_vote.id vote_type voted_at r w u g)
              ∙ h)
            _ _ refl)
          c
        ∙ kept
  ]

  -- the pass that added the vote
  Adds-stands :
      (v out : World) (vote : Vote)
      → RowStands v r
      → Adds
          (new_romances_repository p fuel)
          (new_counters_repository p)
          p.now
          r.active_user_vote.id
          vote_type
          voted_at
          v
          vote
          out
      → (is_vote_type_change_allowed r.active_user_vote vote_type ≡ ok tt)
        × (now : Time) × (vote ≡ (voted r vote_type voted_at now).active_user_vote)
        × RowStands out (voted r vote_type voted_at now)
  Adds-stands v out vote b
        (adds romance updated group read written g allowed made wrote shown left) =
      let (same, k) = read_done p stored r valid lawful v read romance b g in
      let kept : stored (p.now read).1 ≡ stored v = lawful.clock_keeps read ∙ k in
      let (is_voted, stands) =
        add_done p stored r valid lawful vote_type voted_at room named at_int32 now_int32 _
          (p.now read).1 written updated refl (rw kept b)
          (ap (λ x. add_active_user_vote_to_romance p x vote_type voted_at (p.now read).1)
              (sym same)
            ∙ wrote) in
      (
        ap (λ x. is_vote_type_change_allowed x.active_user_vote vote_type) (sym same) ∙ allowed,
        (p.now (p.now read).1).0,
        shown ∙ ap (λ x. x.active_user_vote) is_voted,
        rw
            (ap (λ x. stored x romances_table_name) left
              ∙ incr_counters-keeps p stored transacts_keep fuel r.active_user_vote.id
                  romance.active_user_vote.vote_type vote_type group written)
            stands,
      )

  -- When the operation returns a vote, over the stores that keep their rows in DynamoDB, the pair's
  -- row stood for a romance on which the vote is allowed; it then stands for that romance with the
  -- vote added and its version one higher, and what is returned is the vote that was added. Nobody
  -- else writes the row at the same time, the version has room in a uint32, and the times fit an
  -- int32.
  pub add_user_vote_stands :
      (w out : World) (vote : Vote)
      → RowStands w r
      → add_user_vote
          (new_romances_repository p fuel)
          (new_counters_repository p)
          p.now
          r.active_user_vote.id
          vote_type
          voted_at
          w
        ≡ (ok vote, out)
      → (is_vote_type_change_allowed r.active_user_vote vote_type ≡ ok tt)
        × (now : Time) × (vote ≡ (voted r vote_type voted_at now).active_user_vote)
        × RowStands out (voted r vote_type voted_at now)
  add_user_vote_stands w out vote b h =
      let (n, v, bound, conflicts, added) =
        add_success (new_romances_repository p fuel) (new_counters_repository p) p.now
          r.active_user_vote.id vote_type voted_at w out vote h in
      Adds-stands v out vote (Conflicts-keep p stored r valid lawful attempt pass_keeps b conflicts)
        added
