-- ===== src/Interleaving/Effects.antt =====
-- What a write to a romance does to the row of its pair.
use recs.Prelude.{◌+◌, ◌^◌, ◌<◌, String, ◌≡◌, refl, true, false, Option, none, some, arith}
use recs.Errors.{Result, ok, err}
use recs.SharedKernel.Validity.{IsVoteId}
use recs.Time.{Time}
use recs.VoteType.{VoteType}
use recs.Romance.{Romance, is_empty}
use recs.Dynamo.Attributes.{Item}
use recs.Documents.Decoding.{is_int32}
use recs.Platform.{Platform}
use recs.RomancesRepository.Represents.{IsLawful}
use recs.RomancesRepository.Writes.{
  add_active_user_vote_to_romance, change_active_user_vote_type_in_romance,
  delete_active_user_vote_from_romance,
}
use recs.RomancesRepository.Writes.Refinement.{voted, changed, cleared}
use recs.Persistence.Rows.{Stands}
use recs.Persistence.AddedVotes.{add_done}
use recs.Persistence.ChangeUserVote.{change_done}
use recs.Persistence.DeleteUserVote.{delete_done}
use recs.Interleaving.{Fits, Write, add_vote, change_vote, delete_vote, writes, write_to}

-- the romance that a write makes of another
abbrev pub after : Write → Time → Romance → Romance
after (add_vote vote_type voted_at) now r = voted r vote_type voted_at now
after (change_vote vote_type) now r = changed r vote_type now
after delete_vote now r = cleared r

-- an answer shows the romance, if it has one
abbrev pub Shows : Option Romance → Romance → Type 0
Shows none r = Unit
Shows (some updated) r = updated ≡ r

module _ {World : Type 0} (p : Platform World) (stored : World → String → Item → Item) (r : Romance)
    (valid : IsVoteId r.active_user_vote.id) (lawful : IsLawful p stored r.active_user_vote.id)
    (room : r.version + 1 < 2 ^ 32) (now_int32 : (w : World) → is_int32 (p.now w).0.unix ≡ true)
    (w w' : World) where
  abbrev RowStands : World → Romance → Type 0
  RowStands = Stands p stored r valid lawful

  -- the repository's call behind a write that succeeds
  add_call :
      (vote_type : VoteType) (voted_at : Time) (a : Option Romance) (c : Result Romance)
      → (add_active_user_vote_to_romance p r vote_type voted_at w).0 ≡ c
      → write_to p (add_vote vote_type voted_at) r w ≡ (ok a, w')
      → (updated : Romance) × (a ≡ some updated)
        × (add_active_user_vote_to_romance p r vote_type voted_at w ≡ (ok updated, w'))
  unfolding write_to
  add_call vote_type voted_at a (ok updated) e h = (updated, ground arith, ground arith)
  add_call vote_type voted_at a (err x) e h = absurd (ground arith)

  change_call :
      (vote_type : VoteType) (a : Option Romance) (c : Result Romance)
      → (change_active_user_vote_type_in_romance p r vote_type w).0 ≡ c
      → write_to p (change_vote vote_type) r w ≡ (ok a, w')
      → (updated : Romance) × (a ≡ some updated)
        × (change_active_user_vote_type_in_romance p r vote_type w ≡ (ok updated, w'))
  unfolding write_to
  change_call vote_type a (ok updated) e h = (updated, ground arith, ground arith)
  change_call vote_type a (err x) e h = absurd (ground arith)

  delete_call :
      (a : Option Romance) (c : Result (Unit {0}))
      → (delete_active_user_vote_from_romance p r w).0 ≡ c
      → write_to p delete_vote r w ≡ (ok a, w')
      → (a ≡ none) × (delete_active_user_vote_from_romance p r w ≡ (ok tt, w'))
  unfolding write_to
  delete_call a (ok tt) e h = (ground arith, ground arith)
  delete_call a (err x) e h = absurd (ground arith)

  -- a write that succeeds, to the romance that the row stands for
  pub write_done :
      (write : Write) (a : Option Romance)
      → Fits write
      → writes write r ≡ true
      → write_to p write r w ≡ (ok a, w')
      → RowStands w r
      → Shows a (after write (p.now w).0 r) × RowStands w' (after write (p.now w).0 r)
  write_done (add_vote vote_type voted_at) a (named, at_int32) n h b =
      let (updated, e, c) = add_call vote_type voted_at a _ refl h in
      let (x, y) =
        add_done p stored r valid lawful vote_type voted_at room named at_int32 now_int32 _ w w'
          updated refl b c in
      (rw e x, y)
  write_done (change_vote vote_type) a named n h b =
      let (updated, e, c) = change_call vote_type a _ refl h in
      let (before, x, y) =
        change_done p stored 0 r valid lawful vote_type room named now_int32 w w' updated b c in
      (rw e x, y)
  write_done delete_vote a named n h b =
      let (e, c) = delete_call a _ refl h in
      let full : is_empty r ≡ false = ground arith in
      (rw e tt, rw full at (delete_done p stored 0 r valid lawful room w w' b c))
