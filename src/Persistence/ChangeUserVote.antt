-- ===== src/Persistence/ChangeUserVote.antt =====
-- `ChangeUserVote`, from the operation down to the stored row.
use recs.Prelude.{
  ℕ, ◌+◌, ◌^◌, ◌<◌, String, ◌≡◌, refl, ap, sym, ◌∙◌, inl, inr, true, false, arith, Bool-cases,
}
use recs.Errors.{Error, Result, ok, err, is_version_conflict, vote_not_found, wrong_vote}
use recs.SharedKernel.Validity.{IsVoteId}
use recs.Time.{Time}
use recs.VoteType
use recs.VoteType.{VoteType}
use recs.Romance.{Vote, Romance}
use recs.Dynamo.Attributes.{Item}
use recs.Documents.Decoding.{is_int32}
use recs.Platform.{Platform}
use recs.RomancesRepository.Represents.{IsLawful}
use recs.RomancesRepository.Writes.{
  change_active_user_vote_type_in_romance, change_input, conflict_or,
}
use recs.RomancesRepository.Writes.Refinement.{changed}
use recs.RomancesRepository.Storage.{change_stores}
use recs.Operation.Retry.{Attempt, write_failed}
use recs.Operation.Transitions.{is_vote_type_change_allowed}
use recs.Operation.ChangeUserVote.{change_user_vote, attempt_change, change_on}
use recs.Operation.ChangeUserVote.Success.{
  Changes, changes, change_success, attempt_change_read, attempt_change_failed_read,
}
use recs.Persistence.{new_romances_repository}
use recs.Persistence.Rows.{Stands, conflict_keeps, Conflicts-keep, read_answered, read_done}

module _ {World : Type 0} (p : Platform World) (stored : World → String → Item → Item) (fuel : ℕ)
    (r : Romance) (valid : IsVoteId r.active_user_vote.id)
    (lawful : IsLawful p stored r.active_user_vote.id) (vote_type : VoteType)
    (room : r.version + 1 < 2 ^ 32) (named : vote_type < 256)
    (now_int32 : (w : World) → is_int32 (p.now w).0.unix ≡ true) where
  abbrev attempt : World → Attempt Vote × World
  attempt = attempt_change (new_romances_repository p fuel) r.active_user_vote.id vote_type

  abbrev RowStands : World → Romance → Type 0
  RowStands = Stands p stored r valid lawful

  -- the answer of the database to the update
  abbrev updated_to : World → Result Item × World
  updated_to w = p.client.update_item (change_input p r vote_type (p.now w).0) (p.now w).1

  unvoted_refused :
      (w : World)
      → VoteType.is_empty r.active_user_vote.vote_type ≡ true
      → change_active_user_vote_type_in_romance p r vote_type w ≡ (err vote_not_found, w)
  unfolding change_active_user_vote_type_in_romance
  unvoted_refused w h = ground arith

  empty_refused :
      (w : World)
      → VoteType.is_empty r.active_user_vote.vote_type ≡ false
      → VoteType.is_empty vote_type ≡ true
      → change_active_user_vote_type_in_romance p r vote_type w ≡ (err wrong_vote, w)
  unfolding change_active_user_vote_type_in_romance
  empty_refused w h k = ground arith

  change_failed :
      (w : World) (e : Error)
      → VoteType.is_empty r.active_user_vote.vote_type ≡ false
      → VoteType.is_empty vote_type ≡ false
      → (updated_to w).0 ≡ err e
      → change_active_user_vote_type_in_romance p r vote_type w
        ≡ (err (conflict_or e), (updated_to w).1)
  unfolding change_active_user_vote_type_in_romance
  change_failed w e h k u = ground arith

  pub change_conflicted :
      (w w' : World) (e : Error)
      → RowStands w r
      → change_active_user_vote_type_in_romance p r vote_type w ≡ (err e, w')
      → is_version_conflict e ≡ true
      → stored w' ≡ stored w
  unfolding is_version_conflict
  change_conflicted w w' e b f c =
      elim (Bool-cases (VoteType.is_empty r.active_user_vote.vote_type)) [
        | inl unvoted ↦ cc (unvoted_refused w unvoted)
        | inr before ↦ elim (Bool-cases (VoteType.is_empty vote_type)) [
          | inl empty ↦ cc (empty_refused w before empty)
          | inr after ↦ answered _ refl before after
        ]
      ]
    where
      answered :
          (a : Result Item)
          → (updated_to w).0 ≡ a
          → VoteType.is_empty r.active_user_vote.vote_type ≡ false
          → VoteType.is_empty vote_type ≡ false
          → stored w' ≡ stored w
      answered (ok new) h before after = cc (
          (change_stores p stored r valid lawful vote_type w h b before after room named
            (now_int32 w)).0)
      answered (err e') h before after =
          let failed = sym (change_failed w e' before after h) ∙ f in
          ap stored (sym (ap (λ x. x.1) failed))
          ∙ (conflict_keeps p stored r valid lawful _ (p.now w).1 e' h (cc (failed, c))
              ∙ lawful.clock_keeps w)

  pub change_done :
      (w w' : World) (updated : Romance)
      → RowStands w r
      → change_active_user_vote_type_in_romance p r vote_type w ≡ (ok updated, w')
      → (VoteType.is_empty r.active_user_vote.vote_type ≡ false)
        × (updated ≡ changed r vote_type (p.now w).0)
        × RowStands w' (changed r vote_type (p.now w).0)
  change_done w w' updated b f =
      elim (Bool-cases (VoteType.is_empty r.active_user_vote.vote_type)) [
        | inl unvoted ↦ cc (unvoted_refused w unvoted)
        | inr before ↦ elim (Bool-cases (VoteType.is_empty vote_type)) [
          | inl empty ↦ cc (empty_refused w before empty)
          | inr after ↦ let (x, y) = answered _ refl before after in (before, x, y)
        ]
      ]
    where
      answered :
          (a : Result Item)
          → (updated_to w).0 ≡ a
          → VoteType.is_empty r.active_user_vote.vote_type ≡ false
          → VoteType.is_empty vote_type ≡ false
          → (updated ≡ changed r vote_type (p.now w).0)
            × RowStands w' (changed r vote_type (p.now w).0)
      answered (ok new) h before after =
          let (x, y) =
            change_stores p stored r valid lawful vote_type w h b before after room named
              (now_int32 w) in
          (cc, rw f at y)
      answered (err e) h before after = cc (change_failed w e before after h)

  failed_write :
      (u w' : World) (e : Error)
      → change_on (new_romances_repository p fuel) vote_type r u ≡ (write_failed e, w')
      → (d : Result Romance) (v : World)
      → change_active_user_vote_type_in_romance p r vote_type u ≡ (d, v)
      → change_active_user_vote_type_in_romance p r vote_type u ≡ (err e, w')
  unfolding change_on
  failed_write u w' e h (ok updated) v k = absurd (ground arith)
  failed_write u w' e h (err x) v k = ground arith

  pass_keeps :
      (w w' : World) (e : Error)
      → RowStands w r
      → attempt w ≡ (write_failed e, w')
      → is_version_conflict e ≡ true
      → stored w' ≡ stored w
  pass_keeps w w' e b h c = elim (read_answered p stored r valid lawful _ w refl b) [
    | inl (e', u, g) ↦ cc (
        attempt_change_failed_read (new_romances_repository p fuel) r.active_user_vote.id vote_type
          e' w u g)
    | inr (u, g, k) ↦
        change_conflicted u w' e (rw k b)
          (failed_write u w' e
            (sym (
                attempt_change_read (new_romances_repository p fuel) r.active_user_vote.id vote_type
                  r w u g)
              ∙ h)
            _ _ refl)
          c
        ∙ k
  ]

  Changes-stands :
      (v out : World) (vote : Vote)
      → RowStands v r
      → Changes (new_romances_repository p fuel) r.active_user_vote.id vote_type v vote out
      → (is_vote_type_change_allowed r.active_user_vote vote_type ≡ ok tt)
        × (VoteType.is_empty r.active_user_vote.vote_type ≡ false)
        × (now : Time) × (vote ≡ (changed r vote_type now).active_user_vote)
        × RowStands out (changed r vote_type now)
  Changes-stands v out vote b (changes romance updated read g allowed wrote shown) =
      let (same, k) = read_done p stored r valid lawful v read romance b g in
      let (before, is_changed, stands) =
        change_done read out updated (rw k b) (
          ap (λ x. change_active_user_vote_type_in_romance p x vote_type read) (sym same)
          ∙ wrote) in
      (
        ap (λ x. is_vote_type_change_allowed x.active_user_vote vote_type) (sym same) ∙ allowed,
        before,
        (p.now read).0,
        shown ∙ ap (λ x. x.active_user_vote) is_changed,
        stands,
      )

  -- When the operation returns a vote, over the store that keeps its rows in DynamoDB, the pair's
  -- row stood for a romance with a vote that may be changed so; it then stands for that romance
  -- with the vote changed and its version one higher, and what is returned is the changed vote.
  -- Nobody else writes the row at the same time, the version has room in a uint32, and the time of
  -- the change fits an int32.
  pub change_user_vote_stands :
      (w out : World) (vote : Vote)
      → RowStands w r
      → change_user_vote (new_romances_repository p fuel) r.active_user_vote.id vote_type w
        ≡ (ok vote, out)
      → (is_vote_type_change_allowed r.active_user_vote vote_type ≡ ok tt)
        × (VoteType.is_empty r.active_user_vote.vote_type ≡ false)
        × (now : Time) × (vote ≡ (changed r vote_type now).active_user_vote)
        × RowStands out (changed r vote_type now)
  change_user_vote_stands w out vote b h =
      let (n, v, bound, conflicts, done) =
        change_success (new_romances_repository p fuel) r.active_user_vote.id vote_type w out vote
          h in
      Changes-stands v out vote
        (Conflicts-keep p stored r valid lawful attempt pass_keeps b conflicts) done
