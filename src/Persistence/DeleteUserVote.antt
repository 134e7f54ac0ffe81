-- ===== src/Persistence/DeleteUserVote.antt =====
-- `DeleteUserVote`, from the operation down to the stored row.
use recs.Prelude.{
  ℕ, ◌+◌, ◌^◌, ◌<◌, String, ◌≡◌, ◌≢◌, refl, ap, sym, ◌∙◌, inl, inr, true, false, arith, Bool-cases,
  if◌then◌else◌,
}
use recs.Errors.{Error, Result, ok, err, is_version_conflict}
use recs.SharedKernel.Validity.{IsVoteId}
use recs.Romance.{Romance, is_empty}
use recs.Dynamo.Attributes.{Item}
use recs.Platform.{Platform}
use recs.RomancesRepository.Represents.{IsLawful}
use recs.RomancesRepository.Get.{get_romance}
use recs.RomancesRepository.Writes.{delete_active_user_vote_from_romance, delete_input, conflict_or}
use recs.RomancesRepository.Writes.Refinement.{cleared}
use recs.RomancesRepository.Storage.{delete_stores}
use recs.Operation.Retry.{Attempt, write_failed}
use recs.Operation.DeleteUserVote.{delete_user_vote, attempt_delete}
use recs.Operation.DeleteUserVote.Success.{Deletes, deletes, delete_success}
use recs.Persistence.{new_romances_repository}
use recs.Persistence.Rows.{Stands, conflict_keeps, Conflicts-keep, read_answered, read_done}

-- What is left of a romance: an empty one stays as it is.
abbrev pub remaining : Romance → Romance
remaining r = if is_empty r then r else cleared r

module _ {World : Type 0} (p : Platform World) (stored : World → String → Item → Item) (fuel : ℕ)
    (r : Romance) (valid : IsVoteId r.active_user_vote.id)
    (lawful : IsLawful p stored r.active_user_vote.id) (room : r.version + 1 < 2 ^ 32) where
  abbrev attempt : World → Attempt (Unit {0}) × World
  attempt = attempt_delete (new_romances_repository p fuel) r.active_user_vote.id

  abbrev RowStands : World → Romance → Type 0
  RowStands = Stands p stored r valid lawful

  delete_empty :
      (w : World) → is_empty r ≡ true → delete_active_user_vote_from_romance p r w ≡ (ok tt, w)
  unfolding delete_active_user_vote_from_romance
  delete_empty w h = ground arith

  delete_failed :
      (w : World) (e : Error)
      → is_empty r ≡ false
      → (p.client.update_item (delete_input p r) w).0 ≡ err e
      → delete_active_user_vote_from_romance p r w
        ≡ (err (conflict_or e), (p.client.update_item (delete_input p r) w).1)
  unfolding delete_active_user_vote_from_romance
  delete_failed w e h k = ground arith

  pub delete_conflicted :
      (a : Result Item) (w w' : World) (e : Error)
      → (p.client.update_item (delete_input p r) w).0 ≡ a
      → RowStands w r
      → delete_active_user_vote_from_romance p r w ≡ (err e, w')
      → is_version_conflict e ≡ true
      → stored w' ≡ stored w
  delete_conflicted a w w' e h b f c = elim (Bool-cases (is_empty r)) [
    | inl empty ↦ cc (delete_empty w empty)
    | inr full ↦ answered a h full
  ]
    where
      answered :
          (a : Result Item)
          → (p.client.update_item (delete_input p r) w).0 ≡ a
          → is_empty r ≡ false
          → stored w' ≡ stored w
      answered (ok new) h full = cc ((delete_stores p stored r valid lawful w h b full room).0)
      answered (err e') h full =
          let failed = sym (delete_failed w e' full h) ∙ f in
          ap stored (sym (ap (λ x. x.1) failed))
          ∙ conflict_keeps p stored r valid lawful (delete_input p r) w e' h (cc (failed, c))

  pub delete_done :
      (w w' : World)
      → RowStands w r
      → delete_active_user_vote_from_romance p r w ≡ (ok tt, w')
      → RowStands w' (remaining r)
  delete_done w w' b f = elim (Bool-cases (is_empty r)) [
    | inl empty ↦ rw (empty, ap (λ x. x.1) (sym f ∙ delete_empty w empty)) b
    | inr full ↦ rw full (answered _ refl full)
  ]
    where
      answered :
          (a : Result Item)
          → (p.client.update_item (delete_input p r) w).0 ≡ a
          → is_empty r ≡ false
          → RowStands w' (cleared r)
      answered (ok new) h full = rw f at (delete_stores p stored r valid lawful w h b full room).1
      answered (err e) h full = cc (delete_failed w e full h)

  attempt_failed :
      (w u w' : World) (e : Error)
      → get_romance p r.active_user_vote.id w ≡ (ok r, u)
      → attempt w ≡ (write_failed e, w')
      → (d : Result (Unit {0})) (v : World) → delete_active_user_vote_from_romance p r u ≡ (d, v)
      → delete_active_user_vote_from_romance p r u ≡ (err e, w')
  unfolding attempt_delete
  attempt_failed w u w' e g h (ok tt) v k = absurd (ground arith)
  attempt_failed w u w' e g h (err x) v k = ground arith

  attempt_unread :
      (w u w' : World) (e e' : Error)
      → get_romance p r.active_user_vote.id w ≡ (err e', u)
      → attempt w ≢ (write_failed e, w')
  unfolding attempt_delete
  attempt_unread w u w' e e' g h = ground arith

  pass_keeps :
      (w w' : World) (e : Error)
      → RowStands w r
      → attempt w ≡ (write_failed e, w')
      → is_version_conflict e ≡ true
      → stored w' ≡ stored w
  pass_keeps w w' e b h c = elim (read_answered p stored r valid lawful _ w refl b) [
    | inl (e', u, g) ↦ absurd (attempt_unread w u w' e e' g h)
    | inr (u, g, k) ↦
        delete_conflicted _ u w' e refl (rw k b) (attempt_failed w u w' e g h _ _ refl) c ∙ k
  ]

  Deletes-stands :
      (v out : World)
      → RowStands v r
      → Deletes (new_romances_repository p fuel) r.active_user_vote.id v out
      → RowStands out (remaining r)
  Deletes-stands v out b (deletes romance read g done) =
      let (same, k) = read_done p stored r valid lawful v read romance b g in
      delete_done read out (rw k b)
        (ap (λ x. delete_active_user_vote_from_romance p x read) (sym same) ∙ done)

  -- When the operation succeeds, over the store that keeps its rows in DynamoDB, the pair's row
  -- stands for the romance that it stood for, without the active vote, or as it was if it had no
  -- votes. Nobody else writes the row at the same time, and the version has room in a uint32.
  pub delete_user_vote_stands :
      (w out : World)
      → RowStands w r
      → delete_user_vote (new_romances_repository p fuel) r.active_user_vote.id w ≡ (ok tt, out)
      → RowStands out (remaining r)
  delete_user_vote_stands w out b h =
      let (n, v, bound, conflicts, deleted) =
        delete_success (new_romances_repository p fuel) r.active_user_vote.id w out h in
      Deletes-stands v out (Conflicts-keep p stored r valid lawful attempt pass_keeps b conflicts)
        deleted
