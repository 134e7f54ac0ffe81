-- ===== src/Interleaving/Conflicts.antt =====
-- A write that fails with a version conflict changes nothing.
use mathlib.Core.Path.{subst}
use recs.Prelude.{◌+◌, ◌^◌, ◌<◌, String, ◌≡◌, ◌≢◌, refl, sym, ap, ◌∙◌, true, false, arith}
use recs.Errors.{Error, Result, ok, err, is_version_conflict}
use recs.SharedKernel.Validity.{IsVoteId}
use recs.Time.{Time}
use recs.VoteType
use recs.VoteType.{VoteType}
use recs.Romance.{Romance, is_empty}
use recs.Dynamo.Attributes.{Item}
use recs.Documents.Decoding.{is_int32}
use recs.Platform.{Platform}
use recs.RomancesRepository.Get.{romances_table_name}
use recs.RomancesRepository.Represents.{IsLawful, Represents, row_key}
use recs.RomancesRepository.Storage.{add_stores, change_stores, delete_stores}
use recs.RomancesRepository.Writes.{
  add_active_user_vote_to_romance, add_input, change_active_user_vote_type_in_romance, change_input,
  delete_active_user_vote_from_romance, delete_input, conflict_or,
}
use recs.Persistence.Rows.{Stands, conflict_keeps}
use recs.Interleaving.{Fits, Write, add_vote, change_vote, delete_vote, write_to}
use recs.Interleaving.Admission.{add_same, change_same, delete_same, admitted}

module _ {World : Type 0} (p : Platform World) (stored : World → String → Item → Item) (r : Romance)
    (valid : IsVoteId r.active_user_vote.id) (lawful : IsLawful p stored r.active_user_vote.id)
    (room : r.version + 1 < 2 ^ 32) (now_int32 : (w : World) → is_int32 (p.now w).0.unix ≡ true)
    (w w' : World) (e : Error) where
  abbrev RowStands : World → Romance → Type 0
  RowStands = Stands p stored r valid lawful

  -- a write that fails: the database refused it, or answered it
  add_fails :
      (vote_type : VoteType) (voted_at : Time) (x : Error)
      → (p.client.update_item (add_input p r vote_type voted_at (p.now w).0) (p.now w).1).0 ≡ err x
      → write_to p (add_vote vote_type voted_at) r w ≡ (err e, w')
      → (e ≡ conflict_or x)
        × (w' ≡ (p.client.update_item (add_input p r vote_type voted_at (p.now w).0) (p.now w).1).1)
  unfolding write_to add_active_user_vote_to_romance
  add_fails vote_type voted_at x u h = (ground arith, ground arith)

  change_fails :
      (vote_type : VoteType) (x : Error)
      → (p.client.update_item (change_input p r vote_type (p.now w).0) (p.now w).1).0 ≡ err x
      → write_to p (change_vote vote_type) r w ≡ (err e, w')
      → is_version_conflict e ≡ true
      → (e ≡ conflict_or x)
        × (w' ≡ (p.client.update_item (change_input p r vote_type (p.now w).0) (p.now w).1).1)
  unfolding write_to change_active_user_vote_type_in_romance is_version_conflict
  change_fails vote_type x u h c = (ground arith, ground arith)

  delete_fails :
      (x : Error)
      → (p.client.update_item (delete_input p r) w).0 ≡ err x
      → write_to p delete_vote r w ≡ (err e, w')
      → (e ≡ conflict_or x) × (w' ≡ (p.client.update_item (delete_input p r) w).1)
  unfolding write_to delete_active_user_vote_from_romance
  delete_fails x u h = (ground arith, ground arith)

  -- nor does one that the database answered, whose romance is the stored one
  add_succeeds :
      (vote_type : VoteType) (voted_at : Time) (u : Romance)
      → (add_active_user_vote_to_romance p r vote_type voted_at w).0 ≡ ok u
      → write_to p (add_vote vote_type voted_at) r w ≢ (err e, w')
  unfolding write_to
  add_succeeds vote_type voted_at u h k = ground arith

  change_succeeds :
      (vote_type : VoteType) (u : Romance)
      → (change_active_user_vote_type_in_romance p r vote_type w).0 ≡ ok u
      → write_to p (change_vote vote_type) r w ≢ (err e, w')
  unfolding write_to
  change_succeeds vote_type u h k = ground arith

  delete_succeeds :
      (delete_active_user_vote_from_romance p r w).0 ≡ ok tt
      → write_to p delete_vote r w ≢ (err e, w')
  unfolding write_to
  delete_succeeds h k = ground arith

  -- the tests before a change are not version conflicts
  change_tested :
      (vote_type : VoteType)
      → write_to p (change_vote vote_type) r w ≡ (err e, w')
      → is_version_conflict e ≡ true
      → (VoteType.is_empty r.active_user_vote.vote_type ≡ false)
        × (VoteType.is_empty vote_type ≡ false)
  unfolding write_to change_active_user_vote_type_in_romance is_version_conflict
  change_tested vote_type h c = (ground arith, ground arith)

  delete_tested : write_to p delete_vote r w ≡ (err e, w') → is_empty r ≡ false
  unfolding write_to delete_active_user_vote_from_romance
  delete_tested h = ground arith

  abbrev here : Item
  here = stored w romances_table_name (row_key p r.active_user_vote.id)

  module _ (current : Romance) (stands : Represents p r.active_user_vote.id here current)
      (agrees : r.version ≡ current.version → r ≡ current) where
    standing : r.version ≡ current.version → RowStands w r
    standing same =
        subst (λ (x : Romance). Represents p r.active_user_vote.id here x) (sym (agrees same))
          stands

    add_kept :
        (vote_type : VoteType) (voted_at : Time) (u : Result Item)
        → Fits (add_vote vote_type voted_at)
        → (p.client.update_item (add_input p r vote_type voted_at (p.now w).0) (p.now w).1).0 ≡ u
        → write_to p (add_vote vote_type voted_at) r w ≡ (err e, w')
        → is_version_conflict e ≡ true
        → stored w' ≡ stored w
    unfolding add_input
    add_kept vote_type voted_at (ok new) (named, at_int32) a h c =
        let same = add_same p r current here vote_type voted_at (p.now w).0 stands (
          admitted p stored r current lawful w _ (p.now w).1 new refl refl a
            (lawful.clock_keeps w)) in
        absurd (
          add_succeeds vote_type voted_at _
            (add_stores p stored r valid lawful vote_type voted_at w a (standing same) room named
              at_int32 (now_int32 w)).0
            h)
    add_kept vote_type voted_at (err x) fit a h c =
        let (s, v) = add_fails vote_type voted_at x a h in
        ap stored v
        ∙ (conflict_keeps p stored r valid lawful _ (p.now w).1 x a (cc) ∙ lawful.clock_keeps w)

    change_kept :
        (vote_type : VoteType) (u : Result Item)
        → Fits (change_vote vote_type)
        → (p.client.update_item (change_input p r vote_type (p.now w).0) (p.now w).1).0 ≡ u
        → write_to p (change_vote vote_type) r w ≡ (err e, w')
        → is_version_conflict e ≡ true
        → stored w' ≡ stored w
    unfolding change_input
    change_kept vote_type (ok new) named a h c =
        let same = change_same p r current here vote_type (p.now w).0 stands (
          admitted p stored r current lawful w _ (p.now w).1 new refl refl a
            (lawful.clock_keeps w)) in
        let (before, after) = change_tested vote_type h c in
        absurd (
          change_succeeds vote_type _
            (change_stores p stored r valid lawful vote_type w a (standing same) before after room
              named (now_int32 w)).0
            h)
    change_kept vote_type (err x) named a h c =
        let (s, v) = change_fails vote_type x a h c in
        ap stored v
        ∙ (conflict_keeps p stored r valid lawful _ (p.now w).1 x a (cc) ∙ lawful.clock_keeps w)

    delete_kept :
        (u : Result Item)
        → (p.client.update_item (delete_input p r) w).0 ≡ u
        → write_to p delete_vote r w ≡ (err e, w')
        → is_version_conflict e ≡ true
        → stored w' ≡ stored w
    unfolding delete_input
    delete_kept (ok new) a h c =
        let same =
          delete_same p r current here stands
            (admitted p stored r current lawful w _ w new refl refl a refl) in
        absurd (
          delete_succeeds
            (delete_stores p stored r valid lawful w a (standing same) (delete_tested h) room).0 h)
    delete_kept (err x) a h c =
        let (s, v) = delete_fails x a h in
        ap stored v ∙ conflict_keeps p stored r valid lawful _ w x a (cc)

    -- what is stored before is stored after
    pub write_kept :
        (write : Write)
        → Fits write
        → write_to p write r w ≡ (err e, w')
        → is_version_conflict e ≡ true
        → stored w' ≡ stored w
    write_kept (add_vote vote_type voted_at) fit h c = add_kept vote_type voted_at _ fit refl h c
    write_kept (change_vote vote_type) fit h c = change_kept vote_type _ fit refl h c
    write_kept delete_vote fit h c = delete_kept _ refl h c
