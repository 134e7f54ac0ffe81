-- ===== src/RomancesRepository/Locking.antt =====
-- Optimistic locking: an update is accepted only on the version that was read.
use recs.Prelude.{String, ◌≡◌, ◌≢◌, refl, ap, ap₂, ◌∙◌, false, arith, ◌==◌}
use recs.Errors.{err, conditional_check_failed, is_conditional_check_failed, version_conflict}
use recs.Time.{Time}
use recs.VoteType
use recs.VoteType.{VoteType}
use recs.Romance
use recs.Romance.{Romance, create_empty_romance}
use recs.Dynamo.{UpdateItemInput}
use recs.Dynamo.Attributes.{Item}
use recs.Dynamo.Expressions.{admits}
use recs.Platform.{Platform}
use recs.RomancesRepository.Get.{romances_table_name}
use recs.RomancesRepository.Represents.{IsRow, IsLawful, Represents, absent, row, row_key}
use recs.RomancesRepository.Writes.{
  add_active_user_vote_to_romance, add_input, change_active_user_vote_type_in_romance, change_input,
  delete_active_user_vote_from_romance, delete_input,
}

module _ {World : Type 0} (p : Platform World) (r current : Romance) (item : Item) where
  -- The condition of an add holds exactly when the version that was read is the stored one, where
  -- a row that is not there has version 0.
  pub admits-add :
      (vote_type : VoteType) (voted_at now : Time)
      → Represents p r.active_user_vote.id item current
      → admits (add_input p r vote_type voted_at now) item ≡ (r.version == current.version)
  unfolding add_input admits create_empty_romance
  admits-add vote_type voted_at now (absent e f) = ground arith
  admits-add vote_type voted_at now (row h) =
      ground (arith, h.pk_id, h.sk_id, h.versioned, h.positive)

  -- That of a change holds exactly when the row is there and the versions agree.
  pub admits-change :
      (vote_type : VoteType) (now : Time)
      → IsRow p r.active_user_vote.id item current
      → admits (change_input p r vote_type now) item ≡ (r.version == current.version)
  unfolding change_input admits
  admits-change vote_type now h = ground (arith, h.versioned)

  pub admits-delete :
      IsRow p r.active_user_vote.id item current
      → admits (delete_input p r) item ≡ (r.version == current.version)
  unfolding delete_input admits
  admits-delete h = ground (arith, h.versioned)

module _ {World : Type 0} (p : Platform World) (stored : World → String → Item → Item)
    (r current : Romance) (lawful : IsLawful p stored r.active_user_vote.id) (w : World)
    (stale : r.version ≢ current.version) where
  -- an update of the pair's row that the stored version does not admit
  refused :
      (i : UpdateItemInput) (v : World)
      → i.table_name ≡ romances_table_name
      → i.key ≡ row_key p r.active_user_vote.id
      → admits i (stored v romances_table_name (row_key p r.active_user_vote.id)) ≡ false
      → ((p.client.update_item i v).0 ≡ err conditional_check_failed)
        × (stored (p.client.update_item i v).1 ≡ stored v)
  unfolding is_conditional_check_failed
  refused i v t k a =
      let e = lawful.database.update_item_refuses i v (ap (admits i) (ap₂ (stored v) t k) ∙ a) in
      (e, lawful.database.update_item_fails i v _ e refl)

  other_version : (r.version == current.version) ≡ false
  other_version = ground arith

  -- what the calls do with the database's refusal
  add_conflicts :
      (vote_type : VoteType) (voted_at : Time)
      → (p.client.update_item (add_input p r vote_type voted_at (p.now w).0) (p.now w).1).0
        ≡ err conditional_check_failed
      → add_active_user_vote_to_romance p r vote_type voted_at w ≡ (
        err version_conflict,
        (p.client.update_item (add_input p r vote_type voted_at (p.now w).0) (p.now w).1).1,
      )
  unfolding add_active_user_vote_to_romance
  add_conflicts vote_type voted_at e = ground arith

  change_conflicts :
      (vote_type : VoteType)
      → VoteType.is_empty r.active_user_vote.vote_type ≡ false
      → VoteType.is_empty vote_type ≡ false
      → (p.client.update_item (change_input p r vote_type (p.now w).0) (p.now w).1).0
        ≡ err conditional_check_failed
      → change_active_user_vote_type_in_romance p r vote_type w ≡ (
        err version_conflict,
        (p.client.update_item (change_input p r vote_type (p.now w).0) (p.now w).1).1,
      )
  unfolding change_active_user_vote_type_in_romance
  change_conflicts vote_type a b e = ground arith

  delete_conflicts :
      Romance.is_empty r ≡ false
      → (p.client.update_item (delete_input p r) w).0 ≡ err conditional_check_failed
      → delete_active_user_vote_from_romance p r w
        ≡ (err version_conflict, (p.client.update_item (delete_input p r) w).1)
  unfolding delete_active_user_vote_from_romance
  delete_conflicts a e = ground arith

  -- A vote that is added to a romance of another version than the stored one, be it older or
  -- newer, or of a row that is there or not, is refused as a version conflict, and what is stored
  -- stays as it is.
  pub stale_add_refused :
      (vote_type : VoteType) (voted_at : Time)
      → Represents p r.active_user_vote.id
          (stored w romances_table_name (row_key p r.active_user_vote.id))
          current
      → let (out, w') = add_active_user_vote_to_romance p r vote_type voted_at w in
        (out ≡ err version_conflict) × (stored w' ≡ stored w)
  unfolding add_input
  stale_add_refused vote_type voted_at h =
      let (e, kept) = refused (add_input p r vote_type voted_at (p.now w).0) (p.now w).1 refl refl (
        rw lawful.clock_keeps
          (admits-add p r current _ vote_type voted_at (p.now w).0 h ∙ other_version)) in
      rw (add_conflicts vote_type voted_at e) (refl, kept ∙ lawful.clock_keeps w)

  -- A change or a deletion of a vote on a row of another version is refused as a version conflict,
  -- and what is stored stays as it is.
  pub stale_change_refused :
      (vote_type : VoteType)
      → IsRow p r.active_user_vote.id
          (stored w romances_table_name (row_key p r.active_user_vote.id))
          current
      → VoteType.is_empty r.active_user_vote.vote_type ≡ false
      → VoteType.is_empty vote_type ≡ false
      → let (out, w') = change_active_user_vote_type_in_romance p r vote_type w in
        let (gone, w'') = delete_active_user_vote_from_romance p r w in
        (out ≡ err version_conflict)
        × (stored w' ≡ stored w)
        × (gone ≡ err version_conflict)
        × (stored w'' ≡ stored w)
  unfolding change_input delete_input
  stale_change_refused vote_type h a b =
      let (e, kept) = refused (change_input p r vote_type (p.now w).0) (p.now w).1 refl refl (
        rw lawful.clock_keeps
          (admits-change p r current _ vote_type (p.now w).0 h ∙ other_version)) in
      let (d, still) =
        refused (delete_input p r) w refl refl (admits-delete p r current _ h ∙ other_version) in
      rw (change_conflicts vote_type a b e)
        (rw (delete_conflicts (not_empty a) d) (refl, kept ∙ lawful.clock_keeps w, refl, still))
    where
      not_empty :
          VoteType.is_empty r.active_user_vote.vote_type ≡ false → Romance.is_empty r ≡ false
      not_empty x = unfold VoteType.is_empty Romance.is_empty in ground arith
