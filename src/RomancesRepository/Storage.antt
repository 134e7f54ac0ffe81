-- ===== src/RomancesRepository/Storage.antt =====
-- What the repository's operations on a romance do to the stored row, and what they return, under the
-- documented behaviour of the database.
use recs.Prelude.{◌+◌, ◌^◌, ◌<◌, String, ◌≡◌, refl, ap, ap₂, sym, ◌∙◌, true, false, some, arith}
use recs.Errors.{ok}
use recs.SharedKernel.Validity.{IsVoteId}
use recs.Time.{Time}
use recs.VoteType.{VoteType, vote_type_empty}
use recs.VoteType
use recs.Romance
use recs.Romance.{Romance}
use recs.Dynamo.{UpdateItemInput}
use recs.Dynamo.Attributes.{Item}
use recs.Dynamo.Expressions.{or_key, update_of}
use recs.Documents.Decoding.{is_int32}
use recs.Platform.{Platform}
use recs.RomancesRepository.Ttl.{get_ttl_seconds_for_votes_pair}
use recs.RomancesRepository.Get.{romances_table_name}
use recs.RomancesRepository.Represents.{
  IsLawful, Represents, row, is_pk, row_key, IsBase-or_key, read_updated-IsBase,
}
use recs.RomancesRepository.Writes.{
  add_active_user_vote_to_romance, add_input, change_active_user_vote_type_in_romance, change_input,
  delete_active_user_vote_from_romance, delete_input, read_updated,
}
use recs.RomancesRepository.Writes.Added.{update_of-add, added_item}
use recs.RomancesRepository.Writes.Changed.{update_of-change, changed_item}
use recs.RomancesRepository.Writes.Deleted.{update_of-delete, deleted_item}
use recs.RomancesRepository.Writes.Refinement.{
  voted, changed, cleared, IsRow-added, IsRow-changed, IsRow-deleted,
}

some-inj {ℓ} : {A : Type ℓ} {a b : A} → some a ≡ some b → a ≡ b
some-inj h = cc

module _ {World : Type 0} (p : Platform World) (stored : World → String → Item → Item) (r : Romance)
    (valid : IsVoteId r.active_user_vote.id)
    (lawful : IsLawful p stored r.active_user_vote.id) where
  -- the item that is stored for the romance's pair
  abbrev pub stored_row : World → Item
  stored_row w = stored w romances_table_name (row_key p r.active_user_vote.id)

  -- a successful update of the pair's row returns and stores the item that it makes
  update_stores :
      (i : UpdateItemInput) (w : World) (new made : Item)
      → i.table_name ≡ romances_table_name
      → i.key ≡ row_key p r.active_user_vote.id
      → (p.client.update_item i w).0 ≡ ok new
      → update_of i (stored_row w) ≡ some made
      → (new ≡ made) × (stored_row (p.client.update_item i w).1 ≡ made)
  update_stores i w new made t k h m =
      let same : new ≡ made = some-inj (
        sym (lawful.database.update_item_makes i w new h)
        ∙ (ap (update_of i) (ap₂ (stored w) t k) ∙ m)) in
      (
        same,
        ap₂ (stored (p.client.update_item i w).1) (sym t) (sym k)
            ∙ (lawful.database.update_item_stores i w new h ∙ same),
      )

  module _ (vote_type : VoteType) (voted_at : Time) (w : World) {new : Item}
      (answer : (p.client.update_item (add_input p r vote_type voted_at (p.now w).0) (p.now w).1).0
        ≡ ok new)
      (before : Represents p r.active_user_vote.id (stored_row w) r) where
    add_call :
        add_active_user_vote_to_romance p r vote_type voted_at w
        ≡ read_updated p r.active_user_vote.id new
            (p.client.update_item (add_input p r vote_type voted_at (p.now w).0) (p.now w).1).1
    unfolding add_active_user_vote_to_romance
    add_call = ground arith

    abbrev add_made : Item
    add_made =
        added_item (is_pk p r.active_user_vote.id) vote_type voted_at.unix (p.now w).0.unix
          (r.version + 1)
          (get_ttl_seconds_for_votes_pair p.config vote_type r.peer_user_vote.vote_type)
          (or_key (row_key p r.active_user_vote.id) (stored_row w))

    add_makes :
        (new ≡ add_made)
        × (stored_row
              (p.client.update_item (add_input p r vote_type voted_at (p.now w).0) (p.now w).1).1
            ≡ add_made)
    unfolding add_input
    add_makes =
        update_stores (add_input p r vote_type voted_at (p.now w).0) (p.now w).1 new add_made refl
          refl answer
          (update_of-add p r vote_type voted_at (p.now w).0 (stored_row (p.now w).1)
            ∙ rw lawful.clock_keeps)

    -- When the database accepts the update, a vote is added to the romance and nothing else
    -- changes in it but the version, which goes up by one: that is what is returned, and what the
    -- stored row then stands for. The row must stand for the romance before, the version have room
    -- in a uint32, and the times in an int32.
    pub add_stores :
        r.version + 1 < 2 ^ 32
        → vote_type < 256
        → is_int32 voted_at.unix ≡ true
        → is_int32 (p.now w).0.unix ≡ true
        → let (out, w') = add_active_user_vote_to_romance p r vote_type voted_at w in
          (out ≡ ok (voted r vote_type voted_at (p.now w).0))
          × Represents p r.active_user_vote.id
              (stored_row w')
              (voted r vote_type voted_at (p.now w).0)
    add_stores room a x y =
        let (same, kept) = add_makes in
        let w' =
          (p.client.update_item (add_input p r vote_type voted_at (p.now w).0) (p.now w).1).1 in
        let made =
          IsRow-added p r.active_user_vote.id (IsBase-or_key p r.active_user_vote.id before) room
            vote_type voted_at (p.now w).0
            (get_ttl_seconds_for_votes_pair p.config vote_type r.peer_user_vote.vote_type) a x y in
        rw
          (add_call
            ∙ (ap (λ item. read_updated p r.active_user_vote.id item w') same
                ∙ read_updated-IsBase p stored r.active_user_vote.id valid lawful w' made.base))
          (refl, rw kept (row made))

  module _ (vote_type : VoteType) (w : World) {new : Item}
      (answer : (p.client.update_item (change_input p r vote_type (p.now w).0) (p.now w).1).0
        ≡ ok new)
      (before : Represents p r.active_user_vote.id (stored_row w) r)
      (voted_before : VoteType.is_empty r.active_user_vote.vote_type ≡ false)
      (not_empty : VoteType.is_empty vote_type ≡ false) where
    change_call :
        change_active_user_vote_type_in_romance p r vote_type w
        ≡ read_updated p r.active_user_vote.id new
            (p.client.update_item (change_input p r vote_type (p.now w).0) (p.now w).1).1
    unfolding change_active_user_vote_type_in_romance
    change_call = ground arith

    abbrev change_made : Item
    change_made =
        changed_item (is_pk p r.active_user_vote.id) vote_type (p.now w).0.unix (r.version + 1)
          (get_ttl_seconds_for_votes_pair p.config vote_type r.peer_user_vote.vote_type)
          (or_key (row_key p r.active_user_vote.id) (stored_row w))

    change_makes :
        (new ≡ change_made)
        × (stored_row (p.client.update_item (change_input p r vote_type (p.now w).0) (p.now w).1).1
            ≡ change_made)
    unfolding change_input
    change_makes =
        update_stores (change_input p r vote_type (p.now w).0) (p.now w).1 new change_made refl refl
          answer
          (update_of-change p r vote_type (p.now w).0 (stored_row (p.now w).1)
            ∙ rw lawful.clock_keeps)

    -- When the database accepts the update, the active vote has the new type and the update time,
    -- the version goes up by one, and nothing else changes: that is what is returned, and what the
    -- stored row then stands for.
    pub change_stores :
        r.version + 1 < 2 ^ 32
        → vote_type < 256
        → is_int32 (p.now w).0.unix ≡ true
        → let (out, w') = change_active_user_vote_type_in_romance p r vote_type w in
          (out ≡ ok (changed r vote_type (p.now w).0))
          × Represents p r.active_user_vote.id (stored_row w') (changed r vote_type (p.now w).0)
    change_stores room a y =
        let (same, kept) = change_makes in
        let w' = (p.client.update_item (change_input p r vote_type (p.now w).0) (p.now w).1).1 in
        let made =
          IsRow-changed p r.active_user_vote.id (IsBase-or_key p r.active_user_vote.id before) room
            vote_type (p.now w).0
            (get_ttl_seconds_for_votes_pair p.config vote_type r.peer_user_vote.vote_type) a y in
        rw
          (change_call
            ∙ (ap (λ item. read_updated p r.active_user_vote.id item w') same
                ∙ read_updated-IsBase p stored r.active_user_vote.id valid lawful w' made.base))
          (refl, rw kept (row made))

  module _ (w : World) {new : Item}
      (answer : (p.client.update_item (delete_input p r) w).0 ≡ ok new)
      (before : Represents p r.active_user_vote.id (stored_row w) r)
      (not_empty : Romance.is_empty r ≡ false) where
    delete_call :
        delete_active_user_vote_from_romance p r w
        ≡ (ok tt, (p.client.update_item (delete_input p r) w).1)
    unfolding delete_active_user_vote_from_romance
    delete_call = ground arith

    abbrev delete_made : Item
    delete_made =
        deleted_item (is_pk p r.active_user_vote.id) (r.version + 1)
          (get_ttl_seconds_for_votes_pair p.config vote_type_empty r.peer_user_vote.vote_type)
          (or_key (row_key p r.active_user_vote.id) (stored_row w))

    delete_makes : stored_row (p.client.update_item (delete_input p r) w).1 ≡ delete_made
    unfolding delete_input
    delete_makes =
        let (same, kept) =
          update_stores (delete_input p r) w new delete_made refl refl answer
            (update_of-delete p r (stored_row w)) in
        kept

    -- When the database accepts the update of a romance that is not empty, the call succeeds, and
    -- the stored row then stands for the romance without the active vote, its version one higher.
    pub delete_stores :
        r.version + 1 < 2 ^ 32
        → let (out, w') = delete_active_user_vote_from_romance p r w in
          (out ≡ ok tt) × Represents p r.active_user_vote.id (stored_row w') (cleared r)
    delete_stores room =
        let made =
          IsRow-deleted p r.active_user_vote.id (IsBase-or_key p r.active_user_vote.id before) room
            (get_ttl_seconds_for_votes_pair p.config vote_type_empty r.peer_user_vote.vote_type) in
        rw delete_call (refl, rw delete_makes (row made))
