-- ===== src/RomancesRepository/Writes/Refinement.antt =====
-- What the updates mean for romances, and the rows that they make.
use recs.Prelude.{ℕ, ◌+◌, ◌^◌, ◌<◌, ◌≡◌, refl, ◌∙◌, Bool, true, false, some, arith}
use recs.Prelude.Int.{ℤ, pos}
use recs.SharedKernel.{VoteId}
use recs.Time.{Time, from_unix, unix_to_time_ptr}
use recs.VoteType.{VoteType}
use recs.Romance.{Romance, empty_vote}
use recs.Dynamo.Attributes.{Item, AttributeValue, get, get-put, get-delete}
use recs.Documents.{RomanceDocumentSchema}
use recs.Documents.Decoding.{document_of, is_int32}
use recs.Platform.{Platform}
use recs.RomancesRepository.Transform.{assemble_romance}
use recs.RomancesRepository.Represents.{IsBase, IsRow, is_pk}
use recs.RomancesRepository.Writes.Added.{added_item, added_document, document_of-added, fits-added}
use recs.RomancesRepository.Writes.Deleted.{
  deleted_item, deleted_document, document_of-deleted, fits-deleted,
}
use recs.RomancesRepository.Writes.Changed.{
  changed_item, changed_document, document_of-changed, fits-changed,
}

-- A romance after its active user has voted: whole seconds are kept, and a later update time stays.
abbrev pub voted : Romance → VoteType → Time → Time → Romance
voted r vote_type voted_at now = record r {
  active_user_vote = record r.active_user_vote {
    vote_type = vote_type;
    voted_at = some (from_unix voted_at.unix);
    created_at = some (from_unix now.unix);
  };
  version = r.version + 1;
}

-- after its active user's vote has another type
abbrev pub changed : Romance → VoteType → Time → Romance
changed r vote_type now = record r {
  active_user_vote = record r.active_user_vote {
    vote_type = vote_type;
    updated_at = some (from_unix now.unix);
  };
  version = r.version + 1;
}

-- after its active user's vote is gone
abbrev pub cleared : Romance → Romance
cleared r = record r {
  active_user_vote = empty_vote r.active_user_vote.id;
  version = r.version + 1;
}

voted-assemble :
    (b : Bool) (d : RomanceDocumentSchema) (id : VoteId) (vote_type : VoteType)
    (voted_at now : Time)
    → voted (assemble_romance b d id) vote_type voted_at now
      ≡ assemble_romance b
          (added_document b vote_type voted_at.unix now.unix
            ((assemble_romance b d id).version + 1)
            d)
          id
unfolding assemble_romance unix_to_time_ptr
voted-assemble true d id vote_type voted_at now = refl
voted-assemble false d id vote_type voted_at now = refl

changed-assemble :
    (b : Bool) (d : RomanceDocumentSchema) (id : VoteId) (vote_type : VoteType) (now : Time)
    → changed (assemble_romance b d id) vote_type now
      ≡ assemble_romance b
          (changed_document b vote_type now.unix ((assemble_romance b d id).version + 1) d)
          id
unfolding assemble_romance unix_to_time_ptr
changed-assemble true d id vote_type now = refl
changed-assemble false d id vote_type now = refl

cleared-assemble :
    (b : Bool) (d : RomanceDocumentSchema) (id : VoteId)
    → cleared (assemble_romance b d id)
      ≡ assemble_romance b (deleted_document b ((assemble_romance b d id).version + 1) d) id
unfolding assemble_romance unix_to_time_ptr
cleared-assemble true d id = refl
cleared-assemble false d id = refl

-- the attributes that no update of a vote touches, and the version that each sets
get_id-added :
    (b : Bool) (vote_type : VoteType) (voted_at now : ℤ) (version : ℕ) (ttl : ℤ) (base : Item)
    → let item = added_item b vote_type voted_at now version ttl base in
      (get "a" item ≡ get "a" base)
      × (get "b" item ≡ get "b" base)
      × (get "v" item ≡ some (AttributeValue.n (pos version)))
get_id-added true vote_type voted_at now version ttl base =
    (simp get-put, simp get-put, simp get-put)
get_id-added false vote_type voted_at now version ttl base =
    (simp get-put, simp get-put, simp get-put)

get_id-changed :
    (b : Bool) (vote_type : VoteType) (now : ℤ) (version : ℕ) (ttl : ℤ) (base : Item)
    → let item = changed_item b vote_type now version ttl base in
      (get "a" item ≡ get "a" base)
      × (get "b" item ≡ get "b" base)
      × (get "v" item ≡ some (AttributeValue.n (pos version)))
get_id-changed true vote_type now version ttl base = (simp get-put, simp get-put, simp get-put)
get_id-changed false vote_type now version ttl base = (simp get-put, simp get-put, simp get-put)

get_id-deleted :
    (b : Bool) (version : ℕ) (ttl : ℤ) (base : Item)
    → let item = deleted_item b version ttl base in
      (get "a" item ≡ get "a" base)
      × (get "b" item ≡ get "b" base)
      × (get "v" item ≡ some (AttributeValue.n (pos version)))
get_id-deleted true version ttl base =
    (simp (get-put, get-delete), simp (get-put, get-delete), simp (get-put, get-delete))
get_id-deleted false version ttl base =
    (simp (get-put, get-delete), simp (get-put, get-delete), simp (get-put, get-delete))

module _ {World : Type 0} (p : Platform World) (id : VoteId) {base : Item} {r : Romance}
    (h : IsBase p id base r) (room : r.version + 1 < 2 ^ 32) where
  pub IsRow-added :
      (vote_type : VoteType) (voted_at now : Time) (ttl : ℤ)
      → vote_type < 256
      → is_int32 voted_at.unix ≡ true
      → is_int32 now.unix ≡ true
      → IsRow p id
          (added_item (is_pk p id) vote_type voted_at.unix now.unix (r.version + 1) ttl base)
          (voted r vote_type voted_at now)
  IsRow-added vote_type voted_at now ttl a x y =
      let (ga, gb, gv) =
        get_id-added (is_pk p id) vote_type voted_at.unix now.unix (r.version + 1) ttl base in
      record {
        base = record {
          fitting = fits-added (is_pk p id) _ _ _ _ ttl base h.fitting a room x y;
          pk_id = ga ∙ h.pk_id;
          sk_id = gb ∙ h.sk_id;
          meaning = rw document_of-added (
              rw h.meaning
                (voted-assemble (is_pk p id) (document_of base) id vote_type voted_at now));
        };
        versioned = gv;
        positive = λ e. absurd (omega arith);
      }

  pub IsRow-changed :
      (vote_type : VoteType) (now : Time) (ttl : ℤ)
      → vote_type < 256
      → is_int32 now.unix ≡ true
      → IsRow p id
          (changed_item (is_pk p id) vote_type now.unix (r.version + 1) ttl base)
          (changed r vote_type now)
  IsRow-changed vote_type now ttl a y =
      let (ga, gb, gv) = get_id-changed (is_pk p id) vote_type now.unix (r.version + 1) ttl base in
      record {
        base = record {
          fitting = fits-changed (is_pk p id) _ _ _ ttl base h.fitting a room y;
          pk_id = ga ∙ h.pk_id;
          sk_id = gb ∙ h.sk_id;
          meaning =
              rw document_of-changed
                (rw h.meaning (changed-assemble (is_pk p id) (document_of base) id vote_type now));
        };
        versioned = gv;
        positive = λ e. absurd (omega arith);
      }

  pub IsRow-deleted :
      (ttl : ℤ) → IsRow p id (deleted_item (is_pk p id) (r.version + 1) ttl base) (cleared r)
  IsRow-deleted ttl =
      let (ga, gb, gv) = get_id-deleted (is_pk p id) (r.version + 1) ttl base in
      record {
        base = record {
          fitting = fits-deleted (is_pk p id) _ ttl base h.fitting room;
          pk_id = ga ∙ h.pk_id;
          sk_id = gb ∙ h.sk_id;
          meaning =
              rw document_of-deleted
                (rw h.meaning (cleared-assemble (is_pk p id) (document_of base) id));
        };
        versioned = gv;
        positive = λ e. absurd (omega arith);
      }
