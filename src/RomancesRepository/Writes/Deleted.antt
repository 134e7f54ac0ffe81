-- ===== src/RomancesRepository/Writes/Deleted.antt =====
-- The item that `DeleteActiveUserVoteFromRomance` makes of a row, and the row's document after it.
use recs.Prelude.{ℕ, ◌+◌, ◌^◌, ◌<◌, ◌≡◌, Bool, true, false, none, some, arith}
use recs.Prelude.Int.{ℤ, pos}
use recs.VoteType.{vote_type_empty}
use recs.Romance.{Romance}
use recs.SharedKernel.{active_user_id}
use recs.Dynamo.Attributes.{Item, AttributeValue, put, delete, get-put, get-delete}
use recs.Dynamo.Expressions.{or_key, update_of}
use recs.Platform.{Platform}
use recs.RomancesRepository.PrimaryKey.{new_romance_primary_key, is_partition_key}
use recs.Documents.{RomanceDocumentSchema}
use recs.Documents.Decoding.{document_of, fits}
use recs.RomancesRepository.Get.{get_romances_table_key}
use recs.RomancesRepository.Ttl.{get_ttl_seconds_for_votes_pair}
use recs.RomancesRepository.Writes.{delete_input}

abbrev number : ℤ → AttributeValue
number k = AttributeValue.n k

-- The item that a deleted vote makes.
abbrev pub deleted_item : Bool → ℕ → ℤ → Item → Item
deleted_item true version ttl base = delete "i" (
    delete "h"
      (delete "g" (delete "e" (put "ttl" (number ttl) (put "v" (number (pos version)) base)))))
deleted_item false version ttl base = delete "p" (
    delete "o"
      (delete "n" (delete "l" (put "ttl" (number ttl) (put "v" (number (pos version)) base)))))

module _ {World : Type 0} (p : Platform World) (romance : Romance) where
  pub update_of-delete :
      (old : Item)
      → update_of (delete_input p romance) old
        ≡ some (
            deleted_item
              (is_partition_key
                (new_romance_primary_key romance.active_user_vote.id)
                (active_user_id romance.active_user_vote.id))
              (romance.version + 1)
              (get_ttl_seconds_for_votes_pair p.config vote_type_empty
                romance.peer_user_vote.vote_type)
              (or_key
                (get_romances_table_key p (new_romance_primary_key romance.active_user_vote.id))
                old))
  unfolding delete_input update_of
  update_of-delete old = ground arith

-- A deleted vote, in the row's terms.
abbrev pub deleted_document : Bool → ℕ → RomanceDocumentSchema → RomanceDocumentSchema
deleted_document true version d = record d {
  pk_user_vote_type = vote_type_empty;
  pk_user_voted_at = none;
  pk_user_vote_created_at = none;
  pk_user_vote_updated_at = none;
  version = version;
}
deleted_document false version d = record d {
  sk_user_vote_type = vote_type_empty;
  sk_user_voted_at = none;
  sk_user_vote_created_at = none;
  sk_user_vote_updated_at = none;
  version = version;
}

pub document_of-deleted :
    (b : Bool) (version : ℕ) (ttl : ℤ) (base : Item)
    → document_of (deleted_item b version ttl base) ≡ deleted_document b version (document_of base)
unfolding document_of
document_of-deleted true version ttl base = simp (get-put, get-delete)
document_of-deleted false version ttl base = simp (get-put, get-delete)

-- The new item fits the schema if the old one does and the version does.
pub fits-deleted :
    (b : Bool) (version : ℕ) (ttl : ℤ) (base : Item)
    → fits base ≡ true
    → version < 2 ^ 32
    → fits (deleted_item b version ttl base) ≡ true
unfolding fits
fits-deleted true version ttl base f v = simp (get-put, get-delete) (ground arith)
fits-deleted false version ttl base f v = simp (get-put, get-delete) (ground arith)
