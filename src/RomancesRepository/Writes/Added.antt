-- ===== src/RomancesRepository/Writes/Added.antt =====
-- The item that `AddActiveUserVoteToRomance` makes of a row, and the row's document after it.
use recs.Prelude.{ℕ, ◌+◌, ◌^◌, ◌<◌, ◌≡◌, Bool, true, false, some, arith}
use recs.Prelude.Int.{ℤ, pos}
use recs.Time.{Time}
use recs.VoteType.{VoteType}
use recs.Romance.{Romance}
use recs.SharedKernel.{active_user_id}
use recs.Dynamo.Attributes.{Item, AttributeValue, put, get-put}
use recs.Dynamo.Expressions.{or_key, update_of}
use recs.Platform.{Platform}
use recs.RomancesRepository.PrimaryKey.{new_romance_primary_key, is_partition_key}
use recs.Documents.{RomanceDocumentSchema}
use recs.Documents.Decoding.{document_of, fits, is_int32}
use recs.RomancesRepository.Get.{get_romances_table_key}
use recs.RomancesRepository.Ttl.{get_ttl_seconds_for_votes_pair}
use recs.RomancesRepository.Writes.{add_input}

abbrev pub number : ℤ → AttributeValue
number k = AttributeValue.n k

-- The item that an added vote makes.
abbrev pub added_item : Bool → VoteType → ℤ → ℤ → ℕ → ℤ → Item → Item
added_item true vote_type voted_at now version ttl base = put "ttl" (number ttl) (
    put "v" (number (pos version))
      (put "h" (number now) (put "g" (number voted_at) (put "e" (number (pos vote_type)) base))))
added_item false vote_type voted_at now version ttl base = put "ttl" (number ttl) (
    put "v" (number (pos version))
      (put "o" (number now) (put "n" (number voted_at) (put "l" (number (pos vote_type)) base))))

module _ {World : Type 0} (p : Platform World) (romance : Romance) where
  -- whether the active user is the row's partition key
  abbrev pub is_pk : Bool
  is_pk =
      is_partition_key (new_romance_primary_key romance.active_user_vote.id)
        (active_user_id romance.active_user_vote.id)

  pub update_of-add :
      (vote_type : VoteType) (voted_at now : Time) (old : Item)
      → update_of (add_input p romance vote_type voted_at now) old
        ≡ some (
            added_item is_pk vote_type voted_at.unix now.unix
              (romance.version + 1)
              (get_ttl_seconds_for_votes_pair p.config vote_type romance.peer_user_vote.vote_type)
              (or_key
                (get_romances_table_key p (new_romance_primary_key romance.active_user_vote.id))
                old))
  unfolding add_input update_of
  update_of-add vote_type voted_at now old = ground arith

-- An added vote, in the row's terms.
abbrev pub added_document :
    Bool → VoteType → ℤ → ℤ → ℕ → RomanceDocumentSchema → RomanceDocumentSchema
added_document true vote_type voted_at now version d = record d {
  pk_user_vote_type = vote_type;
  pk_user_voted_at = some voted_at;
  pk_user_vote_created_at = some now;
  version = version;
}
added_document false vote_type voted_at now version d = record d {
  sk_user_vote_type = vote_type;
  sk_user_voted_at = some voted_at;
  sk_user_vote_created_at = some now;
  version = version;
}

pub document_of-added :
    (b : Bool) (vote_type : VoteType) (voted_at now : ℤ) (version : ℕ) (ttl : ℤ) (base : Item)
    → document_of (added_item b vote_type voted_at now version ttl base)
      ≡ added_document b vote_type voted_at now version (document_of base)
unfolding document_of
document_of-added true vote_type voted_at now version ttl base = simp get-put
document_of-added false vote_type voted_at now version ttl base = simp get-put

-- The new item fits the schema if the old one does and the new values do.
pub fits-added :
    (b : Bool) (vote_type : VoteType) (voted_at now : ℤ) (version : ℕ) (ttl : ℤ) (base : Item)
    → fits base ≡ true
    → vote_type < 256
    → version < 2 ^ 32
    → is_int32 voted_at ≡ true
    → is_int32 now ≡ true
    → fits (added_item b vote_type voted_at now version ttl base) ≡ true
unfolding fits
fits-added true vote_type voted_at now version ttl base f a v x y = simp get-put (ground arith)
fits-added false vote_type voted_at now version ttl base f a v x y = simp get-put (ground arith)
