-- ===== src/RomancesRepository/Writes/Changed.antt =====
-- The item that `ChangeActiveUserVoteTypeInRomance` makes of a row, and the row's document after it.
use recs.Prelude.{ℕ, ◌+◌, ◌^◌, ◌<◌, ◌≡◌, Bool, true, false, some, arith}
use recs.Prelude.Int.{ℤ, pos}
use recs.Time.{Time}
use recs.VoteType.{VoteType}
use recs.Romance.{Romance}
use recs.SharedKernel.{active_user_id}
use recs.Dynamo.Attributes.{Item, AttributeValue, put, get-put}
use recs.Dynamo.Expressions.{or_key, update_of}
use recs.Platform.{Platform}
use recs.RomancesRepository.PrimaryKey.{new_romance_primary_key, is_partition_key}
use recs.Documents.{RomanceDocumentSchema}
use recs.Documents.Decoding.{document_of, fits, is_int32}
use recs.RomancesRepository.Get.{get_romances_table_key}
use recs.RomancesRepository.Ttl.{get_ttl_seconds_for_votes_pair}
use recs.RomancesRepository.Writes.{change_input}

abbrev number : ℤ → AttributeValue
number k = AttributeValue.n k

-- The item that a changed vote makes.
abbrev pub changed_item : Bool → VoteType → ℤ → ℕ → ℤ → Item → Item
changed_item true vote_type now version ttl base =
    put "ttl" (number ttl) (
      put "v" (number (pos version)) (put "i" (number now) (put "e" (number (pos vote_type)) base)))
changed_item false vote_type now version ttl base =
    put "ttl" (number ttl) (
      put "v" (number (pos version)) (put "p" (number now) (put "l" (number (pos vote_type)) base)))

module _ {World : Type 0} (p : Platform World) (romance : Romance) where
  pub update_of-change :
      (vote_type : VoteType) (now : Time) (old : Item)
      → update_of (change_input p romance vote_type now) old
        ≡ some (
            changed_item
              (is_partition_key
                (new_romance_primary_key romance.active_user_vote.id)
                (active_user_id romance.active_user_vote.id))
              vote_type
              now.unix
              (romance.version + 1)
              (get_ttl_seconds_for_votes_pair p.config vote_type romance.peer_user_vote.vote_type)
              (or_key
                (get_romances_table_key p (new_romance_primary_key romance.active_user_vote.id))
                old))
  unfolding change_input update_of
  update_of-change vote_type now old = ground arith

-- A changed vote, in the row's terms.
abbrev pub changed_document :
    Bool → VoteType → ℤ → ℕ → RomanceDocumentSchema → RomanceDocumentSchema
changed_document true vote_type now version d = record d {
  pk_user_vote_type = vote_type;
  pk_user_vote_updated_at = some now;
  version = version;
}
changed_document false vote_type now version d = record d {
  sk_user_vote_type = vote_type;
  sk_user_vote_updated_at = some now;
  version = version;
}

pub document_of-changed :
    (b : Bool) (vote_type : VoteType) (now : ℤ) (version : ℕ) (ttl : ℤ) (base : Item)
    → document_of (changed_item b vote_type now version ttl base)
      ≡ changed_document b vote_type now version (document_of base)
unfolding document_of
document_of-changed true vote_type now version ttl base = simp get-put
document_of-changed false vote_type now version ttl base = simp get-put

-- The new item fits the schema if the old one does and the new values do.
pub fits-changed :
    (b : Bool) (vote_type : VoteType) (now : ℤ) (version : ℕ) (ttl : ℤ) (base : Item)
    → fits base ≡ true
    → vote_type < 256
    → version < 2 ^ 32
    → is_int32 now ≡ true
    → fits (changed_item b vote_type now version ttl base) ≡ true
unfolding fits
fits-changed true vote_type now version ttl base f a v y = simp get-put (ground arith)
fits-changed false vote_type now version ttl base f a v y = simp get-put (ground arith)
