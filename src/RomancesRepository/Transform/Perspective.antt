-- ===== src/RomancesRepository/Transform/Perspective.antt =====
-- The two users of a row see one another's votes.
use recs.Prelude.{String, ◌≡◌, refl, ap, ◌∙◌, Bool, true, false, not, arith}
use recs.SharedKernel.Validity.{IsVoteId, new_vote_id-accepts, to_peer_vote_id-IsVoteId}
use recs.RomancesRepository.PrimaryKey.{new_romance_primary_key, is_partition_key}
use recs.RomancesRepository.PrimaryKey.Symmetry.{primary_key-peer, is_partition_key-to_peer_vote_id}
use recs.Errors.{Result, ok, ◌>>=◌}
use recs.Uuid.{Uuid}
use recs.Uuid.Order.{uuid_eq_iff}
use recs.SharedKernel.{VoteId, country_id, active_user_id, peer_user_id, to_peer_vote_id}
use recs.Romance.{Romance}
use recs.Documents.{RomanceDocumentSchema}
use recs.RomancesRepository.Transform.{transform_romance_item_to_entity, assemble_romance}

-- The same romance from the other side.
abbrev pub swap_romance : Romance → Romance
swap_romance r = record {
  active_user_vote = r.peer_user_vote;
  peer_user_vote = r.active_user_vote;
  version = r.version;
}

-- A row of the pair is read by its active user as the row's two votes, the active one first, under
-- the pair's id and its reverse.
pub transform_lem :
    (uuid_parse : String → Result Uuid) (id : VoteId) (item : RomanceDocumentSchema)
    → IsVoteId id
    → uuid_parse item.pk_user_id ≡ ok (new_romance_primary_key id).pk
    → uuid_parse item.sk_user_id ≡ ok (new_romance_primary_key id).sk
    → transform_romance_item_to_entity uuid_parse (country_id id) (active_user_id id) item
      ≡ ok (
          assemble_romance
            (is_partition_key (new_romance_primary_key id) (active_user_id id))
            item
            id)
unfolding transform_romance_item_to_entity new_romance_primary_key is_partition_key
transform_lem uuid_parse id item v hp hs = ground (
  arith,
  v.differ,
  new_vote_id-accepts id v,
  uuid_eq_iff (active_user_id id) (active_user_id id),
  uuid_eq_iff (active_user_id id) (peer_user_id id),
)

pub assemble-peer :
    (is_pk : Bool) (item : RomanceDocumentSchema) (id : VoteId)
    → assemble_romance (not is_pk) item (to_peer_vote_id id)
      ≡ swap_romance (assemble_romance is_pk item id)
unfolding assemble_romance to_peer_vote_id
assemble-peer true item id = refl
assemble-peer false item id = refl

-- The two users of a pair read the same row as one another's mirror image: each one's active vote
-- is the other's peer vote, and the version is the same.
pub transform-peer :
    (uuid_parse : String → Result Uuid) (id : VoteId) (item : RomanceDocumentSchema)
    → IsVoteId id
    → uuid_parse item.pk_user_id ≡ ok (new_romance_primary_key id).pk
    → uuid_parse item.sk_user_id ≡ ok (new_romance_primary_key id).sk
    → transform_romance_item_to_entity uuid_parse
        (country_id (to_peer_vote_id id))
        (active_user_id (to_peer_vote_id id))
        item
      ≡ (do
        r ← transform_romance_item_to_entity uuid_parse (country_id id) (active_user_id id) item
        ok (swap_romance r))
transform-peer uuid_parse id item v hp hs = rw (transform_lem uuid_parse id item v hp hs) (
    transform_lem uuid_parse (to_peer_vote_id id) item (to_peer_vote_id-IsVoteId id v)
      (rw (primary_key-peer id v) hp) (rw (primary_key-peer id v) hs)
    ∙ rw (is_partition_key-to_peer_vote_id id v) (ap ok (assemble-peer _ item id)))
