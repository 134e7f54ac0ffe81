-- ===== src/RomancesRepository/Transform.antt =====
-- `transformRomanceItemToEntity`: a row, as one of its two users sees it
-- (internal/context/voting/infrastructure/persistence/romances_repository.go).
pub mod Perspective
use recs.Prelude.{ℕ, Option, String, Bool, if◌then◌else◌}
use recs.Errors.{Result, ok, err, ◌>>=◌}
use recs.Uuid.{Uuid, uuid_eq}
use recs.SharedKernel.{VoteId, new_vote_id, to_peer_vote_id}
use recs.Time.{Time, unix_to_time_ptr}
use recs.Romance.{Vote, Romance}
use recs.Documents.{RomanceDocumentSchema}

-- the vote of the row's partition user, under an id that is given to it
abbrev pub pk_user_vote : RomanceDocumentSchema → VoteId → Vote
pk_user_vote item id = record {
  id = id;
  vote_type = item.pk_user_vote_type;
  voted_at = unix_to_time_ptr item.pk_user_voted_at;
  created_at = unix_to_time_ptr item.pk_user_vote_created_at;
  updated_at = unix_to_time_ptr item.pk_user_vote_updated_at;
}

-- the vote of the row's other user
abbrev pub sk_user_vote : RomanceDocumentSchema → VoteId → Vote
sk_user_vote item id = record {
  id = id;
  vote_type = item.sk_user_vote_type;
  voted_at = unix_to_time_ptr item.sk_user_voted_at;
  created_at = unix_to_time_ptr item.sk_user_vote_created_at;
  updated_at = unix_to_time_ptr item.sk_user_vote_updated_at;
}

-- the two votes, once the peer is known
unfoldable pub assemble_romance : Bool → RomanceDocumentSchema → VoteId → Romance
unfolding to_peer_vote_id
assemble_romance is_pk item id =
    if is_pk
    then record {
      active_user_vote = pk_user_vote item id;
      peer_user_vote = sk_user_vote item (to_peer_vote_id id);
      version = item.version;
    }
    else record {
      active_user_vote = sk_user_vote item id;
      peer_user_vote = pk_user_vote item (to_peer_vote_id id);
      version = item.version;
    }

module _ (uuid_parse : String → Result Uuid) where
  unfoldable pub transform_romance_item_to_entity :
      ℕ → Uuid → RomanceDocumentSchema → Result Romance
  transform_romance_item_to_entity country_id active_user_id item = do
    pk_user_id ← uuid_parse item.pk_user_id
    sk_user_id ← uuid_parse item.sk_user_id
    let is_pk = uuid_eq active_user_id pk_user_id
    let peer_user_id = if is_pk then sk_user_id else pk_user_id
    active_user_vote_id ← new_vote_id country_id active_user_id peer_user_id
    ok (assemble_romance is_pk item active_user_vote_id)
