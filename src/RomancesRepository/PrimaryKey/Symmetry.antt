-- ===== src/RomancesRepository/PrimaryKey/Symmetry.antt =====
-- The key does not depend on which user of the pair is the active one.
use recs.Prelude.{◌≡◌, not, arith}
use recs.Uuid.Order.{bytes_less-flip, uuid_eq_iff}
use recs.SharedKernel.{VoteId, active_user_id, peer_user_id, to_peer_vote_id}
use recs.SharedKernel.Validity.{IsVoteId}
use recs.RomancesRepository.PrimaryKey.{new_romance_primary_key, is_partition_key}

-- Both users of a valid pair have one row.
pub primary_key-peer :
    (id : VoteId)
    → IsVoteId id
    → new_romance_primary_key (to_peer_vote_id id) ≡ new_romance_primary_key id
unfolding new_romance_primary_key to_peer_vote_id
primary_key-peer id v = ground (arith, bytes_less-flip (active_user_id id) (peer_user_id id))

-- Exactly one of the two users is the partition key.
pub is_partition_key-peer :
    (id : VoteId)
    → IsVoteId id
    → is_partition_key (new_romance_primary_key id) (peer_user_id id)
      ≡ not (is_partition_key (new_romance_primary_key id) (active_user_id id))
unfolding new_romance_primary_key is_partition_key
is_partition_key-peer id v = ground (
  arith,
  uuid_eq_iff (active_user_id id) (active_user_id id),
  uuid_eq_iff (peer_user_id id) (peer_user_id id),
  uuid_eq_iff (peer_user_id id) (active_user_id id),
  uuid_eq_iff (active_user_id id) (peer_user_id id),
)

-- The two views of a pair disagree on whether the active user is the partition key.
pub is_partition_key-to_peer_vote_id :
    (id : VoteId)
    → IsVoteId id
    → is_partition_key
        (new_romance_primary_key (to_peer_vote_id id))
        (active_user_id (to_peer_vote_id id))
      ≡ not (is_partition_key (new_romance_primary_key id) (active_user_id id))
unfolding to_peer_vote_id
is_partition_key-to_peer_vote_id id v = rw (primary_key-peer id v) (is_partition_key-peer id v)
