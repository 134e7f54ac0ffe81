-- ===== src/RomancesRepository/PrimaryKey.antt =====
-- `RomancePrimaryKey`: the row that the two users of a pair share
-- (internal/context/voting/infrastructure/persistence/romances_repository.go).
pub mod Symmetry
use recs.Prelude.{Bool, if◌then◌else◌}
use recs.Uuid.{Uuid, uuid_eq, bytes_less}
use recs.SharedKernel.{VoteId, active_user_id, peer_user_id}

pub record RomancePrimaryKey : Type 0 where
  pub pk : Uuid
  pub sk : Uuid

unfoldable pub new_romance_primary_key : VoteId → RomancePrimaryKey
new_romance_primary_key vote_id =
    if bytes_less (active_user_id vote_id) (peer_user_id vote_id)
    then record { pk = active_user_id vote_id; sk = peer_user_id vote_id }
    else record { pk = peer_user_id vote_id; sk = active_user_id vote_id }

unfoldable pub is_partition_key : RomancePrimaryKey → Uuid → Bool
is_partition_key key some_uuid = uuid_eq some_uuid key.pk
