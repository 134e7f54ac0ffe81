-- ===== src/SharedKernel.antt =====
-- The keys of users and votes (internal/context/voting/domain/sharedkernel/valueobject).
pub mod Validity
use recs.Prelude.{ℕ, ◌==◌, if◌then◌else◌}
use recs.Errors.{Result, ok, err, new_error, ◌>>=◌}
use recs.Uuid.{Uuid, uuid_nil, uuid_eq}

pub record ActiveUserKey : Type 0 where
  pub country_id : ℕ
  pub active_user_id : Uuid

unfoldable pub new_active_user_key : ℕ → Uuid → Result ActiveUserKey
new_active_user_key country_id active_user_id =
    if country_id == 0
    then err (new_error "countryId must be non-zero")
    else if uuid_eq active_user_id uuid_nil
    then err (new_error "activeUserId must not be empty")
    else ok (record { country_id = country_id; active_user_id = active_user_id })

pub record VoteId : Type 0 where
  pub active_user_key : ActiveUserKey
  pub peer_user_id : Uuid

unfoldable pub new_vote_id : ℕ → Uuid → Uuid → Result VoteId
unfolding new_active_user_key
new_vote_id country_id active_user_id peer_user_id = do
  active_user_key ← new_active_user_key country_id active_user_id
  if uuid_eq peer_user_id uuid_nil
      then err (new_error "peerUserId must not be empty")
      else if uuid_eq active_user_id peer_user_id
      then err (new_error "activeUserId and peerUserId must differ")
      else ok (record { active_user_key = active_user_key; peer_user_id = peer_user_id })

-- the accessors `CountryId`, `ActiveUserId` and `PeerUserId`
abbrev pub country_id : VoteId → ℕ
country_id id = id.active_user_key.country_id

abbrev pub active_user_id : VoteId → Uuid
active_user_id id = id.active_user_key.active_user_id

abbrev pub peer_user_id : VoteId → Uuid
peer_user_id id = id.peer_user_id

unfoldable pub to_peer_vote_id : VoteId → VoteId
to_peer_vote_id id = record {
  active_user_key = record {
    active_user_id = id.peer_user_id;
    country_id = id.active_user_key.country_id;
  };
  peer_user_id = id.active_user_key.active_user_id;
}
