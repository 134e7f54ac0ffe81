-- ===== src/Commands.antt =====
-- The commands and queries of the API, as the service receives them
-- (internal/context/voting/interface/api/rest/v1/command,
-- internal/context/voting/interface/api/rest/v1/query). The fields of a body stand beside the others.
pub mod Resolve
use recs.Prelude.{ℕ, List}
use recs.Prelude.Int.{ℤ}
use recs.Uuid.{Uuid}
use recs.Time.{Time}
use recs.VoteType.{VoteType}

pub record VoteAdd : Type 0 where
  pub country_id : ℕ
  pub active_user_id : Uuid
  pub peer_id : Uuid
  pub vote_type : VoteType
  pub voted_at : Time

pub record ChangeVoteType : Type 0 where
  pub country_id : ℕ
  pub active_user_id : Uuid
  pub peer_id : Uuid
  pub new_type : VoteType

pub record DeleteVote : Type 0 where
  pub country_id : ℕ
  pub active_user_id : Uuid
  pub peer_id : Uuid

pub record VoteGet : Type 0 where
  pub country_id : ℕ
  pub active_user_id : Uuid
  pub peer_id : Uuid

pub record RomanceGet : Type 0 where
  pub country_id : ℕ
  pub active_user_id : Uuid
  pub peer_id : Uuid

pub record DeleteRomance : Type 0 where
  pub country_id : ℕ
  pub active_user_id : Uuid
  pub peer_id : Uuid

pub record DeleteRomances : Type 0 where
  pub country_id : ℕ
  pub active_user_id : Uuid

pub record LifetimeCountersGet : Type 0 where
  pub country_id : ℕ
  pub active_user_id : Uuid

-- the offsets as they are sent, and as `Resolve` accepted them
pub record HourlyCountersGet : Type 0 where
  pub country_id : ℕ
  pub active_user_id : Uuid
  pub hours_offset_groups_raw : List ℤ
  pub hours_offset_groups : List ℕ
