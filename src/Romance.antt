-- ===== src/Romance.antt =====
-- Votes and romances (internal/context/voting/domain/romance/entity).
use recs.Prelude.{ℕ, Bool, ◌&&◌, Option, none, ◌==◌}
use recs.SharedKernel.{VoteId, to_peer_vote_id}
use recs.Time.{Time}
use recs.VoteType.{VoteType, vote_type_empty}

pub record Vote : Type 0 where
  pub id : VoteId
  pub vote_type : VoteType
  pub voted_at : Option Time
  pub created_at : Option Time
  pub updated_at : Option Time

pub record Romance : Type 0 where
  pub active_user_vote : Vote
  pub peer_user_vote : Vote
  pub version : ℕ

-- `Vote{Id: id}`
abbrev pub empty_vote : VoteId → Vote
empty_vote id = record {
  id = id;
  vote_type = vote_type_empty;
  voted_at = none;
  created_at = none;
  updated_at = none;
}

unfoldable pub create_empty_romance : VoteId → Romance
unfolding to_peer_vote_id
create_empty_romance id = record {
  active_user_vote = empty_vote id;
  peer_user_vote = empty_vote (to_peer_vote_id id);
  version = 0;
}

unfoldable pub is_empty : Romance → Bool
is_empty r =
    r.active_user_vote.vote_type == vote_type_empty && r.peer_user_vote.vote_type == vote_type_empty
