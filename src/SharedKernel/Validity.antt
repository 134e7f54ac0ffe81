-- ===== src/SharedKernel/Validity.antt =====
-- What the constructors of keys accept, and the two views of a pair of users.
use recs.Prelude.{◌↔◌, ℕ, ◌≡◌, refl, ◌≢◌, arith}
use recs.Errors.{ok}
use recs.Uuid.{Uuid, uuid_nil}
use recs.Uuid.Order.{uuid_eq_iff}
use recs.SharedKernel.{
  VoteId, new_vote_id, country_id, active_user_id, peer_user_id, to_peer_vote_id,
}

-- What every constructed vote id satisfies: a country, two users that are there, and that differ.
pub record IsVoteId (id : VoteId) : Type 0 where
  pub country : country_id id ≢ 0
  pub active : active_user_id id ≢ uuid_nil
  pub peer : peer_user_id id ≢ uuid_nil
  pub differ : active_user_id id ≢ peer_user_id id

pub new_vote_id-IsVoteId :
    (c : ℕ) (a p : Uuid) (id : VoteId) → new_vote_id c a p ≡ ok id → IsVoteId id
unfolding new_vote_id
new_vote_id-IsVoteId c a p id h =
    ground (arith, uuid_eq_iff a uuid_nil, uuid_eq_iff p uuid_nil, uuid_eq_iff a p)

pub new_vote_id-accepts :
    (id : VoteId)
    → IsVoteId id
    → new_vote_id (country_id id) (active_user_id id) (peer_user_id id) ≡ ok id
unfolding new_vote_id
new_vote_id-accepts id v = ground (
  arith,
  uuid_eq_iff (active_user_id id) uuid_nil,
  uuid_eq_iff (peer_user_id id) uuid_nil,
  uuid_eq_iff (active_user_id id) (peer_user_id id),
)

pub to_peer_vote_id-IsVoteId : (id : VoteId) → IsVoteId id → IsVoteId (to_peer_vote_id id)
unfolding to_peer_vote_id
to_peer_vote_id-IsVoteId id v = record {
  country = v.country;
  active = v.peer;
  peer = v.active;
  differ = λ e. v.differ (cc);
}

pub to_peer_vote_id-twice : (id : VoteId) → to_peer_vote_id (to_peer_vote_id id) ≡ id
unfolding to_peer_vote_id
to_peer_vote_id-twice id = refl

new_vote_id-parts :
    (c : ℕ) (a p : Uuid) (id : VoteId)
    → new_vote_id c a p ≡ ok id
    → (country_id id ≡ c) × (active_user_id id ≡ a) × (peer_user_id id ≡ p)
unfolding new_vote_id
new_vote_id-parts c a p id h = (ground arith, ground arith, ground arith)

-- Three ids make a vote id exactly when it is valid, with a country and two users that are there and
-- that differ; it then holds the three as they were given.
pub new_vote_id_iff :
    (c : ℕ) (a p : Uuid) (id : VoteId)
    → (new_vote_id c a p ≡ ok id)
      ↔ ((country_id id ≡ c) × (active_user_id id ≡ a) × (peer_user_id id ≡ p) × IsVoteId id)
new_vote_id_iff c a p id = (
  λ h. let (x, y, z) = new_vote_id-parts c a p id h in (x, y, z, new_vote_id-IsVoteId c a p id h),
  λ h. rw (← h.0) (rw (← h.1) (rw (← h.2) (new_vote_id-accepts id h.3))),
)
