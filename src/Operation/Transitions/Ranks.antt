-- ===== src/Operation/Transitions/Ranks.antt =====
-- The transition table is an order: a vote type may only be replaced by one of a higher rank.
use recs.Prelude.{ℕ, ◌<◌, ◌≤◌, ◌≡◌, ◌↔◌, ◌⊎◌, false, arith, ◌==◌, if◌then◌else◌}
use recs.Errors.{ok, err, changing_vote_type}
use recs.VoteType.{VoteType}
use recs.Romance.{Vote}
use recs.Operation.Transitions.{is_vote_type_change_allowed}

-- no vote, then "no", then "yes", then the two that end a history
abbrev pub rank : VoteType → ℕ
rank v = if v == 0 then 0 else if v == 2 then 1 else if v == 1 then 2 else 3

-- The vote types that have a name.
abbrev pub IsKnown : VoteType → Type 0
IsKnown v = v ≤ 4

pub allowed→rank :
    (old : Vote) (new : VoteType)
    → is_vote_type_change_allowed old new ≡ ok tt
    → IsKnown old.vote_type × IsKnown new × (rank old.vote_type < rank new)
unfolding is_vote_type_change_allowed
allowed→rank old new h = ground arith

rank→allowed :
    (old : Vote) (new : VoteType)
    → IsKnown old.vote_type
    → IsKnown new
    → rank old.vote_type < rank new
    → is_vote_type_change_allowed old new ≡ ok tt
unfolding is_vote_type_change_allowed
rank→allowed old new k l h = ground arith

-- A change is allowed exactly when both vote types are named ones and the rank goes up.
pub is_vote_type_change_allowed_iff :
    (old : Vote) (new : VoteType)
    → (is_vote_type_change_allowed old new ≡ ok tt)
      ↔ (IsKnown old.vote_type × IsKnown new × (rank old.vote_type < rank new))
is_vote_type_change_allowed_iff old new =
    (allowed→rank old new, λ h. rank→allowed old new h.0 h.1 h.2)

-- A change that is not allowed fails with the error that wraps `ErrWrongVote` and names both types.
pub is_vote_type_change_allowed_cases :
    (old : Vote) (new : VoteType)
    → (is_vote_type_change_allowed old new ≡ ok tt)
      ⊎ (is_vote_type_change_allowed old new ≡ err (changing_vote_type old.vote_type new))
unfolding is_vote_type_change_allowed
is_vote_type_change_allowed_cases old new = ground arith

-- No vote type may be replaced by itself, so the duplicate test behind this one never holds.
pub allowed_change_differs :
    (old : Vote) (new : VoteType)
    → is_vote_type_change_allowed old new ≡ ok tt
    → (new == old.vote_type) ≡ false
allowed_change_differs old new h = ground (arith, allowed→rank old new h)
