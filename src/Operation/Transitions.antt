-- ===== src/Operation/Transitions.antt =====
-- `allowedVoteTransitions` and `isVoteTypeChangeAllowed`
-- (internal/context/voting/application/operation/change_user_vote_operation.go).
pub mod Ranks
use recs.Prelude.{
  ℕ, Bool, true, false, ◌||◌, Option, none, some, List, [], ◌∷◌, ◌==◌, if◌then◌else◌,
}
use recs.Errors.{Result, ok, err, changing_vote_type}
use recs.VoteType.{
  VoteType, vote_type_empty, vote_type_yes, vote_type_no, vote_type_crush, vote_type_compliment,
}
use recs.Romance.{Vote}

-- the map: the targets of a vote type, `none` where it has no entry
unfoldable pub allowed_vote_transitions : VoteType → Option (List VoteType)
allowed_vote_transitions old =
    if old == vote_type_empty
    then some (vote_type_no ∷ vote_type_yes ∷ vote_type_crush ∷ vote_type_compliment ∷ [])
    else if old == vote_type_no
    then some (vote_type_yes ∷ vote_type_crush ∷ vote_type_compliment ∷ [])
    else if old == vote_type_yes
    then some (vote_type_crush ∷ vote_type_compliment ∷ [])
    else if old == vote_type_crush
    then some []
    else if old == vote_type_compliment
    then some []
    else none

-- `_, allowed := allowedTargets[newVoteType]`
unfoldable pub contains : VoteType → List VoteType → Bool
contains v [] = false
contains v (x ∷ xs) = (v == x) || contains v xs

unfoldable pub is_vote_type_change_allowed : Vote → VoteType → Result (Unit {0})
unfolding allowed_vote_transitions contains
is_vote_type_change_allowed old_vote new_vote_type =
    elim (allowed_vote_transitions old_vote.vote_type) [
      | none ↦ err (changing_vote_type old_vote.vote_type new_vote_type)
      | some allowed_targets ↦
          if contains new_vote_type allowed_targets
          then ok tt
          else err (changing_vote_type old_vote.vote_type new_vote_type)
    ]
