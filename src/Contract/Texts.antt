-- ===== src/Contract/Texts.antt =====
-- Which texts are read, and that what is shown is read back.
use text.Mathlib.TextEquality.{eq_iff}
use recs.Prelude.{String, ◌≡◌, ◌≤◌, ◌↔◌, false, arith, ◌==◌, zero, suc, refl}
use recs.Errors.{ok}
use recs.VoteType.{VoteType}
use recs.Contract.{
  unmarshal_text, unmarshal_add_user_vote_type, unmarshal_change_user_vote_type,
  marshal_add_user_vote_type, marshal_change_user_vote_type, marshal_read_user_vote_type,
}

-- what is shown for a type that may be added is read back as it
add_back :
    (v : VoteType)
    → 1 ≤ v
    → v ≤ 4
    → unmarshal_add_user_vote_type (marshal_read_user_vote_type v) ≡ ok v
unfolding unmarshal_text marshal_read_user_vote_type
add_back zero l h = absurd (omega arith)
add_back (suc zero) l h = refl
add_back (suc (suc zero)) l h = refl
add_back (suc (suc (suc zero))) l h = refl
add_back (suc (suc (suc (suc zero)))) l h = refl
add_back (suc (suc (suc (suc (suc v))))) l h = absurd (omega arith)

change_back :
    (v : VoteType)
    → 1 ≤ v
    → v ≤ 4
    → (v == 2) ≡ false
    → unmarshal_change_user_vote_type (marshal_read_user_vote_type v) ≡ ok v
unfolding unmarshal_text marshal_read_user_vote_type
change_back zero l h n = absurd (omega arith)
change_back (suc zero) l h n = refl
change_back (suc (suc zero)) l h n = cc
change_back (suc (suc (suc zero))) l h n = refl
change_back (suc (suc (suc (suc zero)))) l h n = refl
change_back (suc (suc (suc (suc (suc v))))) l h n = absurd (omega arith)

-- A text is read as the type of an added vote exactly when it is what is shown for one of the four
-- named types other than the empty one; the type is that one, and what it is written as.
pub add_user_vote_type_round_trip :
    (t : String) (v : VoteType)
    → (unmarshal_add_user_vote_type t ≡ ok v) ↔ (
        (1 ≤ v)
        × (v ≤ 4)
        × (marshal_read_user_vote_type v ≡ t)
        × (marshal_add_user_vote_type v ≡ t))
unfolding unmarshal_text marshal_read_user_vote_type marshal_add_user_vote_type
add_user_vote_type_round_trip t v = (
  λ h. ground (arith, eq_iff "yes" t, eq_iff "no" t, eq_iff "crush" t, eq_iff "compliment" t),
  λ h. rw (← h.2) (add_back v h.0 h.1),
)

-- The same for a changed vote, where "no" cannot be asked for.
pub change_user_vote_type_round_trip :
    (t : String) (v : VoteType)
    → (unmarshal_change_user_vote_type t ≡ ok v) ↔ (
        (1 ≤ v)
        × (v ≤ 4)
        × ((v == 2) ≡ false)
        × (marshal_read_user_vote_type v ≡ t)
        × (marshal_change_user_vote_type v ≡ t))
unfolding unmarshal_text marshal_read_user_vote_type marshal_change_user_vote_type
change_user_vote_type_round_trip t v = (
  λ h. ground (arith, eq_iff "yes" t, eq_iff "crush" t, eq_iff "compliment" t),
  λ h. rw (← h.3) (change_back v h.0 h.1 h.2),
)
