-- ===== src/Responses/Statuses.antt =====
-- Which errors get a status.
use recs.Prelude.{String, ◌≡◌, ◌⊎◌, inl, inr, true, false, Bool-cases, arith}
use recs.Errors.{Error, is_vote_not_found, is_vote_duplicate, is_wrong_vote}
use recs.Responses.{
  ApiError, to_api_error, error_text, new_err404_not_found, new_err400_bad_request,
}

-- One of the three cases holds: an error that is `ErrVoteNotFound` is answered with 404; one that is
-- not, but is `ErrVoteDuplicate` or `ErrWrongVote`, with 400; each with the error's text. All others
-- are passed on as they are.
pub to_api_error_cases :
    (other : Error → String) (e : Error)
    → ((is_vote_not_found e ≡ true)
        × (to_api_error other e ≡ ApiError.huma (new_err404_not_found (error_text other e))))
      ⊎ ((is_vote_not_found e ≡ false)
          × ((is_vote_duplicate e ≡ true) ⊎ (is_wrong_vote e ≡ true))
          × (to_api_error other e ≡ ApiError.huma (new_err400_bad_request (error_text other e))))
      ⊎ ((is_vote_not_found e ≡ false)
          × (is_vote_duplicate e ≡ false)
          × (is_wrong_vote e ≡ false)
          × (to_api_error other e ≡ ApiError.plain e))
unfolding to_api_error
to_api_error_cases other e = elim (Bool-cases (is_vote_not_found e)) [
  | inl a ↦ inl (a, ground arith)
  | inr a ↦ elim (Bool-cases (is_vote_duplicate e)) [
    | inl b ↦ inr (inl (a, inl b, ground arith))
    | inr b ↦ elim (Bool-cases (is_wrong_vote e)) [
      | inl c ↦ inr (inl (a, inr c, ground arith))
      | inr c ↦ inr (inr (a, b, c, ground arith))
    ]
  ]
]
