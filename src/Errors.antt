-- ===== src/Errors.antt =====
-- The errors that the code returns, and `errors.Is` on them
-- (internal/context/voting/domain/romance/errors.go). A function that returns `(T, error)` returns a
-- `Result T`: the zero value that the code returns beside an error is not kept.
use recs.Prelude.Int.{ℤ}
use recs.Prelude.{ℕ, String, Bool, true, false, ◌||◌}

pub data Error : Type 0 where
  vote_not_found wrong_vote vote_duplicate version_conflict : Error
  -- `NewChangingVoteTypeError`: wraps `wrong_vote`, with the two vote types
  changing_vote_type : ℕ → ℕ → Error
  -- an error of `errors.New` or `fmt.Errorf` with a fixed text
  new_error : String → Error
  -- `Resolve` on an offset that is no uint8
  no_uint8 : ℤ → Error
  -- `UnmarshalText` on a text that names no vote type
  invalid_vote_type : String → Error
  invalid_hour_offset duplicate_hour_offset : ℕ → Error
  -- `UnmarshalMessage` on another message's name: have, want
  wrong_message_name : String → String → Error
  -- an adapter on a message that it cannot load
  wrong_message_type : String → Error
  -- `Dispatch` on a topic that has no handlers
  no_handlers : String → Error
  -- `errors.Join` of two
  joined : Error → Error → Error
  -- DynamoDB's `ResourceInUseException`
  resource_in_use : Error
  -- a new table that was not active in time, and one without its time to live (the cause is wrapped)
  not_active : String → Error
  no_ttl : Error → Error
  -- DynamoDB's `ConditionalCheckFailedException`
  conditional_check_failed : Error
  -- no error of the code: the fuel of a loop ran out
  out_of_fuel : Error
  -- any other error of a package that is not part of the program
  external : ℕ → Error

pub data Result {ℓ} (A : Type ℓ) : Type ℓ where
  ok : A → Result A
  err : Error → Result A

infixl 10 ◌>>=◌
abbrev pub ◌>>=◌ {ℓ κ} : {A : Type ℓ} {B : Type κ} → Result A → (A → Result B) → Result B
ok a >>= f = f a
err e >>= f = err e

-- `errors.Is(err, ErrVersionConflict)`
unfoldable pub is_version_conflict : Error → Bool
is_version_conflict version_conflict = true
is_version_conflict (no_ttl e) = is_version_conflict e
is_version_conflict (joined a b) = is_version_conflict a || is_version_conflict b
is_version_conflict _ = false

-- `errors.As(err, &condCheckErr)` on what the DynamoDB client returns
unfoldable pub is_conditional_check_failed : Error → Bool
is_conditional_check_failed conditional_check_failed = true
is_conditional_check_failed _ = false

-- `errors.Is(err, ErrVoteNotFound)`
unfoldable pub is_vote_not_found : Error → Bool
is_vote_not_found vote_not_found = true
is_vote_not_found (no_ttl e) = is_vote_not_found e
is_vote_not_found (joined a b) = is_vote_not_found a || is_vote_not_found b
is_vote_not_found _ = false

-- `errors.Is(err, ErrVoteDuplicate)`
unfoldable pub is_vote_duplicate : Error → Bool
is_vote_duplicate vote_duplicate = true
is_vote_duplicate (no_ttl e) = is_vote_duplicate e
is_vote_duplicate (joined a b) = is_vote_duplicate a || is_vote_duplicate b
is_vote_duplicate _ = false

-- `errors.Is(err, ErrWrongVote)`
unfoldable pub is_wrong_vote : Error → Bool
is_wrong_vote wrong_vote = true
is_wrong_vote (changing_vote_type _ _) = true
is_wrong_vote (no_ttl e) = is_wrong_vote e
is_wrong_vote (joined a b) = is_wrong_vote a || is_wrong_vote b
is_wrong_vote _ = false
