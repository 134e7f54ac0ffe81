-- ===== src/Operation/Retry.antt =====
-- The loop that `Run` of the add, change and delete operations shares: it starts again while the
-- write fails with a version conflict, at most `DynamoDbVersionConflictRetriesCount` times
-- (internal/context/voting/application/operation/{add,change,delete}_user_vote_operation.go).
pub mod Bounds
use recs.Prelude.{ℕ, zero, suc, true, false}
use recs.Errors.{Error, Result, ok, err, is_version_conflict}

-- One pass through the loop's body: it returns, or the repository's write fails.
pub data Attempt (A : Type 0) : Type 0 where
  finished : Result A → Attempt A
  write_failed : Error → Attempt A

module _ {World A : Type 0} (attempt : World → Attempt A × World) where
  -- `left` is the number of retries that remain: the bound less `tries`
  unfoldable pub retry : ℕ → World → Result A × World
  retry zero w =
      let (a, w') = attempt w in elim a [ finished r ↦ (r, w') | write_failed e ↦ (err e, w') ]
  retry (suc left) w =
      let (a, w') = attempt w in
      elim a [
        | finished r ↦ (r, w')
        | write_failed e ↦ elim (is_version_conflict e) [
          | true ↦ retry left w'
          | false ↦ (err e, w')
        ]
      ]
