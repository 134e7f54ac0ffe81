-- ===== src/TableHelpers/Waiting.antt =====
-- The loop that waits for a table ends.
use recs.Prelude.{
  ℕ, zero, suc, ◌+◌, ◌*◌, ◌≤◌, String, Bool, Bool-cases, ◌≡◌, refl, true, false, Option, some, inl,
  inr, ltb, arith,
}
use recs.Errors.{Result, ok, err, not_active}
use recs.TableHelpers.{
  Admin, CreateTableInput, counters_input, romances_input, milliseconds, enable_ttl,
  is_resource_in_use, wait_active, create_table, create_counters_table, create_romances_table,
}

-- A clock that does not go back, and goes on while the program sleeps.
pub record IsClock {World : Type 0} (a : Admin World) : Type 0 where
  pub now_on : (w : World) → (a.now w).0 ≤ (a.now (a.now w).1).0
  pub describe_on :
      (table : String) (w : World) → (a.now w).0 ≤ (a.now (a.describe_table table w).1).0
  pub sleep_on : (d : ℕ) (w : World) → (a.now w).0 + d ≤ (a.now (a.sleep d w)).0

module _ {World : Type 0} (a : Admin World) (clock : IsClock a) where
  -- an answer
  abbrev Ends : Option (Result (Unit {0}) × World) → Type 0
  Ends o = (r : Result (Unit {0})) × (w : World) × (o ≡ some (r, w))

  time_later :
      (deadline rounds : ℕ) (table : String) (w : World)
      → deadline ≤ (a.now w).0 + suc rounds * (200 * milliseconds)
      → deadline
        ≤ (a.now (a.sleep (200 * milliseconds) (a.describe_table table (a.now w).1).1)).0
          + rounds * (200 * milliseconds)
  time_later deadline rounds table w h = omega (
    arith,
    clock.now_on w,
    clock.describe_on table (a.now w).1,
    clock.sleep_on (200 * milliseconds) (a.describe_table table (a.now w).1).1,
  )

  late_Ends :
      (rounds deadline : ℕ) (table : String) (w : World)
      → deadline ≤ (a.now w).0
      → Ends (wait_active a (suc rounds) deadline table w)
  unfolding wait_active
  late_Ends rounds deadline table w h = (err (not_active table), (a.now w).1, ground arith)

  -- one round: the loop ends, or goes on after its sleep
  early_Ends :
      (rounds deadline : ℕ) (table : String) (w : World) (r : Result Bool)
      → ltb (a.now w).0 deadline ≡ true
      → (a.describe_table table (a.now w).1).0 ≡ r
      → Ends (
          wait_active a rounds deadline table
            (a.sleep (200 * milliseconds) (a.describe_table table (a.now w).1).1))
      → Ends (wait_active a (suc rounds) deadline table w)
  unfolding wait_active
  early_Ends rounds deadline table w (ok true) early d more =
      let last = enable_ttl a table (a.describe_table table (a.now w).1).1 in
      (last.0, last.1, rw (early, d) refl)
  early_Ends rounds deadline table w (ok false) early d (out, v, more) =
      (out, v, rw (early, d) more)
  early_Ends rounds deadline table w (err e) early d (out, v, more) = (out, v, rw (early, d) more)

  round_Ends :
      (rounds deadline : ℕ) (table : String) (w : World)
      → Ends (
          wait_active a rounds deadline table
            (a.sleep (200 * milliseconds) (a.describe_table table (a.now w).1).1))
      → Ends (wait_active a (suc rounds) deadline table w)
  round_Ends rounds deadline table w more = elim (Bool-cases (ltb (a.now w).0 deadline)) [
    | inr late ↦ late_Ends rounds deadline table w (ground (arith, late))
    | inl early ↦ early_Ends rounds deadline table w _ early refl more
  ]

  wait_active-Ends :
      (rounds deadline : ℕ) (table : String) (w : World)
      → deadline ≤ (a.now w).0 + rounds * (200 * milliseconds)
      → Ends (wait_active a (suc rounds) deadline table w)
  wait_active-Ends zero deadline table w h = late_Ends zero deadline table w (omega arith)
  wait_active-Ends (suc rounds) deadline table w h =
      round_Ends (suc rounds) deadline table w
        (wait_active-Ends rounds deadline table _ (time_later deadline rounds table w h))

  made_Ends :
      (rounds : ℕ) (input : CreateTableInput) (w : World) (r : Result (Unit {0}))
      → (a.create_table input w).0 ≡ r
      → Ends (
          let (t, w') = a.now (a.create_table input w).1 in
          wait_active a rounds (t + 10000 * milliseconds) input.table_name w')
      → Ends (create_table a rounds input w)
  unfolding create_table
  made_Ends rounds input w (ok _) c (out, v, waited) = (out, v, rw (c, create_table) waited)
  made_Ends rounds input w (err e) c (out, v, waited) = elim (Bool-cases (is_resource_in_use e)) [
    | inl there ↦ (out, v, rw (c, create_table, there) waited)
    | inr other ↦ (err e, (a.create_table input w).1, rw (c, create_table, other) refl)
  ]

  create_table-Ends : (input : CreateTableInput) (w : World) → Ends (create_table a 51 input w)
  create_table-Ends input w = made_Ends 51 input w _ refl (
      wait_active-Ends 50 _ input.table_name _
        (omega (arith, clock.now_on (a.create_table input w).1)))

  -- If the clock does not go back, and goes on while the program sleeps, then making either table
  -- ends, with success or an error, after at most 51 rounds of waiting for it.
  pub create_tables-Ends :
      (w : World) → Ends (create_counters_table a 51 w) × Ends (create_romances_table a 51 w)
  unfolding create_counters_table create_romances_table
  create_tables-Ends w = (create_table-Ends counters_input w, create_table-Ends romances_input w)
