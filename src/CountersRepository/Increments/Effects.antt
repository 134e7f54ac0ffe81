-- ===== src/CountersRepository/Increments/Effects.antt =====
-- What the increments do to rows.
use text.Mathlib.Text.{◌==◌ as str_eq}
use text.Mathlib.TextPositions.{eq_refl}
use recs.Prelude.{ℕ, ◌+◌, String, ◌≡◌, ◌⊎◌, false, Option, none, some, arith}
use recs.Prelude.Int.{ℤ, pos, ◌+ℤ◌}
use recs.Uuid.{Uuid}
use recs.Dynamo.{TransactUpdate}
use recs.Dynamo.Attributes.{Item, AttributeValue, get, put, get-put}
use recs.Dynamo.Expressions.{apply_update, or_key}
use recs.Platform.{Platform}
use recs.CountersRepository.Increments.{hourly_update, lifetime_update, get_counters_table_key}

-- the item that an update of a transaction makes
abbrev pub made_by : TransactUpdate → Item → Option Item
made_by u old =
    apply_update u.update_expression u.expression_attribute_names u.expression_attribute_values
      u.key old

-- A row counts `k` under an attribute; a missing attribute counts 0.
abbrev pub Counts : String → Item → ℕ → Type 0
Counts counter item k =
    ((get counter item ≡ none) × (k ≡ 0)) ⊎ (get counter item ≡ some (AttributeValue.n (pos k)))

module _ {World : Type 0} (p : Platform World) (user_id : Uuid) (counter : String) (old : Item)
    (k : ℕ) (counts : Counts counter old k) where
  hourly_made :
      (hour : ℤ)
      → made_by (hourly_update p user_id hour counter) old
        ≡ some (
            put "ttl" (AttributeValue.n (hour +ℤ p.config.counters.ttl_seconds)) (
              put counter
                (AttributeValue.n (pos (k + 1)))
                (or_key (get_counters_table_key p user_id hour) old)))
  unfolding hourly_update apply_update
  hourly_made hour = ground arith

  lifetime_made :
      made_by (lifetime_update p user_id counter) old
      ≡ some (
          put counter
            (AttributeValue.n (pos (k + 1)))
            (or_key (get_counters_table_key p user_id (pos 0)) old))
  unfolding lifetime_update apply_update
  lifetime_made = ground arith

  -- The update of an hour's row makes an item, whatever is stored: its counter is one higher, it
  -- expires when the time to live has passed since the hour began, and every other attribute is
  -- that of the old item, or of the key where there was none.
  pub hourly_increment :
      (hour : ℤ)
      → str_eq "ttl" counter ≡ false
      → (new : Item) × (made_by (hourly_update p user_id hour counter) old ≡ some new)
        × (get counter new ≡ some (AttributeValue.n (pos (k + 1))))
        × (get "ttl" new ≡ some (AttributeValue.n (hour +ℤ p.config.counters.ttl_seconds)))
        × ((x : String)
            → str_eq counter x ≡ false
            → str_eq "ttl" x ≡ false
            → get x new ≡ get x (or_key (get_counters_table_key p user_id hour) old))
  hourly_increment hour h = (
    put "ttl" (AttributeValue.n (hour +ℤ p.config.counters.ttl_seconds)) (
        put counter (AttributeValue.n (pos (k + 1)))
          (or_key (get_counters_table_key p user_id hour) old)),
    hourly_made hour,
    simp (get-put, h, eq_refl),
    simp get-put,
    λ x c t. simp (get-put, c, t),
  )

  -- The update of the row for all time: its counter is one higher, and nothing else changes.
  pub lifetime_increment :
      (new : Item) × (made_by (lifetime_update p user_id counter) old ≡ some new)
      × (get counter new ≡ some (AttributeValue.n (pos (k + 1))))
      × ((x : String)
          → str_eq counter x ≡ false
          → get x new ≡ get x (or_key (get_counters_table_key p user_id (pos 0)) old))
  lifetime_increment = (
    put counter (AttributeValue.n (pos (k + 1)))
        (or_key (get_counters_table_key p user_id (pos 0)) old),
    lifetime_made,
    simp (get-put, eq_refl),
    λ x c. simp (get-put, c),
  )
