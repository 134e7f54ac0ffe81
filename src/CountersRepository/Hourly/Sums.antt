-- ===== src/CountersRepository/Hourly/Sums.antt =====
-- What each group sums.
use recs.Prelude.{
  ℕ, ◌+◌, ◌^◌, ◌<◌, ◌≡◌, refl, ap, ◌∙◌, List, [], ◌∷◌, Bool-cases, inl, inr, arith, if◌then◌else◌,
}
use recs.Prelude.Int.{ℤ, ltb_ℤ}
use recs.Errors.{ok}
use recs.SharedKernel.{ActiveUserKey}
use recs.Dynamo.Attributes.{Item}
use recs.Platform.{Platform}
use recs.Repositories.{CountersGroup}
use recs.CountersRepository.Hourly.{add_to_group, add_to_groups, add_items, row_of, add_uint32}

-- The sum of a field over the rows that are not before an hour.
abbrev pub sum_since : (CountersGroup → ℕ) → ℤ → List CountersGroup → ℕ
sum_since field since [] = 0
sum_since field since (row ∷ rows) =
    (if ltb_ℤ row.hour_unix_timestamp since then 0 else field row) + sum_since field since rows

-- A group with each counter raised by its sum, as a uint32.
abbrev pub summed : List CountersGroup → CountersGroup → CountersGroup
summed rows group = record group {
  incoming_no =
      add_uint32 group.incoming_no (sum_since (λ r. r.incoming_no) group.hour_unix_timestamp rows);
  incoming_yes =
      add_uint32 group.incoming_yes
        (sum_since (λ r. r.incoming_yes) group.hour_unix_timestamp rows);
  outgoing_no =
      add_uint32 group.outgoing_no (sum_since (λ r. r.outgoing_no) group.hour_unix_timestamp rows);
  outgoing_yes =
      add_uint32 group.outgoing_yes
        (sum_since (λ r. r.outgoing_yes) group.hour_unix_timestamp rows);
}

abbrev pub all_summed : List CountersGroup → List (ℕ × CountersGroup) → List (ℕ × CountersGroup)
all_summed rows [] = []
all_summed rows ((hour, group) ∷ result) = (hour, summed rows group) ∷ all_summed rows result

-- one more row before the others
add_twice : (a b c : ℕ) → add_uint32 (add_uint32 a b) c ≡ add_uint32 a (b + c)
add_twice a b c = omega arith

summed-cons :
    (row : CountersGroup) (rows : List CountersGroup) (group : CountersGroup)
    → summed rows (add_to_group row group) ≡ summed (row ∷ rows) group
unfolding add_to_group
summed-cons row rows group =
    elim (Bool-cases (ltb_ℤ row.hour_unix_timestamp group.hour_unix_timestamp)) [
      | inl e ↦ rw e (ground arith)
      | inr e ↦ rw e (
          ground (
            arith,
            add_twice group.incoming_no row.incoming_no
                (sum_since (λ r. r.incoming_no) group.hour_unix_timestamp rows),
            add_twice group.incoming_yes row.incoming_yes
                (sum_since (λ r. r.incoming_yes) group.hour_unix_timestamp rows),
            add_twice group.outgoing_no row.outgoing_no
                (sum_since (λ r. r.outgoing_no) group.hour_unix_timestamp rows),
            add_twice group.outgoing_yes row.outgoing_yes
                (sum_since (λ r. r.outgoing_yes) group.hour_unix_timestamp rows),
          ))
    ]

all_summed-cons :
    (row : CountersGroup) (rows : List CountersGroup) (result : List (ℕ × CountersGroup))
    → all_summed rows (add_to_groups row result) ≡ all_summed (row ∷ rows) result
unfolding add_to_groups
all_summed-cons row rows [] = refl
all_summed-cons row rows ((hour, group) ∷ result) =
    cc (summed-cons row rows group, all_summed-cons row rows result)

-- The counters of a group are uint32s.
pub record IsUint32 (g : CountersGroup) : Type 0 where
  pub incoming_no : g.incoming_no < 2 ^ 32
  pub incoming_yes : g.incoming_yes < 2 ^ 32
  pub outgoing_no : g.outgoing_no < 2 ^ 32
  pub outgoing_yes : g.outgoing_yes < 2 ^ 32

abbrev pub AreUint32 : List (ℕ × CountersGroup) → Type 0
AreUint32 [] = Unit
AreUint32 ((hour, group) ∷ result) = IsUint32 group × AreUint32 result

summed-nil : (g : CountersGroup) → IsUint32 g → summed [] g ≡ g
summed-nil g h = ground arith

all_summed-nil :
    (result : List (ℕ × CountersGroup)) → AreUint32 result → all_summed [] result ≡ result
all_summed-nil [] h = refl
all_summed-nil ((hour, group) ∷ result) (h, hs) = cc (summed-nil group h, all_summed-nil result hs)

add_to_groups-AreUint32 :
    (row : CountersGroup) (result : List (ℕ × CountersGroup))
    → AreUint32 result
    → AreUint32 (add_to_groups row result)
unfolding add_to_groups
add_to_groups-AreUint32 row [] h = tt
add_to_groups-AreUint32 row ((hour, group) ∷ result) (h, hs) =
    (unfold add_to_group in ground arith, add_to_groups-AreUint32 row result hs)

module _ {World : Type 0} (p : Platform World) (user : ActiveUserKey) where
  -- Items that decode to the rows.
  abbrev pub Decode : List Item → List CountersGroup → Type 0
  Decode [] [] = Unit
  Decode (item ∷ items) (row ∷ rows) = (row_of p user item ≡ ok row) × Decode items rows
  Decode [] (row ∷ rows) = ⊥
  Decode (item ∷ items) [] = ⊥

  -- Where all items of the output decode, each group ends with each of its counters raised by the
  -- sum over the rows that are not before the group's hour, modulo 2 ^ 32.
  pub add_items-all_summed :
      (items : List Item) (rows : List CountersGroup) (result : List (ℕ × CountersGroup))
      → AreUint32 result
      → Decode items rows
      → add_items p user items result ≡ ok (all_summed rows result)
  unfolding add_items
  add_items-all_summed [] [] result h d = rw (all_summed-nil result h)
  add_items-all_summed [] (row ∷ rows) result h d = absurd d
  add_items-all_summed (item ∷ items) [] result h d = absurd d
  add_items-all_summed (item ∷ items) (row ∷ rows) result h (e, d) =
      rw (e, add_items)
        (add_items-all_summed items rows (add_to_groups row result)
            (add_to_groups-AreUint32 row result h) d
          ∙ ap ok (all_summed-cons row rows result))
