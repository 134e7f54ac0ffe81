-- ===== src/HoursOffsets/Validation.antt =====
-- What is accepted as offsets, and the order in which they are kept.
use mathlib.Core.List.{Perm}
use mathlib.Core.List.Perm
use recs.Prelude.{
  ℕ, ◌≤◌, ◌≡◌, ◌≢◌, refl, sym, ◌↔◌, false, List, [], ◌∷◌, All, arith, leb, Bool-cases, inl, inr,
}
use recs.Errors.{ok}
use recs.HoursOffsets.{
  contains, validate_from, validate_hours_offsets, insert_sorted, sort, new_hours_offset_groups,
}

-- not among the others, as a number
abbrev pub IsNew : ℕ → List ℕ → Type 0
IsNew h xs = All (λ x. h ≢ x) xs

-- Between 1 and 48, and no one twice.
abbrev pub AreOffsets : List ℕ → Type 0
AreOffsets [] = Unit
AreOffsets (h ∷ offsets) = (1 ≤ h) × (h ≤ 48) × IsNew h offsets × AreOffsets offsets

contains-IsNew : (h : ℕ) (xs : List ℕ) → contains h xs ≡ false → IsNew h xs
unfolding contains
contains-IsNew h [] e = tt
contains-IsNew h (x ∷ xs) e = ground (arith, contains-IsNew h xs)

IsNew-contains : (h : ℕ) (xs : List ℕ) → IsNew h xs → contains h xs ≡ false
unfolding contains
IsNew-contains h [] e = refl
IsNew-contains h (x ∷ xs) e = ground (arith, IsNew-contains h xs)

-- none of the offsets was seen
abbrev AreNew : List ℕ → List ℕ → Type 0
AreNew seen offsets = All (λ h. IsNew h seen) offsets

AreNew-cons :
    (h : ℕ) (seen offsets : List ℕ)
    → IsNew h offsets
    → AreNew seen offsets
    → AreNew (h ∷ seen) offsets
AreNew-cons h seen [] n a = tt
AreNew-cons h seen (x ∷ xs) n a = ((λ e. n.0 (sym e), a.0), AreNew-cons h seen xs n.1 a.1)

AreNew-head :
    (h : ℕ) (seen offsets : List ℕ)
    → AreNew (h ∷ seen) offsets
    → IsNew h offsets × AreNew seen offsets
AreNew-head h seen [] a = (tt, tt)
AreNew-head h seen (x ∷ xs) a =
    let (n, s) = AreNew-head h seen xs a.1 in ((λ e. a.0.0 (sym e), n), (a.0.1, s))

validate_from-accepts :
    (seen offsets : List ℕ)
    → AreOffsets offsets
    → AreNew seen offsets
    → validate_from seen offsets ≡ ok tt
unfolding validate_from
validate_from-accepts seen [] a n = refl
validate_from-accepts seen (h ∷ offsets) a n = ground (
  arith,
  IsNew-contains h seen n.0,
  validate_from-accepts (h ∷ seen) offsets a.3 (AreNew-cons h seen offsets a.2 n.1),
)

-- what one round that goes on has tested
validate_from_step :
    (h : ℕ) (seen offsets : List ℕ)
    → validate_from seen (h ∷ offsets) ≡ ok tt
    → (1 ≤ h) × (h ≤ 48) × (contains h seen ≡ false) × (validate_from (h ∷ seen) offsets ≡ ok tt)
unfolding validate_from
validate_from_step h seen offsets e = ground arith

validate_from-rejects :
    (seen offsets : List ℕ)
    → validate_from seen offsets ≡ ok tt
    → AreOffsets offsets × AreNew seen offsets
validate_from-rejects seen [] e = (tt, tt)
validate_from-rejects seen (h ∷ offsets) e =
    let (low, high, new, rest) = validate_from_step h seen offsets e in
    let (a, n) = validate_from-rejects (h ∷ seen) offsets rest in
    let (fresh, others) = AreNew-head h seen offsets n in
    ((low, high, fresh, a), (contains-IsNew h seen new, others))

AreNew-nil : (offsets : List ℕ) → AreNew [] offsets
AreNew-nil [] = tt
AreNew-nil (h ∷ offsets) = (tt, AreNew-nil offsets)

-- Offsets are accepted exactly when there is one, each is between 1 and 48, and none stands twice.
pub validate_hours_offsets_iff :
    (offsets : List ℕ)
    → (validate_hours_offsets offsets ≡ ok tt) ↔ ((offsets ≢ []) × AreOffsets offsets)
unfolding validate_hours_offsets
validate_hours_offsets_iff [] = (λ e. cc, λ h. absurd (h.0 refl))
validate_hours_offsets_iff (h ∷ offsets) = (
  λ e. (λ n. cc, (validate_from-rejects [] (h ∷ offsets) e).0),
  λ a. validate_from-accepts [] (h ∷ offsets) a.1 (AreNew-nil (h ∷ offsets)),
)

-- Each value is at most the next.
abbrev pub IsAscending : List ℕ → Type 0
IsAscending [] = Unit
IsAscending (x ∷ xs) = All (λ y. x ≤ y) xs × IsAscending xs

insert_sorted-perm : (h : ℕ) (xs : List ℕ) → Perm (insert_sorted h xs) (h ∷ xs)
unfolding insert_sorted
insert_sorted-perm h [] = Perm.refl (h ∷ [])
insert_sorted-perm h (x ∷ xs) = elim (Bool-cases (leb h x)) [
  | inl e ↦ rw e (Perm.refl (h ∷ x ∷ xs))
  | inr e ↦ rw e (Perm.trans (Perm.cons x (insert_sorted-perm h xs)) (Perm.swap h x xs))
]

sort-perm : (xs : List ℕ) → Perm (sort xs) xs
unfolding sort
sort-perm [] = Perm.refl []
sort-perm (h ∷ xs) = Perm.trans (insert_sorted-perm h (sort xs)) (Perm.cons h (sort-perm xs))

All-le_trans : {a b : ℕ} (xs : List ℕ) → a ≤ b → All (λ y. b ≤ y) xs → All (λ y. a ≤ y) xs
All-le_trans [] h a = tt
All-le_trans (x ∷ xs) h a = (omega arith, All-le_trans xs h a.1)

insert_sorted-All :
    {b : ℕ} (h : ℕ) (xs : List ℕ)
    → b ≤ h
    → All (λ y. b ≤ y) xs
    → All (λ y. b ≤ y) (insert_sorted h xs)
unfolding insert_sorted
insert_sorted-All h [] l a = (l, tt)
insert_sorted-All h (x ∷ xs) l a = elim (Bool-cases (leb h x)) [
  | inl e ↦ rw e (l, a)
  | inr e ↦ rw e (a.0, insert_sorted-All h xs l a.1)
]

insert_sorted-IsAscending :
    (h : ℕ) (xs : List ℕ) → IsAscending xs → IsAscending (insert_sorted h xs)
unfolding insert_sorted
insert_sorted-IsAscending h [] s = (tt, tt)
insert_sorted-IsAscending h (x ∷ xs) s = elim (Bool-cases (leb h x)) [
  | inl e ↦ rw e ((ground arith, All-le_trans xs (ground arith) s.0), s)
  | inr e ↦ rw e (insert_sorted-All h xs (ground arith) s.0, insert_sorted-IsAscending h xs s.1)
]

sort-IsAscending : (xs : List ℕ) → IsAscending (sort xs)
unfolding sort
sort-IsAscending [] = tt
sort-IsAscending (h ∷ xs) = insert_sorted-IsAscending h (sort xs) (sort-IsAscending xs)

-- Valid offsets are kept, all of them and no others, in ascending order.
pub new_hours_offset_groups-IsAscending :
    (offsets : List ℕ)
    → offsets ≢ []
    → AreOffsets offsets
    → (values : List ℕ) × (new_hours_offset_groups offsets ≡ ok values)
      × Perm values offsets
      × IsAscending values
unfolding new_hours_offset_groups
new_hours_offset_groups-IsAscending offsets n a = (
  sort offsets,
  rw ((validate_hours_offsets_iff offsets).1 (n, a)),
  sort-perm offsets,
  sort-IsAscending offsets,
)
