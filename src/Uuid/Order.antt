-- ===== src/Uuid/Order.antt =====
-- `==` on UUIDs decides equality, and `bytes.Compare` is a strict total order on them.
use Prim.Native.Nat.{Ordering}
use recs.Prelude.{◌≡◌, refl, ◌↔◌, ◌≢◌, true, not, [], ◌∷◌, arith}
use recs.Uuid.{Uuid, uuid_eq, bytes_compare, bytes_less}

pub uuid_eq_refl : (a : Uuid) → uuid_eq a a ≡ true
unfolding uuid_eq
uuid_eq_refl [] = refl
uuid_eq_refl (x ∷ xs) = ground (arith, uuid_eq_refl xs)

uuid_eq→eq : (a b : Uuid) → uuid_eq a b ≡ true → a ≡ b
unfolding uuid_eq
uuid_eq→eq [] [] h = refl
uuid_eq→eq [] (y ∷ ys) h = cc
uuid_eq→eq (x ∷ xs) [] h = cc
uuid_eq→eq (x ∷ xs) (y ∷ ys) h = ground (arith, uuid_eq→eq xs ys)

pub uuid_eq_iff : (a b : Uuid) → (uuid_eq a b ≡ true) ↔ (a ≡ b)
uuid_eq_iff a b = (uuid_eq→eq a b, λ e. rw e (uuid_eq_refl b))

-- The comparison says `eq` on equal arrays only.
pub bytes_compare-eq : (a b : Uuid) → bytes_compare a b ≡ Ordering.eq → a ≡ b
unfolding bytes_compare
bytes_compare-eq [] [] h = refl
bytes_compare-eq [] (y ∷ ys) h = cc
bytes_compare-eq (x ∷ xs) [] h = cc
bytes_compare-eq (x ∷ xs) (y ∷ ys) h = ground (arith, bytes_compare-eq xs ys)

abbrev pub flip_ordering : Ordering → Ordering
flip_ordering Ordering.lt = Ordering.gt
flip_ordering Ordering.eq = Ordering.eq
flip_ordering Ordering.gt = Ordering.lt

pub bytes_compare-flip : (a b : Uuid) → bytes_compare b a ≡ flip_ordering (bytes_compare a b)
unfolding bytes_compare
bytes_compare-flip [] [] = refl
bytes_compare-flip [] (y ∷ ys) = refl
bytes_compare-flip (x ∷ xs) [] = refl
bytes_compare-flip (x ∷ xs) (y ∷ ys) = ground (arith, bytes_compare-flip xs ys)

-- Of two different UUIDs exactly one comes first.
pub bytes_less-flip : (a b : Uuid) → a ≢ b → bytes_less b a ≡ not (bytes_less a b)
unfolding bytes_less
bytes_less-flip a b h = ground (arith, bytes_compare-flip a b, bytes_compare-eq a b)
