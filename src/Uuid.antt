-- ===== src/Uuid.antt =====
-- `uuid.UUID` as the array of its bytes, and `bytes.Compare` on it
-- (used by internal/context/voting/domain/sharedkernel and the romances repository).
pub mod Order
use Prim.Native.Nat.{compare, Ordering}
use recs.Prelude.{ℕ, Bool, true, false, ◌&&◌, List, [], ◌∷◌, replicate, ◌==◌}

abbrev pub Uuid : Type 0
Uuid = List ℕ

-- `uuid.Nil`, the zero value of the array
abbrev pub uuid_nil : Uuid
uuid_nil = replicate 16 0

-- `a == b` on arrays
unfoldable pub uuid_eq : Uuid → Uuid → Bool
uuid_eq [] [] = true
uuid_eq [] (y ∷ ys) = false
uuid_eq (x ∷ xs) [] = false
uuid_eq (x ∷ xs) (y ∷ ys) = (x == y) && uuid_eq xs ys

-- `bytes.Compare`: -1, 0 and 1 are `lt`, `eq` and `gt`
unfoldable pub bytes_compare : Uuid → Uuid → Ordering
bytes_compare [] [] = Ordering.eq
bytes_compare [] (y ∷ ys) = Ordering.lt
bytes_compare (x ∷ xs) [] = Ordering.gt
bytes_compare (x ∷ xs) (y ∷ ys) = elim (compare x y) [
  | Ordering.lt ↦ Ordering.lt
  | Ordering.eq ↦ bytes_compare xs ys
  | Ordering.gt ↦ Ordering.gt
]

-- `bytes.Compare(a, b) == -1`
unfoldable pub bytes_less : Uuid → Uuid → Bool
bytes_less a b = elim (bytes_compare a b) [ Ordering.lt ↦ true | _ ↦ false ]
