-- ===== src/Dynamo/Attributes.antt =====
-- `map[string]types.AttributeValue` as an association list, and maps from placeholders to names.
use text.Mathlib.Text.{◌==◌}
use text.Mathlib.TextEquality.{eq_iff}
use recs.Prelude.{String, ◌≡◌, refl, Option, none, some, List, [], ◌∷◌, arith, if◌then◌else◌}
use recs.Prelude.Int.{ℤ}

-- `AttributeValueMemberS`, and `AttributeValueMemberN` with the number that its decimal text stands
-- for.
pub data AttributeValue : Type 0 where
  s : String → AttributeValue
  n : ℤ → AttributeValue

abbrev pub Assoc : Type 0 → Type 0
Assoc V = List (String × V)

abbrev pub Item : Type 0
Item = Assoc AttributeValue

module _ {V : Type 0} where
  unfoldable pub get : String → Assoc V → Option V
  get k [] = none
  get k ((j, v) ∷ m) = if j == k then some v else get k m

  unfoldable pub put : String → V → Assoc V → Assoc V
  put k v [] = (k, v) ∷ []
  put k v ((j, w) ∷ m) = if j == k then (k, v) ∷ m else (j, w) ∷ put k v m

  unfoldable pub delete : String → Assoc V → Assoc V
  delete k [] = []
  delete k ((j, v) ∷ m) = let rest = delete k m in if j == k then rest else (j, v) ∷ rest

  pub get-put :
      (k j : String) (v : V) (m : Assoc V)
      → get j (put k v m) ≡ (if k == j then some v else get j m)
  unfolding get put
  get-put k j v [] = refl
  get-put k j v ((i, w) ∷ m) = ground (arith, eq_iff k j, eq_iff i k, eq_iff i j, get-put k j v m)

  pub get-delete :
      (k j : String) (m : Assoc V) → get j (delete k m) ≡ (if k == j then none else get j m)
  unfolding get delete
  get-delete k j [] = ground arith
  get-delete k j ((i, v) ∷ m) = ground (arith, get-delete k j m, eq_iff i k, eq_iff i j, eq_iff k j)
