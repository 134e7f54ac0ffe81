-- ===== src/Routing/Matching.antt =====
-- No two operations match one request.
use text.Mathlib.Text.{◌==◌ as str_eq}
use text.Mathlib.TextEquality.{eq_iff}
use recs.Prelude.{
  ℕ, zero, suc, String, Bool, true, false, ◌&&◌, ◌≡◌, refl, ap, Option, none, some, List, [], ◌∷◌,
  arith, not, if◌then◌else◌,
}
use recs.Routing.{
  Segment, literal, parameter, Method, get_method, post_method, patch_method, delete_method,
  ApiOperation, matches_path, same_method, matches, api_operations,
}

-- the operation at a place in the list
abbrev pub operation_at : ℕ → List ApiOperation → Option ApiOperation
operation_at n [] = none
operation_at zero (op ∷ ops) = some op
operation_at (suc n) (op ∷ ops) = operation_at n ops

-- whether some path may match both
unfoldable meets : List Segment → List Segment → Bool
meets [] [] = true
meets [] (b ∷ q) = false
meets (a ∷ p) [] = false
meets (literal a ∷ p) (literal b ∷ q) = str_eq a b && meets p q
meets (literal a ∷ p) (parameter b ∷ q) = meets p q
meets (parameter a ∷ p) (literal b ∷ q) = meets p q
meets (parameter a ∷ p) (parameter b ∷ q) = meets p q

matches_path-meets :
    (p q : List Segment) (parts : List String)
    → matches_path p parts ≡ true
    → matches_path q parts ≡ true
    → meets p q ≡ true
unfolding matches_path meets
matches_path-meets [] [] parts h k = refl
matches_path-meets [] (b ∷ q) [] h k = cc
matches_path-meets [] (b ∷ q) (part ∷ parts) h k = cc
matches_path-meets (a ∷ p) [] [] h k = cc
matches_path-meets (a ∷ p) [] (part ∷ parts) h k = cc
matches_path-meets (a ∷ p) (b ∷ q) [] h k = cc
matches_path-meets (literal a ∷ p) (literal b ∷ q) (part ∷ parts) h k =
    ground (arith, eq_iff a part, eq_iff b part, eq_iff a b, matches_path-meets p q parts)
matches_path-meets (literal a ∷ p) (parameter b ∷ q) (part ∷ parts) h k =
    ground (arith, matches_path-meets p q parts)
matches_path-meets (parameter a ∷ p) (literal b ∷ q) (part ∷ parts) h k =
    ground (arith, matches_path-meets p q parts)
matches_path-meets (parameter a ∷ p) (parameter b ∷ q) (part ∷ parts) h k =
    matches_path-meets p q parts h k

-- whether no request matches both
abbrev apart : ApiOperation → ApiOperation → Bool
apart a b = if same_method a.method b.method then not (meets a.path b.path) else true

same_method_trans :
    (a b m : Method) → same_method a m ≡ true → same_method b m ≡ true → same_method a b ≡ true
same_method_trans get_method get_method m h k = refl
same_method_trans post_method post_method m h k = refl
same_method_trans patch_method patch_method m h k = refl
same_method_trans delete_method delete_method m h k = refl
same_method_trans a b get_method h k = ground arith
same_method_trans a b post_method h k = ground arith
same_method_trans a b patch_method h k = ground arith
same_method_trans a b delete_method h k = ground arith

not-both :
    (a b : ApiOperation) (method : Method) (parts : List String)
    → apart a b ≡ true
    → matches a method parts ≡ true
    → matches b method parts ≡ false
unfolding matches
not-both a b method parts h k =
    ground
      (arith, same_method_trans a.method b.method method, matches_path-meets a.path b.path parts)

abbrev all_apart : ApiOperation → List ApiOperation → Bool
all_apart a [] = true
all_apart a (b ∷ ops) = apart a b && all_apart a ops

abbrev pairwise_apart : List ApiOperation → Bool
pairwise_apart [] = true
pairwise_apart (a ∷ ops) = all_apart a ops && pairwise_apart ops

not-later :
    (a b : ApiOperation) (ops : List ApiOperation) (n : ℕ) (method : Method) (parts : List String)
    → all_apart a ops ≡ true
    → operation_at n ops ≡ some b
    → matches a method parts ≡ true
    → matches b method parts ≡ false
not-later a b (op ∷ ops) zero method parts h at k = ground (arith, not-both a op method parts)
not-later a b (op ∷ ops) (suc n) method parts h at k =
    ground (arith, not-later a b ops n method parts)
not-later a b [] n method parts h at k = cc

one_match :
    (ops : List ApiOperation) (m n : ℕ) (a b : ApiOperation) (method : Method) (parts : List String)
    → pairwise_apart ops ≡ true
    → operation_at m ops ≡ some a
    → operation_at n ops ≡ some b
    → matches a method parts ≡ true
    → matches b method parts ≡ true
    → m ≡ n
one_match [] m n a b method parts p x y h k = cc
one_match (op ∷ ops) zero zero a b method parts p x y h k = refl
one_match (op ∷ ops) zero (suc n) a b method parts p x y h k =
    absurd (ground (arith, not-later op b ops n method parts))
one_match (op ∷ ops) (suc m) zero a b method parts p x y h k =
    absurd (ground (arith, not-later op a ops m method parts))
one_match (op ∷ ops) (suc m) (suc n) a b method parts p x y h k =
    ap suc (one_match ops m n a b method parts (ground arith) x y h k)

api_operations-apart : pairwise_apart api_operations ≡ true
unfolding api_operations meets
api_operations-apart = refl

-- Whatever its method and path, a request matches at most one of the operations that are registered:
-- those of the three groups, and the health check.
pub api_operations-one_match :
    (m n : ℕ) (a b : ApiOperation) (method : Method) (parts : List String)
    → operation_at m api_operations ≡ some a
    → operation_at n api_operations ≡ some b
    → matches a method parts ≡ true
    → matches b method parts ≡ true
    → m ≡ n
api_operations-one_match m n a b method parts x y h k =
    one_match api_operations m n a b method parts api_operations-apart x y h k
