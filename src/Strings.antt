-- ===== src/Strings.antt =====
-- What the code uses of the language's text functions: `strings.HasSuffix`, `strings.TrimSuffix`,
-- the last part of `strings.Split` at a colon, and `%d`.
pub mod Decimals
pub mod Suffixes
use Prim.Native.Char.{code}
use Prim.Native.String.{String}
use Prim.Native.String.{◌++◌ as ◌<>◌}
use text.Mathlib.Text.{◌==◌ as str_eq}
use recs.Prelude.{
  ℕ, zero, suc, ◌/◌, ◌%◌, Bool, true, false, List, [], ◌∷◌, ltb, ◌==◌, if◌then◌else◌,
}

unfoldable pub has_suffix : String → String → Bool
has_suffix String.[] suffix = str_eq String.[] suffix
has_suffix (String.◌∷◌ c s) suffix =
    if str_eq (String.◌∷◌ c s) suffix then true else has_suffix s suffix

unfoldable pub trim_suffix : String → String → String
trim_suffix String.[] suffix = String.[]
trim_suffix (String.◌∷◌ c s) suffix =
    if str_eq (String.◌∷◌ c s) suffix then String.[] else String.◌∷◌ c (trim_suffix s suffix)

-- a character in front of the first part
abbrev pub push : String → List String → List String
push c [] = c ∷ []
push c (part ∷ parts) = (c <> part) ∷ parts

unfoldable pub split_colon : String → List String
split_colon String.[] = String.[] ∷ []
split_colon (String.◌∷◌ c s) =
    if code c == b':'
    then String.[] ∷ split_colon s
    else push (String.◌∷◌ c String.[]) (split_colon s)

-- `parts[len(parts)-1]`; there is a part
abbrev pub last_part : List String → String
last_part [] = String.[]
last_part (part ∷ []) = part
last_part (part ∷ next ∷ parts) = last_part (next ∷ parts)

abbrev digits : List String
digits = "0" ∷ "1" ∷ "2" ∷ "3" ∷ "4" ∷ "5" ∷ "6" ∷ "7" ∷ "8" ∷ "9" ∷ []

abbrev text_at : ℕ → List String → String
text_at n [] = String.[]
text_at zero (t ∷ ts) = t
text_at (suc n) (t ∷ ts) = text_at n ts

unfoldable pub digit : ℕ → String
digit d = text_at d digits

-- `%d` of a number with at most as many digits as the first argument
unfoldable pub decimal : ℕ → ℕ → String
unfolding digit
decimal zero n = String.[]
decimal (suc width) n =
    let rest = decimal width (n / 10) in if ltb n 10 then digit n else rest <> digit (n % 10)
