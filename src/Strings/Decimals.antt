-- ===== src/Strings/Decimals.antt =====
-- What is printed is read back.
use Prim.Native.Char.{code}
use Prim.Native.String.{String, ◌++◌ as ◌<>◌}
use text.Mathlib.TextLemmas.{nil-append, cons-append}
use recs.Prelude.{
  ℕ, zero, suc, ◌+◌, ◌-◌, ◌*◌, ◌/◌, ◌%◌, ◌^◌, ◌<◌, ◌≡◌, refl, sym, ap, ◌∙◌, Bool-cases, ltb, inl,
  inr, arith,
}
use recs.Strings.{digit, decimal}

-- the number of a text of digits, after a number that was read before
unfoldable value : ℕ → String → ℕ
value n String.[] = n
value n (String.◌∷◌ c s) = value (n * 10 + (code c - b'0')) s

value-nil : (n : ℕ) → value n String.[] ≡ n
unfolding value
value-nil n = refl

value-append : (n : ℕ) (s t : String) → value n (s <> t) ≡ value (value n s) t
unfolding value
value-append n String.[] t = rw nil-append refl
value-append n (String.◌∷◌ c s) t = rw cons-append (value-append (n * 10 + (code c - b'0')) s t)

value-digit : (n d : ℕ) → d < 10 → value n (digit d) ≡ n * 10 + d
unfolding value digit
value-digit n zero h = refl
value-digit n (suc zero) h = refl
value-digit n (suc (suc zero)) h = refl
value-digit n (suc (suc (suc zero))) h = refl
value-digit n (suc (suc (suc (suc zero)))) h = refl
value-digit n (suc (suc (suc (suc (suc zero))))) h = refl
value-digit n (suc (suc (suc (suc (suc (suc zero)))))) h = refl
value-digit n (suc (suc (suc (suc (suc (suc (suc zero))))))) h = refl
value-digit n (suc (suc (suc (suc (suc (suc (suc (suc zero)))))))) h = refl
value-digit n (suc (suc (suc (suc (suc (suc (suc (suc (suc zero))))))))) h = refl
value-digit n (suc (suc (suc (suc (suc (suc (suc (suc (suc (suc d)))))))))) h = absurd (omega arith)

value-decimal : (digits n : ℕ) → n < 10 ^ digits → value 0 (decimal digits n) ≡ n
unfolding decimal
value-decimal zero n h = value-nil 0 ∙ omega arith
value-decimal (suc digits) n h = elim (Bool-cases (ltb n 10)) [
  | inl small ↦ rw small (value-digit 0 n (ground arith) ∙ omega arith)
  | inr large ↦ rw large (
      value-append 0 (decimal digits (n / 10)) (digit (n % 10))
      ∙ value-digit (value 0 (decimal digits (n / 10))) (n % 10) (omega arith)
      ∙ rw (value-decimal digits (n / 10) (grind arith)) (omega arith))
]

-- Numbers that are printed alike are equal.
pub decimal_inj :
    (digits n m : ℕ)
    → n < 10 ^ digits
    → m < 10 ^ digits
    → decimal digits n ≡ decimal digits m
    → n ≡ m
decimal_inj digits n m h k e =
    sym (value-decimal digits n h) ∙ ap (value 0) e ∙ value-decimal digits m k
