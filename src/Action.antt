-- ===== src/Action.antt =====
-- A call that may change the world outside the program and may return an error. What was done
-- before an error stays done, so the world comes back beside the error too.
use mathlib.Core.Path.{◌≡◌, fun_ext}
use native.Mathlib.Omega.{arith}
use recs.Errors.{Error, Result, ok, err}

abbrev pub Action : Type 0 → Type 0 → Type 0
Action World A = World → Result A × World

module _ {World A : Type 0} where
  abbrev pub pure : A → Action World A
  pure a w = (ok a, w)

  abbrev pub raise : Error → Action World A
  raise e w = (err e, w)

  abbrev pub lift : Result A → Action World A
  lift r w = (r, w)

infixl 10 ◌>>=◌ ◌>>◌
abbrev pub ◌>>=◌ : {World A B : Type 0} → Action World A → (A → Action World B) → Action World B
◌>>=◌ m f w = let (r, w') = m w in elim r [ ok a ↦ f a w' | err e ↦ (err e, w') ]

abbrev pub ◌>>◌ : {World A B : Type 0} → Action World A → Action World B → Action World B
m >> k = m >>= λ _. k

-- a call that cannot fail
abbrev pub call : {World A : Type 0} → (World → A × World) → Action World A
call m w = let (a, w') = m w in (ok a, w')

>>-pure_at :
    {World : Type 0} (m : Action World Unit) (w : World) (r : Result Unit) (w' : World)
    → m w ≡ (r, w')
    → (m >> pure tt) w ≡ m w
>>-pure_at m w (ok tt) w' e = ground arith
>>-pure_at m w (err x) w' e = ground arith

-- a call that is the last one
pub >>-pure : {World : Type 0} (m : Action World Unit) → (m >> pure tt) ≡ m
>>-pure m = fun_ext λ w. >>-pure_at m w (m w).0 (m w).1 (λ i. m w)

>>-assoc_at :
    {World A : Type 0} (m : Action World A) (k : Action World Unit) (w : World) (r : Result A)
    (w' : World)
    → m w ≡ (r, w')
    → ((m >>= λ _. pure tt) >> k) w ≡ (m >>= λ _. k) w
>>-assoc_at m k w (ok a) w' e = ground arith
>>-assoc_at m k w (err x) w' e = ground arith

-- a call whose result is dropped before another one
pub >>-assoc :
    {World A : Type 0} (m : Action World A) (k : Action World Unit)
    → ((m >>= λ _. pure tt) >> k) ≡ (m >>= λ _. k)
>>-assoc m k = fun_ext λ w. >>-assoc_at m k w (m w).0 (m w).1 (λ i. m w)
