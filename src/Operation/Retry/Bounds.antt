-- ===== src/Operation/Retry/Bounds.antt =====
-- How often the loop runs its body, and with what it returns.
use recs.Prelude.{ℕ, zero, suc, ◌≤◌, ◌≡◌, refl, ◌⊎◌, inl, inr, true, false, arith, Bool-cases, ◌∙◌}
use recs.Errors.{Error, Result, err, is_version_conflict}
use recs.Operation.Retry.{Attempt, finished, write_failed, retry}

module _ {World A : Type 0} (attempt : World → Attempt A × World) where
  -- `n` passes, each of which ends in a version conflict, lead from one world to another.
  pub data Conflicts : ℕ → World → World → Type 0 where
    start : {w : World} → Conflicts zero w w
    again :
        {n : ℕ} {w w' v : World} (e : Error)
        → attempt w ≡ (write_failed e, w')
        → is_version_conflict e ≡ true
        → Conflicts n w' v
        → Conflicts (suc n) w v

  -- What the last pass returns: its result, or the error of a write that is not tried again.
  pub data Ends (last : Type 0) (w : World) (out : Result A × World) : Type 0 where
    returned :
        (r : Result A) (w' : World) → attempt w ≡ (finished r, w') → out ≡ (r, w') → Ends last w out
    refused :
        (e : Error) (w' : World)
        → attempt w ≡ (write_failed e, w')
        → out ≡ (err e, w')
        → (is_version_conflict e ≡ false) ⊎ last
        → Ends last w out

  -- One pass, by how it ends.
  pub retry_finished :
      (left : ℕ) {w w' : World} {r : Result A}
      → attempt w ≡ (finished r, w')
      → retry attempt left w ≡ (r, w')
  unfolding retry
  retry_finished zero h = ground arith
  retry_finished (suc left) h = ground arith

  retry_refused :
      (left : ℕ) {w w' : World} {e : Error}
      → attempt w ≡ (write_failed e, w')
      → (is_version_conflict e ≡ false) ⊎ (0 ≡ left)
      → retry attempt left w ≡ (err e, w')
  unfolding retry
  retry_refused zero h c = ground arith
  retry_refused (suc left) h (inl c) = ground arith
  retry_refused (suc left) h (inr c) = absurd (omega arith)

  retry_again :
      (left : ℕ) {w w' : World} {e : Error}
      → attempt w ≡ (write_failed e, w')
      → is_version_conflict e ≡ true
      → retry attempt (suc left) w ≡ retry attempt left w'
  unfolding retry
  retry_again left h c = ground arith

  -- The loop's result from a world: the conflicts, and how the pass after them ends.
  abbrev pub Traced : ℕ → World → Type 0
  Traced left w =
      (n : ℕ) × (v : World) × (n ≤ left)
      × Conflicts n w v
      × Ends (n ≡ left) v (retry attempt left w)

  Traced-again :
      (left : ℕ) {w w' : World} {e : Error}
      → attempt w ≡ (write_failed e, w')
      → is_version_conflict e ≡ true
      → Traced left w'
      → Traced (suc left) w
  Traced-again left {e} h c (n, v, b, cs, returned r v' f o) =
      (suc n, v, omega arith, again e h c cs, returned r v' f (retry_again left h c ∙ o))
  Traced-again left {e} h c (n, v, b, cs, refused e' v' f o (inl x)) =
      (suc n, v, omega arith, again e h c cs, refused e' v' f (retry_again left h c ∙ o) (inl x))
  Traced-again left {e} h c (n, v, b, cs, refused e' v' f o (inr x)) = (
    suc n,
    v,
    omega arith,
    again e h c cs,
    refused e' v' f (retry_again left h c ∙ o) (inr (omega arith)),
  )

  Traced-zero : (w : World) (a : Attempt A) (w' : World) → attempt w ≡ (a, w') → Traced 0 w
  Traced-zero w (finished r) w' h = (0, w, omega arith, start, returned r w' h (retry_finished 0 h))
  Traced-zero w (write_failed e) w' h =
      (0, w, omega arith, start, refused e w' h (retry_refused 0 h (inr refl)) (inr refl))

  Traced-suc :
      (left : ℕ) (w : World)
      → ((v : World) → Traced left v)
      → (a : Attempt A) (w' : World) → attempt w ≡ (a, w')
      → Traced (suc left) w
  Traced-suc left w ih (finished r) w' h =
      (0, w, omega arith, start, returned r w' h (retry_finished (suc left) h))
  Traced-suc left w ih (write_failed e) w' h = elim (Bool-cases (is_version_conflict e)) [
    | inl c ↦ Traced-again left h c (ih w')
    | inr c ↦
        (0, w, omega arith, start, refused e w' h (retry_refused (suc left) h (inl c)) (inl c))
  ]

  -- After some number of version conflicts, at most the number of retries, the loop returns what
  -- the next pass returns; a version conflict is returned only when no retry is left.
  pub retry_lem : (left : ℕ) (w : World) → Traced left w
  retry_lem zero w = Traced-zero w (attempt w).0 (attempt w).1 refl
  retry_lem (suc left) w = Traced-suc left w (retry_lem left) (attempt w).0 (attempt w).1 refl

  -- If every pass conflicts, the loop gives up with the conflict after one pass more than it has
  -- retries.
  pub retry_exhausts :
      (left : ℕ) {w v u : World} (e : Error)
      → Conflicts left w v
      → attempt v ≡ (write_failed e, u)
      → retry attempt left w ≡ (err e, u)
  retry_exhausts zero e start h = retry_refused 0 h (inr refl)
  retry_exhausts (suc left) e (again e' f c cs) h =
      retry_again left f c ∙ retry_exhausts left e cs h
