-- ===== src/Grouping.antt =====
-- A list cut into groups of a fixed size, the last one perhaps smaller: the description that the
-- batches of the code are compared with.
use mathlib.Core.List.{append_assoc}
use recs.Prelude.{
  ℕ, ◌≤◌, ◌<◌, ◌≡◌, ◌≢◌, refl, ap, ◌∙◌, List, [], ◌∷◌, ◌++◌, length, length-append, arith, ◌==◌,
  if◌then◌else◌, Bool-cases, inl, inr,
}

abbrev pub concat {ℓ} : {A : Type ℓ} → List (List A) → List A
concat [] = []
concat (g ∷ gs) = g ++ concat gs

-- No group is empty or larger than the limit, and only the last one is smaller.
abbrev pub AreGroups {ℓ} : {A : Type ℓ} → ℕ → List (List A) → Type ℓ
AreGroups limit [] = Unit
AreGroups limit (g ∷ gs) =
    (0 < length g) × (length g ≤ limit) × (gs ≢ [] → length g ≡ limit) × AreGroups limit gs

module _ {A : Type 0} (limit : ℕ) where
  -- a group that is empty is not kept
  abbrev pub last_group : List A → List (List A)
  last_group [] = []
  last_group (x ∷ xs) = (x ∷ xs) ∷ []

  -- the groups of a list behind one that is being filled
  unfoldable pub groups : List A → List A → List (List A)
  groups [] group = last_group group
  groups (x ∷ xs) group =
      let full = groups xs [] in
      let filled = groups xs (group ++ x ∷ []) in
      if length (group ++ x ∷ []) == limit then (group ++ x ∷ []) ∷ full else filled

  pub concat-groups : (xs group : List A) → concat (groups xs group) ≡ group ++ xs
  unfolding groups
  concat-groups [] [] = refl
  concat-groups [] (y ∷ group) = refl
  concat-groups (x ∷ xs) group = elim (Bool-cases (length (group ++ x ∷ []) == limit)) [
    | inl e ↦
        rw e (ap (λ l. (group ++ x ∷ []) ++ l) (concat-groups xs []) ∙ append_assoc group _ xs)
    | inr e ↦ rw e (concat-groups xs (group ++ x ∷ []) ∙ append_assoc group _ xs)
  ]

  pub groups-AreGroups :
      (xs group : List A) → length group < limit → AreGroups limit (groups xs group)
  unfolding groups
  groups-AreGroups [] [] h = tt
  groups-AreGroups [] (y ∷ group) h = (omega arith, omega arith, λ n. absurd (n refl), tt)
  groups-AreGroups (x ∷ xs) group h = elim (Bool-cases (length (group ++ x ∷ []) == limit)) [
    | inl e ↦ rw e (
      ground (arith, length-append group (x ∷ [])),
      ground arith,
      λ _. ground arith,
      groups-AreGroups xs [] (omega arith),
    )
    | inr e ↦
        rw e (groups-AreGroups xs (group ++ x ∷ []) (ground (arith, length-append group (x ∷ []))))
  ]
