-- ===== src/Commands/Resolve.antt =====
-- `HourlyCountersGet.Resolve`: the offsets of the query are checked and narrowed to uint8
-- (internal/context/voting/interface/api/rest/v1/query/counters_queries.go). The errors carry the
-- message of the code's `ErrorDetail`; its location and value are the same in all of them.
use recs.Prelude.{
  ℕ, ◌-◌, ◌%◌, ◌<◌, ◌≡◌, ◌≢◌, ◌↔◌, refl, ap, ◌∙◌, List, [], ◌∷◌, map, arith, if◌then◌else◌,
}
use recs.Prelude.Int.{ℤ, pos, negsuc, eqb_ℤ}
use recs.Errors.{Result, ok, err, no_uint8, ◌>>=◌}
use recs.HoursOffsets.{validate_hours_offsets}
use recs.HoursOffsets.Validation.{AreOffsets, validate_hours_offsets_iff}
use recs.Commands.{HourlyCountersGet}

-- `uint8(p)` of an int
unfoldable pub to_uint8 : ℤ → ℕ
to_uint8 (pos k) = k % 256
to_uint8 (negsuc k) = 255 - k % 256

-- the loop
unfoldable pub narrow : List ℤ → Result (List ℕ)
unfolding to_uint8
narrow [] = ok []
narrow (p ∷ ps) = do
  offset ← (if eqb_ℤ (pos (to_uint8 p)) p then ok (to_uint8 p) else err (no_uint8 p))
  offsets ← narrow ps
  ok (offset ∷ offsets)

unfoldable pub resolve : HourlyCountersGet → Result HourlyCountersGet
unfolding narrow validate_hours_offsets
resolve in_query = do
  offsets ← narrow in_query.hours_offset_groups_raw
  validated ← validate_hours_offsets offsets
  ok (record in_query { hours_offset_groups = offsets })

-- the values of a uint8
abbrev AreUint8 : List ℕ → Type 0
AreUint8 [] = Unit
AreUint8 (x ∷ xs) = (x < 256) × AreUint8 xs

narrow-map : (offsets : List ℕ) → AreUint8 offsets → narrow (map pos offsets) ≡ ok offsets
unfolding narrow
narrow-map [] h = refl
narrow-map (x ∷ xs) h = ground (arith, narrow-map xs h.1)

narrow_step :
    (p : ℤ) (ps : List ℤ) (offsets : List ℕ)
    → narrow (p ∷ ps) ≡ ok offsets
    → (x : ℕ) × (xs : List ℕ) × (offsets ≡ x ∷ xs) × (p ≡ pos x) × (narrow ps ≡ ok xs)
unfolding narrow
narrow_step p ps offsets h = step (narrow ps) refl
  where
    step :
        (r : Result (List ℕ))
        → narrow ps ≡ r
        → (x : ℕ) × (xs : List ℕ) × (offsets ≡ x ∷ xs) × (p ≡ pos x) × (narrow ps ≡ ok xs)
    step (ok xs) e = (to_uint8 p, xs, ground arith, ground arith, e)
    step (err x) e = absurd (ground arith)

narrow-ok : (raw : List ℤ) (offsets : List ℕ) → narrow raw ≡ ok offsets → raw ≡ map pos offsets
unfolding narrow
narrow-ok [] [] h = refl
narrow-ok [] (x ∷ xs) h = cc
narrow-ok (p ∷ ps) offsets h =
    let (x, xs, e, f, g) = narrow_step p ps offsets h in cc (narrow-ok ps xs g)

AreOffsets-AreUint8 : (offsets : List ℕ) → AreOffsets offsets → AreUint8 offsets
AreOffsets-AreUint8 [] h = tt
AreOffsets-AreUint8 (x ∷ xs) h = (omega arith, AreOffsets-AreUint8 xs h.3)

resolve-ok :
    (q : HourlyCountersGet) (offsets : List ℕ)
    → narrow q.hours_offset_groups_raw ≡ ok offsets
    → validate_hours_offsets offsets ≡ ok tt
    → resolve q ≡ ok (record q { hours_offset_groups = offsets })
unfolding resolve
resolve-ok q offsets h k = ground arith

resolve_inverse :
    (q : HourlyCountersGet) (offsets : List ℕ)
    → resolve q ≡ ok (record q { hours_offset_groups = offsets })
    → (narrow q.hours_offset_groups_raw ≡ ok offsets) × (validate_hours_offsets offsets ≡ ok tt)
unfolding resolve
resolve_inverse q offsets h = (ground arith, ground arith)

-- A query is accepted with these offsets exactly when they are what was sent, there is one, each is
-- between 1 and 48, and none stands twice. No negative or large number is taken for another.
pub resolve_iff :
    (q : HourlyCountersGet) (offsets : List ℕ)
    → (resolve q ≡ ok (record q { hours_offset_groups = offsets }))
      ↔ ((q.hours_offset_groups_raw ≡ map pos offsets) × (offsets ≢ []) × AreOffsets offsets)
resolve_iff q offsets = (
  λ h.
      let (n, v) = resolve_inverse q offsets h in
      let (some_offset, a) = (validate_hours_offsets_iff offsets).0 v in
      (narrow-ok q.hours_offset_groups_raw offsets n, some_offset, a),
  λ h.
      resolve-ok q offsets (ap narrow h.0 ∙ narrow-map offsets (AreOffsets-AreUint8 offsets h.2))
        ((validate_hours_offsets_iff offsets).1 (h.1, h.2)),
)
