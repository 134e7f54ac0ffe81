-- ===== src/HoursOffsets.antt =====
-- `HoursOffsetGroups` and its validation
-- (internal/context/voting/domain/counter/valueobject/hours_offset_groups.go).
pub mod Validation
use recs.Prelude.{ℕ, Bool, true, false, ◌||◌, List, [], ◌∷◌, ltb, leb, ◌==◌, if◌then◌else◌}
use recs.Errors.{Result, ok, err, new_error, invalid_hour_offset, duplicate_hour_offset, ◌>>=◌}
use recs.Config.{counters_ttl_hours}

-- `_, ok := seen[h]`
unfoldable pub contains : ℕ → List ℕ → Bool
contains h [] = false
contains h (x ∷ seen) = (h == x) || contains h seen

-- the loop of `ValidateHoursOffsets`, with what was seen
unfoldable pub validate_from : List ℕ → List ℕ → Result (Unit {0})
unfolding contains
validate_from seen [] = ok tt
validate_from seen (h ∷ offsets) =
    let rest = validate_from (h ∷ seen) offsets in
    if ltb counters_ttl_hours h || ltb h 1
    then err (invalid_hour_offset h)
    else if contains h seen
    then err (duplicate_hour_offset h)
    else rest

unfoldable pub validate_hours_offsets : List ℕ → Result (Unit {0})
unfolding validate_from
validate_hours_offsets [] = err (new_error "hours offset groups cannot be empty")
validate_hours_offsets (h ∷ offsets) = validate_from [] (h ∷ offsets)

-- `sort.Slice` by `<`: the standard library's sort, as insertion
unfoldable pub insert_sorted : ℕ → List ℕ → List ℕ
insert_sorted h [] = h ∷ []
insert_sorted h (x ∷ xs) = let rest = insert_sorted h xs in if leb h x then h ∷ x ∷ xs else x ∷ rest

unfoldable pub sort : List ℕ → List ℕ
unfolding insert_sorted
sort [] = []
sort (h ∷ offsets) = insert_sorted h (sort offsets)

-- `NewHoursOffsetGroups`, with the field `values` of what it returns
unfoldable pub new_hours_offset_groups : List ℕ → Result (List ℕ)
unfolding validate_hours_offsets sort
new_hours_offset_groups offsets = do validated ← validate_hours_offsets offsets; ok (sort offsets)
