-- ===== src/Persistence/Rows.antt =====
-- The row of a pair, as the operations read it, and what a version conflict leaves of it.
use recs.Prelude.{
  ℕ, String, ◌≡◌, refl, ap, sym, ◌∙◌, ◌⊎◌, inl, inr, true, false, Option, arith, Bool-cases,
}
use recs.Errors.{Error, Result, ok, err, is_conditional_check_failed, is_version_conflict}
use recs.SharedKernel.Validity.{IsVoteId}
use recs.Romance.{Romance}
use recs.Dynamo.{UpdateItemInput}
use recs.Dynamo.Attributes.{Item}
use recs.Platform.{Platform}
use recs.RomancesRepository.Get.{romances_table_name, get_romance, get_input}
use recs.RomancesRepository.Represents.{IsLawful, Represents, row_key}
use recs.RomancesRepository.Reading.{get_romance-reads_at}
use recs.RomancesRepository.Writes.{conflict_or}
use recs.Operation.Retry.{Attempt, write_failed}
use recs.Operation.Retry.Bounds.{Conflicts, start, again}

module _ {World : Type 0} (p : Platform World) (stored : World → String → Item → Item) (r : Romance)
    (valid : IsVoteId r.active_user_vote.id)
    (lawful : IsLawful p stored r.active_user_vote.id) where
  -- the row of the romance's pair stands for a romance
  abbrev pub Stands : World → Romance → Type 0
  Stands w =
      Represents p r.active_user_vote.id
        (stored w romances_table_name (row_key p r.active_user_vote.id))

  conflict_or_other : (e : Error) → is_conditional_check_failed e ≡ false → conflict_or e ≡ e
  unfolding conflict_or
  conflict_or_other e n = rw n refl

  -- a version conflict comes from a condition that failed, so nothing was written
  pub conflict_keeps :
      (i : UpdateItemInput) (w : World) (e : Error)
      → (p.client.update_item i w).0 ≡ err e
      → is_version_conflict (conflict_or e) ≡ true
      → stored (p.client.update_item i w).1 ≡ stored w
  conflict_keeps i w e h c = elim (Bool-cases (is_conditional_check_failed e)) [
    | inl t ↦ lawful.database.update_item_fails i w e h t
    | inr n ↦ cc (conflict_or_other e n, lawful.database.update_item_foreign i w e h)
  ]

  get_romance-err :
      (w : World) (e : Error)
      → (p.client.get_item (get_input p r.active_user_vote.id) w).0 ≡ err e
      → get_romance p r.active_user_vote.id w
        ≡ (err e, (p.client.get_item (get_input p r.active_user_vote.id) w).1)
  unfolding get_romance
  get_romance-err w e h = ground arith

  -- the read fails, or gives the romance and changes nothing
  pub read_answered :
      (a : Result (Option Item)) (w : World)
      → (p.client.get_item (get_input p r.active_user_vote.id) w).0 ≡ a
      → Stands w r
      → ((e : Error) × (w' : World) × (get_romance p r.active_user_vote.id w ≡ (err e, w')))
        ⊎ ((w' : World) × (get_romance p r.active_user_vote.id w ≡ (ok r, w'))
            × (stored w' ≡ stored w))
  read_answered (ok o) w h b = inr (
    (p.client.get_item (get_input p r.active_user_vote.id) w).1,
    get_romance-reads_at p stored r.active_user_vote.id valid lawful w h b,
    lawful.database.get_item_keeps _ w,
  )
  read_answered (err e) w h b = inl (e, _, get_romance-err w e h)

  -- what a read that succeeded has given
  pub read_done :
      (w w' : World) (romance : Romance)
      → Stands w r
      → get_romance p r.active_user_vote.id w ≡ (ok romance, w')
      → (romance ≡ r) × (stored w' ≡ stored w)
  read_done w w' romance b f = elim (read_answered _ w refl b) [
    | inl (e, u, g) ↦ cc
    | inr (u, g, k) ↦ let same : w' ≡ u = ap (λ x. x.1) (sym f ∙ g) in (cc, rw same k)
  ]

  -- passes that conflict leave the row as it is
  pub Conflicts-keep :
      {A : Type 0} (attempt : World → Attempt A × World)
      (keeps : (w w' : World) (e : Error)
        → Stands w r
        → attempt w ≡ (write_failed e, w')
        → is_version_conflict e ≡ true
        → stored w' ≡ stored w)
      {n : ℕ} {w v : World}
      → Stands w r
      → Conflicts attempt n w v
      → Stands v r
  Conflicts-keep attempt keeps b start = b
  Conflicts-keep attempt keeps {w = w} b (again {w' = w'} e h c more) =
      Conflicts-keep attempt keeps (rw (keeps w w' e b h c) b) more
