-- ===== src/Interleaving/Admission.antt =====
-- A write that the database accepts was computed from the version that is stored.
use recs.Prelude.{String, ◌≡◌, refl, sym, ap, ◌∙◌, true, false, Option, [], ap₂, arith}
use recs.Errors.{Result, ok, err}
use recs.Time.{Time}
use recs.VoteType.{VoteType}
use recs.Romance.{Romance, is_empty}
use recs.Dynamo.{UpdateItemInput}
use recs.Dynamo.Attributes.{Item}
use recs.Dynamo.Expressions.{admits}
use recs.Platform.{Platform}
use recs.RomancesRepository.Get.{romances_table_name}
use recs.RomancesRepository.Represents.{IsLawful, Represents, absent, row, row_key}
use recs.RomancesRepository.Locking.{admits-add, admits-change, admits-delete}
use recs.RomancesRepository.Writes.{
  add_active_user_vote_to_romance, add_input, change_active_user_vote_type_in_romance, change_input,
  delete_active_user_vote_from_romance, delete_input,
}
use recs.Interleaving.{Write, add_vote, change_vote, delete_vote, writes, write_to}

module _ {World : Type 0} (p : Platform World) (r current : Romance) (item : Item) where
  change_nil :
      (vote_type : VoteType) (now : Time) → admits (change_input p r vote_type now) [] ≡ false
  unfolding change_input admits
  change_nil vote_type now = refl

  delete_nil : admits (delete_input p r) [] ≡ false
  unfolding delete_input admits
  delete_nil = refl

  -- the condition of each update, where it holds
  pub add_same :
      (vote_type : VoteType) (voted_at now : Time)
      → Represents p r.active_user_vote.id item current
      → admits (add_input p r vote_type voted_at now) item ≡ true
      → r.version ≡ current.version
  add_same vote_type voted_at now stands h =
      ground (arith, admits-add p r current item vote_type voted_at now stands)

  pub change_same :
      (vote_type : VoteType) (now : Time)
      → Represents p r.active_user_vote.id item current
      → admits (change_input p r vote_type now) item ≡ true
      → r.version ≡ current.version
  change_same vote_type now (absent e f) h =
      cc (change_nil vote_type now, ap (admits (change_input p r vote_type now)) e)
  change_same vote_type now (row k) h =
      ground (arith, admits-change p r current item vote_type now k)

  pub delete_same :
      Represents p r.active_user_vote.id item current
      → admits (delete_input p r) item ≡ true
      → r.version ≡ current.version
  delete_same (absent e f) h = cc (delete_nil, ap (admits (delete_input p r)) e)
  delete_same (row k) h = ground (arith, admits-delete p r current item k)

module _ {World : Type 0} (p : Platform World) (stored : World → String → Item → Item)
    (r current : Romance) (lawful : IsLawful p stored r.active_user_vote.id) (w : World) where
  abbrev pub pair_row : World → Item
  pair_row v = stored v romances_table_name (row_key p r.active_user_vote.id)

  pub admitted :
      (i : UpdateItemInput) (v : World) (new : Item)
      → i.table_name ≡ romances_table_name
      → i.key ≡ row_key p r.active_user_vote.id
      → (p.client.update_item i v).0 ≡ ok new
      → stored v ≡ stored w
      → admits i (pair_row w) ≡ true
  admitted i v new t k h same =
      ap (λ s. admits i (s romances_table_name (row_key p r.active_user_vote.id))) (sym same)
      ∙ (ap (admits i) (ap₂ (stored v) (sym t) (sym k))
          ∙ lawful.database.update_item_admitted i v new h)

  -- the answers of the database to calls that succeed
  pub add_answer :
      (vote_type : VoteType) (voted_at : Time) (a : Option Romance) (w' : World) (u : Result Item)
      → (p.client.update_item (add_input p r vote_type voted_at (p.now w).0) (p.now w).1).0 ≡ u
      → write_to p (add_vote vote_type voted_at) r w ≡ (ok a, w')
      → (new : Item) × ((p.client.update_item
            (add_input p r vote_type voted_at (p.now w).0)
            (p.now w).1).0
          ≡ ok new)
  unfolding write_to add_active_user_vote_to_romance
  add_answer vote_type voted_at a w' (ok new) e h = (new, e)
  add_answer vote_type voted_at a w' (err x) e h = absurd (ground arith)

  change_answer :
      (vote_type : VoteType) (a : Option Romance) (w' : World) (u : Result Item)
      → (p.client.update_item (change_input p r vote_type (p.now w).0) (p.now w).1).0 ≡ u
      → write_to p (change_vote vote_type) r w ≡ (ok a, w')
      → (new : Item) × ((p.client.update_item
            (change_input p r vote_type (p.now w).0)
            (p.now w).1).0
          ≡ ok new)
  unfolding write_to change_active_user_vote_type_in_romance
  change_answer vote_type a w' (ok new) e h = (new, e)
  change_answer vote_type a w' (err x) e h = absurd (ground arith)

  delete_answer :
      (a : Option Romance) (w' : World) (u : Result Item)
      → (p.client.update_item (delete_input p r) w).0 ≡ u
      → is_empty r ≡ false
      → write_to p delete_vote r w ≡ (ok a, w')
      → (new : Item) × ((p.client.update_item (delete_input p r) w).0 ≡ ok new)
  unfolding write_to delete_active_user_vote_from_romance
  delete_answer a w' (ok new) e n h = (new, e)
  delete_answer a w' (err x) e n h = absurd (ground arith)

  -- A write that succeeds was made to a romance of the version that is stored.
  pub write_same :
      (write : Write) (a : Option Romance) (w' : World)
      → writes write r ≡ true
      → write_to p write r w ≡ (ok a, w')
      → Represents p r.active_user_vote.id (pair_row w) current
      → r.version ≡ current.version
  unfolding add_input change_input delete_input
  write_same (add_vote vote_type voted_at) a w' n h stands =
      let (new, e) = add_answer vote_type voted_at a w' _ refl h in
      add_same p r current (pair_row w) vote_type voted_at (p.now w).0 stands
        (admitted _ _ new refl refl e (lawful.clock_keeps w))
  write_same (change_vote vote_type) a w' n h stands =
      let (new, e) = change_answer vote_type a w' _ refl h in
      change_same p r current (pair_row w) vote_type (p.now w).0 stands
        (admitted _ _ new refl refl e (lawful.clock_keeps w))
  write_same delete_vote a w' n h stands =
      let (new, e) = delete_answer a w' _ refl (ground arith) h in
      delete_same p r current (pair_row w) stands (admitted _ _ new refl refl e refl)
