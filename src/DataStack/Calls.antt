-- ===== src/DataStack/Calls.antt =====
-- Which requests lead from one world to another, and how calls compose.
use recs.Prelude.{Bool, true, false, ◌≡◌, refl, String, ◌⊎◌, All, arith, if◌then◌else◌}
use recs.Errors.{Error, Result, ok, err}
use recs.Action.{Action, ◌>>=◌}
use recs.Dynamo.{
  GetItemInput, UpdateItemInput, DeleteItemInput, QueryInput, TransactUpdate,
  TransactWriteItemsInput, BatchWriteItemInput,
}
use recs.Dynamo.Attributes.{Item}
use recs.Platform.{Platform}
use recs.RomancesRepository.Writes.{or_raise}
use recs.DataStack.{data_stack}
use recs.DataStack.Requests.{FitsTable, FitsQuery}

-- a key of one of the two tables that are deployed, by the table's name
abbrev pub IsDeployed : String → Item → Type 0
IsDeployed table_name key =
    FitsTable data_stack.romances table_name key ⊎ FitsTable data_stack.counters table_name key

abbrev pub IsDeployedQuery : QueryInput → Type 0
IsDeployedQuery query = FitsQuery data_stack.romances query ⊎ FitsQuery data_stack.counters query

module _ {World : Type 0} (p : Platform World) where
  -- The worlds that lead from one by looks at the clock and by requests that fit a deployed table:
  -- each key that a request gives, and each query.
  pub data Calls (w : World) : World → Type 0 where
    start : Calls w w
    looks : {v : World} → Calls w v → Calls w (p.now v).1
    gets :
        {v : World} (i : GetItemInput)
        → IsDeployed i.table_name i.key
        → Calls w v
        → Calls w (p.client.get_item i v).1
    updates :
        {v : World} (i : UpdateItemInput)
        → IsDeployed i.table_name i.key
        → Calls w v
        → Calls w (p.client.update_item i v).1
    deletes :
        {v : World} (i : DeleteItemInput)
        → IsDeployed i.table_name i.key
        → Calls w v
        → Calls w (p.client.delete_item i v).1
    queries :
        {v : World} (i : QueryInput)
        → IsDeployedQuery i
        → Calls w v
        → Calls w (p.client.query i v).1
    transacts :
        {v : World} (i : TransactWriteItemsInput)
        → All (λ (u : TransactUpdate). IsDeployed u.table_name u.key) i.transact_items
        → Calls w v
        → Calls w (p.client.transact_write_items i v).1
    batch_deletes :
        {v : World} (i : BatchWriteItemInput)
        → All (IsDeployed i.table_name) i.delete_keys
        → Calls w v
        → Calls w (p.client.batch_write_item i v).1

  -- An action whose every run is such calls.
  abbrev pub Fits : {A : Type 0} → Action World A → Type 0
  Fits m = (w v : World) → Calls w v → Calls w (m v).1

  bind_at :
      {A B : Type 0} (m : Action World A) (f : A → Action World B) (w v : World) (r : Result A)
      (v' : World)
      → m v ≡ (r, v')
      → Calls w v'
      → ((a : A) → Fits (f a))
      → Calls w ((m >>= f) v).1
  bind_at m f w v (ok a) v' e c k =
      let same : (m >>= f) v ≡ f a v' = ground arith in rw same (k a w v' c)
  bind_at m f w v (err x) v' e c k =
      let same : (m >>= f) v ≡ (err x, v') = ground arith in rw same c

  pub Fits-bind :
      {A B : Type 0} (m : Action World A) (f : A → Action World B)
      → Fits m
      → ((a : A) → Fits (f a))
      → Fits (m >>= f)
  Fits-bind m f h k w v c = bind_at m f w v (m v).0 (m v).1 refl (h w v c) k

  or_raise_at :
      {A : Type 0} (m : Action World A) (f : Error → Error) (w v : World) (r : Result A)
      (v' : World)
      → m v ≡ (r, v')
      → Calls w v'
      → Calls w (or_raise m f v).1
  or_raise_at m f w v (ok a) v' e c =
      let same : or_raise m f v ≡ (ok a, v') = ground arith in rw same c
  or_raise_at m f w v (err x) v' e c =
      let same : or_raise m f v ≡ (err (f x), v') = ground arith in rw same c

  pub Fits-or_raise :
      {A : Type 0} (m : Action World A) (f : Error → Error) → Fits m → Fits (or_raise m f)
  Fits-or_raise m f h w v c = or_raise_at m f w v (m v).0 (m v).1 refl (h w v c)

  pub Fits-if :
      {A : Type 0} (b : Bool) (m n : Action World A) → Fits m → Fits n → Fits (if b then m else n)
  Fits-if true m n h k = h
  Fits-if false m n h k = k
