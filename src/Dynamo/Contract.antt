-- ===== src/Dynamo/Contract.antt =====
-- What DynamoDB documents of the calls, as hypotheses on a client that nobody else writes through at
-- the same time. `stored` gives the item that a table holds under a key, empty where there is none.
use recs.Prelude.{String, ◌≡◌, true, false, Option, none, some, []}
use recs.Errors.{
  Error, ok, err, conditional_check_failed, is_conditional_check_failed, is_version_conflict,
}
use recs.Dynamo.{Client, GetItemInput, UpdateItemInput}
use recs.Dynamo.Attributes.{Item}
use recs.Dynamo.Expressions.{update_of, admits}

abbrev pub or_empty : Option Item → Item
or_empty none = []
or_empty (some item) = item

pub record IsDocumented {World : Type 0} (client : Client World)
    (stored : World → String → Item → Item) : Type 0 where
  -- a consistent read gives what is stored, and changes nothing
  pub get_item_reads :
      (i : GetItemInput) (w : World) (o : Option Item)
      → i.consistent_read ≡ true
      → (client.get_item i w).0 ≡ ok o
      → or_empty o ≡ stored w i.table_name i.key
  pub get_item_keeps : (i : GetItemInput) (w : World) → stored (client.get_item i w).1 ≡ stored w
  -- an update that succeeds met its condition, and stores and returns the item that it makes
  pub update_item_admitted :
      (i : UpdateItemInput) (w : World) (new : Item)
      → (client.update_item i w).0 ≡ ok new
      → admits i (stored w i.table_name i.key) ≡ true
  pub update_item_makes :
      (i : UpdateItemInput) (w : World) (new : Item)
      → (client.update_item i w).0 ≡ ok new
      → update_of i (stored w i.table_name i.key) ≡ some new
  pub update_item_stores :
      (i : UpdateItemInput) (w : World) (new : Item)
      → (client.update_item i w).0 ≡ ok new
      → stored (client.update_item i w).1 i.table_name i.key ≡ new
  -- an update whose condition fails says so, and then changes nothing; any other error leaves open
  -- whether the update was made, and is none of the program's own
  pub update_item_refuses :
      (i : UpdateItemInput) (w : World)
      → admits i (stored w i.table_name i.key) ≡ false
      → (client.update_item i w).0 ≡ err conditional_check_failed
  pub update_item_fails :
      (i : UpdateItemInput) (w : World) (e : Error)
      → (client.update_item i w).0 ≡ err e
      → is_conditional_check_failed e ≡ true
      → stored (client.update_item i w).1 ≡ stored w
  pub update_item_foreign :
      (i : UpdateItemInput) (w : World) (e : Error)
      → (client.update_item i w).0 ≡ err e
      → is_version_conflict e ≡ false
