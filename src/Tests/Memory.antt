-- ===== src/Tests/Memory.antt =====
-- A platform whose database is a table in memory, with the behaviour that DynamoDB documents.
use text.Mathlib.Text.{◌==◌ as str_eq}
use text.Mathlib.TextPositions.{eq_refl}
use recs.Prelude.{
  String, ◌≡◌, refl, Bool, true, false, ◌&&◌, Option, none, some, [], ◌∷◌, replicate, arith,
  if◌then◌else◌,
}
use recs.Prelude.Int.{pos, negsuc}
use recs.Errors.{Error, Result, ok, err, conditional_check_failed, external, is_version_conflict}
use recs.Uuid.{Uuid, uuid_eq, bytes_less, bytes_compare}
use recs.SharedKernel.{VoteId, ActiveUserKey}
use recs.Time.{Time, from_unix}
use recs.Config.{settings}
use recs.Dynamo.{Client, GetItemInput, UpdateItemInput}
use recs.Dynamo.Attributes.{Item, AttributeValue}
use recs.Dynamo.Expressions.{update_of, admits, attribute_eq}
use recs.Dynamo.Contract.{IsDocumented, or_empty}
use recs.Documents.Decoding.{document_of, fits}
use recs.SharedKernel.Validity.{IsVoteId}
use recs.RomancesRepository.PrimaryKey.{new_romance_primary_key}
use recs.RomancesRepository.Represents.{IsLawful}
use recs.Platform.{Platform}

-- what the tables hold
abbrev pub Memory : Type 0
Memory = String → Item → Item

attribute_eq_refl : (a : AttributeValue) → attribute_eq (some a) (some a) ≡ true
unfolding attribute_eq
attribute_eq_refl (AttributeValue.s t) = eq_refl t
attribute_eq_refl (AttributeValue.n (pos k)) = ground arith
attribute_eq_refl (AttributeValue.n (negsuc k)) = ground arith

unfoldable pub key_eq : Item → Item → Bool
key_eq [] [] = true
key_eq ((k, a) ∷ x) ((j, b) ∷ y) = str_eq k j && (attribute_eq (some a) (some b) && key_eq x y)
key_eq _ _ = false

key_eq_refl : (x : Item) → key_eq x x ≡ true
unfolding key_eq
key_eq_refl [] = refl
key_eq_refl ((k, a) ∷ x) = rw (eq_refl k) (rw (attribute_eq_refl a) (key_eq_refl x))

unfoldable pub store : String → Item → Item → Memory → Memory
unfolding key_eq attribute_eq
store table key item m t k = if str_eq table t && key_eq key k then item else m t k

store_self :
    (table : String) (key item : Item) (m : Memory) → store table key item m table key ≡ item
unfolding store
store_self table key item m = rw (eq_refl table) (rw (key_eq_refl key) refl)

unfoldable pub get : GetItemInput → Memory → Result (Option Item) × Memory
get i m = (ok (some (m i.table_name i.key)), m)

unfoldable pub update : UpdateItemInput → Memory → Result Item × Memory
update i m =
    if admits i (m i.table_name i.key)
    then elim (update_of i (m i.table_name i.key)) [
      | none ↦ (err (external 1), m)
      | some new ↦ (ok new, store i.table_name i.key new m)
    ]
    else (err conditional_check_failed, m)

-- Rows of counters are not stored: what updates them does nothing here.
abbrev pub client : Client Memory
client = record {
  get_item = get;
  update_item = update;
  delete_item = λ i m. (ok tt, store i.table_name i.key [] m);
  query = λ i m. (ok (record { items = []; last_evaluated_key = none }), m);
  transact_write_items = λ i m. (ok tt, m);
  batch_write_item = λ i m. (ok [], m);
}

abbrev pub stored : Memory → String → Item → Item
stored m = m

update_admitted :
    (i : UpdateItemInput) (m : Memory) (new : Item)
    → (update i m).0 ≡ ok new
    → (admits i (m i.table_name i.key) ≡ true)
      × (update_of i (m i.table_name i.key) ≡ some new)
      × ((update i m).1 ≡ store i.table_name i.key new m)
unfolding update
update_admitted i m new h = (ground arith, ground arith, ground arith)

update_refused :
    (i : UpdateItemInput) (m : Memory)
    → admits i (m i.table_name i.key) ≡ false
    → (update i m).0 ≡ err conditional_check_failed
unfolding update
update_refused i m h = ground arith

update_failed :
    (i : UpdateItemInput) (m : Memory) (e : Error) → (update i m).0 ≡ err e → (update i m).1 ≡ m
unfolding update
update_failed i m e h = ground arith

update_foreign :
    (i : UpdateItemInput) (m : Memory) (e : Error)
    → (update i m).0 ≡ err e
    → is_version_conflict e ≡ false
unfolding update is_version_conflict
update_foreign i m e h = ground arith

or_empty-get :
    (i : GetItemInput) (m : Memory) (o : Option Item)
    → (get i m).0 ≡ ok o
    → or_empty o ≡ m i.table_name i.key
unfolding get
or_empty-get i m none h = cc
or_empty-get i m (some item) h = cc

get_keeps : (i : GetItemInput) (m : Memory) → (get i m).1 ≡ m
unfolding get
get_keeps i m = refl

pub client-IsDocumented : IsDocumented client stored
client-IsDocumented = record {
  get_item_reads = λ i m o c h. or_empty-get i m o h;
  get_item_keeps = get_keeps;
  update_item_admitted = λ i m new h. (update_admitted i m new h).0;
  update_item_makes = λ i m new h. (update_admitted i m new h).1;
  update_item_stores =
      λ i m new h. rw (update_admitted i m new h).2 (store_self i.table_name i.key new m);
  update_item_refuses = update_refused;
  update_item_fails = λ i m e h c. update_failed i m e h;
  update_item_foreign = update_foreign;
}

-- two users, and the text of their ids
abbrev pub alice : Uuid
alice = 1 ∷ replicate 15 0

abbrev pub bob : Uuid
bob = 2 ∷ replicate 15 7

-- 2025-01-01 at noon, in UTC
abbrev pub noon : Time
noon = from_unix (pos 1735732800)

abbrev pub platform : Platform Memory
platform = record {
  client = client;
  now = λ m. (noon, m);
  unmarshal_romance = λ item. if fits item then ok (document_of item) else err (external 2);
  unmarshal_counters = λ item. ok (record {
    user_id = "alice";
    hour_unix_timestamp = pos 1735732800;
    incoming_yes = 1;
    incoming_no = 2;
    outgoing_yes = 3;
    outgoing_no = 4294967295;
  });
  uuid_string = λ u. if uuid_eq u alice then "alice" else "bob";
  uuid_parse = λ t. if str_eq t "alice" then ok alice else ok bob;
  config = settings (λ name. "");
}

abbrev pub alice_key : ActiveUserKey
alice_key = record { country_id = 7; active_user_id = alice }

abbrev pub alice_to_bob : VoteId
alice_to_bob = record { active_user_key = alice_key; peer_user_id = bob }

pub alice_to_bob-IsVoteId : IsVoteId alice_to_bob
alice_to_bob-IsVoteId = record {
  country = λ e. omega arith;
  active = λ e. cc (e);
  peer = λ e. cc (e);
  differ = λ e. cc (e);
}

pub platform-IsLawful : IsLawful platform stored alice_to_bob
unfolding new_romance_primary_key bytes_less bytes_compare uuid_eq
platform-IsLawful = record {
  database = client-IsDocumented;
  unmarshal = record { reads = λ item h. rw h refl; rejects = λ item h. (external 2, rw h refl) };
  clock_keeps = λ m. refl;
  parse_pk = refl;
  parse_sk = refl;
}
