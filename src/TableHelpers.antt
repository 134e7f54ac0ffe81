-- ===== src/TableHelpers.antt =====
-- The helpers of the integration tests: the tables that they make, and the records that they read and
-- delete (internal/testlib/helper). The calls of the client that only they make, the clock, in
-- nanoseconds, and `time.Sleep` are parameters.
pub mod Waiting
pub mod Records
use recs.Prelude.{
  ℕ, zero, suc, ◌+◌, ◌*◌, String, Bool, true, false, Option, none, some, List, [], ◌∷◌, ◌++◌,
  length, ltb, ◌==◌, if◌then◌else◌,
}
use recs.Errors.{Error, Result, ok, err, resource_in_use, not_active, no_ttl}
use recs.Action.{Action, pure, lift, ◌>>=◌, ◌>>◌}
use recs.SharedKernel.{ActiveUserKey}
use recs.Dynamo.{QueryInput, KeyConditionExpression}
use recs.Dynamo.Attributes.{Item, AttributeValue, get}
use recs.Documents.{RomanceDocumentSchema}
use recs.Platform.{Platform}
use recs.RomancesRepository.PrimaryKey.{RomancePrimaryKey}
use recs.RomancesRepository.Get.{romances_table_name, pk_user_id_attr_name, sk_user_id_attr_name}
use recs.CountersRepository.Increments.{
  counters_table_name, user_id_attr_name, hour_unix_timestamp_attr_name,
}
use recs.DataStack.{AttributeType, string_type, number_type, Attribute, Keys, GlobalSecondaryIndex}

-- `KeyTypeHash`, `KeyTypeRange`
pub data KeyType : Type 0 where
  hash_key range_key : KeyType

pub record CreateTableInput : Type 0 where
  pub table_name : String
  pub attribute_definitions : List Attribute
  pub key_schema : List (String × KeyType)
  -- an index: its name, and its key schema; it projects the keys only
  pub global_secondary_indexes : List (String × List (String × KeyType))

-- `describe_table` tells whether there is a table that is active
pub record Admin (World : Type 0) : Type 0 where
  pub create_table : CreateTableInput → Action World Unit
  pub describe_table : String → Action World Bool
  pub update_time_to_live : String → String → Action World Unit
  pub now : World → ℕ × World
  pub sleep : ℕ → World → World

abbrev pub counters_input : CreateTableInput
counters_input = record {
  table_name = counters_table_name;
  attribute_definitions =
      record { name = user_id_attr_name; attribute_type = string_type }
      ∷ record { name = hour_unix_timestamp_attr_name; attribute_type = number_type }
      ∷ [];
  key_schema = (user_id_attr_name, hash_key) ∷ (hour_unix_timestamp_attr_name, range_key) ∷ [];
  global_secondary_indexes = [];
}

abbrev pub romances_input : CreateTableInput
romances_input = record {
  table_name = romances_table_name;
  attribute_definitions =
      record { name = pk_user_id_attr_name; attribute_type = string_type }
      ∷ record { name = sk_user_id_attr_name; attribute_type = string_type }
      ∷ [];
  key_schema = (pk_user_id_attr_name, hash_key) ∷ (sk_user_id_attr_name, range_key) ∷ [];
  global_secondary_indexes =
      ("gsiByMaxMinUser", (sk_user_id_attr_name, hash_key) ∷ (pk_user_id_attr_name, range_key) ∷ [])
      ∷ [];
}

abbrev pub is_resource_in_use : Error → Bool
is_resource_in_use resource_in_use = true
is_resource_in_use _ = false

abbrev pub milliseconds : ℕ
milliseconds = 1000000

module _ {World : Type 0} (a : Admin World) where
  abbrev pub enable_ttl : String → World → Result (Unit {0}) × World
  enable_ttl table w =
      let (r, w') = a.update_time_to_live table "ttl" w in
      elim r [ ok _ ↦ (ok tt, w') | err e ↦ (err (no_ttl e), w') ]

  -- the loop, for at most so many rounds: `none` where they ran out
  unfoldable pub wait_active : ℕ → ℕ → String → World → Option (Result (Unit {0}) × World)
  wait_active zero deadline table w = none
  wait_active (suc rounds) deadline table w =
      let (t, w') = a.now w in
      let (active, w'') = a.describe_table table w' in
      let later = wait_active rounds deadline table (a.sleep (200 * milliseconds) w'') in
      if ltb t deadline
      then elim active [ ok true ↦ some (enable_ttl table w'') | ok false ↦ later | err _ ↦ later ]
      else some (err (not_active table), w')

  unfoldable pub create_table : ℕ → CreateTableInput → World → Option (Result (Unit {0}) × World)
  unfolding wait_active
  create_table rounds input w =
      let (created, w') = a.create_table input w in
      let (t, w'') = a.now w' in
      let waited = wait_active rounds (t + 10000 * milliseconds) input.table_name w'' in
      elim created [
        | ok _ ↦ waited
        | err e ↦ if is_resource_in_use e then waited else some (err e, w')
      ]

  -- `CreateCountersTable`, `CreateRomancesTable`
  unfoldable pub create_counters_table : ℕ → World → Option (Result (Unit {0}) × World)
  unfolding create_table
  create_counters_table rounds = create_table rounds counters_input

  unfoldable pub create_romances_table : ℕ → World → Option (Result (Unit {0}) × World)
  unfolding create_table
  create_romances_table rounds = create_table rounds romances_input

module _ {World : Type 0} (p : Platform World) where
  -- the zero value of the record
  abbrev pub no_record : RomanceDocumentSchema
  no_record = record {
    pk_user_id = "";
    sk_user_id = "";
    pk_user_vote_type = 0;
    pk_user_voted_at = none;
    pk_user_vote_created_at = none;
    pk_user_vote_updated_at = none;
    sk_user_vote_type = 0;
    sk_user_voted_at = none;
    sk_user_vote_created_at = none;
    sk_user_vote_updated_at = none;
    version = 0;
  }

  -- what `GetRomanceTableRecord` makes of the item that was found
  abbrev pub read_record : Option Item → Action World RomanceDocumentSchema
  read_record none = pure no_record
  read_record (some []) = pure no_record
  read_record (some (attribute ∷ item)) = lift (p.unmarshal_romance (attribute ∷ item))

  unfoldable pub get_romance_table_record :
      RomancePrimaryKey → String → Action World RomanceDocumentSchema
  get_romance_table_record romance_key dynamo_db_region = do
    out ← p.client.get_item (record {
      key =
          (pk_user_id_attr_name, AttributeValue.s (p.uuid_string romance_key.pk))
          ∷ (sk_user_id_attr_name, AttributeValue.s (p.uuid_string romance_key.sk))
          ∷ [];
      table_name = romances_table_name;
      consistent_read = true;
      region = some dynamo_db_region;
    })
    read_record out

  unfoldable pub user_records_query : ActiveUserKey → Option Item → QueryInput
  user_records_query active_user_key last_evaluated_key = record {
    table_name = counters_table_name;
    index_name = none;
    key_condition_expression = KeyConditionExpression.partition user_id_attr_name ":uid";
    expression_attribute_names = [];
    expression_attribute_values =
        (":uid", AttributeValue.s (p.uuid_string active_user_key.active_user_id)) ∷ [];
    exclusive_start_key = last_evaluated_key;
    projection_expression = some user_id_attr_name;
    consistent_read = false;
    region = none;
  }

  -- The key of a `DeleteRequest`. A missing attribute, which would give a nil value, is left out.
  unfoldable pub delete_key : Item → Item
  unfolding get
  delete_key item = elim (get user_id_attr_name item) [
    | none ↦ []
    | some user_id ↦ (user_id_attr_name, user_id) ∷ []
  ]

  unfoldable pub delete_batch : List Item → Action World Unit
  delete_batch batch = do
    unprocessed ←
        p.client.batch_write_item (record { table_name = counters_table_name; delete_keys = batch })
    pure tt

  -- the loop over the items of a page, with the batch that is being filled, and what follows it
  unfoldable pub delete_items : List Item → List Item → Action World Unit
  unfolding delete_key delete_batch
  delete_items [] [] = pure tt
  delete_items [] (key ∷ batch) = delete_batch (key ∷ batch)
  delete_items (item ∷ items) batch =
      let batch' = batch ++ delete_key item ∷ [] in
      let written = delete_batch batch' >> delete_items items [] in
      let kept = delete_items items batch' in if length batch' == 25 then written else kept

  -- the loop over the pages, for at most so many of them
  unfoldable pub delete_all_user_records :
      ℕ → ActiveUserKey → Option Item → World → Option (Result (Unit {0}) × World)
  unfolding user_records_query delete_items
  delete_all_user_records zero active_user_key last_evaluated_key w = none
  delete_all_user_records (suc pages) active_user_key last_evaluated_key w =
      let (r, w') = p.client.query (user_records_query active_user_key last_evaluated_key) w in
      elim r [
        | err e ↦ some (err e, w')
        | ok out ↦ elim out.items [
          | [] ↦ some (ok tt, w')
          | item ∷ items ↦
              let (deleted, w'') = delete_items (item ∷ items) [] w' in
              elim deleted [
                | err e ↦ some (err e, w'')
                | ok _ ↦ elim out.last_evaluated_key [
                  | none ↦ some (ok tt, w'')
                  | some key ↦ delete_all_user_records pages active_user_key (some key) w''
                ]
              ]
        ]
      ]
