-- ===== src/Dynamo.antt =====
-- The DynamoDB client that the repositories call
-- (internal/shared/platform/dynamodb/client.go; the implementation is the AWS SDK).
-- Requests carry what the code puts into them. An expression's text is kept as its syntax tree,
-- with the placeholders that the code writes.
pub mod Attributes
pub mod Expressions
pub mod Contract
use recs.Prelude.{ℕ, String, Bool, Option, List}
use recs.Errors.{Result}
use recs.Action.{Action}
use recs.Dynamo.Attributes.{Assoc, Item}

-- `:value`, and `if_not_exists(path, :default) + :increment`
pub data Operand : Type 0 where
  value : String → Operand
  if_not_exists_plus : String → String → String → Operand

-- `SET p = o, …` and `REMOVE p, …`
pub record UpdateExpression : Type 0 where
  pub set : Assoc Operand
  pub remove : List String

-- `attribute_not_exists(p) AND …`, and `p = :value`
pub data ConditionExpression : Type 0 where
  attributes_not_exist : List String → ConditionExpression
  equals : String → String → ConditionExpression

-- `p = :value`, and `p = :value AND q >= :bound`
pub data KeyConditionExpression : Type 0 where
  partition : String → String → KeyConditionExpression
  partition_from : String → String → String → String → KeyConditionExpression

pub record GetItemInput : Type 0 where
  pub key : Item
  pub table_name : String
  pub consistent_read : Bool
  pub region : Option String

-- `ReturnValues` is `ALL_NEW` wherever the code reads the output.
pub record UpdateItemInput : Type 0 where
  pub key : Item
  pub table_name : String
  pub update_expression : UpdateExpression
  pub expression_attribute_names : Assoc String
  pub expression_attribute_values : Item
  pub condition_expression : Option ConditionExpression
  pub region : Option String

pub record DeleteItemInput : Type 0 where
  pub key : Item
  pub table_name : String
  pub region : Option String

pub record QueryInput : Type 0 where
  pub table_name : String
  pub index_name : Option String
  pub key_condition_expression : KeyConditionExpression
  pub expression_attribute_names : Assoc String
  pub expression_attribute_values : Item
  pub exclusive_start_key : Option Item
  pub projection_expression : Option String
  pub consistent_read : Bool
  pub region : Option String

pub record QueryOutput : Type 0 where
  pub items : List Item
  pub last_evaluated_key : Option Item

-- one `Update` of a `TransactWriteItems` request
pub record TransactUpdate : Type 0 where
  pub table_name : String
  pub key : Item
  pub update_expression : UpdateExpression
  pub expression_attribute_names : Assoc String
  pub expression_attribute_values : Item

pub record TransactWriteItemsInput : Type 0 where
  pub transact_items : List TransactUpdate
  pub region : Option String

-- a `BatchWriteItem` request that holds `DeleteRequest`s for one table
pub record BatchWriteItemInput : Type 0 where
  pub table_name : String
  pub delete_keys : List Item

-- The calls of the interface `Client` that the repositories make. `get_item` gives `none` for a
-- missing output and the item of the output otherwise, which is empty where there is none;
-- `batch_write_item` gives the keys that were not processed.
pub record Client (World : Type 0) : Type 0 where
  pub get_item : GetItemInput → Action World (Option Item)
  pub update_item : UpdateItemInput → Action World Item
  pub delete_item : DeleteItemInput → Action World Unit
  pub query : QueryInput → Action World QueryOutput
  pub transact_write_items : TransactWriteItemsInput → Action World Unit
  pub batch_write_item : BatchWriteItemInput → Action World (List Item)

-- `GetDynamodbRegionByCountry`
unfoldable pub get_dynamodb_region_by_country : ℕ → String
get_dynamodb_region_by_country country_id = "us-east-2"

-- `TtlAttrName`
abbrev pub ttl_attr_name : String
ttl_attr_name = "ttl"
