-- ===== src/DataStack/Requests.antt =====
-- What it takes for a request to fit a deployed table.
use recs.Prelude.{String, ◌≡◌, Option, none, some, List, [], ◌∷◌, map}
use recs.Dynamo.{KeyConditionExpression, partition, partition_from, QueryInput}
use recs.Dynamo.Attributes.{AttributeValue, Item, Assoc, get}
use recs.DataStack.{
  AttributeType, string_type, number_type, Attribute, Keys, GlobalSecondaryIndex, Table,
}

abbrev pub type_of : AttributeValue → AttributeType
type_of (AttributeValue.s _) = string_type
type_of (AttributeValue.n _) = number_type

-- what DynamoDB asks of a primary key: the two attributes of the schema, with their types, and no more
abbrev pub IsKey : Keys → Item → Type 0
IsKey keys item =
    map (λ (kv : String × AttributeValue). record { name = kv.0; attribute_type = type_of kv.1 })
      item
    ≡ keys.partition_key ∷ keys.sort_key ∷ []

-- a key that a request gives for a table
abbrev pub FitsTable : Table → String → Item → Type 0
FitsTable table table_name key = (table_name ≡ table.table_name) × IsKey table.keys key

-- The name of an attribute in an expression: a placeholder is replaced.
abbrev resolved : Assoc String → String → String
resolved names path = elim (get path names) [ none ↦ path | some name ↦ name ]

-- a value of the type that a key attribute has, under its name
abbrev Compares : QueryInput → String → String → Attribute → Type 0
Compares query path value attribute =
    (resolved query.expression_attribute_names path ≡ attribute.name)
    × (a : AttributeValue) × (get value query.expression_attribute_values ≡ some a)
    × (type_of a ≡ attribute.attribute_type)

-- The condition of a query is on the keys that it is run on.
abbrev pub Conditions : QueryInput → Keys → KeyConditionExpression → Type 0
Conditions query keys (partition path value) = Compares query path value keys.partition_key
Conditions query keys (partition_from path value from bound) =
    Compares query path value keys.partition_key × Compares query from bound keys.sort_key

-- the keys of the table, or of the index that a query names
abbrev pub FitsIndex : Table → List GlobalSecondaryIndex → QueryInput → Option String → Type 0
FitsIndex table indexes query none = Conditions query table.keys query.key_condition_expression
FitsIndex table [] query (some name) = ⊥
FitsIndex table (index ∷ indexes) query (some name) =
    (name ≡ index.index_name) × Conditions query index.keys query.key_condition_expression

abbrev pub FitsQuery : Table → QueryInput → Type 0
FitsQuery table query =
    (query.table_name ≡ table.table_name) × FitsIndex table table.indexes query query.index_name
