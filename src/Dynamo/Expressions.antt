-- ===== src/Dynamo/Expressions.antt =====
-- What DynamoDB documents of expressions: the value of an operand, the item that an update makes,
-- and when a condition holds. A missing placeholder makes a request invalid, which is `none`.
use text.Mathlib.Text.{◌==◌ as str_eq}
use recs.Prelude.{String, Bool, true, false, ◌&&◌, Option, none, some, List, [], ◌∷◌}
use recs.Prelude.Int.{◌+ℤ◌, eqb_ℤ}
use recs.Dynamo.{
  Operand, value, if_not_exists_plus, UpdateExpression, ConditionExpression, attributes_not_exist,
  equals, UpdateItemInput,
}
use recs.Dynamo.Attributes.{AttributeValue, Assoc, Item, get, put, delete}

-- a path: a placeholder that the names define, or an attribute's own name
unfoldable pub resolve : Assoc String → String → String
unfolding get
resolve names path = elim (get path names) [ none ↦ path | some name ↦ name ]

unfoldable pub add_numbers : Option AttributeValue → Option AttributeValue → Option AttributeValue
unfolding ◌+ℤ◌
add_numbers (some (AttributeValue.n a)) (some (AttributeValue.n b)) =
    some (AttributeValue.n (a +ℤ b))
add_numbers _ _ = none

abbrev or_else : Option AttributeValue → Option AttributeValue → Option AttributeValue
or_else none b = b
or_else (some a) b = some a

unfoldable pub evaluate : Assoc String → Item → Item → Operand → Option AttributeValue
unfolding get resolve add_numbers
evaluate names values item (value v) = get v values
evaluate names values item (if_not_exists_plus path default increment) =
    add_numbers (or_else (get (resolve names path) item) (get default values))
      (get increment values)

-- the `SET` clause; its operands are evaluated on the item as it was, `old`
unfoldable pub set_all : Assoc String → Item → Item → Assoc Operand → Item → Option Item
unfolding resolve evaluate put
set_all names values old [] item = some item
set_all names values old ((path, operand) ∷ rest) item = elim (evaluate names values old operand) [
  | none ↦ none
  | some v ↦ set_all names values old rest (put (resolve names path) v item)
]

unfoldable pub remove_all : Assoc String → List String → Item → Item
unfolding resolve delete
remove_all names [] item = item
remove_all names (path ∷ rest) item = remove_all names rest (delete (resolve names path) item)

-- an item that is not there is empty, and an update starts from its key
abbrev pub or_key : Item → Item → Item
or_key key [] = key
or_key key (a ∷ item) = a ∷ item

unfoldable pub apply_update : UpdateExpression → Assoc String → Item → Item → Item → Option Item
unfolding set_all remove_all
apply_update expression names values key old =
    elim (set_all names values old expression.set (or_key key old)) [
      | none ↦ none
      | some item ↦ some (remove_all names expression.remove item)
    ]

unfoldable pub attribute_eq : Option AttributeValue → Option AttributeValue → Bool
attribute_eq (some (AttributeValue.n a)) (some (AttributeValue.n b)) = eqb_ℤ a b
attribute_eq (some (AttributeValue.s a)) (some (AttributeValue.s b)) = str_eq a b
attribute_eq _ _ = false

abbrev is_none : Option AttributeValue → Bool
is_none none = true
is_none (some a) = false

unfoldable pub none_exists : Assoc String → Item → List String → Bool
unfolding resolve get
none_exists names item [] = true
none_exists names item (path ∷ rest) =
    is_none (get (resolve names path) item) && none_exists names item rest

unfoldable pub condition_holds : Assoc String → Item → Item → Option ConditionExpression → Bool
unfolding none_exists attribute_eq resolve get
condition_holds names values item none = true
condition_holds names values item (some (attributes_not_exist paths)) = none_exists names item paths
condition_holds names values item (some (equals path v)) =
    attribute_eq (get (resolve names path) item) (get v values)

-- the two at a request
unfoldable pub update_of : UpdateItemInput → Item → Option Item
unfolding apply_update
update_of i old =
    apply_update i.update_expression i.expression_attribute_names i.expression_attribute_values
      i.key old

unfoldable pub admits : UpdateItemInput → Item → Bool
unfolding condition_holds
admits i old =
    condition_holds i.expression_attribute_names i.expression_attribute_values old
      i.condition_expression
