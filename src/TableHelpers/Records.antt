-- ===== src/TableHelpers/Records.antt =====
-- What the helpers read, and what they ask to delete.
use recs.Prelude.{String, ◌≡◌, inl, inr, Option-cases, some, ◌∷◌, arith}
use recs.Errors.{ok}
use recs.Action.{◌>>=◌, lift}
use recs.SharedKernel.{VoteId, country_id, active_user_id}
use recs.Dynamo.{get_dynamodb_region_by_country}
use recs.Dynamo.Attributes.{get, Item, AttributeValue}
use recs.Platform.{Platform}
use recs.RomancesRepository.PrimaryKey.{new_romance_primary_key}
use recs.RomancesRepository.Get.{get_romance, get_input, read_romance, get_romances_table_key}
use recs.RomancesRepository.Transform.{transform_romance_item_to_entity}
use recs.CountersRepository.Increments.{user_id_attr_name}
use recs.DataStack.{data_stack}
use recs.DataStack.Requests.{IsKey}
use recs.TableHelpers.{get_romance_table_record, delete_key}

module _ {World : Type 0} (p : Platform World) where
  -- A row that is there is read by the helper as the record of which the repository makes the romance.
  pub get_romance-record :
      (id : VoteId) (w : World) (attribute : String × AttributeValue) (item : Item)
      → (p.client.get_item (get_input p id) w).0 ≡ ok (some (attribute ∷ item))
      → get_romance p id w
        ≡ (get_romance_table_record p
                (new_romance_primary_key id)
                (get_dynamodb_region_by_country (country_id id))
              >>= λ doc. lift (
                  transform_romance_item_to_entity p.uuid_parse
                    (country_id id)
                    (active_user_id id)
                    doc))
            w
  unfolding get_romance get_input read_romance get_romance_table_record get_romances_table_key
  get_romance-record id w attribute item h = ground arith

  -- No key that the helper asks to delete is a key of the table of counters: it has no hour.
  pub delete_key-not-IsKey : (item : Item) → ¬ IsKey data_stack.counters.keys (delete_key p item)
  unfolding delete_key
  delete_key-not-IsKey item h = elim (Option-cases (get user_id_attr_name item)) [
    | inl n ↦ absurd (ground (arith, h))
    | inr (v, e) ↦ cc (rw (e, delete_key) at h)
  ]
