-- ===== src/RomancesRepository/Get.antt =====
-- `getRomancesTableKey` and `GetRomance`
-- (internal/context/voting/infrastructure/persistence/romances_repository.go).
use recs.Prelude.{String, true, Option, none, some, [], ◌∷◌}
use recs.Action.{Action, pure, lift, ◌>>=◌}
use recs.SharedKernel.{VoteId, country_id, active_user_id}
use recs.Romance.{Romance, create_empty_romance}
use recs.Dynamo.{GetItemInput, get_dynamodb_region_by_country}
use recs.Dynamo.Attributes.{Item, AttributeValue}
use recs.Platform.{Platform}
use recs.RomancesRepository.PrimaryKey.{RomancePrimaryKey, new_romance_primary_key}
use recs.RomancesRepository.Transform.{transform_romance_item_to_entity}

abbrev pub romances_table_name : String
romances_table_name = "Romances"

abbrev pub pk_user_id_attr_name : String
pk_user_id_attr_name = "a"

abbrev pub sk_user_id_attr_name : String
sk_user_id_attr_name = "b"

module _ {World : Type 0} (p : Platform World) where
  unfoldable pub get_romances_table_key : RomancePrimaryKey → Item
  get_romances_table_key key =
      (pk_user_id_attr_name, AttributeValue.s (p.uuid_string key.pk))
      ∷ (sk_user_id_attr_name, AttributeValue.s (p.uuid_string key.sk))
      ∷ []

  -- what `GetRomance` makes of the item that was found
  unfoldable pub read_romance : VoteId → Option Item → Action World Romance
  unfolding create_empty_romance transform_romance_item_to_entity
  read_romance vote_id none = pure (create_empty_romance vote_id)
  read_romance vote_id (some []) = pure (create_empty_romance vote_id)
  read_romance vote_id (some (attribute ∷ item)) = do
    romance_item ← lift (p.unmarshal_romance (attribute ∷ item))
    lift (
        transform_romance_item_to_entity p.uuid_parse (country_id vote_id) (active_user_id vote_id)
          romance_item)

  unfoldable pub get_input : VoteId → GetItemInput
  unfolding get_romances_table_key new_romance_primary_key get_dynamodb_region_by_country
  get_input vote_id = record {
    key = get_romances_table_key (new_romance_primary_key vote_id);
    table_name = romances_table_name;
    consistent_read = true;
    region = some (get_dynamodb_region_by_country (country_id vote_id));
  }

  unfoldable pub get_romance : VoteId → Action World Romance
  unfolding get_input read_romance
  get_romance vote_id = do out ← p.client.get_item (get_input vote_id); read_romance vote_id out
