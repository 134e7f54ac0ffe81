-- ===== src/CountersRepository/Increments.antt =====
-- The key of a row of counters, `GetLifetimeCounter`, and the increments
-- (internal/context/voting/infrastructure/persistence/counters_repository.go).
pub mod Effects
use recs.Prelude.{ℕ, String, true, Option, none, some, List, [], ◌∷◌}
use recs.Prelude.Int.{ℤ, pos, ◌+ℤ◌}
use recs.Errors.{Result, ok, err}
use recs.Action.{Action, pure, lift, ◌>>=◌, ◌>>◌}
use recs.Uuid.{Uuid}
use recs.SharedKernel.{
  ActiveUserKey, VoteId, new_active_user_key, country_id, active_user_id, peer_user_id,
}
use recs.Dynamo.{
  Operand, UpdateExpression, TransactUpdate, TransactWriteItemsInput,
  get_dynamodb_region_by_country, ttl_attr_name,
}
use recs.Dynamo.Attributes.{Item, AttributeValue}
use recs.Documents.{CountersDocumentSchema}
use recs.Platform.{Platform}
use recs.Repositories.{CounterUpdateGroup, CountersGroup}

abbrev pub counters_table_name : String
counters_table_name = "Counters"

abbrev pub lifetime_counter_key : ℤ
lifetime_counter_key = pos 0

abbrev pub user_id_attr_name : String
user_id_attr_name = "u"

abbrev pub hour_unix_timestamp_attr_name : String
hour_unix_timestamp_attr_name = "h"

abbrev pub incoming_yes_attr_name : String
incoming_yes_attr_name = "iy"

abbrev pub incoming_no_attr_name : String
incoming_no_attr_name = "in"

abbrev pub outgoing_yes_attr_name : String
outgoing_yes_attr_name = "oy"

abbrev pub outgoing_no_attr_name : String
outgoing_no_attr_name = "on"

-- `SET #counterIndex = if_not_exists(#counterIndex, :zero) + :incr`
abbrev pub increment : String × Operand
increment = ("#counterIndex", Operand.if_not_exists_plus "#counterIndex" ":zero" ":incr")

module _ {World : Type 0} (p : Platform World) where
  unfoldable pub get_counters_table_key : Uuid → ℤ → Item
  get_counters_table_key active_user_id day_start_time_unix_timestamp =
      (user_id_attr_name, AttributeValue.s (p.uuid_string active_user_id))
      ∷ (hour_unix_timestamp_attr_name, AttributeValue.n day_start_time_unix_timestamp)
      ∷ []

  unfoldable pub transform_counters_group_item_to_entity :
      ℕ → CountersDocumentSchema → Result CountersGroup
  unfolding new_active_user_key
  transform_counters_group_item_to_entity country_id item = elim (p.uuid_parse item.user_id) [
    | err e ↦ err e
    | ok user_id ↦ elim (new_active_user_key country_id user_id) [
      | err e ↦ err e
      | ok active_user_key ↦ ok (record {
        active_user_key = active_user_key;
        hour_unix_timestamp = item.hour_unix_timestamp;
        incoming_yes = item.incoming_yes;
        incoming_no = item.incoming_no;
        outgoing_yes = item.outgoing_yes;
        outgoing_no = item.outgoing_no;
      })
    ]
  ]

  -- what `GetLifetimeCounter` makes of the item that was found; `none` is the zero value
  unfoldable pub read_lifetime_counter :
      ActiveUserKey → Option Item → Action World (Option CountersGroup)
  read_lifetime_counter active_user_key none = pure none
  read_lifetime_counter active_user_key (some []) = pure none
  read_lifetime_counter active_user_key (some (attribute ∷ item)) = do
    counters_group_item ← lift (p.unmarshal_counters (attribute ∷ item))
    counters_group ←
        lift
          (transform_counters_group_item_to_entity active_user_key.country_id counters_group_item)
    pure (some counters_group)

  unfoldable pub get_lifetime_counter : ActiveUserKey → Action World (Option CountersGroup)
  get_lifetime_counter active_user_key = do
    out ← p.client.get_item (record {
      key = get_counters_table_key active_user_key.active_user_id lifetime_counter_key;
      table_name = counters_table_name;
      consistent_read = true;
      region = some (get_dynamodb_region_by_country active_user_key.country_id);
    })
    read_lifetime_counter active_user_key out

  -- the update of one row for one hour
  unfoldable pub hourly_update : Uuid → ℤ → String → TransactUpdate
  unfolding get_counters_table_key ◌+ℤ◌
  hourly_update user_id event_start_hour_time counter = record {
    table_name = counters_table_name;
    key = get_counters_table_key user_id event_start_hour_time;
    update_expression = record {
      set = increment ∷ ("#ttl", Operand.value ":ttl") ∷ [];
      remove = [];
    };
    expression_attribute_names = ("#counterIndex", counter) ∷ ("#ttl", ttl_attr_name) ∷ [];
    expression_attribute_values =
        (":zero", AttributeValue.n (pos 0))
        ∷ (":incr", AttributeValue.n (pos 1))
        ∷ (":ttl", AttributeValue.n (event_start_hour_time +ℤ p.config.counters.ttl_seconds))
        ∷ [];
  }

  -- the update of one row for all time
  unfoldable pub lifetime_update : Uuid → String → TransactUpdate
  unfolding get_counters_table_key
  lifetime_update user_id counter = record {
    table_name = counters_table_name;
    key = get_counters_table_key user_id lifetime_counter_key;
    update_expression = record { set = increment ∷ []; remove = [] };
    expression_attribute_names = ("#counterIndex", counter) ∷ [];
    expression_attribute_values =
        (":zero", AttributeValue.n (pos 0)) ∷ (":incr", AttributeValue.n (pos 1)) ∷ [];
  }

  unfoldable pub incr_input :
      VoteId → CounterUpdateGroup → String → String → TransactWriteItemsInput
  unfolding hourly_update lifetime_update get_dynamodb_region_by_country
  incr_input vote_id group active_user_counter peer_user_counter =
      let event_start_hour_time = group.hour_start_time.unix in
      record {
        transact_items =
            hourly_update (active_user_id vote_id) event_start_hour_time active_user_counter
            ∷ lifetime_update (active_user_id vote_id) active_user_counter
            ∷ hourly_update (peer_user_id vote_id) event_start_hour_time peer_user_counter
            ∷ lifetime_update (peer_user_id vote_id) peer_user_counter
            ∷ [];
        region = some (get_dynamodb_region_by_country (country_id vote_id));
      }

  unfoldable pub incr_counters : VoteId → CounterUpdateGroup → String → String → Action World Unit
  incr_counters vote_id group active_user_counter peer_user_counter =
      p.client.transact_write_items (incr_input vote_id group active_user_counter peer_user_counter)

  -- the two increments drop the error once it is logged
  unfoldable pub incr_yes_counters : VoteId → CounterUpdateGroup → World → World
  incr_yes_counters vote_id group w =
      (incr_counters vote_id group outgoing_yes_attr_name incoming_yes_attr_name w).1

  unfoldable pub incr_no_counters : VoteId → CounterUpdateGroup → World → World
  incr_no_counters vote_id group w =
      (incr_counters vote_id group outgoing_no_attr_name incoming_no_attr_name w).1
