-- ===== src/CountersRepository/Hourly.antt =====
-- `GetHourlyCounters`. The map from offsets to groups is a list in the order of the offsets, which
-- are distinct (internal/context/voting/infrastructure/persistence/counters_repository.go).
pub mod Sums
pub mod Expiry
use recs.Prelude.{
  ℕ, ◌+◌, ◌-◌, ◌*◌, ◌%◌, ◌^◌, String, true, Option, none, some, List, [], ◌∷◌, ltb, if◌then◌else◌,
}
use recs.Prelude.Int.{ℤ, pos, negsuc, ◌-ℤ◌, ltb_ℤ}
use recs.Errors.{Result, ok, err}
use recs.Action.{Action, pure, raise, lift, call, ◌>>=◌, ◌>>◌}
use recs.SharedKernel.{ActiveUserKey}
use recs.Time.{Time, hour_seconds, hour_start, to_utc}
use recs.Dynamo.{QueryInput, KeyConditionExpression, get_dynamodb_region_by_country}
use recs.Dynamo.Attributes.{Item, AttributeValue}
use recs.Platform.{Platform}
use recs.Repositories.{CountersGroup}
use recs.CountersRepository.Increments.{
  counters_table_name, transform_counters_group_item_to_entity,
}

-- `int32(x)`
unfoldable pub to_int32 : ℤ → ℤ
to_int32 (pos k) = let m = k % 2 ^ 32 in if ltb m (2 ^ 31) then pos m else negsuc (2 ^ 32 - 1 - m)
to_int32 (negsuc k) =
    let m = k % 2 ^ 32 in if ltb m (2 ^ 31) then negsuc m else pos (2 ^ 32 - 1 - m)

-- `timeutil.HourStart(t.UTC().Add(time.Duration(hour) * time.Hour * -1))`
unfoldable pub hour_ago : Time → ℕ → Time
unfolding hour_start to_utc ◌-ℤ◌
hour_ago t hour = hour_start (record (to_utc t) { unix = t.unix -ℤ pos (hour * hour_seconds) })

-- a uint32 sum
abbrev pub add_uint32 : ℕ → ℕ → ℕ
add_uint32 a b = (a + b) % 2 ^ 32

-- the inner loop's body
unfoldable pub add_to_group : CountersGroup → CountersGroup → CountersGroup
add_to_group counters_group group =
    if ltb_ℤ counters_group.hour_unix_timestamp group.hour_unix_timestamp
    then group
    else record group {
      incoming_no = add_uint32 group.incoming_no counters_group.incoming_no;
      incoming_yes = add_uint32 group.incoming_yes counters_group.incoming_yes;
      outgoing_no = add_uint32 group.outgoing_no counters_group.outgoing_no;
      outgoing_yes = add_uint32 group.outgoing_yes counters_group.outgoing_yes;
    }

-- the inner loop, over the groups of the result
unfoldable pub add_to_groups : CountersGroup → List (ℕ × CountersGroup) → List (ℕ × CountersGroup)
unfolding add_to_group
add_to_groups counters_group [] = []
add_to_groups counters_group ((hour, group) ∷ result) =
    (hour, add_to_group counters_group group) ∷ add_to_groups counters_group result

abbrev pub max_hour : ℕ → List ℕ → ℕ
max_hour m [] = m
max_hour m (hour ∷ hours) = max_hour (if ltb m hour then hour else m) hours

module _ {World : Type 0} (p : Platform World) (active_user_key : ActiveUserKey) where
  -- the first loop: an empty group for each offset, each with a look at the clock
  unfoldable pub empty_groups : List ℕ → World → List (ℕ × CountersGroup) × World
  unfolding hour_ago to_int32
  empty_groups [] w = ([], w)
  empty_groups (hour ∷ hours) w =
      let (t, w') = p.now w in
      let (result, w'') = empty_groups hours w' in
      (
        (
          hour,
          record {
            active_user_key = active_user_key;
            hour_unix_timestamp = to_int32 (hour_ago t hour).unix;
            incoming_yes = 0;
            incoming_no = 0;
            outgoing_yes = 0;
            outgoing_no = 0;
          },
        )
            ∷ result,
        w'',
      )

  unfoldable pub hourly_query : Time → QueryInput
  hourly_query time_filter = record {
    table_name = counters_table_name;
    index_name = none;
    key_condition_expression = KeyConditionExpression.partition_from "u" ":pk" "h" ":sk";
    expression_attribute_names = [];
    expression_attribute_values =
        (":pk", AttributeValue.s (p.uuid_string active_user_key.active_user_id))
        ∷ (":sk", AttributeValue.n time_filter.unix)
        ∷ [];
    exclusive_start_key = none;
    projection_expression = none;
    consistent_read = true;
    region = some (get_dynamodb_region_by_country active_user_key.country_id);
  }

  -- the row that an item decodes to
  unfoldable pub row_of : Item → Result CountersGroup
  row_of item = elim (p.unmarshal_counters item) [
    | err e ↦ err e
    | ok doc ↦ transform_counters_group_item_to_entity p active_user_key.country_id doc
  ]

  -- the outer loop, over the items of the output
  unfoldable pub add_items :
      List Item → List (ℕ × CountersGroup) → Result (List (ℕ × CountersGroup))
  add_items [] result = ok result
  add_items (item ∷ items) result = elim (row_of item) [
    | err e ↦ err e
    | ok counters_group ↦ add_items items (add_to_groups counters_group result)
  ]

  unfoldable pub get_hourly_counters : List ℕ → Action World (List (ℕ × CountersGroup))
  get_hourly_counters hours_offset_groups = do
    result ← call (empty_groups hours_offset_groups)
    t ← call p.now
    out ← p.client.query (hourly_query (hour_ago t (max_hour 0 hours_offset_groups)))
    lift (add_items out.items result)
