-- ===== src/Tests/Counters.antt =====
-- The theorems on counters, at small rows.
use text.Mathlib.Text.{◌==◌ as str_eq}
use recs.Prelude.{ℕ, ◌≡◌, ◌≤◌, ◌<◌, ◌+◌, ◌*◌, refl, inr, false, String, some, List, [], ◌∷◌, arith}
use recs.Prelude.Int.{ℤ, pos, ◌+ℤ◌, ◌-ℤ◌, ◌≤ℤ◌, floor_to}
use recs.Errors.{Result, ok}
use recs.Time.{Time, hour_start, hour_seconds, to_utc}
use recs.Config.{Config, load}
use recs.Config.Loading.{IsParse}
use recs.Dynamo.Attributes.{Item, AttributeValue, get}
use recs.Dynamo.Expressions.{or_key}
use recs.Repositories.{CountersGroup, CounterUpdateGroup, new_counter_update_group}
use recs.Uuid.{uuid_eq}
use recs.CountersRepository.Increments.{
  hourly_update, incr_input, get_counters_table_key, transform_counters_group_item_to_entity,
}
use recs.CountersRepository.Increments.Effects.{Counts, made_by, hourly_increment}
use recs.CountersRepository.Hourly.{
  add_items, row_of, add_to_groups, empty_groups, to_int32, hour_ago,
}
use recs.CountersRepository.Hourly.Expiry.{oldest_hour_expired, zone_hour_written, hours_of}
use recs.CountersRepository.Hourly.Sums.{
  IsUint32, AreUint32, Decode, all_summed, add_items-all_summed,
}
use recs.Tests.Memory.{alice, noon, platform, alice_key, alice_to_bob}
use recs.Tests.Rows.{empty}

one_yes : Counts "oy" (("oy", AttributeValue.n (pos 1)) ∷ []) 1
unfolding get
one_yes = inr refl

abbrev one_row : Item
one_row = ("oy", AttributeValue.n (pos 1)) ∷ []

hourly_increment_example :
    (new : Item) × (made_by (hourly_update platform alice (pos 7200) "oy") one_row ≡ some new)
    × (get "oy" new ≡ some (AttributeValue.n (pos 2)))
    × (get "ttl" new ≡ some (AttributeValue.n (pos 7200 +ℤ platform.config.counters.ttl_seconds)))
    × ((x : String)
        → str_eq "oy" x ≡ false
        → str_eq "ttl" x ≡ false
        → get x new ≡ get x (or_key (get_counters_table_key platform alice (pos 7200)) one_row))
hourly_increment_example = hourly_increment platform alice "oy" one_row 1 one_yes (pos 7200) refl

-- what the platform decodes every item of counters to
abbrev noon_row : CountersGroup
noon_row = record {
  active_user_key = alice_key;
  hour_unix_timestamp = pos 1735732800;
  incoming_yes = 1;
  incoming_no = 2;
  outgoing_yes = 3;
  outgoing_no = 4294967295;
}

abbrev an_hour : List (ℕ × CountersGroup)
an_hour =
    (1, record noon_row { incoming_yes = 0; incoming_no = 0; outgoing_yes = 0; outgoing_no = 0 })
    ∷ []

an_hour-AreUint32 : AreUint32 an_hour
an_hour-AreUint32 = (
  record {
    incoming_no = omega arith;
    incoming_yes = omega arith;
    outgoing_no = omega arith;
    outgoing_yes = omega arith;
  },
  tt,
)

two_items-Decode : Decode platform alice_key (one_row ∷ one_row ∷ []) (noon_row ∷ noon_row ∷ [])
unfolding row_of transform_counters_group_item_to_entity uuid_eq
two_items-Decode = (refl, (refl, tt))

add_items-all_summed_example :
    add_items platform alice_key (one_row ∷ one_row ∷ []) an_hour
    ≡ ok (all_summed (noon_row ∷ noon_row ∷ []) an_hour)
add_items-all_summed_example =
    add_items-all_summed platform alice_key (one_row ∷ one_row ∷ []) (noon_row ∷ noon_row ∷ [])
      an_hour an_hour-AreUint32 two_items-Decode

-- the row of the hour two days before noon
abbrev oldest_row : CountersGroup
oldest_row = record noon_row { hour_unix_timestamp = pos 1735560000 }

oldest_row-IsUint32 : IsUint32 oldest_row
oldest_row-IsUint32 = record {
  incoming_no = omega arith;
  incoming_yes = omega arith;
  outgoing_no = omega arith;
  outgoing_yes = omega arith;
}

of_its_hour : oldest_row.hour_unix_timestamp ≡ to_int32 (hour_ago noon 48).unix
unfolding to_int32 hour_ago hour_start to_utc floor_to ◌+ℤ◌ ◌-ℤ◌
of_its_hour = refl

two_days : 48 ≤ 48
two_days = omega arith

-- an environment without variables
abbrev unset : String → String
unset name = ""

abbrev unparsed : Config → Result Config
unparsed config = ok config

unparsed-IsParse : IsParse unparsed
unparsed-IsParse = record {
  counters_kept = λ before config h. cc;
  romances_kept = λ before config h. cc;
}

all_loaded : load unset unparsed ≡ some platform.config
unfolding load
all_loaded = refl

oldest_hour_expired_example :
    (add_to_groups oldest_row (empty_groups platform alice_key (48 ∷ []) empty).0
      ≡ (48, record oldest_row { active_user_key = alice_key }) ∷ [])
    × (new : Item) × (expiry : ℤ) × (made_by
          (hourly_update platform alice (hour_ago noon 48).unix "oy")
          one_row
        ≡ some new)
    × (get "ttl" new ≡ some (AttributeValue.n expiry))
    × (expiry ≤ℤ pos 1735732800)
oldest_hour_expired_example =
    oldest_hour_expired platform alice_key 48 empty oldest_row alice "oy" one_row 1 unset unparsed
      two_days unparsed-IsParse all_loaded of_its_hour oldest_row-IsUint32 refl one_yes

-- a vote at noon in a zone two hours ahead
zone_hour_written_example :
    let t : Time = record {
      unix = pos 1735732800;
      nanosecond = 5;
      zone_offset = pos (2 * hour_seconds);
    } in
    (m : ℕ) × (m * 3600 ≤ 1735732800)
    × (1735732800 < m * 3600 + 3600)
    × ((hour_ago t 0).unix ≡ pos (m * 3600))
    × (group : CounterUpdateGroup) × (new_counter_update_group t ≡ ok group)
    × (hours_of platform (incr_input platform alice_to_bob group "oy" "iy")
        ≡ some (AttributeValue.n (pos (m * 3600 + 2 * 3600)))
          ∷ some (AttributeValue.n (pos 0))
          ∷ some (AttributeValue.n (pos (m * 3600 + 2 * 3600)))
          ∷ some (AttributeValue.n (pos 0))
          ∷ [])
zone_hour_written_example = zone_hour_written platform alice_to_bob "oy" "iy" 1735732800 2 5
