-- ===== src/CountersRepository/Hourly/Expiry.antt =====
-- What belongs to an hour in the rows of counters, and when the rows expire.
use text.Mathlib.Text.{◌==◌ as str_eq}
use recs.Prelude.{
  String, false, Option, some, ℕ, ◌+◌, ◌*◌, ◌/◌, ◌<◌, ◌≤◌, ◌≡◌, refl, List, [], ◌∷◌, map, arith,
}
use recs.Prelude.Int.{ℤ, pos, negsuc, ◌+ℤ◌, ◌-ℤ◌, ◌≤ℤ◌, ◌<ℤ◌, ltb_ℤ, floor_to, int_laws}
use recs.Time.{Time, hour_start, hour_seconds, to_utc, is_zero}
use recs.Errors.{Result, ok}
use recs.Uuid.{Uuid}
use recs.SharedKernel.{ActiveUserKey, VoteId}
use recs.Config.{Config, load}
use recs.Config.Loading.{IsParse, load_lifetimes}
use recs.Dynamo.{TransactUpdate, TransactWriteItemsInput}
use recs.Dynamo.Attributes.{Item, AttributeValue, get}
use recs.Platform.{Platform}
use recs.Repositories.{CounterUpdateGroup, CountersGroup, new_counter_update_group}
use recs.CountersRepository.Increments.{
  hourly_update, lifetime_update, incr_input, get_counters_table_key,
}
use recs.CountersRepository.Increments.Effects.{made_by, Counts, hourly_increment}
use recs.CountersRepository.Hourly.{hour_ago, add_to_group, add_to_groups, empty_groups, to_int32}
use recs.CountersRepository.Hourly.Sums.{IsUint32}

floor_to_bounds : (z : ℤ) → (floor_to 3600 z ≤ℤ z) × (z <ℤ floor_to 3600 z +ℤ pos 3600)
unfolding floor_to ◌+ℤ◌
floor_to_bounds (pos n) = (ground arith, ground arith)
floor_to_bounds (negsuc n) = (ground arith, ground arith)

oldest_hour_over :
    (t : Time) (hour : ℕ) (getenv : String → String) (parse : Config → Result Config)
    (config : Config)
    → 48 ≤ hour
    → IsParse parse
    → load getenv parse ≡ some config
    → ((hour_ago t hour).unix +ℤ config.counters.ttl_seconds) ≤ℤ t.unix
unfolding hour_ago hour_start to_utc
oldest_hour_over t hour getenv parse config h is_parse loaded =
    rw (load_lifetimes getenv parse config is_parse loaded).0
      (omega (int_laws, (floor_to_bounds (t.unix -ℤ pos (hour * hour_seconds) +ℤ pos 0)).0))

ltb_irreflexive : (z : ℤ) → ltb_ℤ z z ≡ false
ltb_irreflexive z = ground arith

module _ {World : Type 0} (p : Platform World) where
  -- the groups of one offset, with a row of its hour added
  row_summed :
      (key : ActiveUserKey) (hour : ℕ) (w : World) (row : CountersGroup)
      → row.hour_unix_timestamp ≡ to_int32 (hour_ago (p.now w).0 hour).unix
      → IsUint32 row
      → add_to_groups row (empty_groups p key (hour ∷ []) w).0
        ≡ (hour, record row { active_user_key = key }) ∷ []
  unfolding add_to_groups empty_groups add_to_group
  row_summed key hour w row same u =
      rw (same, ltb_irreflexive (to_int32 (hour_ago (p.now w).0 hour).unix)) (ground arith)

  -- Whenever the group of an offset of 48 hours or more is asked for, with the time to live of the
  -- loaded configuration, whatever the environment, whose parsing keeps the settings without a
  -- variable: a row of the oldest hour that the group covers, with uint32 counters, counts for it, as
  -- the group's counters are the row's when it is the only one; and the update that writes a counter
  -- of such a row, where a number or nothing is stored under the counter, which is not "ttl", makes an
  -- item whose "ttl" is not after the present.
  pub oldest_hour_expired :
      (key : ActiveUserKey) (hour : ℕ) (w : World) (row : CountersGroup) (user_id : Uuid)
      (counter : String) (old : Item) (k : ℕ) (getenv : String → String)
      (parse : Config → Result Config)
      → 48 ≤ hour
      → IsParse parse
      → load getenv parse ≡ some p.config
      → row.hour_unix_timestamp ≡ to_int32 (hour_ago (p.now w).0 hour).unix
      → IsUint32 row
      → str_eq "ttl" counter ≡ false
      → Counts counter old k
      → (add_to_groups row (empty_groups p key (hour ∷ []) w).0
          ≡ (hour, record row { active_user_key = key }) ∷ [])
        × (new : Item) × (expiry : ℤ) × (made_by
              (hourly_update p user_id (hour_ago (p.now w).0 hour).unix counter)
              old
            ≡ some new)
        × (get "ttl" new ≡ some (AttributeValue.n expiry))
        × (expiry ≤ℤ (p.now w).0.unix)
  oldest_hour_expired key hour w row user_id counter old k getenv parse h is_parse loaded same u
        other counts =
      let since = (hour_ago (p.now w).0 hour).unix in
      let (new, made, count, ttl, rest) =
        hourly_increment p user_id counter old k counts since other in
      (
        row_summed key hour w row same u,
        new,
        since +ℤ p.config.counters.ttl_seconds,
        made,
        ttl,
        oldest_hour_over (p.now w).0 hour getenv parse p.config h is_parse loaded,
      )

  -- the hours in the keys of the rows that a transaction updates
  abbrev pub hours_of : TransactWriteItemsInput → List (Option AttributeValue)
  hours_of input = map (λ (u : TransactUpdate). get "h" u.key) input.transact_items

  -- In a zone that is a whole number of hours ahead of UTC, a vote is counted that many hours after
  -- the hour in UTC that it is cast in: at a time after 1970, the group of the time is accepted, and
  -- of the four rows that its transaction updates, the two that are not for all time have that later
  -- hour in their keys, while the hour that groups are asked for by is the one in UTC.
  pub zone_hour_written :
      (vote_id : VoteId) (active_user_counter peer_user_counter : String) (n k nanosecond : ℕ)
      → let t : Time = record {
        unix = pos n;
        nanosecond = nanosecond;
        zone_offset = pos (k * hour_seconds);
      } in
        (m : ℕ) × (m * 3600 ≤ n)
        × (n < m * 3600 + 3600)
        × ((hour_ago t 0).unix ≡ pos (m * 3600))
        × (group : CounterUpdateGroup) × (new_counter_update_group t ≡ ok group)
        × (hours_of (incr_input p vote_id group active_user_counter peer_user_counter)
            ≡ some (AttributeValue.n (pos (m * 3600 + k * 3600)))
              ∷ some (AttributeValue.n (pos 0))
              ∷ some (AttributeValue.n (pos (m * 3600 + k * 3600)))
              ∷ some (AttributeValue.n (pos 0))
              ∷ [])
  unfolding hour_ago hour_start to_utc floor_to ◌+ℤ◌ ◌-ℤ◌ new_counter_update_group is_zero
      incr_input hourly_update lifetime_update get_counters_table_key get
  zone_hour_written vote_id active_user_counter peer_user_counter n k nanosecond = (
    n / 3600,
    omega arith,
    omega arith,
    ground arith,
    record {
      hour_start_time = record {
        unix = pos (n / 3600 * 3600 + k * 3600);
        nanosecond = 0;
        zone_offset = pos 0;
      };
    },
    ground arith,
    refl,
  )
