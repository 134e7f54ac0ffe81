-- ===== src/Time.antt =====
-- `time.Time` and internal/shared/timeutil/time.go.
use recs.Prelude.{ℕ, ◌*◌, Bool, ◌&&◌, Option, none, some, ◌==◌}
use recs.Prelude.Int.{ℤ, pos, negsuc, ◌+ℤ◌, eqb_ℤ, floor_to}

-- An instant, as whole seconds since 1970 with the nanoseconds beyond them, and the offset from UTC
-- in seconds of the zone that it is shown in.
pub record Time : Type 0 where
  pub unix : ℤ
  pub nanosecond : ℕ
  pub zone_offset : ℤ

-- `Time.IsZero`: the start of the year 1 in UTC, 62135596800 seconds before 1970
unfoldable pub is_zero : Time → Bool
is_zero t = eqb_ℤ t.unix (negsuc 62135596799) && t.nanosecond == 0

abbrev pub hour_seconds : ℕ
hour_seconds = 3600

abbrev pub day_seconds : ℕ
day_seconds = 24 * hour_seconds

-- `HourStart`: the year, month, day and hour that `t` shows in its own zone, read as UTC. Hours
-- since 1970 begin at the multiples of 3600 seconds.
unfoldable pub hour_start : Time → Time
unfolding ◌+ℤ◌ floor_to
hour_start t = record {
  unix = floor_to hour_seconds (t.unix +ℤ t.zone_offset);
  nanosecond = 0;
  zone_offset = pos 0;
}

-- `Time.UTC`: the same instant
unfoldable pub to_utc : Time → Time
to_utc t = record t { zone_offset = pos 0 }

-- `time.Unix(sec, 0).UTC()`
abbrev pub from_unix : ℤ → Time
from_unix sec = record { unix = sec; nanosecond = 0; zone_offset = pos 0 }

unfoldable pub unix_to_time_ptr : Option ℤ → Option Time
unix_to_time_ptr none = none
unix_to_time_ptr (some from) = some (from_unix from)
