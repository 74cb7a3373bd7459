-- ===== src/Availability/Zone.antt =====
-- What the code uses of moment-timezone in one time zone, as an interface. An instant is its
-- `valueOf()`. The operations that depend on the zone are fields, and `IsZone` states what their
-- documentation says of them in a zone whose offset is a whole number of minutes.
use ms_calendar_service.Base.{ℕ, ◌≡◌, ◌*◌, ◌/◌, ◌+◌, ◌%◌, ◌<◌, String, refl, arith}

pub record Zone : Type 0 where
  pub whole_minute : ℕ → ℕ  -- `m.clone().seconds(0).milliseconds(0)`
  pub minute_of : ℕ → ℕ  -- `m.minute()`
  pub hour_of : ℕ → ℕ  -- `m.hour()`
  pub at : String → String → ℕ  -- `moment.tz(`${date}T${time}`, …)`

abbrev pub minute_ms : ℕ
minute_ms = 60000

-- `m.clone().add(n, "minutes")`
abbrev pub add_minutes : ℕ → ℕ → ℕ
add_minutes m n = m + n * minute_ms

pub record IsZone (z : Zone) : Type 0 where
  pub whole_minute_lem : (m : ℕ) → z.whole_minute m ≡ m / 60000 * 60000
  pub minute_of-lt : (m : ℕ) → z.minute_of m < 60
  pub hour_of-lt : (m : ℕ) → z.hour_of m < 24
  pub minute_of_lem : (m : ℕ) → z.minute_of m ≡ m / 60000 % 60

-- The zone UTC, over a clock text of no interest.
abbrev pub utc : Zone
utc = record {
  whole_minute = λ m. m / 60000 * 60000;
  minute_of = λ m. m / 60000 % 60;
  hour_of = λ m. m / 3600000 % 24;
  at = λ date time. 0;
}

pub utc-IsZone : IsZone utc
utc-IsZone = record {
  whole_minute_lem = λ m. refl;
  minute_of-lt = λ m. omega arith;
  hour_of-lt = λ m. omega arith;
  minute_of_lem = λ m. refl;
}
