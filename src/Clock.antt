-- ===== src/Clock.antt =====
-- The parts of Go's package time that the program uses, in UTC: times are in nanoseconds.
use local_kms.Prelude.{
  ℕ, ◌+◌, ◌-◌, ◌*◌, ◌/◌, ◌%◌, ◌≤◌, Bool, not, ◌&&◌, ◌||◌, ◌==◌, arith, if◌then◌else◌,
}

abbrev pub second : ℕ
second = 1000000000

abbrev pub day : ℕ
day = 86400000000000

-- `t.Unix()`
unfoldable pub unix : ℕ → ℕ
unix t = t / second

-- `t.AddDate(0, 0, n)`
unfoldable pub add_days : ℕ → ℕ → ℕ
add_days n t = t + n * day

is_leap : ℕ → Bool
is_leap y = y % 4 == 0 && (not (y % 100 == 0) || y % 400 == 0)

-- The Gregorian year that began on the last 1 March, for a number of days since the epoch.
march_year : ℕ → ℕ
march_year days =
    let z = days + 719468 in
    let doe = z % 146097 in
    (doe - doe / 1460 + doe / 36524 - doe / 146096) / 365 + 400 * (z / 146097)

-- `t.AddDate(1, 0, 0)`: the next 29 February that is passed, if there is one, makes it 366 days.
unfoldable pub add_year : ℕ → ℕ
unfolding is_leap march_year
add_year t = t + (if is_leap (march_year (t / day) + 1) then 366 else 365) * day

pub lt-add_year : (t : ℕ) → t + 365 * day ≤ add_year t
unfolding add_year
lt-add_year t = ground arith
