-- ===== src/Base/Julian.antt =====
-- julianday of SQLite, with which statements measure the time between two points.
use Prim.Native.Nat.{ℕ, ◌+◌, ◌*◌, ◌/◌, ◌≤◌, ◌<◌}
use native.Mathlib.Omega.{arith}

-- The milliseconds from noon of 24 November 4714 BC to the epoch.
abbrev epoch : ℕ
epoch = 210866760000000

-- The double nearest to the number of days since then, in units of 2^-31 days. That is the spacing
-- of the doubles from 2^21 to 2^22, which are the days of the years 1029 to 6771. It is
-- `(t + epoch) / 86400000 * 2 ^ 31`, rounded; half a unit does not occur, since 84375 is odd. The
-- difference of two days and its product with 86400 are exact for times that are less than 17 years
-- apart, and above every limit of fewer years for others; the product with 86400000 is exact for
-- times that are less than 49 days apart.
unfoldable pub julian : ℕ → ℕ
julian t = (4194304 * (t + epoch) + 84375) / 168750

-- `2 ^ 31` units are a day.
abbrev pub day : ℕ
day = 2147483648

pub julian-bounds :
    (t : ℕ)
    → (168750 * julian t ≤ 4194304 * (t + 210866760000000) + 84375)
      × (4194304 * (t + 210866760000000) + 84375 < 168750 * julian t + 168750)
unfolding julian
julian-bounds t = (omega arith, omega arith)

module _ (s from to : ℕ) where
  -- The comparison holds at the limit at the earliest, and from the next millisecond on.
  pub reached : s * day + 86400 * julian from ≤ 86400 * julian to → from + s * 1000 ≤ to
  reached h = omega (arith, julian-bounds from, julian-bounds to)

  pub passed : from + s * 1000 < to → s * day + 86400 * julian from < 86400 * julian to
  passed h = omega (arith, julian-bounds from, julian-bounds to)
