-- ===== src/Resilience/Guidance/Rolling.antt =====
-- The two-digit years of src/runtime/resilience/rate_limit_guidance.cpp.
use cuac.Common.{ℕ, ◌%◌, ◌<◌, ◌≡◌, arith}
use cuac.Common.Int.{ℤ, pos, pos_part, ◌+ℤ◌, ◌-ℤ◌, ◌≤ℤ◌}
use cuac.Resilience.Guidance.Calendar.{CivilTime}
use cuac.Resilience.Guidance.Forms.{rolling_year}

module _ (short_year month day hour minute second r : ℕ) (receipt : CivilTime) where
  abbrev year : ℤ
  year = rolling_year short_year month day hour minute second (record receipt { year = pos r })

  -- A year of two digits is read as one that ends in them, at most 50 years before and at most 50 after
  -- the year of receipt, which is not negative; a century is added before the digits are taken, since
  -- the year may be negative.
  pub rolling_year_bounds :
      short_year < 100
      → (pos r ≤ℤ year +ℤ pos 50)
        × (year ≤ℤ pos r +ℤ pos 50)
        × (pos_part (year +ℤ pos 100) % 100 ≡ short_year)
  unfolding rolling_year ◌+ℤ◌ ◌-ℤ◌
  rolling_year_bounds h = (ground arith, ground arith, ground arith)
