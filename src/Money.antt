-- ===== src/Money.antt =====
-- `money` of backend/app/services/billing.py and the decimals that it rounds.
-- A `Decimal` is an integer at a fixed scale: `money` columns hold hundredths (scale 2), readings
-- thousandths (3), tariffs hundred-thousandths (5) and exchange rates millionths (6), as
-- backend/app/models.py declares the columns. A product has the sum of its factors' scales; the
-- columns' widths keep it below the 28 digits of Python's decimal context, so it is exact.
pub mod Rounding
use home_trap.Prelude.{ℕ, ◌+◌, ◌-◌, ◌*◌, ◌/◌, ◌^◌}
use home_trap.Prelude.Int.{ℤ, pos, negsuc, pos_part, neg_part, ◌-ℤ◌}

-- n / d to the nearest integer, halves upwards.
unfoldable pub half_up : ℕ → ℕ → ℕ
half_up d n = (2 * n + d) / (2 * d)

-- The same on the magnitude: `ROUND_HALF_UP` takes a half away from zero.
unfoldable pub round_half_up : ℕ → ℤ → ℤ
unfolding half_up ◌-ℤ◌
round_half_up d (pos n) = pos (half_up d n)
round_half_up d (negsuc n) = pos 0 -ℤ pos (half_up d (n + 1))

-- `value.quantize(Decimal("0.01"), rounding=ROUND_HALF_UP)` of a value of scale 2 or more.
unfoldable pub money : ℕ → ℤ → ℤ
unfolding round_half_up
money scale value = round_half_up (10 ^ (scale - 2)) value
