-- ===== src/Money/Rounding.antt =====
-- What `money` does to a value: exact at two places, else to the nearest cent.
use home_trap.Prelude.{ℕ, ◌+◌, ◌*◌, ◌≤◌, ◌<◌, ◌≡◌, arith}
use home_trap.Prelude.Int.{ℤ, pos, negsuc, pos_part, neg_part}
use home_trap.Money.{money}

-- Rounding at the scale of a money column changes nothing.
pub money_exact : (v : ℤ) → money 2 v ≡ v
unfolding money
money_exact (pos n) = ground arith
money_exact (negsuc n) = ground arith

abbrev pub quantum : ℕ
quantum = 1000000

-- An amount of scale 8 (a reading times a tariff, or a rent times a rate) is rounded to the nearest
-- cent, a half cent away from zero: the result is at most half a cent from the value, and at exactly
-- half a cent its magnitude is the larger one.
pub money_nearest :
    (v : ℤ)
    → (2 * (quantum * pos_part (money 8 v)) ≤ 2 * pos_part v + quantum)
      × (2 * pos_part v < 2 * (quantum * pos_part (money 8 v)) + quantum)
      × (2 * (quantum * neg_part (money 8 v)) ≤ 2 * neg_part v + quantum)
      × (2 * neg_part v < 2 * (quantum * neg_part (money 8 v)) + quantum)
unfolding money
money_nearest (pos n) = ground arith
money_nearest (negsuc n) = ground arith
