-- ===== src/Calendar/Order.antt =====
-- The order of dates.
use home_trap.Prelude.{◌≡◌, ◌⊎◌, true, false, arith}
use home_trap.Prelude.Sort.{IsTotalOrder}
use home_trap.Calendar.{Date, date_ltb, date_leb, date_eq}

pub date_leb_total : (a b : Date) → (date_leb a b ≡ true) ⊎ (date_leb b a ≡ true)
date_leb_total a b = ground arith

pub date_leb_trans :
    (a b c : Date) → date_leb a b ≡ true → date_leb b c ≡ true → date_leb a c ≡ true
date_leb_trans a b c h k = ground arith

pub date_ltb_trans :
    (a b c : Date) → date_ltb a b ≡ true → date_ltb b c ≡ true → date_ltb a c ≡ true
date_ltb_trans a b c h k = ground arith

pub date_eq→eq : (a b : Date) → date_eq a b ≡ true → a ≡ b
date_eq→eq a b h = ground arith

pub date_eq_refl : (a : Date) → date_eq a a ≡ true
date_eq_refl a = ground arith

pub date_eq_sym : (a b : Date) → date_eq a b ≡ true → date_eq b a ≡ true
date_eq_sym a b h = ground arith

pub date_ltb_irrefl : (a : Date) → date_ltb a a ≡ false
date_ltb_irrefl a = ground arith

-- Of two dates neither of which is before the other, both are the same.
pub eq_of_not_before : (a b : Date) → date_ltb a b ≡ false → date_ltb b a ≡ false → a ≡ b
eq_of_not_before a b h k = ground arith

pub leb_of_ltb : (a b : Date) → date_ltb a b ≡ true → date_leb a b ≡ true
leb_of_ltb a b h = ground arith

pub date-IsTotalOrder : IsTotalOrder date_leb
date-IsTotalOrder = record { total = date_leb_total; trans = date_leb_trans }
