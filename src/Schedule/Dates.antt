-- ===== src/Schedule/Dates.antt =====
-- The dates of backend/app/services/billing_schedule.py.
use home_trap.Calendar.Order.{date_ltb_irrefl}
use home_trap.Prelude.{
  ==_iff, refl, min, ap, not, ℕ, ◌≡◌, ◌≤◌, ◌<◌, ◌⊎◌, ◌+◌, ◌*◌, true, false, arith, ◌==◌, Bool-cases,
  inl, inr,
}
use home_trap.Calendar.{Date, IsDate, date, date_leb, days_in_month, shift_month}
use home_trap.Schedule.{date_for_billing_day, period_for_billing_date, next_billing_date}

pub next_billing_date_ahead :
    (today : Date) (billing_day : ℕ) → date_leb today (next_billing_date today billing_day) ≡ true
unfolding next_billing_date
next_billing_date_ahead today billing_day =
    elim (Bool-cases (date_leb today (date_for_billing_day today.year today.month billing_day))) [
      | inl e ↦ rw e e
      | inr e ↦ rw e (ground arith)
    ]

-- A date of a later month is not before.
leb_of_months :
    (a b : Date)
    → b.month ≤ 12
    → a.year * 12 + a.month < b.year * 12 + b.month
    → 1 ≤ a.month
    → date_leb a b ≡ true
leb_of_months a b high h low = ground arith

-- How a month with a date from a day on stands to the month of that day.
month_cases :
    (d : Date) (year month day : ℕ)
    → IsDate d
    → 1 ≤ month
    → month ≤ 12
    → date_leb d (date year month day) ≡ true
    → ((year ≡ d.year) × (month ≡ d.month))
      ⊎ ((year ≡ d.year) × (month ≡ d.month + 1) × ((d.month == 12) ≡ false))
      ⊎ ((year ≡ d.year + 1) × (month ≡ 1) × ((d.month == 12) ≡ true))
      ⊎ (d.year * 12 + d.month + 1 < year * 12 + month)
month_cases d year month day valid low high h = let m = valid.month_le in ground arith

next_month : (d : Date) → d.month ≤ 12 → (d.month == 12) ≡ false → d.month + 1 ≤ 12
next_month d high last = ground arith

-- The day of billing in some month, cut at the month's length.
abbrev pub IsBillingDate : ℕ → Date → Type 0
IsBillingDate billing_day d =
    (1 ≤ d.month) × (d.month ≤ 12) × (d.day ≡ min billing_day (days_in_month d.year d.month))

next_billing_date-IsBillingDate :
    (today : Date) (billing_day : ℕ)
    → IsDate today
    → IsBillingDate billing_day (next_billing_date today billing_day)
unfolding next_billing_date date_for_billing_day
next_billing_date-IsBillingDate today billing_day valid =
    let low = valid.month_pos in
    let high = valid.month_le in
    elim (Bool-cases (date_leb today (date_for_billing_day today.year today.month billing_day))) [
      | inl e ↦ rw e (low, high, refl)
      | inr e ↦ elim (Bool-cases (today.month == 12)) [
        | inl last ↦ rw (e, last) (omega arith, omega arith, refl)
        | inr last ↦ rw (e, last) (omega arith, next_month today high last, refl)
      ]
    ]

-- For a valid date: the next billing date has the billing day, or the last day of its month where the
-- month is shorter; it is not before today; and it is not after any date of a month from 1 to 12
-- that is such a billing date and not before today.
pub next_billing_date-least :
    (today : Date) (billing_day year month : ℕ)
    → IsDate today
    → 1 ≤ month
    → month ≤ 12
    → date_leb today (date_for_billing_day year month billing_day) ≡ true
    → IsBillingDate billing_day (next_billing_date today billing_day)
      × (date_leb today (next_billing_date today billing_day) ≡ true)
      × (date_leb
            (next_billing_date today billing_day)
            (date_for_billing_day year month billing_day)
          ≡ true)
unfolding next_billing_date date_for_billing_day
next_billing_date-least today billing_day year month valid low high h =
    let m = valid.month_le in
    (
      next_billing_date-IsBillingDate today billing_day valid,
      next_billing_date_ahead today billing_day,
      elim (month_cases today year month _ valid low high h) [
        | inl (y, m) ↦
            rw (y, m)
              (let h' = rw (y, m) at h in
                rw h' (
                  ap not
                    (date_ltb_irrefl (date_for_billing_day today.year today.month billing_day))))
        | inr (inl (y, m, last)) ↦
            elim (Bool-cases
              (date_leb today (date_for_billing_day today.year today.month billing_day))) [
                | inl e ↦ rw (y, m, e) (ground arith)
                | inr e ↦
                    rw (y, m, e, last)
                      (ap not (
                        date_ltb_irrefl
                          (date_for_billing_day today.year (today.month + 1) billing_day)))
              ]
        | inr (inr (inl (y, m, last))) ↦
            elim (Bool-cases
              (date_leb today (date_for_billing_day today.year today.month billing_day))) [
                | inl e ↦ rw (y, m, e) (ground arith)
                | inr e ↦
                    rw (y, m, e, last)
                      (ap not
                        (date_ltb_irrefl (date_for_billing_day (today.year + 1) 1 billing_day)))
              ]
        | inr (inr (inr far)) ↦
            elim (Bool-cases
              (date_leb today (date_for_billing_day today.year today.month billing_day))) [
                | inl e ↦ rw e (ground arith)
                | inr e ↦ elim (Bool-cases (today.month == 12)) [
                  | inl last ↦
                      rw (e, last)
                        (leb_of_months (date_for_billing_day (today.year + 1) 1 billing_day)
                          (date_for_billing_day year month billing_day) high
                          (let l = (==_iff today.month 12).0 last in omega arith) (omega arith))
                  | inr last ↦
                      rw (e, last)
                        (leb_of_months
                          (date_for_billing_day today.year (today.month + 1) billing_day)
                          (date_for_billing_day year month billing_day) high (omega arith)
                          (omega arith))
                ]
              ]
      ],
    )

-- The period that is billed on a valid date is the month before it, as the statistics count months.
pub period-shift_month :
    (billing_date : Date)
    → IsDate billing_date
    → period_for_billing_date billing_date ≡ shift_month billing_date 0 1
unfolding period_for_billing_date shift_month
period-shift_month d valid =
    let a = valid.month_le in let b = valid.month_pos in let c = valid.year_pos in ground arith
