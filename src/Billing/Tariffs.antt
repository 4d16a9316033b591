-- ===== src/Billing/Tariffs.antt =====
-- `get_tariff_for_period` of backend/app/db.py and `_tariff_for_period` of
-- backend/app/services/billing.py, with what the query selects.
use home_trap.Prelude.{ℕ, ◌≡◌, Bool, false, true, ◌&&◌, Option, none, some, arith, ◌==◌, filter, In}
use home_trap.Prelude.Sort.{first_by, IsTotalOrder, Selected, select-Selected}
use home_trap.Prelude.Result.{Result, or_raise}
use home_trap.Calendar.{Date, date_leb}
use home_trap.Calendar.Order.{date_leb_total, date_leb_trans}
use home_trap.Models.{Tariff, Db}
use home_trap.Billing.{Fault, no_tariff}

-- `ORDER BY valid_from DESC`
abbrev later_tariff : Tariff → Tariff → Bool
later_tariff a b = date_leb b.valid_from a.valid_from

abbrev pub in_effect : ℕ → Date → Tariff → Bool
in_effect service_id period t = t.service_id == service_id && date_leb t.valid_from period

unfoldable pub get_tariff_for_period : Db → ℕ → Date → Option Tariff
get_tariff_for_period db service_id period =
    first_by later_tariff (filter (in_effect service_id period) db.tariffs)

unfoldable pub tariff_for_period : Db → ℕ → Date → Result Fault Tariff
unfolding get_tariff_for_period
tariff_for_period db service_id period =
    or_raise (get_tariff_for_period db service_id period) (no_tariff service_id period)

later_tariff-IsTotalOrder : IsTotalOrder later_tariff
later_tariff-IsTotalOrder = record {
  total = λ a b. date_leb_total b.valid_from a.valid_from;
  trans = λ a b c h k. date_leb_trans c.valid_from b.valid_from a.valid_from k h;
}

-- The tariff of a service for a period: valid at the period's first day and none valid later than
-- it; `none` only where no tariff of the service is valid by then.
abbrev pub InForce : Db → ℕ → Date → Option Tariff → Type 0
InForce db service_id period none =
    (u : Tariff)
    → In u db.tariffs
    → u.service_id ≡ service_id
    → date_leb u.valid_from period ≡ false
InForce db service_id period (some t) =
    In t db.tariffs
    × (t.service_id ≡ service_id)
    × (date_leb t.valid_from period ≡ true)
    × ((u : Tariff)
        → In u db.tariffs
        → u.service_id ≡ service_id
        → date_leb u.valid_from period ≡ true
        → date_leb u.valid_from t.valid_from ≡ true)

Selected→InForce :
    (db : Db) (service_id : ℕ) (period : Date) (o : Option Tariff)
    → Selected later_tariff (in_effect service_id period) db.tariffs o
    → InForce db service_id period o
Selected→InForce db service_id period none h = λ u m e. ground (arith, h u m)
Selected→InForce db service_id period (some t) (m, p, least) =
    (m, ground arith, ground arith, λ u mu e k. least u mu (ground arith))

-- The query returns the latest tariff of the service that is valid at the period's first day, and
-- nothing only where the service has no such tariff.
pub get_tariff_for_period-InForce :
    (db : Db) (service_id : ℕ) (period : Date)
    → InForce db service_id period (get_tariff_for_period db service_id period)
unfolding get_tariff_for_period
get_tariff_for_period-InForce db service_id period = Selected→InForce db service_id period _ (
    select-Selected later_tariff later_tariff-IsTotalOrder (in_effect service_id period) db.tariffs)
