-- ===== src/Nbu.antt =====
-- backend/app/services/nbu.py: the exchange rate of a day, from the database, from the National Bank's
-- service, or the latest rate before that day. The request and the parsing of the answer are a
-- parameter.
pub mod Rates
use home_trap.Prelude.{
  ℕ, Bool, true, false, ◌&&◌, Option, none, some, List, [], ◌∷◌, ◌++◌, Text, text, text_eq, filter,
  find?, if◌then◌else◌,
}
use home_trap.Prelude.Int.{ℤ, pos, leb_ℤ}
use home_trap.Prelude.Sort.{first_by}
use home_trap.Prelude.Result.{Result, ok, err}
use home_trap.Calendar.{Date, date_leb, date_eq}
use home_trap.Models.{ExchangeRate, Db, next_key}

abbrev pub default_currency : Text
default_currency = text "USD"

pub data NbuRateUnavailable : Type 0 where
  nbu_rate_unavailable : Text → Date → NbuRateUnavailable

pub record RateResult : Type 0 where
  pub requested_date : Date
  pub rate_date : Date
  pub currency : Text
  pub rate : ℤ
  pub is_fallback : Bool

-- `payload[0]["rate"]` of the service's answer, at scale 6; `none` where the request fails or the
-- answer does not hold a number there.
abbrev pub Http : Type 0
Http = Date → Text → Option ℤ

unfoldable pub fetch_rate : Http → Date → Text → Result NbuRateUnavailable ℤ
fetch_rate http target_date currency = elim (http target_date currency) [
  | none ↦ err (NbuRateUnavailable.nbu_rate_unavailable currency target_date)
  | some rate ↦
      if leb_ℤ rate (pos 0)
      then err (NbuRateUnavailable.nbu_rate_unavailable currency target_date)
      else ok rate
]

-- `ExchangeRate.date == target_date, ExchangeRate.currency == currency`
abbrev pub is_rate_of : Date → Text → ExchangeRate → Bool
is_rate_of target_date currency r = date_eq r.day target_date && text_eq r.currency currency

abbrev pub is_rate_before : Date → Text → ExchangeRate → Bool
is_rate_before target_date currency r = text_eq r.currency currency && date_leb r.day target_date

-- `ORDER BY date DESC`
abbrev pub later_rate : ExchangeRate → ExchangeRate → Bool
later_rate a b = date_leb b.day a.day

unfoldable pub latest_rate : Db → Date → Text → Option ExchangeRate
latest_rate db target_date currency =
    first_by later_rate (filter (is_rate_before target_date currency) db.exchange_rates)

unfoldable pub get_stored_rate : Db → Date → Text → Option ℤ
unfolding latest_rate
get_stored_rate db target_date currency = elim (latest_rate db target_date currency) [
  | none ↦ none
  | some r ↦ some r.rate
]

abbrev pub add_rate : Db → ExchangeRate → Db
add_rate db r = record db { exchange_rates = db.exchange_rates ++ r ∷ [] }

abbrev pub new_rate : Db → Date → Text → ℤ → ExchangeRate
new_rate db target_date currency rate = record {
  id = next_key (λ (r : ExchangeRate). r.id) db.exchange_rates;
  day = target_date;
  currency = currency;
  rate = rate;
}

abbrev pub exact_result : Date → ExchangeRate → RateResult
exact_result target_date r = record {
  requested_date = target_date;
  rate_date = r.day;
  currency = r.currency;
  rate = r.rate;
  is_fallback = false;
}

-- `except NbuRateUnavailable`: the latest stored rate stands in for one that cannot be fetched.
unfoldable pub fall_back :
    Db → Date → Text → NbuRateUnavailable → Result NbuRateUnavailable (RateResult × Db)
unfolding latest_rate
fall_back db target_date currency error = elim (latest_rate db target_date currency) [
  | none ↦ err error
  | some r ↦ ok (
    record {
      requested_date = target_date;
      rate_date = r.day;
      currency = r.currency;
      rate = r.rate;
      is_fallback = true;
    },
    db,
  )
]

-- The commit of a fetched rate. Where another connection has committed a rate of the same date and
-- currency since the query, the unique constraint raises `IntegrityError` and that rate is read.
unfoldable pub store_rate : Db → Date → Text → ℤ → Option ℤ → RateResult × Db
store_rate db target_date currency rate meanwhile =
    let stored =
      new_rate db target_date currency (elim meanwhile [ none ↦ rate | some other ↦ other ]) in
    (exact_result target_date stored, add_rate db stored)

unfoldable pub get_rate :
    Http → Option ℤ → Db → Date → Text → Result NbuRateUnavailable (RateResult × Db)
unfolding fetch_rate fall_back store_rate
get_rate http meanwhile db target_date currency =
    elim (find? (is_rate_of target_date currency) db.exchange_rates) [
      | some cached ↦ ok (exact_result target_date cached, db)
      | none ↦ elim (fetch_rate http target_date currency) [
        | err error ↦ fall_back db target_date currency error
        | ok rate ↦ ok (store_rate db target_date currency rate meanwhile)
      ]
    ]
