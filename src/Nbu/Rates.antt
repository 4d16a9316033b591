-- ===== src/Nbu/Rates.antt =====
-- What `get_rate` and `get_stored_rate` of backend/app/services/nbu.py return.
use home_trap.Prelude.{
  ◌≡◌, refl, sym, ap, ◌∙◌, Bool, true, false, Option, none, some, List, [], ◌∷◌, ◌++◌, Text,
  text_eq_refl, text_eq→eq, find?, find?-some, find?-none, In, and-true, Option-cases, Bool-cases,
  inl, inr,
}
use mathlib.Core.Bool.{false≢true}
use home_trap.Prelude.Int.{ℤ}
use home_trap.Prelude.Sort.{IsTotalOrder, Selected, select-Selected}
use home_trap.Prelude.Result.{Result, ok, err, Result-cases, ok-injective}
use home_trap.Calendar.{Date, date_leb}
use home_trap.Calendar.Order.{date_leb_total, date_leb_trans, date_eq_refl, date_eq→eq}
use home_trap.Models.{ExchangeRate, Db}
use home_trap.Nbu.{
  Http, RateResult, NbuRateUnavailable, is_rate_of, is_rate_before, later_rate, latest_rate,
  fetch_rate, fall_back, store_rate, get_rate, exact_result,
}

later_rate-IsTotalOrder : IsTotalOrder later_rate
later_rate-IsTotalOrder = record {
  total = λ a b. date_leb_total b.day a.day;
  trans = λ a b c h k. date_leb_trans c.day b.day a.day k h;
}

latest_rate-Selected :
    (db : Db) (day : Date) (currency : Text)
    → Selected later_rate
        (is_rate_before day currency)
        db.exchange_rates
        (latest_rate db day currency)
unfolding latest_rate
latest_rate-Selected db day currency =
    select-Selected later_rate later_rate-IsTotalOrder (is_rate_before day currency)
      db.exchange_rates

find?-append_one :
    {A : Type 0} (p : A → Bool) (xs : List A) (y : A)
    → find? p xs ≡ none
    → p y ≡ true
    → find? p (xs ++ y ∷ []) ≡ some y
find?-append_one p [] y h e = rw e refl
find?-append_one p (x ∷ xs) y h e = elim (Bool-cases (p x)) [
  | inl t ↦ let bad : some x ≡ none = rw t at h in cc
  | inr t ↦ rw t (find?-append_one p xs y (rw t at h) e)
]

-- A stored rate of a date and currency, and one that is not after the date.
abbrev pub IsRateOf : Db → Date → Text → ExchangeRate → Type 0
IsRateOf db day currency x = In x db.exchange_rates × (x.day ≡ day) × (x.currency ≡ currency)

abbrev pub IsRateBefore : Db → Date → Text → ExchangeRate → Type 0
IsRateBefore db day currency x =
    In x db.exchange_rates × (date_leb x.day day ≡ true) × (x.currency ≡ currency)

-- What a rate that was returned is.
pub record IsRate (db db' : Db) (day : Date) (currency : Text) (r : RateResult) : Type 0 where
  pub requested : r.requested_date ≡ day
  pub exact :
      r.is_fallback ≡ false
      → (x : ExchangeRate) × (find? (is_rate_of day currency) db'.exchange_rates ≡ some x)
        × IsRateOf db' day currency x
        × (r ≡ exact_result day x)
  pub absent : r.is_fallback ≡ true → (y : ExchangeRate) → IsRateOf db day currency y → ⊥
  pub latest :
      r.is_fallback ≡ true
      → (db' ≡ db)
        × ((x : ExchangeRate) × IsRateBefore db day currency x
            × ((y : ExchangeRate) → IsRateBefore db day currency y → date_leb y.day x.day ≡ true)
            × (x.rate ≡ r.rate)
            × (x.day ≡ r.rate_date)
            × (x.currency ≡ r.currency))

found-IsRateOf :
    (db : Db) (day : Date) (currency : Text) (x : ExchangeRate)
    → find? (is_rate_of day currency) db.exchange_rates ≡ some x
    → IsRateOf db day currency x
found-IsRateOf db day currency x e =
    let (m, t) = find?-some (is_rate_of day currency) db.exchange_rates x e in
    let (d, c) = and-true _ _ t in (m, date_eq→eq x.day day d, text_eq→eq x.currency currency c)

none_found :
    (db : Db) (day : Date) (currency : Text) (y : ExchangeRate)
    → find? (is_rate_of day currency) db.exchange_rates ≡ none
    → IsRateOf db day currency y
    → ⊥
none_found db day currency y e (m, d, c) =
    let f = find?-none (is_rate_of day currency) db.exchange_rates e y m in
    let t : is_rate_of day currency y ≡ true =
      rw (d, c) (rw (date_eq_refl day) (text_eq_refl currency)) in
    false≢true (sym f ∙ t)

-- What the query selects, without its own test and order.
last_before :
    (db : Db) (day : Date) (currency : Text) (x : ExchangeRate)
    → Selected later_rate (is_rate_before day currency) db.exchange_rates (some x)
    → IsRateBefore db day currency x
      × ((y : ExchangeRate) → IsRateBefore db day currency y → date_leb y.day x.day ≡ true)
last_before db day currency x (m, t, least) =
    let (c, d) = and-true _ _ t in
    (
      (m, d, text_eq→eq x.currency currency c),
      λ y (my, dy, cy). least y my (rw (cy, dy) (rw (text_eq_refl currency) refl)),
    )

cached-IsRate :
    (db : Db) (day : Date) (currency : Text) (cached : ExchangeRate)
    → find? (is_rate_of day currency) db.exchange_rates ≡ some cached
    → IsRate db db day currency (exact_result day cached)
cached-IsRate db day currency cached e = record {
  requested = refl;
  exact = λ _. (cached, e, found-IsRateOf db day currency cached e, refl);
  absent = λ bad. absurd (false≢true bad);
  latest = λ bad. absurd (false≢true bad);
}

store_rate-IsRate :
    (db : Db) (day : Date) (currency : Text) (rate : ℤ) (meanwhile : Option ℤ)
    → find? (is_rate_of day currency) db.exchange_rates ≡ none
    → IsRate db
        (store_rate db day currency rate meanwhile).1
        day
        currency
        (store_rate db day currency rate meanwhile).0
unfolding store_rate
store_rate-IsRate db day currency rate meanwhile e =
    let found =
      find?-append_one (is_rate_of day currency) db.exchange_rates _ e
        (rw (date_eq_refl day) (text_eq_refl currency)) in
    record {
      requested = refl;
      exact = λ _. (
        _,
        found,
        found-IsRateOf (store_rate db day currency rate meanwhile).1 day currency _ found,
        refl,
      );
      absent = λ bad. absurd (false≢true bad);
      latest = λ bad. absurd (false≢true bad);
    }

fall_back-case :
    (db : Db) (day : Date) (currency : Text) (error : NbuRateUnavailable) (r : RateResult)
    (db' : Db) (o : Option ExchangeRate)
    → latest_rate db day currency ≡ o
    → find? (is_rate_of day currency) db.exchange_rates ≡ none
    → fall_back db day currency error ≡ ok (r, db')
    → IsRate db db' day currency r
unfolding fall_back
fall_back-case db day currency error r db' none e f h =
    let bad : ◌≡◌ {A = Result NbuRateUnavailable (RateResult × Db)} (err error) (ok (r, db')) =
      rw (e, fall_back) at h in
    cc
fall_back-case db day currency error r db' (some x) e f h =
    let p = ok-injective (rw (e, fall_back) at h) in
    rw (← ap (λ (q : RateResult × Db). q.0) p, ← ap (λ (q : RateResult × Db). q.1) p)
      (record {
        requested = refl;
        exact = λ bad. absurd (false≢true (sym bad));
        absent = λ _ y. none_found db day currency y f;
        latest = λ _.
            let (before, last) =
              last_before db day currency x (rw e at (latest_rate-Selected db day currency)) in
            (refl, (x, before, last, refl, refl, refl));
      })

-- A rate that is returned is for the requested date: either the stored rate of that date and
-- currency, which the database then holds; or it is marked as a fallback, no rate of that date and
-- currency is stored, the database is unchanged, and the rate is a stored one of the currency that is
-- not after the date, and no such rate has a later date.
pub get_rate-IsRate :
    (http : Http) (meanwhile : Option ℤ) (db : Db) (day : Date) (currency : Text) (r : RateResult)
    (db' : Db)
    → get_rate http meanwhile db day currency ≡ ok (r, db')
    → IsRate db db' day currency r
unfolding get_rate
get_rate-IsRate http meanwhile db day currency r db' h =
    elim (Option-cases (find? (is_rate_of day currency) db.exchange_rates)) [
      | inr (cached, e) ↦
          let p = ok-injective (rw (e, get_rate) at h) in
          rw (← ap (λ (q : RateResult × Db). q.0) p, ← ap (λ (q : RateResult × Db). q.1) p)
            (cached-IsRate db day currency cached e)
      | inl e ↦ elim (Result-cases (fetch_rate http day currency)) [
        | inl (rate, f) ↦
            let p = ok-injective (rw (e, f, get_rate) at h) in
            rw (← ap (λ (q : RateResult × Db). q.0) p, ← ap (λ (q : RateResult × Db). q.1) p)
              (store_rate-IsRate db day currency rate meanwhile e)
        | inr (error, f) ↦
            fall_back-case db day currency error r db' _ refl e (rw (e, f, get_rate) at h)
      ]
    ]

-- A rate that was not a fallback is final: a later request for its date and currency returns the same
-- rate and leaves the database as it is, whatever the service then answers.
pub get_rate_again :
    (http later : Http) (meanwhile other : Option ℤ) (db : Db) (day : Date) (currency : Text)
    (r : RateResult) (db' : Db)
    → get_rate http meanwhile db day currency ≡ ok (r, db')
    → r.is_fallback ≡ false
    → get_rate later other db' day currency ≡ ok (r, db')
unfolding get_rate
get_rate_again http later meanwhile other db day currency r db' h k =
    let s = get_rate-IsRate http meanwhile db day currency r db' h in
    let (x, e, _, p) = s.exact k in rw (e, get_rate) (ap (λ (q : RateResult). ok (q, db')) (sym p))
