-- ===== src/Services/Tariffs.antt =====
-- `create_tariff` of backend/app/routers/services.py under the query for the tariff of a period.
use home_trap.Prelude.{
  ℕ, ◌≡◌, ◌⊎◌, refl, sym, ap, ◌∙◌, inl, inr, Bool, true, false, Option, none, some, List, [], ◌∷◌,
  ◌++◌, ◌==◌, filter, any, any-false, In-append, In-append_one, arith, Bool-cases,
}
use mathlib.Core.Bool.{false≢true}
use home_trap.Prelude.Int.{ℤ}
use home_trap.Prelude.Result.{ok, >>=-eq-ok, >>-eq-ok, ok-injective}
use home_trap.Calendar.{Date, date_ltb}
use home_trap.Models.{Tariff, Db}
use home_trap.Billing.Tariffs.{
  in_effect, get_tariff_for_period, InForce, get_tariff_for_period-InForce,
}
use home_trap.Services.{get_service, is_tariff_at, new_tariff, create_tariff}

-- The row that a creation adds, where the service had no tariff of the date.
pub create_tariff-added :
    (db db' : Db) (service_id : ℕ) (value : ℤ) (valid_from : Date) (t : Tariff)
    → create_tariff db service_id value valid_from ≡ ok (t, db')
    → (t ≡ new_tariff db service_id value valid_from)
      × (db' ≡ record db { tariffs = db.tariffs ++ t ∷ [] })
      × (any (is_tariff_at service_id valid_from) db.tariffs ≡ false)
      × ((s : _) × (get_service db service_id ≡ ok s))
unfolding create_tariff
create_tariff-added db db' service_id value valid_from t h =
    let (s, hs, h1) = >>=-eq-ok (get_service db service_id) _ h in
    let (free, h2) = >>-eq-ok (any (is_tariff_at service_id valid_from) db.tariffs) _ _ h1 in
    let q = ok-injective h2 in
    let e : new_tariff db service_id value valid_from ≡ t = ap (λ (r : Tariff × Db). r.0) q in
    (
      sym e,
      sym (ap (λ (r : Tariff × Db). r.1) q)
          ∙ ap (λ x. record db { tariffs = db.tariffs ++ x ∷ [] }) e,
      free,
      (s, hs),
    )

filter-append_other :
    (p : Tariff → Bool) (ts : List Tariff) (t : Tariff)
    → p t ≡ false
    → filter p (ts ++ t ∷ []) ≡ filter p ts
filter-append_other p [] t h = rw h refl
filter-append_other p (x ∷ ts) t h = elim (Bool-cases (p x)) [
  | inl e ↦ rw (e, filter-append_other p ts t h) refl
  | inr e ↦ rw (e, filter-append_other p ts t h) refl
]

-- A tariff that does not count for a service and a period changes nothing there.
same_tariff :
    (db : Db) (t : Tariff) (s : ℕ) (p : Date)
    → in_effect s p t ≡ false
    → get_tariff_for_period (record db { tariffs = db.tariffs ++ t ∷ [] }) s p
      ≡ get_tariff_for_period db s p
unfolding get_tariff_for_period
same_tariff db t s p h = rw (filter-append_other (in_effect s p) db.tariffs t h) refl

-- Of a service's tariffs in force at a date, the one of that very date is the only one.
only_of_its_date :
    (db : Db) (t : Tariff) (o : Option Tariff)
    → any (is_tariff_at t.service_id t.valid_from) db.tariffs ≡ false
    → InForce (record db { tariffs = db.tariffs ++ t ∷ [] }) t.service_id t.valid_from o
    → o ≡ some t
only_of_its_date db t none free h =
    let late = h t ((In-append t db.tariffs (t ∷ [])).1 (inr (inl refl))) refl in
    ground (arith, late)
only_of_its_date db t (some u) free (m, same, valid, latest) =
    let on = latest t ((In-append t db.tariffs (t ∷ [])).1 (inr (inl refl))) refl (ground arith) in
    elim (In-append_one u t db.tariffs m) [
      | inr e ↦ ap some e
      | inl old ↦
          let no : is_tariff_at t.service_id t.valid_from u ≡ false =
            any-false (is_tariff_at t.service_id t.valid_from) db.tariffs free u old in
          absurd (false≢true (sym no ∙ rw same (ground arith)))
    ]

-- A tariff that is created is the one that its service has for a period that starts on its date; the
-- tariff of each period before that date, and of each period for another service, is what it was.
pub create_tariff-InForce :
    (db db' : Db) (service_id : ℕ) (value : ℤ) (valid_from : Date) (t : Tariff)
    → create_tariff db service_id value valid_from ≡ ok (t, db')
    → (get_tariff_for_period db' service_id valid_from ≡ some t)
      × ((s : ℕ) (p : Date)
          → ((s == service_id) ≡ false) ⊎ (date_ltb p valid_from ≡ true)
          → get_tariff_for_period db' s p ≡ get_tariff_for_period db s p)
create_tariff-InForce db db' service_id value valid_from t h =
    let (e, q, free, _) = create_tariff-added db db' service_id value valid_from t h in
    rw q (
      rw e (
          only_of_its_date db (new_tariff db service_id value valid_from) _ free
            (get_tariff_for_period-InForce _ service_id valid_from)),
      λ s p other.
          same_tariff db t s p (rw e (elim other [ inl d ↦ ground arith | inr d ↦ ground arith ])),
    )
