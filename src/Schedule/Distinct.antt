-- ===== src/Schedule/Distinct.antt =====
-- The apartments of the entries of `compute_billing_schedule` in
-- backend/app/services/billing_schedule.py.
use home_trap.Prelude.{
  ℕ, ◌≡◌, refl, sym, ap, ◌∙◌, ◌⊎◌, inl, inr, Bool, false, ◌||◌, Option, none, some, List, [], ◌∷◌,
  map, ◌==◌, In, In-filter, In→All, All→In, All, any, Bool-cases, Option-cases, arith,
}
use mathlib.Core.Path.{subst}
use home_trap.Prelude.Sort.{first_by-In}
use home_trap.Calendar.{Date}
use home_trap.Models.{Apartment, Tenant, Invoice, Db}
use home_trap.Schedule.{
  BillingScheduleEntry, first_rows, row_entries, entry, last_missed, scheduled, is_upcoming,
  collect_some, compute_billing_schedule_candidates, compute_billing_schedule,
}
use home_trap.Schedule.Candidates.{In-map}
use home_trap.Schedule.Entries.{In-collect_some}

or-false : (b c : Bool) → (b || c) ≡ false → (b ≡ false) × (c ≡ false)
or-false b c h = (ground arith, ground arith)

-- A row that is kept is not of an apartment that was seen.
first_rows-unseen :
    (r : Apartment × Tenant) (seen : List ℕ) (rows : List (Apartment × Tenant))
    → In r (first_rows seen rows)
    → any (λ (i : ℕ). i == r.0.id) seen ≡ false
unfolding first_rows
first_rows-unseen r seen [] m = absurd m
first_rows-unseen r seen ((a, t) ∷ rows) m = elim (Bool-cases (any (λ (i : ℕ). i == a.id) seen)) [
  | inl e ↦ first_rows-unseen r seen rows (rw e at m)
  | inr e ↦
      let m' : (r ≡ (a, t)) ⊎ In r (first_rows (a.id ∷ seen) rows) = rw e at m in
      elim m' [
        | inl q ↦ rw q e
        | inr n ↦ (or-false _ _ (first_rows-unseen r (a.id ∷ seen) rows n)).1
      ]
]

-- No two rows are of one apartment.
abbrev RowsApart : List (Apartment × Tenant) → Type 0
RowsApart [] = Unit
RowsApart (r ∷ rows) =
    All (λ (s : Apartment × Tenant). (r.0.id == s.0.id) ≡ false) rows × RowsApart rows

first_rows-RowsApart :
    (seen : List ℕ) (rows : List (Apartment × Tenant)) → RowsApart (first_rows seen rows)
unfolding first_rows
first_rows-RowsApart seen [] = tt
first_rows-RowsApart seen ((a, t) ∷ rows) = elim (Bool-cases (any (λ (i : ℕ). i == a.id) seen)) [
  | inl e ↦ rw e (first_rows-RowsApart seen rows)
  | inr e ↦ rw e (
    In→All _ (first_rows (a.id ∷ seen) rows)
        (λ s m. (or-false _ _ (first_rows-unseen s (a.id ∷ seen) rows m)).0),
    first_rows-RowsApart (a.id ∷ seen) rows,
  )
]

pub scheduled-In :
    (today : Date) (e : BillingScheduleEntry) (es : List BillingScheduleEntry)
    → scheduled today es ≡ some e
    → In e es
unfolding scheduled
scheduled-In today e es q = elim (Option-cases (last_missed es)) [
  | inl n ↦ (In-filter (is_upcoming today) e es (first_by-In _ e _ (rw (n, scheduled) at q))).0
  | inr (w, n) ↦
      let same : some w ≡ some e = rw (n, scheduled) at q in
      (In-filter (λ (x : BillingScheduleEntry). x.is_overdue) e es (first_by-In _ e _ (n ∙ same))).0
]

-- The entry of a row is of its apartment.
row_apartment :
    (invoices : List Invoice) (today : Date) (r : Apartment × Tenant) (e : BillingScheduleEntry)
    → scheduled today (row_entries invoices today r) ≡ some e
    → e.apartment ≡ r.0
unfolding row_entries entry
row_apartment invoices today (a, t) e q =
    let (_, _, p) =
      In-map (entry invoices today a t) e _
        (scheduled-In today e (row_entries invoices today (a, t)) q) in
    ap (λ (x : BillingScheduleEntry). x.apartment) p

-- No two entries are of one apartment.
abbrev pub AreDistinct : List BillingScheduleEntry → Type 0
AreDistinct [] = Unit
AreDistinct (e ∷ es) =
    All (λ (x : BillingScheduleEntry). (e.apartment.id == x.apartment.id) ≡ false) es
    × AreDistinct es

collect_none :
    {A B : Type 0} (f : A → Option B) (x : A) (xs : List A)
    → f x ≡ none
    → collect_some f (x ∷ xs) ≡ collect_some f xs
collect_none f x xs e = rw (collect_some, e) refl

collect_one :
    {A B : Type 0} (f : A → Option B) (x : A) (xs : List A) (y : B)
    → f x ≡ some y
    → collect_some f (x ∷ xs) ≡ y ∷ collect_some f xs
collect_one f x xs y e = rw (collect_some, e) refl

rows-AreDistinct :
    (invoices : List Invoice) (today : Date) (rows : List (Apartment × Tenant))
    → RowsApart rows
    → AreDistinct (collect_some (scheduled today) (map (row_entries invoices today) rows))
rows-AreDistinct invoices today [] h = tt
rows-AreDistinct invoices today (r ∷ rows) (others, h) =
    let later = map (row_entries invoices today) rows in
    elim (Option-cases (scheduled today (row_entries invoices today r))) [
      | inl e ↦
          subst AreDistinct (sym (collect_none (scheduled today) _ later e))
            (rows-AreDistinct invoices today rows h)
      | inr (x, e) ↦ subst AreDistinct (sym (collect_one (scheduled today) _ later x e)) (
        In→All _ _ (λ y m.
            let (es, mes, q) = In-collect_some (scheduled today) y _ m in
            let (s, ms, p) = In-map (row_entries invoices today) es rows mes in
            let a = row_apartment invoices today r x e in
            let b = row_apartment invoices today s y (rw p at q) in
            rw (a, b) (All→In _ rows others s ms)),
        rows-AreDistinct invoices today rows h,
      )
    ]

-- The billing schedule of any day has at most one entry for each apartment, however many tenants and
-- contracts it has.
pub compute_billing_schedule-AreDistinct :
    (db : Db) (today : Date) → AreDistinct (compute_billing_schedule db today)
unfolding compute_billing_schedule compute_billing_schedule_candidates
compute_billing_schedule-AreDistinct db today =
    rows-AreDistinct db.invoices today _ (first_rows-RowsApart [] _)
