-- ===== src/Schedule/Candidates.antt =====
-- What the candidates of `compute_billing_schedule` in backend/app/services/billing_schedule.py say.
use home_trap.Prelude.{
  ℕ, ◌≡◌, min, ==_iff, eq→==, Bool, none, refl, sym, ap, ◌∙◌, ◌⊎◌, inl, inr, true, false, not, ◌&&◌,
  Option, some, List, [], ◌∷◌, map, ◌==◌, In, In-append, In-filter, any, filter, is_some,
  Bool-cases, Option-cases, and-true,
}
use home_trap.Prelude.Sort.{In-sort_by}
use home_trap.Calendar.{Date, date_ltb, date_leb, date_eq, days_in_month, month_start}
use home_trap.Calendar.Order.{date_eq→eq, date_eq_refl}
use home_trap.Models.{Apartment, Tenant, Invoice, Db}
use home_trap.Schedule.{
  BillingScheduleEntry, date_for_billing_day, previous_billing_date, next_billing_date, date_set,
  starts_by, ends_by, in_contract, is_billable, pairs, first_rows, dates_around, billing_dates,
  billing_day_of, row_entries, entry, invoice_at, period_for_billing_date,
  compute_billing_schedule_candidates,
}

pub In-map :
    {A B : Type 0} (f : A → B) (y : B) (xs : List A)
    → In y (map f xs)
    → (x : A) × In x xs × (y ≡ f x)
In-map f y [] m = absurd m
In-map f y (x ∷ xs) (inl e) = (x, inl refl, e)
In-map f y (x ∷ xs) (inr m) = let (z, mz, e) = In-map f y xs m in (z, inr mz, e)

In-pairs :
    (a : Apartment) (t : Tenant) (xs : List Apartment) (ts : List Tenant)
    → In (a, t) (pairs xs ts)
    → In a xs × In t ts
In-pairs a t [] ts m = absurd m
In-pairs a t (b ∷ xs) ts m =
    elim ((In-append (a, t) (map (λ (u : Tenant). (b, u)) ts) (pairs xs ts)).0 m) [
      | inl n ↦
          let (u, mu, e) = In-map (λ (u : Tenant). (b, u)) (a, t) ts n in
          let p : a ≡ b = ap (λ (r : Apartment × Tenant). r.0) e in
          let q : t ≡ u = ap (λ (r : Apartment × Tenant). r.1) e in (inl p, rw q mu)
      | inr n ↦ let (ma, mt) = In-pairs a t xs ts n in (inr ma, mt)
    ]

In-first_rows :
    (r : Apartment × Tenant) (seen : List ℕ) (rows : List (Apartment × Tenant))
    → In r (first_rows seen rows)
    → In r rows
unfolding first_rows
In-first_rows r seen [] m = absurd m
In-first_rows r seen ((a, t) ∷ rows) m = elim (Bool-cases (any (λ (i : ℕ). i == a.id) seen)) [
  | inl e ↦ inr (In-first_rows r seen rows (rw e at m))
  | inr e ↦
      let m' : (r ≡ (a, t)) ⊎ In r (first_rows (a.id ∷ seen) rows) = rw e at m in
      elim m' [ inl q ↦ inl q | inr n ↦ inr (In-first_rows r (a.id ∷ seen) rows n) ]
]

In-date_set : (d : Date) (ds : List Date) → In d (date_set ds) → In d ds
In-date_set d [] m = absurd m
In-date_set d (x ∷ xs) m = elim (Bool-cases (any (date_eq x) (date_set xs))) [
  | inl e ↦ inr (In-date_set d xs (rw e at m))
  | inr e ↦
      let m' : (d ≡ x) ⊎ In d (date_set xs) = rw e at m in
      elim m' [ inl q ↦ inl q | inr n ↦ inr (In-date_set d xs n) ]
]

-- The date has the day of billing, or is the last of a shorter month.
abbrev pub HasDay : ℕ → Date → Type 0
HasDay billing_day d = d.day ≡ min billing_day (days_in_month d.year d.month)

previous-HasDay :
    (billing_day : ℕ) (today : Date) → HasDay billing_day (previous_billing_date today billing_day)
unfolding previous_billing_date date_for_billing_day
previous-HasDay billing_day today = elim (Bool-cases (today.month == 1)) [
  | inl e ↦ rw e refl
  | inr e ↦ rw e refl
]

next-HasDay :
    (billing_day : ℕ) (today : Date) → HasDay billing_day (next_billing_date today billing_day)
unfolding next_billing_date date_for_billing_day
next-HasDay billing_day today =
    elim (Bool-cases (date_leb today (date_for_billing_day today.year today.month billing_day))) [
      | inl e ↦ rw e refl
      | inr e ↦ elim (Bool-cases (today.month == 12)) [
        | inl last ↦ rw (e, last) refl
        | inr last ↦ rw (e, last) refl
      ]
    ]

around-HasDay :
    (billing_day : ℕ) (today d : Date)
    → In d (dates_around billing_day today)
    → HasDay billing_day d
unfolding dates_around date_for_billing_day
around-HasDay billing_day today d m =
    let current = date_for_billing_day today.year today.month billing_day in
    let ds =
      previous_billing_date today billing_day
      ∷ current
      ∷ next_billing_date today billing_day
      ∷ [] in
    elim (In-date_set d ds m) [
      | inl q ↦ rw q (previous-HasDay billing_day today)
      | inr (inl q) ↦ rw q refl
      | inr (inr (inl q)) ↦ rw q (next-HasDay billing_day today)
      | inr (inr (inr n)) ↦ absurd n
    ]

-- An invoice of an apartment for a month.
abbrev pub IsInvoiceOf : List Invoice → ℕ → Date → Invoice → Type 0
IsInvoiceOf invoices apartment_id period i =
    In i invoices × (i.apartment_id ≡ apartment_id) × (i.period ≡ period)

invoice_at-IsInvoiceOf :
    (invoices : List Invoice) (apartment_id : ℕ) (period : Date) (i : Invoice)
    → invoice_at invoices apartment_id period ≡ some i
    → IsInvoiceOf invoices apartment_id period i
unfolding invoice_at
invoice_at-IsInvoiceOf [] id p i h = cc
invoice_at-IsInvoiceOf (x ∷ xs) id p i h = elim (Option-cases (invoice_at xs id p)) [
  | inr (y, e) ↦
      let (m, a, b) = invoice_at-IsInvoiceOf xs id p i (e ∙ rw (e, invoice_at) at h) in
      (inr m, a, b)
  | inl e ↦ elim (Bool-cases (x.apartment_id == id && date_eq x.period p)) [
    | inl t ↦
        let q : some x ≡ some i = rw (e, invoice_at, t) at h in
        let x≡i : x ≡ i = cc in
        let (a, b) = and-true _ _ t in
        rw (← x≡i) (inl refl, (==_iff x.apartment_id id).0 a, date_eq→eq x.period p b)
    | inr t ↦ let q : ◌≡◌ {A = Option Invoice} none (some i) = rw (e, invoice_at, t) at h in cc
  ]
]

invoice_at-none :
    (invoices : List Invoice) (apartment_id : ℕ) (period : Date) (i : Invoice)
    → invoice_at invoices apartment_id period ≡ none
    → IsInvoiceOf invoices apartment_id period i
    → ⊥
unfolding invoice_at
invoice_at-none [] id p i h (m, _, _) = m
invoice_at-none (x ∷ xs) id p i h (m, a, b) = elim (Option-cases (invoice_at xs id p)) [
  | inr (y, e) ↦ let q : some y ≡ none = rw (e, invoice_at) at h in cc
  | inl e ↦ elim m [
    | inr n ↦ invoice_at-none xs id p i e (n, a, b)
    | inl q ↦
        let a' : (x.apartment_id == id) ≡ true =
          eq→== _ _ (ap (λ (j : Invoice). j.apartment_id) (sym q) ∙ a) in
        let b' : date_eq x.period p ≡ true =
          rw (ap (λ (j : Invoice). j.period) (sym q) ∙ b) (date_eq_refl p) in
        let bad : some x ≡ none = rw (e, invoice_at, a', b') at h in cc
  ]
]

-- Whether the month is invoiced.
abbrev pub Tells : List Invoice → ℕ → Date → Bool → Type 0
Tells invoices apartment_id period true = (i : Invoice) × IsInvoiceOf invoices apartment_id period i
Tells invoices apartment_id period false =
    (i : Invoice) → IsInvoiceOf invoices apartment_id period i → ⊥

invoice_at-Tells :
    (invoices : List Invoice) (apartment_id : ℕ) (period : Date)
    → Tells invoices apartment_id period (is_some (invoice_at invoices apartment_id period))
invoice_at-Tells invoices id p = elim (Option-cases (invoice_at invoices id p)) [
  | inl e ↦ rw e (λ i. invoice_at-none invoices id p i e)
  | inr (i, e) ↦ rw e (i, invoice_at-IsInvoiceOf invoices id p i e)
]

-- The day is before the contract's end, if it has one, by some measure of the end.
abbrev pub EndsAfter : Option Date → (Date → Date) → Date → Type 0
EndsAfter none by d = Unit {0}
EndsAfter (some last) by d = date_leb d (by last) ≡ true

ends-EndsAfter :
    (end : Option Date) (d : Date) → ends_by end d ≡ true → EndsAfter end (λ last. last) d
ends-EndsAfter none d h = tt
ends-EndsAfter (some last) d h = h

starts-EndsAfter :
    (end : Option Date) (d : Date)
    → starts_by d (elim end [ none ↦ none | some e ↦ some (month_start e) ]) ≡ true
    → EndsAfter end month_start d
starts-EndsAfter none d h = tt
starts-EndsAfter (some last) d h = h

-- What an entry says is so in the database.
pub record IsCandidate (db : Db) (today : Date) (e : BillingScheduleEntry) : Type 0 where
  pub apartment : In e.apartment db.apartments
  pub tenant : In e.tenant db.tenants
  pub rents : e.tenant.apartment_id ≡ e.apartment.id
  pub active : e.apartment.is_active ≡ true
  pub begun : date_leb e.tenant.contract_start today ≡ true
  pub running : EndsAfter e.tenant.contract_end (λ last. last) (period_for_billing_date today)
  pub day : HasDay (billing_day_of e.tenant) e.billing_date
  pub period : e.period ≡ period_for_billing_date e.billing_date
  pub from : date_leb (month_start e.tenant.contract_start) e.period ≡ true
  pub until : EndsAfter e.tenant.contract_end month_start e.period
  pub exists : Tells db.invoices e.apartment.id e.period e.invoice_exists
  pub overdue : e.is_overdue ≡ (date_ltb e.billing_date today && not e.invoice_exists)

pub candidates-IsCandidate :
    (db : Db) (today : Date) (e : BillingScheduleEntry) (es : List BillingScheduleEntry)
    → In es (compute_billing_schedule_candidates db today)
    → In e es
    → IsCandidate db today e
unfolding compute_billing_schedule_candidates row_entries entry billing_dates
candidates-IsCandidate db today e es m me =
    let ((a, t), mr, q) = In-map (row_entries db.invoices today) es _ m in
    let sorted = In-first_rows (a, t) [] _ mr in
    let found = (In-sort_by _ (a, t) _).0 sorted in
    let (joined, billable) =
      In-filter (is_billable today) (a, t) (pairs db.apartments db.tenants) found in
    let (ma, mt) = In-pairs a t db.apartments db.tenants joined in
    let (d, md, p) =
      In-map (entry db.invoices today a t) e (billing_dates t (billing_day_of t) today)
        (rw q at me) in
    let within = In-filter (in_contract t) d (dates_around (billing_day_of t) today) (
      (In-sort_by date_leb d (filter (in_contract t) (dates_around (billing_day_of t) today))).0
        md) in
    let (rents, others) = and-true _ _ billable in
    let (active, dates) = and-true _ _ others in
    let (begun, running) = and-true _ _ dates in
    let (from, until) = and-true _ _ within.1 in
    rw p (record {
      apartment = ma;
      tenant = mt;
      rents = (==_iff t.apartment_id a.id).0 rents;
      active = active;
      begun = begun;
      running = ends-EndsAfter t.contract_end _ running;
      day = around-HasDay (billing_day_of t) today d within.0;
      period = refl;
      from = from;
      until = starts-EndsAfter t.contract_end _ until;
      exists = invoice_at-Tells db.invoices a.id _;
      overdue = refl;
    })
