-- ===== src/Billing/Draft/Readings.antt =====
-- Which reading `_previous_readings` finds for a service.
use mathlib.Core.Bool.{false≢true}
use home_trap.Prelude.{
  ℕ, ◌≡◌, refl, sym, ap, ◌∙◌, inl, inr, Bool, true, ◌&&◌, Option, none, some, List, [], ◌∷◌, arith,
  ◌==◌, ==_iff, eq→==, opt_eq, is_some, In, In-append, find?, Bool-cases, and-true,
}
use home_trap.Prelude.Int.{ℤ}
use home_trap.Prelude.Sort.{sort_by, IsTotalOrder, Selected, find?-sort_by-Selected}
use home_trap.Calendar.{Date, date_ltb, date_leb}
use home_trap.Models.{Invoice, InvoiceLine, Db}
use home_trap.Billing.Draft.Dict.{for_service, current_of, opt_eq→eq, get-collect}
use home_trap.Billing.Draft.{
  Reading, line_reading, line_readings, reading_rows, later_reading, get, previous_readings,
}

line_of_reading :
    (period : Date) (r : Reading) (l : InvoiceLine) (o : Option ℤ)
    → l.curr_reading ≡ o
    → In r (line_reading period l o)
    → (r.period ≡ period)
      × (r.line_id ≡ l.id)
      × (r.service_id ≡ l.service_id)
      × (l.curr_reading ≡ some r.current)
line_of_reading period r l none e m = absurd m
line_of_reading period r l (some v) e (inl q) = rw q (refl, refl, refl, e)
line_of_reading period r l (some v) e (inr m) = absurd m

In-line_readings :
    (period : Date) (r : Reading) (ls : List InvoiceLine)
    → In r (line_readings period ls)
    → (l : InvoiceLine) × In l ls
      × (r.period ≡ period)
      × (r.line_id ≡ l.id)
      × (r.service_id ≡ l.service_id)
      × (l.curr_reading ≡ some r.current)
In-line_readings period r [] m = absurd m
In-line_readings period r (l ∷ ls) m =
    elim ((In-append r (line_reading period l l.curr_reading) (line_readings period ls)).0 m) [
      | inl a ↦
          let (p, i, s, c) = line_of_reading period r l l.curr_reading refl a in
          (l, inl refl, p, i, s, c)
      | inr b ↦ let (k, mk, p, i, s, c) = In-line_readings period r ls b in (k, inr mk, p, i, s, c)
    ]

line_readings-In :
    (period : Date) (l : InvoiceLine) (v : ℤ) (ls : List InvoiceLine)
    → In l ls
    → l.curr_reading ≡ some v
    → In
        (record { period = period; line_id = l.id; service_id = l.service_id; current = v })
        (line_readings period ls)
line_readings-In period l v [] m e = absurd m
line_readings-In period l v (k ∷ ls) (inl q) e =
    (In-append _ (line_reading period k k.curr_reading) (line_readings period ls)).1
      (inl (rw (← q, e) (inl refl)))
line_readings-In period l v (k ∷ ls) (inr m) e =
    (In-append _ (line_reading period k k.curr_reading) (line_readings period ls)).1
      (inr (line_readings-In period l v ls m e))

abbrev is_before : ℕ → Date → Invoice → Bool
is_before apartment_id period i = i.apartment_id == apartment_id && date_ltb i.period period

-- Where a row comes from, and which lines give one.
In-reading_rows :
    (apartment_id : ℕ) (period : Date) (r : Reading) (is : List Invoice)
    → In r (reading_rows apartment_id period is)
    → (i : Invoice) × In i is
      × (is_before apartment_id period i ≡ true)
      × In r (line_readings i.period i.lines)
In-reading_rows apartment_id period r [] m = absurd m
In-reading_rows apartment_id period r (i ∷ is) m =
    elim (Bool-cases (is_before apartment_id period i)) [
      | inl t ↦ elim ((In-append r (line_readings i.period i.lines) _).0 (rw t at m)) [
        | inl a ↦ (i, inl refl, t, a)
        | inr b ↦
            let (j, mj, h, n) = In-reading_rows apartment_id period r is b in (j, inr mj, h, n)
      ]
      | inr f ↦
          let (j, mj, h, n) = In-reading_rows apartment_id period r is (rw f at m) in
          (j, inr mj, h, n)
    ]

reading_rows-In :
    (apartment_id : ℕ) (period : Date) (r : Reading) (i : Invoice) (is : List Invoice)
    → In i is
    → is_before apartment_id period i ≡ true
    → In r (line_readings i.period i.lines)
    → In r (reading_rows apartment_id period is)
reading_rows-In apartment_id period r i [] m t n = absurd m
reading_rows-In apartment_id period r i (j ∷ is) (inl q) t n =
    let t' : is_before apartment_id period j ≡ true = rw q at t in
    rw t' ((In-append r (line_readings j.period j.lines) _).1 (inl (rw q at n)))
reading_rows-In apartment_id period r i (j ∷ is) (inr m) t n =
    let rest = reading_rows-In apartment_id period r i is m t n in
    elim (Bool-cases (is_before apartment_id period j)) [
      | inl e ↦ rw e ((In-append r (line_readings j.period j.lines) _).1 (inr rest))
      | inr e ↦ rw e rest
    ]

later_reading-IsTotalOrder : IsTotalOrder later_reading
later_reading-IsTotalOrder = record {
  total = λ a b. ground arith;
  trans = λ a b c h k. ground arith;
}

later_reading→leb : (a b : Reading) → later_reading a b ≡ true → date_leb b.period a.period ≡ true
later_reading→leb a b h = ground arith

-- A reading of the service that was entered in an earlier invoice of the apartment.
abbrev pub EarlierReading : Db → ℕ → Date → ℕ → Invoice → InvoiceLine → Type 0
EarlierReading db apartment_id period service_id i l =
    In i db.invoices
    × In l i.lines
    × (i.apartment_id ≡ apartment_id)
    × (date_ltb i.period period ≡ true)
    × (l.service_id ≡ some service_id)

-- The previous reading: that of the latest earlier invoice with a reading for the service, and
-- `none` only where there is none.
abbrev pub LatestReading : Db → ℕ → Date → ℕ → Option ℤ → Type 0
LatestReading db apartment_id period service_id none =
    (i : Invoice) (l : InvoiceLine)
    → EarlierReading db apartment_id period service_id i l
    → l.curr_reading ≡ none
LatestReading db apartment_id period service_id (some v) =
    (i : Invoice) × (l : InvoiceLine) × EarlierReading db apartment_id period service_id i l
    × (l.curr_reading ≡ some v)
    × ((j : Invoice) (k : InvoiceLine)
        → EarlierReading db apartment_id period service_id j k
        → is_some k.curr_reading ≡ true
        → date_leb j.period i.period ≡ true)

module _ (db : Db) (apartment_id : ℕ) (period : Date) (service_id : ℕ) where
  abbrev rows : List Reading
  rows = reading_rows apartment_id period db.invoices

  abbrev row : Invoice → InvoiceLine → ℤ → Reading
  row j k v = record { period = j.period; line_id = k.id; service_id = k.service_id; current = v }

  -- The row of a line with a reading.
  row_of :
      (j : Invoice) (k : InvoiceLine) (v : ℤ)
      → EarlierReading db apartment_id period service_id j k
      → k.curr_reading ≡ some v
      → In
          (record { period = j.period; line_id = k.id; service_id = k.service_id; current = v })
          rows
  row_of j k v (mj, mk, a, b, s) e =
      reading_rows-In apartment_id period _ j db.invoices mj
        (rw (a, b) (rw (eq→== apartment_id apartment_id refl)))
        (line_readings-In j.period k v j.lines mk e)

  opt_eq-some : (a : Option ℕ) → a ≡ some service_id → opt_eq a (some service_id) ≡ true
  opt_eq-some a e = rw e (eq→== service_id service_id refl)

  no_reading :
      (k : InvoiceLine) (o : Option ℤ)
      → k.curr_reading ≡ o
      → ((v : ℤ) → k.curr_reading ≡ some v → ⊥)
      → k.curr_reading ≡ none
  no_reading k none e h = e
  no_reading k (some v) e h = absurd (h v e)

  found_reading :
      (o : Option Reading)
      → Selected later_reading (for_service (some service_id)) rows o
      → LatestReading db apartment_id period service_id (current_of o)
  found_reading none h = λ j k e.
      no_reading k k.curr_reading refl
        λ v ev. false≢true (sym (h _ (row_of j k v e ev)) ∙ opt_eq-some k.service_id e.4)
  found_reading (some r) (m, t, least) =
      let (i, mi, b, n) = In-reading_rows apartment_id period r db.invoices m in
      let (l, ml, p, d, s, c) = In-line_readings i.period r i.lines n in
      let (same, before) = and-true _ _ b in
      (
        i,
        l,
        (mi, ml, (==_iff i.apartment_id apartment_id).0 same, before, sym s ∙ opt_eq→eq _ _ t),
        c,
        λ j k e some_v. latest i r j k e k.curr_reading refl some_v p least,
      )
    where
      latest :
          (i : Invoice) (r : Reading) (j : Invoice) (k : InvoiceLine)
          → EarlierReading db apartment_id period service_id j k
          → (o : Option ℤ) → k.curr_reading ≡ o
          → is_some k.curr_reading ≡ true
          → r.period ≡ i.period
          → ((q : Reading)
              → In q rows
              → for_service (some service_id) q ≡ true
              → later_reading r q ≡ true)
          → date_leb j.period i.period ≡ true
      latest i r j k e none ek h p least = absurd (false≢true (sym (ap is_some ek) ∙ h))
      latest i r j k e (some v) ek h p least =
          let later = least (row j k v) (row_of j k v e ek) (opt_eq-some k.service_id e.4) in
          rw p at (later_reading→leb r (row j k v) later)

  -- The reading that a new draft starts from is the one of the latest earlier invoice of the
  -- apartment in which the service has a reading; there is none only if no earlier one has any.
  pub previous_readings-LatestReading :
      LatestReading db apartment_id period service_id
        (get (previous_readings db apartment_id period) (some service_id))
  unfolding previous_readings get
  previous_readings-LatestReading =
      rw (get-collect [] (sort_by later_reading rows) (some service_id)) (
        found_reading (find? (for_service (some service_id)) (sort_by later_reading rows)) (
          find?-sort_by-Selected later_reading later_reading-IsTotalOrder
            (for_service (some service_id)) rows))
