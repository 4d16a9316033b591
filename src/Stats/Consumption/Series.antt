-- ===== src/Stats/Consumption/Series.antt =====
-- The series of the report on consumption of backend/app/routers/stats.py against the rows of its query.
use home_trap.Prelude.{
  ℕ, ◌≡◌, refl, sym, ap, ◌∙◌, inl, inr, Bool, true, false, Option, none, some, List, [], ◌∷◌, ◌++◌,
  map, ◌==◌, ==_iff, append_nil, filter, All, In, Bool-cases, arith, if◌then◌else◌,
}
use mathlib.Core.List.{append_assoc}
use home_trap.Prelude.Int.{ℤ, ◌≤ℤ◌, ltb_ℤ}
use home_trap.Calendar.{Date}
use home_trap.Models.{Db}
use home_trap.Stats.Consumption.{
  ConsumptionPoint, ConsumptionRow, ServiceSeries, Summary, consumption_rows, add_row, collect_rows,
  lesser, greater, min_of, max_of, consumed_of, summary, consumption_report,
}

-- The values of a service among the series.
unfoldable pub values_for : ℕ → List ServiceSeries → List ConsumptionPoint
values_for id [] = []
values_for id (s ∷ series) =
    let later = values_for id series in if s.service.id == id then s.values else later

-- The values of a service among the rows.
unfoldable pub points_for : ℕ → List ConsumptionRow → List ConsumptionPoint
points_for id rows = map (λ r. r.value) (filter (λ (r : ConsumptionRow). r.service.id == id) rows)

values-add_row :
    (id : ℕ) (r : ConsumptionRow) (ss : List ServiceSeries)
    → values_for id (add_row r ss) ≡ values_for id ss ++ points_for id (r ∷ [])
unfolding values_for add_row points_for
values-add_row id r [] = elim (Bool-cases (r.service.id == id)) [
  | inl e ↦ rw e refl
  | inr e ↦ rw e refl
]
values-add_row id r (s ∷ ss) =
    let ih = values-add_row id r ss in
    elim (Bool-cases (s.service.id == r.service.id)) [
      | inl e ↦
          let q : s.service.id ≡ r.service.id = (==_iff s.service.id r.service.id).0 e in
          rw (e, q)
            (elim (Bool-cases (r.service.id == id)) [
              | inl f ↦ rw f refl
              | inr f ↦ rw f (sym (append_nil (values_for id ss)))
            ])
      | inr e ↦
          rw (e, ih)
            (elim (Bool-cases (s.service.id == id)) [
              | inl f ↦
                  let g : (r.service.id == id) ≡ false = ground arith in
                  rw (f, g) (sym (append_nil s.values))
              | inr f ↦ rw f refl
            ])
    ]

values-collect_rows :
    (id : ℕ) (rows : List ConsumptionRow) (ss : List ServiceSeries)
    → values_for id (collect_rows rows ss) ≡ values_for id ss ++ points_for id rows
unfolding collect_rows points_for
values-collect_rows id [] ss = sym (append_nil (values_for id ss))
values-collect_rows id (r ∷ rows) ss =
    values-collect_rows id rows (add_row r ss)
    ∙ rw (values-add_row id r ss) (
        append_assoc (values_for id ss) (points_for id (r ∷ [])) (points_for id rows)
        ∙ ap (λ x. values_for id ss ++ x)
            (elim (Bool-cases (r.service.id == id)) [ inl e ↦ rw e refl | inr e ↦ rw e refl ]))

-- A bound of a list of amounts.
abbrev pub IsLeast : ℤ → List ℤ → Type 0
IsLeast m xs = All (λ x. m ≤ℤ x) xs

abbrev pub IsGreatest : ℤ → List ℤ → Type 0
IsGreatest m xs = All (λ x. x ≤ℤ m) xs

lesser_le : (a b m : ℤ) → m ≤ℤ lesser a b → (m ≤ℤ a) × (m ≤ℤ b)
lesser_le a b m h = elim (Bool-cases (ltb_ℤ b a)) [
  | inl e ↦ let k : m ≤ℤ b = rw e at h in (ground arith, k)
  | inr e ↦ let k : m ≤ℤ a = rw e at h in (k, ground arith)
]

greater_ge : (a b m : ℤ) → greater a b ≤ℤ m → (a ≤ℤ m) × (b ≤ℤ m)
greater_ge a b m h = elim (Bool-cases (ltb_ℤ a b)) [
  | inl e ↦ let k : b ≤ℤ m = rw e at h in (ground arith, k)
  | inr e ↦ let k : a ≤ℤ m = rw e at h in (k, ground arith)
]

min_of-IsLeast : (a : ℤ) (bs : List ℤ) → (min_of a bs ≤ℤ a) × IsLeast (min_of a bs) bs
unfolding min_of
min_of-IsLeast a [] = (omega arith, tt)
min_of-IsLeast a (b ∷ bs) =
    let (h, hs) = min_of-IsLeast (lesser a b) bs in
    let (k, l) = lesser_le a b (min_of (lesser a b) bs) h in (k, (l, hs))

max_of-IsGreatest : (a : ℤ) (bs : List ℤ) → (a ≤ℤ max_of a bs) × IsGreatest (max_of a bs) bs
unfolding max_of
max_of-IsGreatest a [] = (omega arith, tt)
max_of-IsGreatest a (b ∷ bs) =
    let (h, hs) = max_of-IsGreatest (greater a b) bs in
    let (k, l) = greater_ge a b (max_of (greater a b) bs) h in (k, (l, hs))

-- The bound is one of the amounts.
picked :
    (a b : ℤ) (t : Bool) (m : ℤ) (bs : List ℤ)
    → In m ((if t then b else a) ∷ bs)
    → In m (a ∷ b ∷ bs)
picked a b true m bs (inl q) = inr (inl q)
picked a b false m bs (inl q) = inl q
picked a b t m bs (inr r) = inr (inr r)

min_of-In : (a : ℤ) (bs : List ℤ) → In (min_of a bs) (a ∷ bs)
unfolding min_of
min_of-In a [] = inl refl
min_of-In a (b ∷ bs) =
    picked a b (ltb_ℤ b a) (min_of (lesser a b) bs) bs (min_of-In (lesser a b) bs)

max_of-In : (a : ℤ) (bs : List ℤ) → In (max_of a bs) (a ∷ bs)
unfolding max_of
max_of-In a [] = inl refl
max_of-In a (b ∷ bs) =
    picked a b (ltb_ℤ a b) (max_of (greater a b) bs) bs (max_of-In (greater a b) bs)

-- What a summary says of the values.
abbrev pub Summarised : Option Summary → List ConsumptionPoint → Type 0
Summarised none points = points ≡ []
Summarised (some s) points =
    (In s.min (consumed_of points) × IsLeast s.min (consumed_of points))
    × (In s.max (consumed_of points) × IsGreatest s.max (consumed_of points))

summary-Summarised :
    (average : ℤ → ℕ → ℤ) (points : List ConsumptionPoint)
    → Summarised (summary average points) points
unfolding summary
summary-Summarised average [] = refl
summary-Summarised average (p ∷ points) = (
  (min_of-In p.consumed (consumed_of points), min_of-IsLeast p.consumed (consumed_of points)),
  (max_of-In p.consumed (consumed_of points), max_of-IsGreatest p.consumed (consumed_of points)),
)

summaries :
    (average : ℤ → ℕ → ℤ) (series : List ServiceSeries)
    → All
        (λ (s : ServiceSeries × Option Summary). Summarised s.1 s.0.values)
        (map (λ s. (s, summary average s.values)) series)
summaries average [] = tt
summaries average (s ∷ series) = (summary-Summarised average s.values, summaries average series)

firsts :
    (f : ServiceSeries → Option Summary) (series : List ServiceSeries)
    → map (λ (s : ServiceSeries × Option Summary). s.0) (map (λ s. (s, f s)) series) ≡ series
firsts f [] = refl
firsts f (s ∷ series) = ap (λ x. s ∷ x) (firsts f series)

-- In the report on consumption of any period, the values of each service are those of its rows in the
-- query, in the query's order, and each summary's bounds are the
-- least and the greatest consumption of its series.
pub consumption_report-values :
    (average : ℤ → ℕ → ℤ) (db : Db) (apartment_id : ℕ) (period_start : Option Date)
    (period_end : Date) (service_id : ℕ)
    → let report = consumption_report average db apartment_id period_start period_end in
      (values_for service_id (map (λ (s : ServiceSeries × Option Summary). s.0) report)
        ≡ points_for service_id (consumption_rows db apartment_id period_start period_end))
      × All (λ (s : ServiceSeries × Option Summary). Summarised s.1 s.0.values) report
unfolding consumption_report values_for points_for
consumption_report-values average db apartment_id period_start period_end service_id =
    let rows = consumption_rows db apartment_id period_start period_end in
    (
      ap (values_for service_id) (firsts (λ s. summary average s.values) (collect_rows rows []))
          ∙ values-collect_rows service_id rows [],
      summaries average (collect_rows rows []),
    )
