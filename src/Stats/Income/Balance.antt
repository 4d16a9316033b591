-- ===== src/Stats/Income/Balance.antt =====
-- The totals of the report on income of backend/app/routers/stats.py against its invoices.
use home_trap.Prelude.{
  ℕ, ◌≡◌, refl, sym, ap, ◌∙◌, inl, inr, Bool, true, false, Option, List, [], ◌∷◌, map, text_eq,
  filter, All, All-filter, In→All, All→In, Bool-cases, if◌then◌else◌,
}
use home_trap.Prelude.Int.{ℤ, pos, ◌+ℤ◌, sum, int_laws, zero-+ℤ}
use home_trap.Calendar.{Date, date_eq}
use home_trap.Models.{InvoiceLine, Invoice, Db}
use home_trap.Billing.Recalculate.{is_adjustment}
use home_trap.Billing.Recalculate.Totals.{IsSettled, utilities_of}
use home_trap.Prelude.Sort.{In-sort_by}
use home_trap.Stats.{listed, invoice_leb}
use home_trap.Stats.Tally.{amounts, amounts-add_at}
use home_trap.Stats.Pnl.{is_income}
use home_trap.Stats.Income.{
  IncomePoint, IncomeTotals, ServiceSums, new_point, add_to_point, add_invoice, add_invoices,
  no_totals, add_totals, no_services, add_line, add_lines, add_services, income_report,
}

abbrev values_of : (Invoice → ℤ) → List Invoice → ℤ
values_of g is = sum (map g is)

-- One of the four amounts of a point, and where it comes from.
module _ (f : IncomePoint → ℤ) (g : Invoice → ℤ) (fresh : (d : Date) → f (new_point d) ≡ pos 0)
    (grows : (i : Invoice) (p : IncomePoint) → f (add_to_point i p) ≡ f p +ℤ g i) where
  point-add_invoice :
      (i : Invoice) (ps : List IncomePoint) → sum (map f (add_invoice i ps)) ≡ sum (map f ps) +ℤ g i
  unfolding add_invoice
  point-add_invoice i [] =
      let a = grows i (new_point i.period) in let b = fresh i.period in rw (a, b) (omega int_laws)
  point-add_invoice i (p ∷ ps) =
      let ih = point-add_invoice i ps in
      elim (Bool-cases (date_eq p.period i.period)) [
        | inl e ↦ rw e (rw (grows i p) (omega int_laws))
        | inr e ↦ rw (e, ih) (omega int_laws)
      ]

  point-add_invoices :
      (is : List Invoice) (ps : List IncomePoint)
      → sum (map f (add_invoices is ps)) ≡ sum (map f ps) +ℤ values_of g is
  unfolding add_invoices
  point-add_invoices [] ps = omega int_laws
  point-add_invoices (i ∷ is) ps =
      point-add_invoices is (add_invoice i ps) ∙ rw (point-add_invoice i ps) (omega int_laws)

-- The totals after the loop.
abbrev Totalled : List Invoice → IncomeTotals → IncomeTotals → Type 0
Totalled is t r =
    (r.rent ≡ t.rent +ℤ values_of (λ i. i.rent_amount_uah) is)
    × (r.utilities ≡ t.utilities +ℤ values_of (λ i. i.utilities_total) is)
    × (r.adjustments ≡ t.adjustments +ℤ values_of (λ i. i.adjustments_total) is)
    × (r.total ≡ t.total +ℤ values_of (λ i. i.grand_total) is)

add_totals-Totalled : (is : List Invoice) (t : IncomeTotals) → Totalled is t (add_totals is t)
unfolding add_totals
add_totals-Totalled [] t = (omega int_laws, omega int_laws, omega int_laws, omega int_laws)
add_totals-Totalled (i ∷ is) t =
    let (a, b, c, d) = add_totals-Totalled is _ in
    (a ∙ omega int_laws, b ∙ omega int_laws, c ∙ omega int_laws, d ∙ omega int_laws)

one_line :
    (d : Date) (l : InvoiceLine) (ls : List InvoiceLine) (s : ServiceSums) (b : Bool)
    → is_adjustment l ≡ b
    → add_lines d (l ∷ ls) s ≡ add_lines d ls (if b then s else add_line d l s)
unfolding add_lines
one_line d l ls s b e = ap (λ c. add_lines d ls (if c then s else add_line d l s)) e

no_lines :
    (d : Date) (s : ServiceSums)
    → sum (amounts (add_lines d [] s).totals) ≡ sum (amounts s.totals) +ℤ pos 0
unfolding add_lines
no_lines d s = omega int_laws

services-add_lines :
    (d : Date) (ls : List InvoiceLine) (s : ServiceSums)
    → sum (amounts (add_lines d ls s).totals) ≡ sum (amounts s.totals) +ℤ utilities_of ls
services-add_lines d [] s = no_lines d s
services-add_lines d (l ∷ ls) s = elim (Bool-cases (is_adjustment l)) [
  | inl e ↦ rw (one_line d l ls s true e, e) (services-add_lines d ls s ∙ omega int_laws)
  | inr e ↦
      rw (one_line d l ls s false e, e)
        (services-add_lines d ls (add_line d l s)
          ∙ rw (amounts-add_at text_eq l.service_name l.amount s.totals) (omega int_laws))
]

services-add_services :
    (is : List Invoice) (s : ServiceSums)
    → All IsSettled is
    → sum (amounts (add_services is s).totals)
      ≡ sum (amounts s.totals) +ℤ values_of (λ i. i.utilities_total) is
unfolding add_services
services-add_services [] s h = omega int_laws
services-add_services (i ∷ is) s (h, hs) =
    services-add_services is (add_lines i.period i.lines s) hs
    ∙ rw (services-add_lines i.period i.lines s, h.utilities) (omega int_laws)

grand_total_split :
    (is : List Invoice)
    → All IsSettled is
    → values_of (λ i. i.grand_total) is
      ≡ values_of (λ i. i.rent_amount_uah) is
        +ℤ values_of (λ i. i.utilities_total) is
        +ℤ values_of (λ i. i.adjustments_total) is
grand_total_split [] h = omega int_laws
grand_total_split (i ∷ is) (h, hs) =
    let g = h.grand in rw (g, grand_total_split is hs) (omega int_laws)

reported-IsSettled :
    (db : Db) (p : Invoice → Bool)
    → All IsSettled db.invoices
    → All IsSettled (filter p (listed db))
unfolding listed
reported-IsSettled db p h = All-filter IsSettled p _ (
    In→All IsSettled _
      (λ i m. All→In IsSettled db.invoices h i ((In-sort_by invoice_leb i db.invoices).0 m)))

-- In the report on income of any scope and period, where the totals of every stored invoice fit its lines:
-- the four amounts of the months sum to the four totals; these are the sums over the invoices; the
-- total is rent, utilities and adjustments together; and the amounts of the services sum to the
-- utilities.
pub income_report-balance :
    (share : ℤ → ℤ → ℤ) (db : Db) (today : Date) (apartment_id : Option ℕ)
    (period_start : Option Date) (period_end : Date)
    → All IsSettled db.invoices
    → let is = filter (is_income today apartment_id period_start period_end) (listed db) in
      let r = income_report share db today apartment_id period_start period_end in
      (sum (map (λ (p : IncomePoint). p.rent) r.values) ≡ r.totals.rent)
      × (sum (map (λ (p : IncomePoint). p.utilities) r.values) ≡ r.totals.utilities)
      × (sum (map (λ (p : IncomePoint). p.adjustments) r.values) ≡ r.totals.adjustments)
      × (sum (map (λ (p : IncomePoint). p.total) r.values) ≡ r.totals.total)
      × (r.totals.rent ≡ sum (map (λ (i : Invoice). i.rent_amount_uah) is))
      × (r.totals.utilities ≡ sum (map (λ (i : Invoice). i.utilities_total) is))
      × (r.totals.adjustments ≡ sum (map (λ (i : Invoice). i.adjustments_total) is))
      × (r.totals.total ≡ sum (map (λ (i : Invoice). i.grand_total) is))
      × (r.totals.total ≡ r.totals.rent +ℤ r.totals.utilities +ℤ r.totals.adjustments)
      × (sum (amounts (add_services is no_services).totals) ≡ r.totals.utilities)
unfolding income_report
income_report-balance share db today apartment_id period_start period_end settled =
    let is = filter (is_income today apartment_id period_start period_end) (listed db) in
    let h : All IsSettled is = reported-IsSettled db _ settled in
    let (a, b, c, d) = add_totals-Totalled is no_totals in
    (
      point-add_invoices (λ p. p.rent) (λ i. i.rent_amount_uah) (λ x. refl) (λ i p. refl) is []
          ∙ sym a,
      point-add_invoices (λ p. p.utilities) (λ i. i.utilities_total) (λ x. refl) (λ i p. refl) is []
          ∙ sym b,
      point-add_invoices (λ p. p.adjustments) (λ i. i.adjustments_total) (λ x. refl) (λ i p. refl)
            is []
          ∙ sym c,
      point-add_invoices (λ p. p.total) (λ i. i.grand_total) (λ x. refl) (λ i p. refl) is []
          ∙ sym d,
      a ∙ zero-+ℤ _,
      b ∙ zero-+ℤ _,
      c ∙ zero-+ℤ _,
      d ∙ zero-+ℤ _,
      rw (a, b, c, d) (rw (grand_total_split is h) (omega int_laws)),
      services-add_services is no_services h ∙ sym b,
    )
