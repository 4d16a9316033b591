-- ===== src/Stats/Dashboard.antt =====
-- The sums and the list of the dashboard of backend/app/routers/stats.py.
use home_trap.Prelude.{◌≡◌, refl, ap, true, ◌&&◌, List, [], ◌∷◌, Bool-cases, inl, inr}
use home_trap.Prelude.Int.{ℤ, pos, ◌+ℤ◌, int_laws}
use home_trap.Calendar.{Date, date_leb, date_eq, month_start}
use home_trap.Models.{InvoiceStatus, Invoice, Db}
use home_trap.Stats.{
  listed, is_charged, is_paid, is_unpaid, of_period, total_where, Reason, Attention,
  needs_attention, dashboard_stats,
}

abbrev IsSplit : Date → List Invoice → Type 0
IsSplit d xs =
    total_where (λ i. of_period d i && is_charged i) xs
    ≡ total_where (λ i. of_period d i && is_paid i) xs
      +ℤ total_where (λ i. of_period d i && is_unpaid i) xs

step-IsSplit :
    (d : Date) (x : Invoice) (xs : List Invoice) (s : InvoiceStatus)
    → date_eq x.period d ≡ true
    → x.status ≡ s
    → IsSplit d xs
    → IsSplit d (x ∷ xs)
unfolding total_where
step-IsSplit d x xs InvoiceStatus.draft e st ih = rw (e, st) ih
step-IsSplit d x xs InvoiceStatus.issued e st ih = rw (e, st, ih) (omega int_laws)
step-IsSplit d x xs InvoiceStatus.paid e st ih = rw (e, st, ih) (omega int_laws)

charged-IsSplit : (d : Date) (xs : List Invoice) → IsSplit d xs
unfolding total_where
charged-IsSplit d [] = omega int_laws
charged-IsSplit d (x ∷ xs) =
    let ih = charged-IsSplit d xs in
    elim (Bool-cases (date_eq x.period d)) [
      | inl e ↦ step-IsSplit d x xs x.status e refl ih
      | inr e ↦ rw e ih
    ]

-- What the entries for unpaid invoices come to.
unfoldable pub unpaid_total : List Attention → ℤ
unpaid_total [] = pos 0
unpaid_total (a ∷ entries) = elim a.reason [
  | Reason.unpaid ↦ a.invoice.grand_total +ℤ unpaid_total entries
  | Reason.draft ↦ unpaid_total entries
]

attention_step :
    (d : Date) (x : Invoice) (xs : List Invoice) (s : InvoiceStatus)
    → x.status ≡ s
    → total_where is_unpaid xs ≡ unpaid_total (needs_attention d xs)
    → total_where is_unpaid (x ∷ xs) ≡ unpaid_total (needs_attention d (x ∷ xs))
unfolding total_where needs_attention unpaid_total
attention_step d x xs InvoiceStatus.draft st ih = elim (Bool-cases (date_leb x.period d)) [
  | inl e ↦ rw (st, e) ih
  | inr e ↦ rw (st, e) ih
]
attention_step d x xs InvoiceStatus.issued st ih = rw st (ap (λ t. x.grand_total +ℤ t) ih)
attention_step d x xs InvoiceStatus.paid st ih = rw st ih

attention_unpaid :
    (d : Date) (xs : List Invoice) → total_where is_unpaid xs ≡ unpaid_total (needs_attention d xs)
unfolding total_where needs_attention unpaid_total
attention_unpaid d [] = refl
attention_unpaid d (x ∷ xs) = attention_step d x xs x.status refl (attention_unpaid d xs)

-- On the dashboard, what is charged for the present month is what is paid of it and what its issued
-- invoices still owe, and what is outstanding is the sum of the entries marked unpaid.
pub dashboard_stats_balance :
    (db : Db) (today : Date)
    → let stats = dashboard_stats db today in
      (stats.charged
        ≡ stats.paid +ℤ total_where (λ i. of_period stats.period i && is_unpaid i) (listed db))
      × (stats.outstanding ≡ unpaid_total stats.attention)
unfolding dashboard_stats
dashboard_stats_balance db today = (
  charged-IsSplit (month_start today) (listed db),
  attention_unpaid (month_start today) (listed db),
)
