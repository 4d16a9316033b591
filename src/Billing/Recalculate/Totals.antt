-- ===== src/Billing/Recalculate/Totals.antt =====
-- The totals of a recalculated invoice.
use home_trap.Prelude.{
  ◌≡◌, refl, ap, ◌∙◌, true, Option, none, some, List, [], ◌∷◌, map, arith, inl, inr, Bool-cases,
  if◌then◌else◌,
}
use home_trap.Prelude.Int.{ℤ, pos, ◌+ℤ◌, ◌-ℤ◌, ◌*ℤ◌, int_laws, zero-+ℤ}
use home_trap.Money.{money}
use home_trap.Money.Rounding.{money_exact}
use home_trap.Models.{InvoiceLineKind, InvoiceLine, Invoice}
use home_trap.Billing.Recalculate.{is_adjustment, refresh_line, recalculate_lines, recalculate}

-- The amounts of the lines that are, or are not, adjustments.
abbrev pub adjustments_of : List InvoiceLine → ℤ
adjustments_of [] = pos 0
adjustments_of (l ∷ ls) = (if is_adjustment l then l.amount else pos 0) +ℤ adjustments_of ls

abbrev pub utilities_of : List InvoiceLine → ℤ
utilities_of [] = pos 0
utilities_of (l ∷ ls) = (if is_adjustment l then pos 0 else l.amount) +ℤ utilities_of ls

-- A metered line with both readings costs its consumption at its tariff, one without costs nothing;
-- a line of another kind has the amount that was entered.
abbrev pub PriceOf : InvoiceLine → InvoiceLineKind → Option ℤ → Option ℤ → InvoiceLine → Type 0
PriceOf l InvoiceLineKind.metered (some prev) (some curr) l' =
    (l'.consumed ≡ some (curr -ℤ prev)) × (l'.amount ≡ money 8 ((curr -ℤ prev) *ℤ l.tariff_value))
PriceOf l InvoiceLineKind.metered _ _ l' = (l'.consumed ≡ none) × (l'.amount ≡ pos 0)
PriceOf l _ _ _ l' = l' ≡ l

abbrev pub Priced : InvoiceLine → InvoiceLine → Type 0
Priced l l' = PriceOf l l.service_kind l.prev_reading l.curr_reading l'

-- The lines of two lists correspond, one to one and in order.
abbrev pub Forall₂ :
    (InvoiceLine → InvoiceLine → Type 0) → List InvoiceLine → List InvoiceLine → Type 0
Forall₂ R [] [] = Unit
Forall₂ R [] (y ∷ ys) = ⊥
Forall₂ R (x ∷ xs) [] = ⊥
Forall₂ R (x ∷ xs) (y ∷ ys) = R x y × Forall₂ R xs ys

pub refresh_line-Priced : (l : InvoiceLine) → Priced l (refresh_line l)
unfolding refresh_line
refresh_line-Priced l = ground arith

map-refresh_line-Priced : (ls : List InvoiceLine) → Forall₂ Priced ls (map refresh_line ls)
map-refresh_line-Priced [] = tt
map-refresh_line-Priced (l ∷ ls) = (refresh_line-Priced l, map-refresh_line-Priced ls)

is_adjustment-refresh_line : (l : InvoiceLine) → is_adjustment (refresh_line l) ≡ is_adjustment l
unfolding refresh_line
is_adjustment-refresh_line l = ground arith

amount-refresh_line :
    (l : InvoiceLine) → is_adjustment l ≡ true → (refresh_line l).amount ≡ l.amount
unfolding refresh_line
amount-refresh_line l h = ground arith

step_utilities :
    (l : InvoiceLine) (u s : ℤ)
    → (if is_adjustment l then u else u +ℤ (refresh_line l).amount) +ℤ s
      ≡ u +ℤ ((if is_adjustment (refresh_line l) then pos 0 else (refresh_line l).amount) +ℤ s)
step_utilities l u s = elim (Bool-cases (is_adjustment l)) [
  | inl e ↦ rw (is_adjustment-refresh_line l, e) (omega int_laws)
  | inr e ↦ rw (is_adjustment-refresh_line l, e) (omega int_laws)
]

step_adjustments :
    (l : InvoiceLine) (a s : ℤ)
    → (if is_adjustment l then a +ℤ l.amount else a) +ℤ s
      ≡ a +ℤ ((if is_adjustment (refresh_line l) then (refresh_line l).amount else pos 0) +ℤ s)
step_adjustments l a s = elim (Bool-cases (is_adjustment l)) [
  | inl e ↦ rw (is_adjustment-refresh_line l, e, amount-refresh_line l e) (omega int_laws)
  | inr e ↦ rw (is_adjustment-refresh_line l, e) (omega int_laws)
]

-- The loop computes the refreshed lines and the two sums over them.
recalculate_lines-eq :
    (ls : List InvoiceLine) (u a : ℤ)
    → (recalculate_lines ls u a).0 ≡ map refresh_line ls
      × ((recalculate_lines ls u a).1 ≡ u +ℤ utilities_of (map refresh_line ls))
      × ((recalculate_lines ls u a).2 ≡ a +ℤ adjustments_of (map refresh_line ls))
unfolding recalculate_lines
recalculate_lines-eq [] u a = (refl, omega int_laws, omega int_laws)
recalculate_lines-eq (l ∷ ls) u a =
    let rest =
      recalculate_lines-eq ls (if is_adjustment l then u else u +ℤ (refresh_line l).amount)
        (if is_adjustment l then a +ℤ l.amount else a) in
    (
      ap (λ (t : List InvoiceLine). refresh_line l ∷ t) rest.0,
      rest.1 ∙ step_utilities l u _,
      rest.2 ∙ step_adjustments l a _,
    )

pub lines-recalculate : (i : Invoice) → (recalculate i).lines ≡ map refresh_line i.lines
unfolding recalculate
lines-recalculate i = (recalculate_lines-eq i.lines (pos 0) (pos 0)).0

-- The totals of an invoice agree with its lines.
pub record IsSettled (i : Invoice) : Type 0 where
  pub rent : i.rent_amount_uah ≡ money 8 (i.rent_amount_usd *ℤ i.exchange_rate)
  pub utilities : i.utilities_total ≡ utilities_of i.lines
  pub adjustments : i.adjustments_total ≡ adjustments_of i.lines
  pub grand : i.grand_total ≡ i.rent_amount_uah +ℤ i.utilities_total +ℤ i.adjustments_total

-- After `recalculate` each line is priced by its readings and tariff, and the totals of the invoice
-- are the rent at its exchange rate, the sums over its lines, and their sum.
pub recalculate-IsSettled :
    (i : Invoice) → Forall₂ Priced i.lines (recalculate i).lines × IsSettled (recalculate i)
unfolding recalculate
recalculate-IsSettled i =
    let loop = recalculate_lines-eq i.lines (pos 0) (pos 0) in
    (
      rw loop.0 (map-refresh_line-Priced i.lines),
      record {
        rent = refl;
        utilities = rw (money_exact, loop.0, loop.1) (zero-+ℤ _);
        adjustments = rw (money_exact, loop.0, loop.2) (zero-+ℤ _);
        grand = money_exact _;
      },
    )

refresh_line_idem : (l : InvoiceLine) → refresh_line (refresh_line l) ≡ refresh_line l
unfolding refresh_line
refresh_line_idem l = ground arith

map-refresh_line_idem :
    (ls : List InvoiceLine) → map refresh_line (map refresh_line ls) ≡ map refresh_line ls
map-refresh_line_idem [] = refl
map-refresh_line_idem (l ∷ ls) = cc (refresh_line_idem l, map-refresh_line_idem ls)

-- The totals as a function of the refreshed lines.
abbrev with_lines : Invoice → List InvoiceLine → Invoice
with_lines i ls =
    let rent = money 8 (i.rent_amount_usd *ℤ i.exchange_rate) in
    record i {
      lines = ls;
      rent_amount_uah = rent;
      utilities_total = utilities_of ls;
      adjustments_total = adjustments_of ls;
      grand_total = rent +ℤ utilities_of ls +ℤ adjustments_of ls;
    }

recalculate-with_lines : (i : Invoice) → recalculate i ≡ with_lines i (map refresh_line i.lines)
unfolding recalculate
recalculate-with_lines i =
    let loop = recalculate_lines-eq i.lines (pos 0) (pos 0) in
    rw (loop.0, loop.1, loop.2) (simp (money_exact, zero-+ℤ))

-- A second `recalculate` changes nothing.
pub recalculate_idem : (i : Invoice) → recalculate (recalculate i) ≡ recalculate i
recalculate_idem i = rw (recalculate-with_lines i) (
    recalculate-with_lines (with_lines i (map refresh_line i.lines))
    ∙ ap (with_lines i) (map-refresh_line_idem i.lines))
