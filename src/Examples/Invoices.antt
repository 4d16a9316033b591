-- ===== src/Examples/Invoices.antt =====
-- The rules of the billing service on the small rental.
use home_trap.Prelude.{◌≡◌, ◌↔◌, ◌≤◌, ◌<◌, ◌*◌, ◌+◌, refl, some}
use home_trap.Prelude.Int.{negsuc, pos_part, neg_part, ◌+ℤ◌, ◌-ℤ◌, ◌*ℤ◌, abs}
use home_trap.Prelude.Result.{ok, err}
use home_trap.Money.{money}
use home_trap.Money.Rounding.{quantum, money_nearest}
use home_trap.Models.{InvoiceStatus, Invoice}
use home_trap.Billing.{cannot_transition}
use home_trap.Billing.Tariffs.{get_tariff_for_period, InForce, get_tariff_for_period-InForce}
use home_trap.Billing.Recalculate.{recalculate}
use home_trap.Billing.Update.{update_draft}
use home_trap.Billing.Recalculate.Totals.{
  Forall₂, Priced, IsSettled, recalculate-IsSettled, recalculate_idem,
}
use home_trap.Billing.Draft.{get, previous_readings, create_draft, draft_lines}
use home_trap.Billing.Draft.Readings.{LatestReading, previous_readings-LatestReading}
use home_trap.Billing.Transition.{Action, transition, transition_invoice}
use home_trap.Billing.Transition.Machine.{
  Move, Transitioned, transition-Transitioned, transition-refused,
}
use home_trap.Examples.Data.{store, february, now}
use home_trap.Examples.Billing.{edited, issued, issued-IsWellFormed}

recalculate-IsSettled_example :
    Forall₂ Priced edited.0.lines (recalculate edited.0).lines × IsSettled (recalculate edited.0)
recalculate-IsSettled_example = recalculate-IsSettled edited.0

recalculate_idem_example : recalculate (recalculate edited.0) ≡ recalculate edited.0
recalculate_idem_example = recalculate_idem edited.0

previous_readings-LatestReading_example :
    LatestReading issued.1 1 february 7 (get (previous_readings issued.1 1 february) (some 7))
previous_readings-LatestReading_example = previous_readings-LatestReading issued.1 1 february 7

get_tariff_for_period-InForce_example :
    InForce store 7 february (get_tariff_for_period store 7 february)
get_tariff_for_period-InForce_example = get_tariff_for_period-InForce store 7 february

-- The issued invoice is paid.
abbrev paid_invoice : Invoice
paid_invoice = record issued.0 { status = InvoiceStatus.paid; paid_at = some now }

was_paid : transition issued.1 now Action.mark_paid issued.0.status issued.0 ≡ ok paid_invoice
unfolding transition transition_invoice update_draft create_draft recalculate money draft_lines
    previous_readings ◌+ℤ◌ ◌*ℤ◌ ◌-ℤ◌ abs
was_paid = refl

transition-Transitioned_example : Transitioned Action.mark_paid issued.0 paid_invoice
transition-Transitioned_example =
    transition-Transitioned issued.1 now Action.mark_paid issued.0 paid_invoice issued-IsWellFormed
      was_paid

transition-refused_example :
    (transition issued.1 now Action.unmark_paid issued.0.status issued.0
      ≡ err (cannot_transition issued.0.status))
    ↔ ((s : InvoiceStatus) → ¬ (Move issued.0.status Action.unmark_paid s))
transition-refused_example = transition-refused issued.1 now Action.unmark_paid issued.0

money_nearest_example :
    (2 * (quantum * pos_part (money 8 (negsuc 1234567))) ≤ 2 * pos_part (negsuc 1234567) + quantum)
    × (2 * pos_part (negsuc 1234567)
        < 2 * (quantum * pos_part (money 8 (negsuc 1234567))) + quantum)
    × (2 * (quantum * neg_part (money 8 (negsuc 1234567)))
        ≤ 2 * neg_part (negsuc 1234567) + quantum)
    × (2 * neg_part (negsuc 1234567)
        < 2 * (quantum * neg_part (money 8 (negsuc 1234567))) + quantum)
money_nearest_example = money_nearest (negsuc 1234567)
