-- ===== src/Billing/Recalculate.antt =====
-- `recalculate` of backend/app/services/billing.py. A metered line's product of a reading
-- (scale 3) and a tariff (scale 5) has scale 8, as has the rent (2) times the rate (6).
pub mod Totals
use home_trap.Prelude.{Bool, true, false, Option, none, some, List, [], ◌∷◌, if◌then◌else◌}
use home_trap.Prelude.Int.{ℤ, pos, ◌+ℤ◌, ◌-ℤ◌, ◌*ℤ◌}
use home_trap.Money.{money}
use home_trap.Models.{InvoiceLineKind, InvoiceLine, Invoice}

abbrev pub is_adjustment : InvoiceLine → Bool
is_adjustment line = elim line.service_kind [ InvoiceLineKind.adjustment ↦ true | _ ↦ false ]

abbrev pub is_metered : InvoiceLine → Bool
is_metered line = elim line.service_kind [ InvoiceLineKind.metered ↦ true | _ ↦ false ]

-- The two branches of a metered line, by its readings.
metered_line : InvoiceLine → Option ℤ → Option ℤ → InvoiceLine
metered_line line (some prev) (some curr) =
    let consumed = curr -ℤ prev in
    record line { consumed = some consumed; amount = money 8 (consumed *ℤ line.tariff_value) }
metered_line line _ _ = record line { consumed = none; amount = pos 0 }

-- What the loop writes to a line.
unfoldable pub refresh_line : InvoiceLine → InvoiceLine
unfolding metered_line
refresh_line line =
    if is_metered line then metered_line line line.prev_reading line.curr_reading else line

-- The loop: the lines, `utilities` and `adjustments`.
unfoldable pub recalculate_lines : List InvoiceLine → ℤ → ℤ → List InvoiceLine × ℤ × ℤ
unfolding refresh_line
recalculate_lines [] utilities adjustments = ([], utilities, adjustments)
recalculate_lines (line ∷ rest) utilities adjustments =
    let line' = refresh_line line in
    let (lines, u, a) =
      recalculate_lines rest (if is_adjustment line then utilities else utilities +ℤ line'.amount)
        (if is_adjustment line then adjustments +ℤ line.amount else adjustments) in
    (line' ∷ lines, u, a)

unfoldable pub recalculate : Invoice → Invoice
unfolding recalculate_lines
recalculate invoice =
    let (lines, utilities, adjustments) = recalculate_lines invoice.lines (pos 0) (pos 0) in
    let rent = money 8 (invoice.rent_amount_usd *ℤ invoice.exchange_rate) in
    record invoice {
      lines = lines;
      rent_amount_uah = rent;
      utilities_total = money 2 utilities;
      adjustments_total = money 2 adjustments;
      grand_total = money 2 (rent +ℤ money 2 utilities +ℤ money 2 adjustments);
    }
