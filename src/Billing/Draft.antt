-- ===== src/Billing/Draft.antt =====
-- `create_draft` and `_previous_readings` of backend/app/services/billing.py.
pub mod Dict
pub mod Readings
use home_trap.Prelude.{
  ℕ, suc, ◌+◌, Bool, true, false, not, ◌&&◌, Option, none, some, List, [], ◌∷◌, ◌++◌, ltb, ◌==◌,
  opt_eq, is_some, filter, any, if◌then◌else◌,
}
use home_trap.Prelude.Int.{ℤ, pos, ◌*ℤ◌, ltb_ℤ}
use home_trap.Prelude.Sort.{sort_by}
use home_trap.Prelude.Result.{Result, ok, err, ◌>>=◌, ◌>>◌, raise_if}
use home_trap.Calendar.{Date, date_ltb, date_eq}
use home_trap.Money.{money}
use home_trap.Models.{
  ServiceKind, InvoiceLineKind, InvoiceStatus, Apartment, Service, InvoiceLine, Invoice, Db,
  next_key,
}
use home_trap.Billing.{
  Fault, period_not_first_day, integrity_error, validate_invoice_chronology,
  serialize_invoice_mutations, get_invoice,
}
use home_trap.Billing.Tariffs.{tariff_for_period}
use home_trap.Billing.Recalculate.{recalculate}

-- A row of the query in `_previous_readings`.
pub record Reading : Type 0 where
  pub period : Date
  pub line_id : ℕ
  pub service_id : Option ℕ
  pub current : ℤ

abbrev line_reading : Date → InvoiceLine → Option ℤ → List Reading
line_reading period line none = []
line_reading period line (some current) =
    record { period = period; line_id = line.id; service_id = line.service_id; current = current }
    ∷ []

abbrev pub line_readings : Date → List InvoiceLine → List Reading
line_readings period [] = []
line_readings period (line ∷ lines) =
    line_reading period line line.curr_reading ++ line_readings period lines

-- The rows before they are ordered.
abbrev pub reading_rows : ℕ → Date → List Invoice → List Reading
reading_rows apartment_id period [] = []
reading_rows apartment_id period (i ∷ invoices) =
    if i.apartment_id == apartment_id && date_ltb i.period period
    then line_readings i.period i.lines ++ reading_rows apartment_id period invoices
    else reading_rows apartment_id period invoices

-- `ORDER BY period DESC, id DESC`
abbrev pub later_reading : Reading → Reading → Bool
later_reading a b =
    if date_ltb b.period a.period
    then true
    else if date_ltb a.period b.period
    then false
    else not (ltb a.line_id b.line_id)

-- A dict from services to readings, in insertion order.
abbrev pub Previous : Type 0
Previous = List (Option ℕ × ℤ)

unfoldable pub get : Previous → Option ℕ → Option ℤ
get [] service_id = none
get ((k, v) ∷ d) service_id = if opt_eq k service_id then some v else get d service_id

-- `previous.setdefault(service_id, current_reading)`
unfoldable pub setdefault : Previous → Option ℕ → ℤ → Previous
unfolding get
setdefault d k v = if is_some (get d k) then d else d ++ (k, v) ∷ []

unfoldable pub collect : Previous → List Reading → Previous
unfolding setdefault
collect d [] = d
collect d (row ∷ rows) = collect (setdefault d row.service_id row.current) rows

unfoldable pub previous_readings : Db → ℕ → Date → Previous
unfolding collect sort_by
previous_readings db apartment_id period =
    collect [] (sort_by later_reading (reading_rows apartment_id period db.invoices))

abbrev is_metered_service : Service → Bool
is_metered_service s = elim s.kind [ ServiceKind.metered ↦ true | ServiceKind.fixed ↦ false ]

abbrev line_kind : ServiceKind → InvoiceLineKind
line_kind ServiceKind.metered = InvoiceLineKind.metered
line_kind ServiceKind.fixed = InvoiceLineKind.fixed

-- The body of the loop over the services; a tariff has scale 5.
abbrev draft_line : Previous → Service → ℕ → ℤ → InvoiceLine
draft_line previous service line_id tariff = record {
  id = line_id;
  service_id = some service.id;
  service_name = service.name;
  service_kind = line_kind service.kind;
  prev_reading = if is_metered_service service then get previous (some service.id) else none;
  curr_reading = none;
  consumed = none;
  tariff_value = tariff;
  amount = if is_metered_service service then pos 0 else money 5 tariff;
}

unfoldable pub draft_lines :
    Db → Date → Previous → List Service → ℕ → Result Fault (List InvoiceLine)
unfolding tariff_for_period get
draft_lines db period previous [] line_id = ok []
draft_lines db period previous (service ∷ services) line_id = do
  tariff ← tariff_for_period db service.id period
  rest ← draft_lines db period previous services (line_id + 1)
  ok (draft_line previous service line_id tariff.value ∷ rest)

-- `ORDER BY sort_order, id`
abbrev service_leb : Service → Service → Bool
service_leb a b =
    if ltb_ℤ a.sort_order b.sort_order
    then true
    else if ltb_ℤ b.sort_order a.sort_order
    then false
    else not (ltb b.id a.id)

unfoldable pub active_services : Db → ℕ → List Service
unfolding sort_by
active_services db apartment_id =
    sort_by service_leb
      (filter (λ (s : Service). s.apartment_id == apartment_id && s.is_active) db.services)

abbrev pub all_lines : List Invoice → List InvoiceLine
all_lines [] = []
all_lines (i ∷ invoices) = i.lines ++ all_lines invoices

abbrev pub same_period : ℕ → Date → Invoice → Bool
same_period apartment_id period i = i.apartment_id == apartment_id && date_eq i.period period

abbrev pub empty_draft : Apartment → Date → ℤ → ℕ → List InvoiceLine → Invoice
empty_draft apartment period exchange_rate invoice_id lines = record {
  id = invoice_id;
  apartment_id = apartment.id;
  period = period;
  status = InvoiceStatus.draft;
  issued_at = none;
  paid_at = none;
  exchange_rate = exchange_rate;
  rent_amount_usd = apartment.rent_amount;
  rent_amount_uah = money 8 (apartment.rent_amount *ℤ exchange_rate);
  utilities_total = pos 0;
  adjustments_total = pos 0;
  grand_total = pos 0;
  lines = lines;
}

-- The new invoice is flushed before the first tariff is looked up, so the unique constraint on
-- apartment and period is checked before the tariffs are.
unfoldable pub create_draft : Db → Apartment → Date → ℤ → Result Fault (Invoice × Db)
unfolding serialize_invoice_mutations validate_invoice_chronology get_invoice active_services
create_draft db apartment period exchange_rate = do
  raise_if (not (period.day == 1)) period_not_first_day
  serialize_invoice_mutations db apartment.id
  validate_invoice_chronology db apartment.id period true
  raise_if (any (same_period apartment.id period) db.invoices) integrity_error
  let previous = previous_readings db apartment.id period
  lines ←
      draft_lines db period previous (active_services db apartment.id)
        (next_key (λ (l : InvoiceLine). l.id) (all_lines db.invoices))
  let invoice_id = next_key (λ (i : Invoice). i.id) db.invoices
  let invoice = recalculate (empty_draft apartment period exchange_rate invoice_id lines)
  let db' = record db { invoices = db.invoices ++ invoice ∷ [] }
  found ← get_invoice db' invoice_id
  ok (found, db')
