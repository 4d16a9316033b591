-- ===== src/Invoices.antt =====
-- backend/app/routers/invoices.py: the requests on invoices, with the status that each fault of the
-- billing service becomes. The body of a response is the invoice; its view is not modelled.
pub mod Soundness
use home_trap.Prelude.{ℕ, ◌==◌, Option, none, some, List, Text, text, text_eq, find?, if◌then◌else◌}
use home_trap.Prelude.Int.{ℤ}
use home_trap.Prelude.Result.{Result, ok, err, ◌>>=◌, ◌>>◌, or_raise}
use home_trap.Calendar.{Date, DateTime}
use home_trap.Models.{InvoiceStatus, Apartment, Invoice, Db}
use home_trap.Nbu.{Http, NbuRateUnavailable, RateResult, get_rate}
use home_trap.Billing.{Fault, get_invoice}
use home_trap.Billing.Draft.{create_draft}
use home_trap.Billing.Adjustments.{Adjustment}
use home_trap.Billing.Update.{Readings, update_draft, delete_draft, list_invoices}
use home_trap.Billing.Transition.{Action, transition_invoice}

-- The class of a fault; `integrity` is SQLAlchemy's `IntegrityError`.
pub data FaultClass : Type 0 where
  not_found validation conflict integrity : FaultClass

unfoldable pub fault_class : Fault → FaultClass
fault_class Fault.apartment_not_found = FaultClass.not_found
fault_class Fault.invoice_not_found = FaultClass.not_found
fault_class Fault.not_editable = FaultClass.conflict
fault_class Fault.not_deletable = FaultClass.conflict
fault_class (Fault.missing_reading name) = FaultClass.conflict
fault_class (Fault.cannot_transition status) = FaultClass.conflict
fault_class Fault.later_invoice = FaultClass.conflict
fault_class Fault.earlier_draft = FaultClass.conflict
fault_class Fault.integrity_error = FaultClass.integrity
fault_class fault = FaultClass.validation

-- `_billing_http_error`; an `IntegrityError` is no `BillingError`, and is a server error where no
-- handler catches it.
unfoldable pub billing_http_error : Fault → ℕ
unfolding fault_class
billing_http_error fault = elim (fault_class fault) [
  | FaultClass.not_found ↦ 404
  | FaultClass.validation ↦ 422
  | FaultClass.conflict ↦ 409
  | FaultClass.integrity ↦ 500
]

-- In `create_invoice` an `IntegrityError` is a conflict too.
unfoldable pub creation_error : Fault → ℕ
unfolding billing_http_error fault_class
creation_error fault = elim (fault_class fault) [
  | FaultClass.integrity ↦ 409
  | _ ↦ billing_http_error fault
]

-- What a request gets: an error's status, or an invoice, or nothing for a deletion.
abbrev pub Response : Type 0
Response = Result ℕ (Option Invoice)

-- The database after a call: the result's, or the one before, since the session is rolled back.
abbrev pub respond : (Fault → ℕ) → Db → Result Fault (Invoice × Db) → Response × Db
respond status before (err fault) = (err (status fault), before)
respond status before (ok (invoice, after)) = (ok (some invoice), after)

-- `get_rate` has committed a rate that it fetched, so that rate stays where the draft fails.
unfoldable pub create_rated :
    Db → Apartment → Date → Result NbuRateUnavailable (RateResult × Db) → Response × Db
unfolding create_draft creation_error
create_rated db apartment period (err unavailable) = (err 503, db)
create_rated db apartment period (ok (result, rated)) =
    respond creation_error rated (create_draft rated apartment period result.rate)

unfoldable pub create_invoice : Http → Option ℤ → Db → ℕ → Date → Response × Db
unfolding get_rate create_rated
create_invoice http meanwhile db apartment_id period =
    elim (find? (λ (a : Apartment). a.id == apartment_id) db.apartments) [
      | none ↦ (err 404, db)
      | some apartment ↦
          create_rated db apartment period (get_rate http meanwhile db period (text "USD"))
    ]

unfoldable pub update_invoice :
    Db → ℕ → Option ℤ → Readings → Option (List Adjustment) → Response × Db
unfolding update_draft billing_http_error
update_invoice db invoice_id exchange_rate lines adjustments =
    respond billing_http_error db (update_draft db invoice_id exchange_rate lines adjustments)

abbrev pub respond_deleted : Db → Result Fault Db → Response × Db
respond_deleted before (err fault) = (err (billing_http_error fault), before)
respond_deleted before (ok after) = (ok none, after)

unfoldable pub delete_invoice : Db → ℕ → Response × Db
unfolding delete_draft billing_http_error
delete_invoice db invoice_id = respond_deleted db (delete_draft db invoice_id)

-- The texts that `change_invoice_status` accepts.
unfoldable pub known_action : Text → Option Action
known_action action =
    if text_eq action (text "issue")
    then some Action.issue
    else if text_eq action (text "revert-to-draft")
    then some Action.revert_to_draft
    else if text_eq action (text "mark-paid")
    then some Action.mark_paid
    else if text_eq action (text "unmark-paid")
    then some Action.unmark_paid
    else none

unfoldable pub change_invoice_status : DateTime → Db → ℕ → Text → Response × Db
unfolding transition_invoice billing_http_error known_action
change_invoice_status now db invoice_id action = elim (known_action action) [
  | none ↦ (err 404, db)
  | some known ↦ respond billing_http_error db (transition_invoice db now invoice_id known)
]

unfoldable pub invoice_list : Db → Option ℕ → Option InvoiceStatus → Option Date → List Invoice
unfolding list_invoices
invoice_list db apartment_id invoice_status period =
    list_invoices db apartment_id invoice_status period

unfoldable pub invoice_detail : Db → ℕ → Response × Db
unfolding get_invoice billing_http_error
invoice_detail db invoice_id =
    respond billing_http_error db (get_invoice db invoice_id >>= λ invoice. ok (invoice, db))

-- A request that changes the invoices.
pub data Request : Type 0 where
  create : Http → Option ℤ → ℕ → Date → Request
  update : ℕ → Option ℤ → Readings → Option (List Adjustment) → Request
  delete : ℕ → Request
  change : DateTime → ℕ → Text → Request

unfoldable pub serve : Db → Request → Response × Db
unfolding create_invoice update_invoice delete_invoice change_invoice_status
serve db (Request.create http meanwhile apartment_id period) =
    create_invoice http meanwhile db apartment_id period
serve db (Request.update invoice_id exchange_rate lines adjustments) =
    update_invoice db invoice_id exchange_rate lines adjustments
serve db (Request.delete invoice_id) = delete_invoice db invoice_id
serve db (Request.change now invoice_id action) = change_invoice_status now db invoice_id action
