-- ===== src/Notifications/Reminders.antt =====
-- `send_billing_reminders` of backend/app/services/billing_schedule.py, with the automatic draft.
use home_trap.Prelude.{
  ℕ, ◌+◌, Bool, true, false, not, ◌&&◌, Option, none, some, List, [], ◌∷◌, ltb, leb, any,
  if◌then◌else◌,
}
use home_trap.Prelude.Int.{ℤ}
use home_trap.Prelude.Result.{Result, ok, err, ◌>>=◌}
use home_trap.Calendar.{Date, date_ltb, date_eq, to_ordinal}
use home_trap.Models.{Invoice, Db}
use home_trap.Nbu.{Http, RateResult, NbuRateUnavailable, default_currency, get_rate}
use home_trap.Billing.{Fault, later_invoice, earlier_draft, integrity_error}
use home_trap.Billing.Draft.{same_period, create_draft}
use home_trap.Invoices.{FaultClass, fault_class}
use home_trap.Schedule.{BillingScheduleEntry, compute_reminder_schedule}
use home_trap.Notifications.{
  Failure, Message, Sender, NotificationResult, send_notification, merge_result, HistoryKey,
  History, last_delivery, set_delivery, ReminderSettings, delivered,
}

-- What the reminders change.
pub record Reminding : Type 0 where
  pub db : Db
  pub history : History
  pub result : NotificationResult

abbrev pub add_delivery : NotificationResult → Reminding → Reminding
add_delivery delivery s = record s { result = merge_result s.result delivery }

unfoldable pub send_manual_billing_reminder :
    List Sender → Date → BillingScheduleEntry → Reminding → Reminding
unfolding send_notification merge_result set_delivery
send_manual_billing_reminder senders today e s =
    let delivery =
      send_notification senders (Message.invoice_due e.apartment.name e.period e.billing_date) in
    let key = HistoryKey.billing e.apartment.id e.period in
    let told = add_delivery delivery s in
    if delivered delivery then record told { history = set_delivery key today s.history } else told

-- The errors that `_create_draft_and_notify` catches as a refusal.
abbrev pub is_refusal : Fault → Bool
is_refusal later_invoice = true
is_refusal earlier_draft = true
is_refusal fault = elim (fault_class fault) [
  | FaultClass.validation ↦ true
  | FaultClass.not_found ↦ false
  | FaultClass.conflict ↦ false
  | FaultClass.integrity ↦ false
]

abbrev pub is_integrity : Fault → Bool
is_integrity integrity_error = true
is_integrity fault = false

abbrev pub notify : List Sender → Message → Reminding → Reminding
notify senders m s = add_delivery (send_notification senders m) s

-- After the rate, from the creation of the draft on; a fault that is not caught ends the run.
unfoldable pub report_draft :
    List Sender
    → Date
    → BillingScheduleEntry
    → Reminding
    → Result Fault (Invoice × Db)
    → Result Fault Reminding
unfolding send_notification merge_result set_delivery fault_class
report_draft senders today e s (ok (invoice, db)) =
    let key = HistoryKey.billing_draft e.apartment.id e.period in
    ok (
      notify senders (Message.draft_created e.apartment.name e.period)
        (record s { db = db; history = set_delivery key today s.history }))
report_draft senders today e s (err fault) =
    if is_integrity fault
    then (if any (same_period e.apartment.id e.period) s.db.invoices
        then ok s
        else ok (
            notify senders (Message.draft_failed e.apartment.name e.period Failure.save_conflict)
              s))
    else if is_refusal fault
    then ok
        (notify senders (Message.draft_failed e.apartment.name e.period (Failure.refused fault)) s)
    else err fault

unfoldable pub create_rated_draft :
    List Sender
    → Date
    → BillingScheduleEntry
    → Reminding
    → Result NbuRateUnavailable (RateResult × Db)
    → Result Fault Reminding
unfolding report_draft create_draft send_notification merge_result
create_rated_draft senders today e s (err unavailable) = ok (
    notify senders (Message.draft_failed e.apartment.name e.period (Failure.no_rate unavailable)) s)
create_rated_draft senders today e s (ok (rate, rated)) =
    report_draft senders today e (record s { db = rated })
      (create_draft rated e.apartment e.period rate.rate)

abbrev pub is_known_key : Option Date → Bool
is_known_key none = false
is_known_key (some d) = true

-- `meanwhile` is the rate that another connection has stored for the period since the query.
unfoldable pub create_draft_and_notify :
    Http
    → (Date → Option ℤ)
    → List Sender
    → Date
    → BillingScheduleEntry
    → Reminding
    → Result Fault Reminding
unfolding last_delivery get_rate create_rated_draft
create_draft_and_notify http meanwhile senders today e s =
    if is_known_key (last_delivery (HistoryKey.billing_draft e.apartment.id e.period) s.history)
    then ok s
    else create_rated_draft senders today e s
        (get_rate http (meanwhile e.period) s.db e.period default_currency)

-- `days_since_delivery < repeat_every_days`
abbrev pub is_recent_delivery : Date → ℕ → Option Date → Bool
is_recent_delivery today repeat_every_days none = false
is_recent_delivery today repeat_every_days (some d) =
    ltb (to_ordinal today) (to_ordinal d + repeat_every_days)

-- One round of the loop.
unfoldable pub remind :
    Http
    → (Date → Option ℤ)
    → List Sender
    → Date
    → ReminderSettings
    → BillingScheduleEntry
    → Reminding
    → Result Fault Reminding
unfolding create_draft_and_notify send_manual_billing_reminder last_delivery to_ordinal
remind http meanwhile senders today settings e s =
    if e.invoice_exists
    then ok s
    else if date_eq today e.billing_date
    then (if settings.auto_draft
        then create_draft_and_notify http meanwhile senders today e s
        else ok (send_manual_billing_reminder senders today e s))
    else if not (
        leb (to_ordinal e.billing_date) (to_ordinal today + settings.days_before)
        && date_ltb today e.billing_date)
    then ok s
    else if is_recent_delivery today settings.repeat_every_days
        (last_delivery (HistoryKey.billing e.apartment.id e.period) s.history)
    then ok s
    else ok (send_manual_billing_reminder senders today e s)

unfoldable pub remind_all :
    Http
    → (Date → Option ℤ)
    → List Sender
    → Date
    → ReminderSettings
    → List BillingScheduleEntry
    → Reminding
    → Result Fault Reminding
unfolding remind
remind_all http meanwhile senders today settings [] s = ok s
remind_all http meanwhile senders today settings (e ∷ es) s =
    remind http meanwhile senders today settings e s >>= λ s'.
    remind_all http meanwhile senders today settings es s'

unfoldable pub send_billing_reminders :
    Http
    → (Date → Option ℤ)
    → List Sender
    → Date
    → ReminderSettings
    → Reminding
    → Result Fault Reminding
unfolding remind_all compute_reminder_schedule
send_billing_reminders http meanwhile senders today settings s =
    remind_all http meanwhile senders today settings (compute_reminder_schedule s.db today) s
