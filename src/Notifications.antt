-- ===== src/Notifications.antt =====
-- The daily notifications: `send_notification` of backend/app/services/notification_delivery.py, the history
-- and the settings of backend/app/services/notify.py. The senders are a parameter. A message stands for its text, with the
-- values that the text holds; the settings are those that the schema has checked.
pub mod Reminders
pub mod Daily
pub mod Counts
pub mod Runs
pub mod Overdue
pub mod Whole
use home_trap.Prelude.{
  ℕ, ◌+◌, ◌-◌, ◌%◌, Bool, true, false, not, ◌&&◌, ◌||◌, Option, none, some, List, [], ◌∷◌, ◌++◌,
  map, Text, text, ltb, leb, ◌==◌, filter, any, if◌then◌else◌,
}
use home_trap.Prelude.Int.{ℤ}
use home_trap.Prelude.Sort.{sort_by}
use home_trap.Prelude.Result.{Result, ok, err, ◌>>=◌}
use home_trap.Calendar.{Date, DateTime, date_ltb, date_eq, to_ordinal}
use home_trap.Models.{InvoiceStatus, status_eq, Apartment, Invoice, Db}
use home_trap.Nbu.{Http, RateResult, NbuRateUnavailable, default_currency, get_rate}
use home_trap.Billing.{Fault, later_invoice, earlier_draft, integrity_error}
use home_trap.Billing.Draft.{same_period, create_draft}
use home_trap.Invoices.{FaultClass, fault_class}
use home_trap.Schedule.{BillingScheduleEntry, compute_reminder_schedule}

-- Why a draft could not be created.
pub data Failure : Type 0 where
  save_conflict : Failure
  refused : Fault → Failure
  no_rate : NbuRateUnavailable → Failure

pub data Message : Type 0 where
  invoice_due : Text → Date → Date → Message
  draft_created : Text → Date → Message
  draft_failed : Text → Date → Failure → Message
  take_readings : List Text → Message
  unpaid : ℕ → Date → ℕ → Message

-- A channel: what a message raises, or none where it is delivered.
pub record Sender : Type 0 where
  pub name : Text
  pub raised : Message → Option Text

pub record NotificationResult : Type 0 where
  pub notifications : ℕ
  pub deliveries : ℕ
  pub errors : List (Text × Text)

abbrev pub no_result : NotificationResult
no_result = record { notifications = 0; deliveries = 0; errors = [] }

abbrev pub deliver : Sender → Option Text → NotificationResult → NotificationResult
deliver s none r = record r { deliveries = r.deliveries + 1 }
deliver s (some error) r = record r { errors = r.errors ++ (s.name, error) ∷ [] }

unfoldable pub send_to : List Sender → Message → NotificationResult → NotificationResult
send_to [] m r = r
send_to (s ∷ senders) m r = send_to senders m (deliver s (s.raised m) r)

unfoldable pub send_notification : List Sender → Message → NotificationResult
unfolding send_to
send_notification senders m = send_to senders m (record no_result { notifications = 1 })

-- `_merge_result`
unfoldable pub merge_result : NotificationResult → NotificationResult → NotificationResult
merge_result target source = record {
  notifications = target.notifications + source.notifications;
  deliveries = target.deliveries + source.deliveries;
  errors = target.errors ++ source.errors;
}

-- The keys of the history.
pub data HistoryKey : Type 0 where
  readings : HistoryKey
  overdue : ℕ → HistoryKey
  billing billing_draft : ℕ → Date → HistoryKey

abbrev pub key_eq : HistoryKey → HistoryKey → Bool
key_eq HistoryKey.readings HistoryKey.readings = true
key_eq (HistoryKey.overdue i) (HistoryKey.overdue j) = i == j
key_eq (HistoryKey.billing i d) (HistoryKey.billing j e) = i == j && date_eq d e
key_eq (HistoryKey.billing_draft i d) (HistoryKey.billing_draft j e) = i == j && date_eq d e
key_eq _ _ = false

abbrev pub History : Type 0
History = List (HistoryKey × Date)

unfoldable pub last_delivery : HistoryKey → History → Option Date
last_delivery k [] = none
last_delivery k ((j, d) ∷ h) = let later = last_delivery k h in if key_eq j k then some d else later

-- `history[key] = today.isoformat()`
unfoldable pub set_delivery : HistoryKey → Date → History → History
set_delivery k today [] = (k, today) ∷ []
set_delivery k today ((j, d) ∷ h) =
    let rest = set_delivery k today h in if key_eq j k then (j, today) ∷ h else (j, d) ∷ rest

pub record ReminderSettings : Type 0 where
  pub enabled : Bool
  pub days_before : ℕ
  pub repeat_every_days : ℕ
  pub auto_draft : Bool

pub record NotificationSettings : Type 0 where
  pub billing_reminder : ReminderSettings
  pub readings_day : ℕ
  pub overdue_after_days : ℕ
  pub repeat_every_days : ℕ

-- `if delivery.deliveries`
abbrev pub delivered : NotificationResult → Bool
delivered r = ltb 0 r.deliveries
