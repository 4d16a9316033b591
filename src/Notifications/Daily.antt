-- ===== src/Notifications/Daily.antt =====
-- `run_daily_notifications` of backend/app/services/notify.py, with the settings as an argument.
use home_trap.Prelude.{
  ℕ, ◌+◌, ◌-◌, ◌%◌, Bool, true, false, not, Option, none, some, List, [], ◌∷◌, map, Text, text_leb,
  ltb, leb, ◌==◌, filter, if◌then◌else◌,
}
use home_trap.Prelude.Int.{ℤ}
use home_trap.Prelude.Sort.{sort_by}
use home_trap.Prelude.Result.{Result, ok, ◌>>=◌}
use home_trap.Calendar.{Date, DateTime, date_eq, to_ordinal}
use home_trap.Models.{InvoiceStatus, status_eq, Apartment, Invoice, Db}
use home_trap.Nbu.{Http}
use home_trap.Billing.{Fault}
use home_trap.Notifications.{
  Message, Sender, NotificationResult, no_result, send_notification, merge_result, HistoryKey,
  History, last_delivery, set_delivery, ReminderSettings, NotificationSettings,
}
use home_trap.Notifications.Reminders.{Reminding, send_billing_reminders}

abbrev pub name_leb : Apartment → Apartment → Bool
name_leb a b = text_leb a.name b.name

abbrev pub is_active_apartment : Apartment → Bool
is_active_apartment a = a.is_active

-- What the rest of the run changes.
abbrev pub Told : Type 0
Told = NotificationResult × History

-- A message that is remembered where some sender delivers it.
unfoldable pub tell : List Sender → Date → HistoryKey → Message → Told → Told
unfolding send_notification merge_result set_delivery
tell senders today key m (r, h) =
    let delivery = send_notification senders m in
    let merged = merge_result r delivery in
    (merged, if ltb r.deliveries merged.deliveries then set_delivery key today h else h)

-- `history.get(key) == today.isoformat()`
abbrev pub is_date : Option Date → Date → Bool
is_date none today = false
is_date (some d) today = date_eq d today

unfoldable pub told_today : HistoryKey → Date → History → Bool
unfolding last_delivery
told_today key today h = is_date (last_delivery key h) today

abbrev pub active_names : Db → List Text
active_names db =
    map (λ (a : Apartment). a.name) (sort_by name_leb (filter is_active_apartment db.apartments))

abbrev pub no_names : List Text → Bool
no_names [] = true
no_names (n ∷ names) = false

unfoldable pub tell_readings : List Sender → Date → NotificationSettings → Db → Told → Told
unfolding tell told_today sort_by
tell_readings senders today settings db t =
    if not (today.day == settings.readings_day)
    then t
    else if told_today HistoryKey.readings today t.1
    then t
    else if no_names (active_names db)
    then t
    else tell senders today HistoryKey.readings (Message.take_readings (active_names db)) t

abbrev pub is_issued : Invoice → Bool
is_issued i = status_eq i.status InvoiceStatus.issued

-- The age of an invoice in days, where it is one on which the reminder is due.
unfoldable pub due_age : Date → NotificationSettings → Option DateTime → Option ℕ
unfolding to_ordinal
due_age today settings none = none
due_age today settings (some issued_at) =
    let age = to_ordinal today - to_ordinal issued_at.day in
    if ltb (to_ordinal today) (to_ordinal issued_at.day + settings.overdue_after_days)
    then none
    else if (age - settings.overdue_after_days) % settings.repeat_every_days == 0
    then some age
    else none

abbrev pub tell_overdue : List Sender → Date → Invoice → Option ℕ → Told → Told
tell_overdue senders today i none t = t
tell_overdue senders today i (some age) t =
    if told_today (HistoryKey.overdue i.id) today t.1
    then t
    else tell senders today (HistoryKey.overdue i.id) (Message.unpaid i.id i.period age) t

unfoldable pub tell_all_overdue :
    List Sender → Date → NotificationSettings → List Invoice → Told → Told
unfolding tell told_today due_age
tell_all_overdue senders today settings [] t = t
tell_all_overdue senders today settings (i ∷ invoices) t =
    tell_all_overdue senders today settings invoices
      (tell_overdue senders today i (due_age today settings i.issued_at) t)

-- `ORDER BY id`
abbrev pub id_leb : Invoice → Invoice → Bool
id_leb a b = leb a.id b.id

-- The readings and the overdue invoices, where there is a sender.
unfoldable pub tell_rest : List Sender → Date → NotificationSettings → Db → Told → Told
unfolding tell_readings tell_all_overdue sort_by
tell_rest [] today settings db t = t
tell_rest (s ∷ senders) today settings db t =
    tell_all_overdue (s ∷ senders) today settings (sort_by id_leb (filter is_issued db.invoices))
      (tell_readings (s ∷ senders) today settings db t)

abbrev pub run_reminders :
    Http
    → (Date → Option ℤ)
    → List Sender
    → Date
    → ReminderSettings
    → Db
    → History
    → Result Fault Reminding
run_reminders http meanwhile senders today settings db history =
    let s : Reminding = record { db = db; history = history; result = no_result } in
    if settings.enabled
    then send_billing_reminders http meanwhile senders today settings s
    else ok s

-- The database and the history that are committed at the end.
unfoldable pub run_daily_notifications :
    Http
    → (Date → Option ℤ)
    → List Sender
    → Date
    → NotificationSettings
    → Db
    → History
    → Result Fault Reminding
unfolding send_billing_reminders merge_result tell_rest
run_daily_notifications http meanwhile senders today settings db history =
    run_reminders http meanwhile senders today settings.billing_reminder db history >>= λ s.
    let (r, h) =
      tell_rest senders today settings s.db (merge_result no_result s.result, s.history) in
    ok (record s { result = r; history = h })
