-- ===== src/Notifications/Whole.antt =====
-- `run_daily_notifications` of backend/app/services/notify.py as a whole.
use home_trap.Prelude.{
  ℕ, ◌+◌, ◌*◌, ◌≡◌, refl, ap, ◌∙◌, inl, inr, true, Option, none, some, List, [], ◌∷◌, length, ◌==◌,
  filter, arith, Bool-cases,
}
use home_trap.Prelude.Int.{ℤ}
use home_trap.Prelude.Sort.{sort_by}
use home_trap.Prelude.Result.{ok, >>=-eq-ok, ok-injective}
use home_trap.Calendar.{Date}
use home_trap.Models.{Invoice, Db}
use home_trap.Nbu.{Http}
use home_trap.Billing.Lifecycle.{IsSound}
use home_trap.Notifications.{
  Message, Sender, no_result, send_notification, merge_result, HistoryKey, History,
  ReminderSettings, NotificationSettings,
}
use home_trap.Notifications.Reminders.{Reminding}
use home_trap.Notifications.Counts.{IsCounted, send_notification-IsCounted, merge_result-IsCounted}
use home_trap.Notifications.Runs.{Counted, reminders-Counted}
use home_trap.Notifications.Daily.{
  Told, tell, told_today, no_names, active_names, tell_readings, due_age, tell_overdue,
  tell_all_overdue, id_leb, is_issued, tell_rest, run_reminders, run_daily_notifications,
}
use home_trap.Notifications.Overdue.{Reaches, all_overdue-stays, all_overdue_again, readings_again}

-- Where every message is delivered by some sender, the part of a run that sends the messages on
-- readings and on overdue invoices, run again on the same day over the same rows, sends nothing: it
-- changes neither the counts nor the history.
pub tell_rest_again :
    (ss : List Sender) (today : Date) (settings : NotificationSettings) (db : Db) (t : Told)
    → Reaches ss
    → tell_rest ss today settings db (tell_rest ss today settings db t)
      ≡ tell_rest ss today settings db t
unfolding tell_rest
tell_rest_again [] today settings db t reaches = refl
tell_rest_again (s ∷ ss) today settings db t reaches =
    let is = sort_by id_leb (filter is_issued db.invoices) in
    let first = tell_readings (s ∷ ss) today settings db t in
    let again =
      readings_again (s ∷ ss) reaches today settings db t
        (tell_all_overdue (s ∷ ss) today settings is first)
        (all_overdue-stays (s ∷ ss) reaches today settings HistoryKey.readings is first) in
    ap (tell_all_overdue (s ∷ ss) today settings is) again
    ∙ all_overdue_again (s ∷ ss) reaches today settings is first

module _ (ss : List Sender) (today : Date) where
  tell-IsCounted :
      (k : HistoryKey) (m : Message) (t : Told)
      → IsCounted (length ss) t.0
      → IsCounted (length ss) (tell ss today k m t).0
  unfolding tell
  tell-IsCounted k m (r, h) c =
      merge_result-IsCounted (length ss) r (send_notification ss m) c
        (send_notification-IsCounted ss m)

  readings-IsCounted :
      (settings : NotificationSettings) (db : Db) (t : Told)
      → IsCounted (length ss) t.0
      → IsCounted (length ss) (tell_readings ss today settings db t).0
  unfolding tell_readings
  readings-IsCounted settings db t c = elim (Bool-cases (today.day == settings.readings_day)) [
    | inr a ↦ rw a c
    | inl a ↦ rw a (elim (Bool-cases (told_today HistoryKey.readings today t.1)) [
      | inl b ↦ rw b c
      | inr b ↦ rw b (elim (Bool-cases (no_names (active_names db))) [
        | inl d ↦ rw d c
        | inr d ↦ rw d (tell-IsCounted HistoryKey.readings _ t c)
      ])
    ])
  ]

  overdue-IsCounted :
      (i : Invoice) (o : Option ℕ) (t : Told)
      → IsCounted (length ss) t.0
      → IsCounted (length ss) (tell_overdue ss today i o t).0
  overdue-IsCounted i none t c = c
  overdue-IsCounted i (some age) t c =
      elim (Bool-cases (told_today (HistoryKey.overdue i.id) today t.1)) [
        | inl f ↦ rw f c
        | inr f ↦ rw f (tell-IsCounted (HistoryKey.overdue i.id) _ t c)
      ]

  all_overdue-IsCounted :
      (settings : NotificationSettings) (is : List Invoice) (t : Told)
      → IsCounted (length ss) t.0
      → IsCounted (length ss) (tell_all_overdue ss today settings is t).0
  unfolding tell_all_overdue
  all_overdue-IsCounted settings [] t c = c
  all_overdue-IsCounted settings (i ∷ is) t c =
      all_overdue-IsCounted settings is _
        (overdue-IsCounted i (due_age today settings i.issued_at) t c)

tell_rest-IsCounted :
    (ss : List Sender) (today : Date) (settings : NotificationSettings) (db : Db) (t : Told)
    → IsCounted (length ss) t.0
    → IsCounted (length ss) (tell_rest ss today settings db t).0
unfolding tell_rest
tell_rest-IsCounted [] today settings db t c = c
tell_rest-IsCounted (s ∷ ss) today settings db t c =
    all_overdue-IsCounted (s ∷ ss) today settings (sort_by id_leb (filter is_issued db.invoices))
      (tell_readings (s ∷ ss) today settings db t)
      (readings-IsCounted (s ∷ ss) today settings db t c)

no_result-IsCounted : (n : ℕ) → IsCounted n no_result
unfolding IsCounted
no_result-IsCounted n = omega arith

reminded :
    (http : Http) (meanwhile : Date → Option ℤ) (ss : List Sender) (today : Date)
    (settings : ReminderSettings) (db : Db) (history : History) (s : Reminding)
    → IsSound db
    → run_reminders http meanwhile ss today settings db history ≡ ok s
    → Counted ss s
reminded http meanwhile ss today settings db history s sound h =
    elim (Bool-cases settings.enabled) [
      | inl e ↦
          reminders-Counted http meanwhile ss today (record settings { enabled = true })
            (record { db = db; history = history; result = no_result }) s
            (no_result-IsCounted (length ss), sound) (rw e at h)
      | inr e ↦
          let q = ok-injective (rw e at h) in rw (← q) (no_result-IsCounted (length ss), sound)
    ]

-- A daily run that ends, on sound invoices, whatever drafts it creates and whichever senders fail:
-- the invoices are sound after it, and each of its notifications has gone to each sender, so that
-- deliveries and errors together are as many as notifications times senders.
pub run_daily_notifications-IsCounted :
    (http : Http) (meanwhile : Date → Option ℤ) (ss : List Sender) (today : Date)
    (settings : NotificationSettings) (db : Db) (history : History) (s : Reminding)
    → IsSound db
    → run_daily_notifications http meanwhile ss today settings db history ≡ ok s
    → IsSound s.db
      × (s.result.deliveries + length s.result.errors ≡ s.result.notifications * length ss)
unfolding run_daily_notifications IsCounted
run_daily_notifications-IsCounted http meanwhile ss today settings db history s sound h =
    let (r, h1, h2) =
      >>=-eq-ok (run_reminders http meanwhile ss today settings.billing_reminder db history) _ h in
    let (c, sound') =
      reminded http meanwhile ss today settings.billing_reminder db history r sound h1 in
    let told =
      tell_rest-IsCounted ss today settings r.db (merge_result no_result r.result, r.history)
        (merge_result-IsCounted (length ss) no_result r.result (no_result-IsCounted (length ss))
          c) in
    let q = ok-injective h2 in rw (← q) (sound', told)
