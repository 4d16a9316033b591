-- ===== src/Notifications/Runs.antt =====
-- The loop of `send_billing_reminders` of backend/app/services/billing_schedule.py: its counts and the
-- invoices that it creates.
use home_trap.Prelude.{
  ◌+◌, ◌≡◌, refl, inl, inr, Bool, ◌&&◌, Option, List, [], ◌∷◌, length, leb, any, Bool-cases,
}
use home_trap.Prelude.Int.{ℤ}
use home_trap.Prelude.Result.{Result, ok, err, >>=-eq-ok, ok-injective}
use home_trap.Calendar.{Date, date_eq, date_ltb, to_ordinal}
use home_trap.Models.{Invoice, Db}
use home_trap.Nbu.{Http, RateResult, NbuRateUnavailable, default_currency, get_rate}
use home_trap.Billing.{Fault}
use home_trap.Billing.Draft.{same_period, create_draft}
use home_trap.Billing.Lifecycle.{Step, IsSound, Step-IsSound}
use home_trap.Invoices.Soundness.{same_invoices-IsSound, get_rate-invoices}
use home_trap.Schedule.{BillingScheduleEntry, compute_reminder_schedule}
use home_trap.Notifications.{
  Message, Sender, send_notification, HistoryKey, last_delivery, set_delivery, ReminderSettings,
  delivered,
}
use home_trap.Notifications.Reminders.{
  Reminding, notify, send_manual_billing_reminder, is_refusal, is_integrity, report_draft,
  create_rated_draft, is_known_key, create_draft_and_notify, is_recent_delivery, remind, remind_all,
  send_billing_reminders,
}
use home_trap.Notifications.Counts.{IsCounted, send_notification-IsCounted, merge_result-IsCounted}

-- The run so far is counted, and its invoices are sound.
abbrev pub Counted : List Sender → Reminding → Type 0
Counted ss s = IsCounted (length ss) s.result × IsSound s.db

notify-Counted :
    (ss : List Sender) (m : Message) (s : Reminding) → Counted ss s → Counted ss (notify ss m s)
notify-Counted ss m s c = (
  merge_result-IsCounted (length ss) s.result (send_notification ss m) c.0
      (send_notification-IsCounted ss m),
  c.1,
)

manual-Counted :
    (ss : List Sender) (today : Date) (e : BillingScheduleEntry) (s : Reminding)
    → Counted ss s
    → Counted ss (send_manual_billing_reminder ss today e s)
unfolding send_manual_billing_reminder
manual-Counted ss today e s c =
    let m = Message.invoice_due e.apartment.name e.period e.billing_date in
    let k = notify-Counted ss m s c in
    elim (Bool-cases (delivered (send_notification ss m))) [ inl d ↦ rw d k | inr d ↦ rw d k ]

-- Of a call that may end the run.
abbrev Keeps : List Sender → Reminding → Result Fault Reminding → Type 0
Keeps ss s r = (s' : Reminding) → Counted ss s → r ≡ ok s' → Counted ss s'

kept : (ss : List Sender) (s s' : Reminding) → (Counted ss s → Counted ss s') → Keeps ss s (ok s')
kept ss s s' f x c h = let q = ok-injective h in rw (← q) (f c)

report_draft-Keeps :
    (ss : List Sender) (today : Date) (e : BillingScheduleEntry) (s : Reminding)
    (r : Result Fault (Invoice × Db))
    → (IsSound s.db → (i : Invoice) (db : Db) → r ≡ ok (i, db) → IsSound db)
    → Keeps ss s (report_draft ss today e s r)
unfolding report_draft
report_draft-Keeps ss today e s (ok (i, db)) sound = kept ss s _ (λ c.
    notify-Counted ss (Message.draft_created e.apartment.name e.period)
      (record s {
        db = db;
        history = set_delivery (HistoryKey.billing_draft e.apartment.id e.period) today s.history;
      })
      (c.0, sound c.1 i db refl))
report_draft-Keeps ss today e s (err fault) sound = elim (Bool-cases (is_integrity fault)) [
  | inl a ↦ rw a (elim (Bool-cases (any (same_period e.apartment.id e.period) s.db.invoices)) [
    | inl b ↦ rw b (kept ss s s (λ c. c))
    | inr b ↦ rw b (kept ss s _ (notify-Counted ss _ s))
  ])
  | inr a ↦ rw a (elim (Bool-cases (is_refusal fault)) [
    | inl b ↦ rw b (kept ss s _ (notify-Counted ss _ s))
    | inr b ↦ rw b (λ x c h. cc)
  ])
]

create_rated_draft-Keeps :
    (ss : List Sender) (today : Date) (e : BillingScheduleEntry) (s : Reminding)
    (r : Result NbuRateUnavailable (RateResult × Db))
    → ((rate : RateResult) (rated : Db) → r ≡ ok (rate, rated) → rated.invoices ≡ s.db.invoices)
    → Keeps ss s (create_rated_draft ss today e s r)
unfolding create_rated_draft
create_rated_draft-Keeps ss today e s (err unavailable) same = kept ss s _ (notify-Counted ss _ s)
create_rated_draft-Keeps ss today e s (ok (rate, rated)) same = λ s' c h.
    report_draft-Keeps ss today e (record s { db = rated })
      (create_draft rated e.apartment e.period rate.rate)
      (λ sound i db q.
        Step-IsSound rated db (Step.creates e.apartment e.period rate.rate i q) sound)
      s' (c.0, same_invoices-IsSound s.db rated (same rate rated refl) c.1) h

draft-Keeps :
    (http : Http) (meanwhile : Date → Option ℤ) (ss : List Sender) (today : Date)
    (e : BillingScheduleEntry) (s : Reminding)
    → Keeps ss s (create_draft_and_notify http meanwhile ss today e s)
unfolding create_draft_and_notify
draft-Keeps http meanwhile ss today e s =
    elim (Bool-cases
      (is_known_key (last_delivery (HistoryKey.billing_draft e.apartment.id e.period) s.history))) [
        | inl a ↦ rw a (kept ss s s (λ c. c))
        | inr a ↦ rw a (
            create_rated_draft-Keeps ss today e s
              (get_rate http (meanwhile e.period) s.db e.period default_currency)
              (λ rate rated q.
                get_rate-invoices http (meanwhile e.period) s.db e.period default_currency rate
                  rated q))
      ]

abbrev in_window : Date → ReminderSettings → BillingScheduleEntry → Bool
in_window today settings e =
    leb (to_ordinal e.billing_date) (to_ordinal today + settings.days_before)
    && date_ltb today e.billing_date

remind-Keeps :
    (http : Http) (meanwhile : Date → Option ℤ) (ss : List Sender) (today : Date)
    (settings : ReminderSettings) (e : BillingScheduleEntry) (s : Reminding)
    → Keeps ss s (remind http meanwhile ss today settings e s)
unfolding remind
remind-Keeps http meanwhile ss today settings e s = elim (Bool-cases e.invoice_exists) [
  | inl a ↦ rw a (kept ss s s (λ c. c))
  | inr a ↦ rw a (elim (Bool-cases (date_eq today e.billing_date)) [
    | inl b ↦ rw b (elim (Bool-cases settings.auto_draft) [
      | inl d ↦ rw d (draft-Keeps http meanwhile ss today e s)
      | inr d ↦ rw d (kept ss s _ (manual-Counted ss today e s))
    ])
    | inr b ↦ rw b (elim (Bool-cases (in_window today settings e)) [
      | inr d ↦ rw d (kept ss s s (λ c. c))
      | inl d ↦
          rw d
            (elim (Bool-cases (
              is_recent_delivery today settings.repeat_every_days
                (last_delivery (HistoryKey.billing e.apartment.id e.period) s.history))) [
                  | inl f ↦ rw f (kept ss s s (λ c. c))
                  | inr f ↦ rw f (kept ss s _ (manual-Counted ss today e s))
                ])
    ])
  ])
]

remind_all-Keeps :
    (http : Http) (meanwhile : Date → Option ℤ) (ss : List Sender) (today : Date)
    (settings : ReminderSettings) (es : List BillingScheduleEntry) (s : Reminding)
    → Keeps ss s (remind_all http meanwhile ss today settings es s)
unfolding remind_all
remind_all-Keeps http meanwhile ss today settings [] s = kept ss s s (λ c. c)
remind_all-Keeps http meanwhile ss today settings (e ∷ es) s = λ s' c h.
    let (s1, h1, h2) = >>=-eq-ok (remind http meanwhile ss today settings e s) _ h in
    remind_all-Keeps http meanwhile ss today settings es s1 s'
      (remind-Keeps http meanwhile ss today settings e s s1 c h1) h2

-- A run over the reminders keeps both.
pub reminders-Counted :
    (http : Http) (meanwhile : Date → Option ℤ) (ss : List Sender) (today : Date)
    (settings : ReminderSettings) (s s' : Reminding)
    → Counted ss s
    → send_billing_reminders http meanwhile ss today settings s ≡ ok s'
    → Counted ss s'
unfolding send_billing_reminders
reminders-Counted http meanwhile ss today settings s s' c h =
    remind_all-Keeps http meanwhile ss today settings (compute_reminder_schedule s.db today) s s' c
      h
