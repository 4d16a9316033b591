-- ===== src/Examples/Notifications.antt =====
-- A daily run of the small rental on a billing day, with a sender that works and one that does not.
use home_trap.Prelude.{◌+◌, ◌*◌, ◌≡◌, refl, Option, none, some, List, [], ◌∷◌, text, length, true}
use home_trap.Prelude.Int.{ℤ}
use home_trap.Prelude.Result.{Result, ok, err}
use home_trap.Calendar.{Date, date}
use home_trap.Billing.{Fault}
use home_trap.Billing.Draft.{draft_lines}
use home_trap.Billing.Recalculate.{recalculate}
use home_trap.Billing.Lifecycle.{IsSound}
use home_trap.Invoices.Soundness.{same_invoices-IsSound}
use home_trap.Notifications.{Sender, no_result, send_notification, NotificationSettings}
use home_trap.Notifications.Reminders.{Reminding}
use home_trap.Notifications.Overdue.{Reaches}
use home_trap.Notifications.Daily.{Told, tell_rest, run_daily_notifications}
use home_trap.Notifications.Whole.{tell_rest_again, run_daily_notifications-IsCounted}
use home_trap.Examples.Data.{store}
use home_trap.Examples.Billing.{store-IsSound}
use home_trap.Examples.Reports.{let_out, answers}

abbrev phone : Sender
phone = record { name = text "Phone"; raised = λ m. none }

abbrev broken : Sender
broken = record { name = text "Email"; raised = λ m. some (text "SMTPException") }

abbrev senders : List Sender
senders = broken ∷ phone ∷ []

abbrev settings : NotificationSettings
settings = record {
  billing_reminder = record {
    enabled = true;
    days_before = 3;
    repeat_every_days = 1;
    auto_draft = true;
  };
  readings_day = 28;
  overdue_after_days = 3;
  repeat_every_days = 3;
}

abbrev billing_day : Date
billing_day = date 2026 2 28

abbrev no_rival : Date → Option ℤ
no_rival d = none

abbrev result_or : {A : Type 0} → A → Result Fault A → A
result_or d (ok a) = a
result_or d (err e) = d

abbrev after_run : Reminding
after_run =
    result_or (record { db = let_out; history = []; result = no_result })
      (run_daily_notifications answers no_rival senders billing_day settings let_out [])

was_run :
    run_daily_notifications answers no_rival senders billing_day settings let_out [] ≡ ok after_run
unfolding run_daily_notifications draft_lines recalculate
was_run = refl

two_messages : (after_run.result.notifications ≡ 2) × (after_run.result.deliveries ≡ 2)
unfolding run_daily_notifications draft_lines recalculate
two_messages = (refl, refl)

run_daily_notifications-IsCounted_example :
    IsSound after_run.db
    × (after_run.result.deliveries + length after_run.result.errors
        ≡ after_run.result.notifications * length senders)
run_daily_notifications-IsCounted_example =
    run_daily_notifications-IsCounted answers no_rival senders billing_day settings let_out []
      after_run (same_invoices-IsSound store let_out refl store-IsSound) was_run

abbrev untold : Told
untold = (no_result, [])

reaches : Reaches senders
unfolding send_notification
reaches m = refl

tell_rest_again_example :
    tell_rest senders billing_day settings let_out
      (tell_rest senders billing_day settings let_out untold)
    ≡ tell_rest senders billing_day settings let_out untold
tell_rest_again_example = tell_rest_again senders billing_day settings let_out untold reaches
