-- ===== src/Lib.antt =====
-- HomeTrap is a portal for a landlord's apartments: tenants and their contracts, services with
-- tariffs, monthly invoices with meter readings, expenses, reminders and reports. This is the
-- verification of its Python service, backend/app. The files and what they model:
--
-- Prelude and its children: Boolean tests, lists, sorting as `ORDER BY` does it, results, signed
-- integers over the native numbers. Money: the decimals and `money` of
-- backend/app/services/billing.py. Calendar: dates and month arithmetic.
--
-- Models: the tables of backend/app/models.py as records, and the database `Db` as one list of
-- rows for each table. A session is the database that an operation takes and returns. An operation
-- that raises returns an error and no database, since `write_session` of
-- backend/app/services/storage.py rolls back. A new row gets the key after the largest one in use,
-- as SQLite gives it.
--
-- Billing: backend/app/services/billing.py. Billing/Tariffs has `get_tariff_for_period` of
-- backend/app/db.py; Billing/Recalculate has `recalculate`; Billing/Draft `_previous_readings` and
-- `create_draft`; Billing/Adjustments `_sync_adjustments`; Billing/Update `update_draft`,
-- `delete_draft` and `list_invoices`; Billing/Transition `transition_invoice`. Billing/Chronology
-- and Billing/Lifecycle put the operations together as steps of one system.
--
-- Tenants: backend/app/routers/tenants.py, the contracts, with the attachments in
-- Tenants/Attachments and `delete_tenant`, step by step, in Tenants/Deletion. Storage: the files
-- of backend/app/services/storage.py, with the types in Storage/Types. Restore/Journal: the
-- journal of backend/app/services/restore.py, with the hash of a file and the paths as parameters.
-- Auth/Limiter: `LoginRateLimiter` and `LoginAttemptReservation` of backend/app/auth.py; a call
-- holds the limiter's lock and is one step. Auth/Session: the cookies and the first user of
-- backend/app/auth.py, with base64, the HMAC and bcrypt as parameters. Schedule: the dates and the
-- two schedules of backend/app/services/billing_schedule.py. Nbu: backend/app/services/nbu.py,
-- with the request to the bank as a parameter. Stats: backend/app/routers/stats.py, with its three
-- reports in Stats/Pnl, Stats/Income and Stats/Consumption; the quotients of decimals and
-- `str.upper` are parameters. Expenses: backend/app/routers/expenses.py.
--
-- Invoices: the handlers of backend/app/routers/invoices.py over Billing and Nbu, with the status
-- of each fault. Schedule/Upcoming: `upcoming_billing` of backend/app/routers/billing.py. Backup:
-- `validate_zip_metadata` of backend/app/services/backup_limits.py.
--
-- Notifications: `send_notification` of backend/app/services/notification_delivery.py, the
-- reminders of backend/app/services/billing_schedule.py in Notifications/Reminders and
-- `run_daily_notifications` of backend/app/services/notify.py in Notifications/Daily; the senders
-- and the settings are arguments, and a message stands for its text.
--
-- Apartments: backend/app/routers/apartments.py. Services: backend/app/routers/services.py, with
-- the restore keys as a parameter.
--
-- Middleware: the guard of backend/app/middleware.py, over the sizes of the bodies, with the
-- application behind it as a parameter.
--
-- Examples: concrete data, runs of the model, and the theorems at inputs that meet their
-- hypotheses.
--
-- How values correspond. A `Decimal` is an integer at the scale of its column (2 for amounts, 3
-- for readings, 5 for tariffs, 6 for rates); the columns' widths keep every product below the 28
-- digits of the decimal context, so products are exact and only `money` rounds. A text is the list
-- of its code points. A moment is its date and the microseconds of the day. Loops are recursion on
-- the rows, so no fuel is needed.
--
-- What is not modelled. FastAPI, Pydantic, SQLAlchemy and SQLite are libraries: queries are
-- written as the filters and sorts that they state, and the foreign keys' cascades only where an
-- operation needs them. A rename of a file or a directory is atomic, and durable where the code
-- syncs it. The directory `tenants` itself, which the code makes and removes as needed, has no state of
-- its own. Left out as well: response views with their warnings, the senders of notifications and
-- the storing of their settings, the archives of backup and restore with the merge of their rows,
-- the import of spreadsheets, the migrations and the user interface.
pub mod Prelude
pub mod Money
pub mod Calendar
pub mod Models
pub mod Billing
pub mod Tenants
pub mod Auth
pub mod Schedule
pub mod Nbu
pub mod Stats
pub mod Expenses
pub mod Invoices
pub mod Storage
pub mod Restore
pub mod Apartments
pub mod Services
pub mod Notifications
pub mod Middleware
pub mod Backup
mod Examples
