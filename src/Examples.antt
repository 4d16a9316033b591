-- ===== src/Examples.antt =====
-- Concrete data, runs of the model on it, and each theorem at an input that meets its hypotheses.
mod Data
mod Billing
mod Invoices
mod Tenants
mod Auth
mod Reports
mod Requests
mod Files
mod Statistics
mod Rental
mod Notifications
mod Sessions
mod Uploads
