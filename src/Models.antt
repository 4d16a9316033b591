-- ===== src/Models.antt =====
-- The rows of backend/app/models.py that the modelled services read and write, and the database as
-- the lists of its rows. Keys are numbers, texts are lists of code points. The random `restore_key`
-- columns, which only a restore reads, are left out.
pub mod Keys
use home_trap.Prelude.{
  ℕ, suc, Bool, true, false, Option, none, some, List, [], ◌∷◌, Text, text, ◌==◌, max,
}
use home_trap.Prelude.Int.{ℤ}
use home_trap.Calendar.{Date, DateTime}

pub data ServiceKind : Type 0 where
  metered fixed : ServiceKind

pub data InvoiceLineKind : Type 0 where
  metered fixed adjustment : InvoiceLineKind

pub data InvoiceStatus : Type 0 where
  draft issued paid : InvoiceStatus

abbrev pub status_eq : InvoiceStatus → InvoiceStatus → Bool
status_eq draft draft = true
status_eq issued issued = true
status_eq paid paid = true
status_eq _ _ = false

-- The values of `ExpenseCategory`.
abbrev pub expense_categories : List Text
expense_categories =
    text "repair" ∷ text "tax" ∷ text "insurance" ∷ text "commission" ∷ text "other" ∷ []

-- `rent_amount` has scale 2.
pub record Apartment : Type 0 where
  pub id : ℕ
  pub name : Text
  pub address : Text
  pub rent_amount : ℤ
  pub rent_currency : Text
  pub notes : Option Text
  pub is_active : Bool

pub record Tenant : Type 0 where
  pub id : ℕ
  pub apartment_id : ℕ
  pub full_name : Text
  pub phone : Option Text
  pub email : Option Text
  pub contract_start : Date
  pub contract_end : Option Date
  pub billing_day : Option ℕ
  pub notes : Option Text

pub record TenantAttachment : Type 0 where
  pub id : ℕ
  pub tenant_id : ℕ
  pub original_name : Text
  pub stored_name : Text
  pub content_type : Text
  pub size_bytes : ℕ
  pub uploaded_at : DateTime

pub record Service : Type 0 where
  pub id : ℕ
  pub apartment_id : ℕ
  pub name : Text
  pub kind : ServiceKind
  pub unit : Option Text
  pub provider_account : Option Text
  pub sort_order : ℤ
  pub is_active : Bool

-- `value` has scale 5.
pub record Tariff : Type 0 where
  pub id : ℕ
  pub service_id : ℕ
  pub value : ℤ
  pub valid_from : Date

-- Readings and `consumed` have scale 3, `tariff_value` 5, `amount` 2.
pub record InvoiceLine : Type 0 where
  pub id : ℕ
  pub service_id : Option ℕ
  pub service_name : Text
  pub service_kind : InvoiceLineKind
  pub prev_reading : Option ℤ
  pub curr_reading : Option ℤ
  pub consumed : Option ℤ
  pub tariff_value : ℤ
  pub amount : ℤ

-- `exchange_rate` has scale 6, the amounts scale 2. `lines` is the relationship, in order of id.
pub record Invoice : Type 0 where
  pub id : ℕ
  pub apartment_id : ℕ
  pub period : Date
  pub status : InvoiceStatus
  pub issued_at : Option DateTime
  pub paid_at : Option DateTime
  pub exchange_rate : ℤ
  pub rent_amount_usd : ℤ
  pub rent_amount_uah : ℤ
  pub utilities_total : ℤ
  pub adjustments_total : ℤ
  pub grand_total : ℤ
  pub lines : List InvoiceLine

-- `rate` has scale 6.
pub record ExchangeRate : Type 0 where
  pub id : ℕ
  pub day : Date
  pub currency : Text
  pub rate : ℤ

-- `amount` has scale 2.
pub record Expense : Type 0 where
  pub id : ℕ
  pub apartment_id : Option ℕ
  pub invoice_line_id : Option ℕ
  pub day : Date
  pub category : Text
  pub amount : ℤ
  pub currency : Text
  pub notes : Option Text

pub record Db : Type 0 where
  pub apartments : List Apartment
  pub tenants : List Tenant
  pub services : List Service
  pub tariffs : List Tariff
  pub invoices : List Invoice
  pub exchange_rates : List ExchangeRate
  pub expenses : List Expense

-- SQLite gives a new row the key after the largest one in use.
abbrev pub next_key {ℓ} : {A : Type ℓ} → (A → ℕ) → List A → ℕ
next_key key [] = 1
next_key key (x ∷ xs) = max (suc (key x)) (next_key key xs)
