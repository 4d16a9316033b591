-- ===== src/Examples/Data.antt =====
-- A small rental: one apartment, its services with their tariffs, and no invoice yet.
use home_trap.Prelude.{true, none, List, [], ◌∷◌, text}
use home_trap.Prelude.Int.{ℤ, pos}
use home_trap.Calendar.{Date, DateTime, date}
use home_trap.Models.{ServiceKind, Apartment, Service, Tariff, Db}

abbrev pub flat : Apartment
flat = record {
  id = 1;
  name = text "Flat";
  address = text "Main street 1";
  rent_amount = pos 50000;
  rent_currency = text "USD";
  notes = none;
  is_active = true;
}

abbrev pub water : Service
water = record {
  id = 7;
  apartment_id = 1;
  name = text "Water";
  kind = ServiceKind.metered;
  unit = none;
  provider_account = none;
  sort_order = pos 0;
  is_active = true;
}

abbrev pub internet : Service
internet = record {
  id = 8;
  apartment_id = 1;
  name = text "Internet";
  kind = ServiceKind.fixed;
  unit = none;
  provider_account = none;
  sort_order = pos 1;
  is_active = true;
}

-- 30.50000, then 32.12345 from March, and 250.00000.
abbrev pub tariffs : List Tariff
tariffs =
    record { id = 1; service_id = 7; value = pos 3050000; valid_from = date 2026 1 1 }
    ∷ record { id = 2; service_id = 7; value = pos 3212345; valid_from = date 2026 3 1 }
    ∷ record { id = 3; service_id = 8; value = pos 25000000; valid_from = date 2025 6 1 }
    ∷ []

abbrev pub store : Db
store = record {
  apartments = flat ∷ [];
  tenants = [];
  services = internet ∷ water ∷ [];
  tariffs = tariffs;
  invoices = [];
  exchange_rates = [];
  expenses = [];
}

-- 41.500000
abbrev pub rate : ℤ
rate = pos 41500000

abbrev pub january : Date
january = date 2026 1 1

abbrev pub february : Date
february = date 2026 2 1

abbrev pub now : DateTime
now = record { day = date 2026 2 3; microseconds = 0 }
