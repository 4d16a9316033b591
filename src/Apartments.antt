-- ===== src/Apartments.antt =====
-- backend/app/routers/apartments.py: the apartments, with the latest invoice and the tenant of each.
pub mod Archive
pub mod Latest
use home_trap.Prelude.{
  ℕ, Bool, true, false, not, ◌&&◌, Option, none, some, List, [], ◌∷◌, ◌++◌, map, Text, leb, ◌==◌,
  is_some, filter, find?, update_where, if◌then◌else◌,
}
use home_trap.Prelude.Int.{ℤ}
use home_trap.Prelude.Sort.{sort_by}
use home_trap.Prelude.Result.{Result, ok, err, ◌>>=◌, or_raise}
use home_trap.Calendar.{Date, date_ltb, date_eq}
use home_trap.Models.{Apartment, Tenant, Invoice, Db, next_key}

-- "Apartment not found"
pub data ApartmentRefusal : Type 0 where
  not_found : ApartmentRefusal

-- `ApartmentUpdate`; an `ApartmentCreate` is one that is active.
pub record ApartmentPayload : Type 0 where
  pub name : Text
  pub address : Text
  pub rent_amount : ℤ
  pub rent_currency : Text
  pub notes : Option Text
  pub is_active : Bool

pub record ApartmentResponse : Type 0 where
  pub apartment : Apartment
  pub latest_invoice : Option Invoice
  pub current_tenant_name : Option Text

abbrev pub is_apartment : ℕ → Apartment → Bool
is_apartment apartment_id a = a.id == apartment_id

unfoldable pub find_apartment : Db → ℕ → Result ApartmentRefusal Apartment
find_apartment db apartment_id =
    or_raise (find? (is_apartment apartment_id) db.apartments) ApartmentRefusal.not_found

-- What a dict holds that is filled in the order of the rows: the last one.
unfoldable pub last_row : {A : Type 0} → List A → Option A
last_row [] = none
last_row (x ∷ xs) = elim (last_row xs) [ none ↦ some x | some y ↦ some y ]

abbrev pub later_date : Date → Option Date → Option Date
later_date d none = some d
later_date d (some e) = some (if date_ltb d e then e else d)

-- `func.max(Invoice.period)` of a group.
unfoldable pub latest_period : List Invoice → Option Date
latest_period [] = none
latest_period (i ∷ invoices) = later_date i.period (latest_period invoices)

abbrev pub at_apartment : ℕ → Invoice → Bool
at_apartment apartment_id i = i.apartment_id == apartment_id

abbrev pub has_period : Option Date → Invoice → Bool
has_period none i = false
has_period (some d) i = date_eq i.period d

-- `_latest_invoices`, at one of its apartments.
unfoldable pub latest_invoice : Db → ℕ → Option Invoice
unfolding latest_period last_row
latest_invoice db apartment_id =
    let invoices = filter (at_apartment apartment_id) db.invoices in
    last_row (filter (has_period (latest_period invoices)) invoices)

abbrev pub lives_at : ℕ → Tenant → Bool
lives_at apartment_id t = t.apartment_id == apartment_id && not (is_some t.contract_end)

abbrev name_of : Option Tenant → Option Text
name_of none = none
name_of (some t) = some t.full_name

-- `_current_tenant_names`, at one of its apartments.
unfoldable pub current_tenant_name : Db → ℕ → Option Text
unfolding last_row
current_tenant_name db apartment_id = name_of (last_row (filter (lives_at apartment_id) db.tenants))

-- The queries of a response.
abbrev pub response : Db → Apartment → ApartmentResponse
response db a = record {
  apartment = a;
  latest_invoice = latest_invoice db a.id;
  current_tenant_name = current_tenant_name db a.id;
}

unfoldable pub list_apartments : Db → List ApartmentResponse
unfolding sort_by latest_invoice current_tenant_name
list_apartments db =
    map (response db) (sort_by (λ (a : Apartment). λ (b : Apartment). leb a.id b.id) db.apartments)

abbrev pub new_apartment : Db → ApartmentPayload → Apartment
new_apartment db payload = record {
  id = next_key (λ (a : Apartment). a.id) db.apartments;
  name = payload.name;
  address = payload.address;
  rent_amount = payload.rent_amount;
  rent_currency = payload.rent_currency;
  notes = payload.notes;
  is_active = true;
}

unfoldable pub create_apartment : Db → ApartmentPayload → ApartmentResponse × Db
create_apartment db payload =
    let apartment = new_apartment db payload in
    (
      record { apartment = apartment; latest_invoice = none; current_tenant_name = none },
      record db { apartments = db.apartments ++ apartment ∷ [] },
    )

unfoldable pub get_apartment : Db → ℕ → Result ApartmentRefusal ApartmentResponse
unfolding find_apartment latest_invoice current_tenant_name
get_apartment db apartment_id = do
  apartment ← find_apartment db apartment_id
  ok (response db apartment)

abbrev pub write_apartment : ApartmentPayload → Apartment → Apartment
write_apartment payload a = record a {
  name = payload.name;
  address = payload.address;
  rent_amount = payload.rent_amount;
  rent_currency = payload.rent_currency;
  notes = payload.notes;
  is_active = payload.is_active;
}

unfoldable pub update_apartment :
    Db → ℕ → ApartmentPayload → Result ApartmentRefusal (ApartmentResponse × Db)
unfolding find_apartment latest_invoice current_tenant_name
update_apartment db apartment_id payload = do
  apartment ← find_apartment db apartment_id
  let written = record db {
    apartments = update_where (is_apartment apartment_id) (write_apartment payload) db.apartments;
  }
  ok (response written (write_apartment payload apartment), written)

unfoldable pub archive_apartment : Db → ℕ → Result ApartmentRefusal Db
unfolding find_apartment
archive_apartment db apartment_id = do
  _ ← find_apartment db apartment_id
  ok (record db {
    apartments =
        update_where (is_apartment apartment_id) (λ (a : Apartment). record a { is_active = false })
          db.apartments;
  })
