-- ===== src/Services.antt =====
-- backend/app/routers/services.py: the services of an apartment and their tariffs. The keys that a restore
-- reads are a parameter, with the rows of `RestoreAlias` beside the database.
pub mod Tariffs
pub mod Linked
use home_trap.Prelude.{
  ℕ, Bool, true, false, not, ◌&&◌, Option, none, some, List, [], ◌∷◌, ◌++◌, Text, text, text_eq,
  leb, ◌==◌, opt_eq, filter, find?, any, update_where, if◌then◌else◌,
}
use home_trap.Prelude.Int.{ℤ, ltb_ℤ}
use home_trap.Prelude.Sort.{sort_by}
use home_trap.Prelude.Result.{Result, ok, err, ◌>>=◌, ◌>>◌, raise_if, or_raise}
use home_trap.Calendar.{Date, date_leb, date_eq}
use home_trap.Models.{ServiceKind, Apartment, Service, Tariff, InvoiceLine, Invoice, Db, next_key}

pub data ServiceRefusal : Type 0 where
  apartment_not_found service_not_found used_by_invoices tariff_exists : ServiceRefusal

-- `ServiceUpdate`; a `ServiceCreate` is one that is active.
pub record ServicePayload : Type 0 where
  pub name : Text
  pub kind : ServiceKind
  pub unit : Option Text
  pub provider_account : Option Text
  pub sort_order : ℤ
  pub is_active : Bool

pub record RestoreAlias : Type 0 where
  pub entity_type : Text
  pub restore_key : Text
  pub target_restore_key : Text

unfoldable pub get_apartment : Db → ℕ → Result ServiceRefusal Apartment
get_apartment db apartment_id =
    or_raise (find? (λ (a : Apartment). a.id == apartment_id) db.apartments)
      ServiceRefusal.apartment_not_found

abbrev pub is_service : ℕ → Service → Bool
is_service service_id s = s.id == service_id

unfoldable pub get_service : Db → ℕ → Result ServiceRefusal Service
get_service db service_id =
    or_raise (find? (is_service service_id) db.services) ServiceRefusal.service_not_found

unfoldable pub get_apartment_service : Db → ℕ → ℕ → Result ServiceRefusal Service
unfolding get_service
get_apartment_service db apartment_id service_id = do
  service ← get_service db service_id
  raise_if (not (service.apartment_id == apartment_id)) ServiceRefusal.service_not_found
  ok service

-- `ORDER BY sort_order, id`
abbrev listed_first : Service → Service → Bool
listed_first a b =
    if ltb_ℤ a.sort_order b.sort_order
    then true
    else if ltb_ℤ b.sort_order a.sort_order
    then false
    else leb a.id b.id

unfoldable pub list_services : Db → ℕ → Result ServiceRefusal (List Service)
unfolding get_apartment sort_by
list_services db apartment_id = do
  _ ← get_apartment db apartment_id
  ok (sort_by listed_first (filter (λ (s : Service). s.apartment_id == apartment_id) db.services))

abbrev pub new_service : Db → ℕ → ServicePayload → Service
new_service db apartment_id payload = record {
  id = next_key (λ (s : Service). s.id) db.services;
  apartment_id = apartment_id;
  name = payload.name;
  kind = payload.kind;
  unit = payload.unit;
  provider_account = payload.provider_account;
  sort_order = payload.sort_order;
  is_active = true;
}

unfoldable pub create_service : Db → ℕ → ServicePayload → Result ServiceRefusal (Service × Db)
unfolding get_apartment
create_service db apartment_id payload = do
  _ ← get_apartment db apartment_id
  let service = new_service db apartment_id payload
  ok (service, record db { services = db.services ++ service ∷ [] })

abbrev pub write_fields : ServicePayload → Service → Service
write_fields payload s = record s {
  name = payload.name;
  kind = payload.kind;
  unit = payload.unit;
  provider_account = payload.provider_account;
  sort_order = payload.sort_order;
  is_active = payload.is_active;
}

unfoldable pub update_service : Db → ℕ → ℕ → ServicePayload → Result ServiceRefusal (Service × Db)
unfolding get_apartment_service
update_service db apartment_id service_id payload = do
  service ← get_apartment_service db apartment_id service_id
  ok (
    write_fields payload service,
    record db {
      services = update_where (is_service service_id) (write_fields payload) db.services;
    },
  )

abbrev pub is_line_of : ℕ → InvoiceLine → Bool
is_line_of service_id l = opt_eq l.service_id (some service_id)

-- The count of the lines is not zero.
abbrev pub is_used : Db → ℕ → Bool
is_used db service_id = any (λ (i : Invoice). any (is_line_of service_id) i.lines) db.invoices

-- The row, and the rows of its tariffs by the cascade.
abbrev pub drop_service : ℕ → Db → Db
drop_service service_id db = record db {
  services = filter (λ s. not (is_service service_id s)) db.services;
  tariffs = filter (λ (t : Tariff). not (t.service_id == service_id)) db.tariffs;
}

unfoldable pub delete_service :
    (Service → Text)
    → Db
    → List RestoreAlias
    → ℕ
    → ℕ
    → Result ServiceRefusal (Db × List RestoreAlias)
unfolding get_apartment_service
delete_service restore_key db aliases apartment_id service_id = do
  service ← get_apartment_service db apartment_id service_id
  raise_if (is_used db service_id) ServiceRefusal.used_by_invoices
  ok (
    drop_service service_id db,
    filter
        (λ (a : RestoreAlias). not (
          text_eq a.entity_type (text "service")
          && text_eq a.target_restore_key (restore_key service)))
        aliases,
  )

unfoldable pub list_tariffs : Db → ℕ → Result ServiceRefusal (List Tariff)
unfolding get_service sort_by
list_tariffs db service_id = do
  _ ← get_service db service_id
  ok (
      sort_by (λ (a : Tariff). λ (b : Tariff). date_leb a.valid_from b.valid_from)
        (filter (λ (t : Tariff). t.service_id == service_id) db.tariffs))

abbrev pub is_tariff_at : ℕ → Date → Tariff → Bool
is_tariff_at service_id valid_from t = t.service_id == service_id && date_eq t.valid_from valid_from

abbrev pub new_tariff : Db → ℕ → ℤ → Date → Tariff
new_tariff db service_id value valid_from = record {
  id = next_key (λ (t : Tariff). t.id) db.tariffs;
  service_id = service_id;
  value = value;
  valid_from = valid_from;
}

-- The commit is refused where the service has a tariff of that date.
unfoldable pub create_tariff : Db → ℕ → ℤ → Date → Result ServiceRefusal (Tariff × Db)
unfolding get_service
create_tariff db service_id value valid_from = do
  _ ← get_service db service_id
  raise_if (any (is_tariff_at service_id valid_from) db.tariffs) ServiceRefusal.tariff_exists
  let tariff = new_tariff db service_id value valid_from
  ok (tariff, record db { tariffs = db.tariffs ++ tariff ∷ [] })
