-- ===== src/Tenants.antt =====
-- The contracts of backend/app/routers/tenants.py: creating, changing and ending a tenant's contract.
-- The deletion of a tenant with its files is in Deletion, and its attachments are in Attachments.
pub mod Contracts
pub mod Deletion
pub mod Attachments
use home_trap.Prelude.{
  ℕ, Bool, true, false, not, ◌&&◌, ◌||◌, Option, none, some, List, [], ◌∷◌, ◌++◌, Text, ltb, ◌==◌,
  is_some, any, filter, find?, update_where, if◌then◌else◌,
}
use home_trap.Prelude.Sort.{sort_by}
use home_trap.Prelude.Result.{Result, ok, err, ◌>>=◌, ◌>>◌, raise_if, or_raise}
use home_trap.Calendar.{Date, date_ltb, date_leb}
use home_trap.Models.{Apartment, Tenant, Db, next_key}

-- The `HTTPException`s, one for each detail.
pub data Refusal : Type 0 where
  apartment_not_found tenant_not_found : Refusal
  active_tenant overlapping already_ended : Refusal
  end_before_start : Refusal

-- `TenantIn`, of which the schema has checked `valid_payload`.
pub record Payload : Type 0 where
  pub full_name : Text
  pub phone : Option Text
  pub email : Option Text
  pub contract_start : Date
  pub contract_end : Option Date
  pub billing_day : Option ℕ
  pub notes : Option Text

-- An end that is absent lies after every date.
abbrev pub ends_on_or_after : Option Date → Date → Bool
ends_on_or_after none d = true
ends_on_or_after (some e) d = date_leb d e

-- `validate_contract_dates` of backend/app/schemas.py.
abbrev pub valid_payload : Payload → Bool
valid_payload p = ends_on_or_after p.contract_end p.contract_start

abbrev starts_on_or_before : Date → Option Date → Bool
starts_on_or_before d none = true
starts_on_or_before d (some e) = date_leb d e

abbrev is_other : Option ℕ → Tenant → Bool
is_other none t = true
is_other (some tenant_id) t = not (t.id == tenant_id)

-- The conditions of the query in `_ensure_contract_does_not_overlap`.
abbrev pub overlaps_payload : ℕ → Payload → Option ℕ → Tenant → Bool
overlaps_payload apartment_id payload tenant_id t =
    t.apartment_id == apartment_id
    && (ends_on_or_after t.contract_end payload.contract_start
        && (starts_on_or_before t.contract_start payload.contract_end && is_other tenant_id t))

unfoldable pub ensure_contract_does_not_overlap :
    Db → ℕ → Payload → Option ℕ → Result Refusal (Unit {0})
ensure_contract_does_not_overlap db apartment_id payload tenant_id =
    raise_if (any (overlaps_payload apartment_id payload tenant_id) db.tenants) overlapping

unfoldable pub get_apartment : Db → ℕ → Result Refusal Apartment
get_apartment db apartment_id =
    or_raise (find? (λ (a : Apartment). a.id == apartment_id) db.apartments) apartment_not_found

abbrev pub has_id : ℕ → Tenant → Bool
has_id tenant_id t = t.id == tenant_id

unfoldable pub get_tenant : Db → ℕ → Result Refusal Tenant
get_tenant db tenant_id = or_raise (find? (has_id tenant_id) db.tenants) tenant_not_found

-- `contract_end IS NULL` at an apartment, but for the tenant named.
abbrev pub is_active_at : ℕ → Option ℕ → Tenant → Bool
is_active_at apartment_id tenant_id t =
    t.apartment_id == apartment_id && (not (is_some t.contract_end) && is_other tenant_id t)

abbrev pub write_payload : Payload → Tenant → Tenant
write_payload p t = record t {
  full_name = p.full_name;
  phone = p.phone;
  email = p.email;
  contract_start = p.contract_start;
  contract_end = p.contract_end;
  billing_day = p.billing_day;
  notes = p.notes;
}

abbrev pub new_tenant : Db → ℕ → Payload → Tenant
new_tenant db apartment_id p = record {
  id = next_key (λ (t : Tenant). t.id) db.tenants;
  apartment_id = apartment_id;
  full_name = p.full_name;
  phone = p.phone;
  email = p.email;
  contract_start = p.contract_start;
  contract_end = p.contract_end;
  billing_day = p.billing_day;
  notes = p.notes;
}

-- The unique index on the active tenant of an apartment, which `_commit_tenant` reports, cannot be
-- violated here: the query above the insertion, under the same lock, has found no such tenant.
unfoldable pub create_tenant : Db → ℕ → Payload → Result Refusal (Tenant × Db)
unfolding get_apartment ensure_contract_does_not_overlap
create_tenant db apartment_id payload = do
  get_apartment db apartment_id >>= λ _. ok tt
  raise_if (any (is_active_at apartment_id none) db.tenants) active_tenant
  ensure_contract_does_not_overlap db apartment_id payload none
  let tenant = new_tenant db apartment_id payload
  ok (tenant, record db { tenants = db.tenants ++ tenant ∷ [] })

abbrev store_tenant : Db → Tenant → Db
store_tenant db tenant = record db {
  tenants = update_where (has_id tenant.id) (λ _. tenant) db.tenants;
}

unfoldable pub update_tenant : Db → ℕ → Payload → Result Refusal (Tenant × Db)
unfolding get_tenant ensure_contract_does_not_overlap
update_tenant db tenant_id payload = do
  tenant ← get_tenant db tenant_id
  raise_if
      (not (is_some payload.contract_end)
        && any (is_active_at tenant.apartment_id (some tenant.id)) db.tenants)
      active_tenant
  ensure_contract_does_not_overlap db tenant.apartment_id payload (some tenant.id)
  ok (write_payload payload tenant, store_tenant db (write_payload payload tenant))

unfoldable pub end_contract : Db → ℕ → Date → Result Refusal (Tenant × Db)
unfolding get_tenant
end_contract db tenant_id contract_end = do
  tenant ← get_tenant db tenant_id
  raise_if (is_some tenant.contract_end) already_ended
  raise_if (date_ltb contract_end tenant.contract_start) end_before_start
  let ended : Tenant = record tenant { contract_end = some contract_end }
  ok (ended, store_tenant db ended)

-- `ORDER BY contract_end IS NOT NULL, contract_start DESC, id DESC`
abbrev listed_before : Tenant → Tenant → Bool
listed_before a b =
    if not (is_some a.contract_end) && is_some b.contract_end
    then true
    else if is_some a.contract_end && not (is_some b.contract_end)
    then false
    else if date_ltb b.contract_start a.contract_start
    then true
    else if date_ltb a.contract_start b.contract_start
    then false
    else not (ltb a.id b.id)

unfoldable pub list_tenants : Db → ℕ → Result Refusal (List Tenant)
unfolding get_apartment sort_by
list_tenants db apartment_id = do
  get_apartment db apartment_id >>= λ _. ok tt
  ok (sort_by listed_before (filter (λ (t : Tenant). t.apartment_id == apartment_id) db.tenants))
