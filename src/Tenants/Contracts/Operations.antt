-- ===== src/Tenants/Contracts/Operations.antt =====
-- Creating, changing and ending contracts in backend/app/routers/tenants.py, as steps.
use home_trap.Prelude.{
  ℕ, ◌≡◌, sym, ap, true, false, not, ◌&&◌, none, some, arith, ◌==◌, eq→==, In, any, any-false,
  and-false, find?-some, is_some,
}
use home_trap.Prelude.Result.{
  ok, ◌>>=◌, raise_if, >>=-eq-ok, raise_if-eq-ok, or_raise-eq-ok, ok-injective,
}
use home_trap.Calendar.{Date, date_ltb}
use home_trap.Models.{Tenant, Db}
use home_trap.Tenants.{
  Payload, valid_payload, overlaps_payload, is_active_at, has_id, write_payload, new_tenant,
  active_tenant, already_ended, end_before_start, ensure_contract_does_not_overlap, get_apartment,
  get_tenant, create_tenant, update_tenant, end_contract,
}
use home_trap.Tenants.Contracts.{overlap, AreApart, replace-AreApart, append-AreApart}

-- The query of `_ensure_contract_does_not_overlap` finds every other contract that shares a day.
misses_other :
    (t : Tenant) (p : Payload) (u : Tenant)
    → overlaps_payload t.apartment_id p (some t.id) u ≡ false
    → t.apartment_id ≡ u.apartment_id
    → (u.id == t.id) ≡ false
    → overlap (write_payload p t) u ≡ true
    → t.id ≡ u.id
unfolding overlap
misses_other t p u h e d o =
    let h' = and-false _ _ h (eq→== u.apartment_id t.apartment_id (sym e)) in ground arith

misses_new :
    (db : Db) (apartment_id : ℕ) (p : Payload) (u : Tenant)
    → overlaps_payload apartment_id p none u ≡ false
    → apartment_id ≡ u.apartment_id
    → overlap (new_tenant db apartment_id p) u ≡ false
unfolding overlap
misses_new db apartment_id p u h e =
    let h' = and-false _ _ h (eq→== u.apartment_id apartment_id (sym e)) in ground arith

-- Every contract a payload passes the query for is free at its apartment.
get_tenant-In :
    (db : Db) (tenant_id : ℕ) (t : Tenant) → get_tenant db tenant_id ≡ ok t → In t db.tenants
unfolding get_tenant
get_tenant-In db tenant_id t h =
    (find?-some (has_id tenant_id) db.tenants t (or_raise-eq-ok _ _ h)).0

pub create_tenant-AreApart :
    (db : Db) (apartment_id : ℕ) (p : Payload) (t : Tenant) (db' : Db)
    → valid_payload p ≡ true
    → AreApart db.tenants
    → create_tenant db apartment_id p ≡ ok (t, db')
    → AreApart db'.tenants
unfolding create_tenant ensure_contract_does_not_overlap
create_tenant-AreApart db apartment_id p t db' valid c h =
    let (_, found, h1) = >>=-eq-ok (get_apartment db apartment_id >>= λ _. ok tt) _ h in
    let (_, inactive, h2) =
      >>=-eq-ok (raise_if (any (is_active_at apartment_id none) db.tenants) active_tenant) _ h1 in
    let (_, free, h3) = >>=-eq-ok (ensure_contract_does_not_overlap db apartment_id p none) _ h2 in
    let none_overlaps = raise_if-eq-ok _ _ free in
    rw (← ap (λ (r : Tenant × Db). r.1.tenants) (ok-injective h3)) (
      append-AreApart db.tenants (new_tenant db apartment_id p) c valid
        (λ u m same. misses_new db apartment_id p u (any-false _ _ none_overlaps u m) same))

pub update_tenant-AreApart :
    (db : Db) (tenant_id : ℕ) (p : Payload) (t : Tenant) (db' : Db)
    → valid_payload p ≡ true
    → AreApart db.tenants
    → update_tenant db tenant_id p ≡ ok (t, db')
    → AreApart db'.tenants
unfolding update_tenant ensure_contract_does_not_overlap
update_tenant-AreApart db tenant_id p t db' valid c h =
    let (old, got, h1) = >>=-eq-ok (get_tenant db tenant_id) _ h in
    let (_, inactive, h2) =
      >>=-eq-ok
        (raise_if
          (not (is_some p.contract_end)
            && any (is_active_at old.apartment_id (some old.id)) db.tenants)
          active_tenant)
        _ h1 in
    let (_, free, h3) =
      >>=-eq-ok (ensure_contract_does_not_overlap db old.apartment_id p (some old.id)) _ h2 in
    let none_overlaps = raise_if-eq-ok _ _ free in
    rw (← ap (λ (r : Tenant × Db). r.1.tenants) (ok-injective h3)) (
      replace-AreApart db.tenants (write_payload p old) c valid
        (λ u m same other o. misses_other old p u (any-false _ _ none_overlaps u m) same other o))

-- An open contract that is ended covers fewer days.
ended_overlap :
    (t u : Tenant) (e : Date)
    → is_some t.contract_end ≡ false
    → overlap (record t { contract_end = some e }) u ≡ true
    → overlap t u ≡ true
unfolding overlap
ended_overlap t u e h o = ground arith

pub end_contract-AreApart :
    (db : Db) (tenant_id : ℕ) (contract_end : Date) (t : Tenant) (db' : Db)
    → AreApart db.tenants
    → end_contract db tenant_id contract_end ≡ ok (t, db')
    → AreApart db'.tenants
unfolding end_contract
end_contract-AreApart db tenant_id contract_end t db' c h =
    let (old, got, h1) = >>=-eq-ok (get_tenant db tenant_id) _ h in
    let (_, unended, h2) = >>=-eq-ok (raise_if (is_some old.contract_end) already_ended) _ h1 in
    let (_, ordered, h3) =
      >>=-eq-ok (raise_if (date_ltb contract_end old.contract_start) end_before_start) _ h2 in
    let ended : Tenant = record old { contract_end = some contract_end } in
    let is_ordered : not (date_ltb contract_end old.contract_start) ≡ true =
      ap not (raise_if-eq-ok _ _ ordered) in
    rw (← ap (λ (r : Tenant × Db). r.1.tenants) (ok-injective h3)) (
      replace-AreApart db.tenants ended c is_ordered (λ u m same other o.
        c.apart old u (get_tenant-In db tenant_id old got) m same
          (ended_overlap old u contract_end (raise_if-eq-ok _ _ unended) o)))

-- One operation on the contracts that returned.
pub data Step (db db' : Db) : Type 0 where
  create :
      (apartment_id : ℕ) (p : Payload) (t : Tenant)
      → valid_payload p ≡ true
      → create_tenant db apartment_id p ≡ ok (t, db')
      → Step db db'
  update :
      (tenant_id : ℕ) (p : Payload) (t : Tenant)
      → valid_payload p ≡ true
      → update_tenant db tenant_id p ≡ ok (t, db')
      → Step db db'
  finish :
      (tenant_id : ℕ) (contract_end : Date) (t : Tenant)
      → end_contract db tenant_id contract_end ≡ ok (t, db')
      → Step db db'

pub data Steps (db : Db) : Db → Type 0 where
  stay : Steps db db
  step : (mid last : Db) → Steps db mid → Step mid last → Steps db last

Step-AreApart : (db db' : Db) → AreApart db.tenants → Step db db' → AreApart db'.tenants
Step-AreApart db db' c (Step.create a p t v h) = create_tenant-AreApart db a p t db' v c h
Step-AreApart db db' c (Step.update i p t v h) = update_tenant-AreApart db i p t db' v c h
Step-AreApart db db' c (Step.finish i e t h) = end_contract-AreApart db i e t db' c h

-- Where the contracts of each apartment do not share a day and none ends before it starts, this still
-- holds after any sequence of creating, updating and ending contracts, each with a payload that
-- `validate_contract_dates` accepts.
pub Steps-AreApart : (db db' : Db) → AreApart db.tenants → Steps db db' → AreApart db'.tenants
Steps-AreApart db _ c Steps.stay = c
Steps-AreApart db _ c (Steps.step mid db' s h) = Step-AreApart mid db' (Steps-AreApart db mid c s) h
