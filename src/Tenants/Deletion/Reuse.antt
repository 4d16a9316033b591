-- ===== src/Tenants/Deletion/Reuse.antt =====
-- A directory whose removal failed, in backend/app/routers/tenants.py, and a key that is used again.
use home_trap.Prelude.{
  ℕ, ◌≡◌, refl, sym, ap, ◌∙◌, Bool, true, none, some, List, [], ◌∷◌, ◌++◌, eq→==, any, Bool-cases,
  inl, inr,
}
use home_trap.Prelude.Result.{ok, raise_if, >>=-eq-ok, ok-injective, ◌>>=◌}
use home_trap.Models.{Tenant, Db, next_key}
use home_trap.Tenants.{
  Payload, has_id, new_tenant, get_apartment, is_active_at, active_tenant,
  ensure_contract_does_not_overlap, create_tenant,
}
use home_trap.Storage.{Staged, Directory, Uploads, drop_staged}
use home_trap.Tenants.Deletion.{Phase, World, has_row, clean_one, restart}
use home_trap.Tenants.Deletion.Recovery.{IsTidy, Fits, drop_only, recover_back, restarted}

any-append_one :
    {A : Type 0} (p : A → Bool) (xs : List A) (x : A) → p x ≡ true → any p (xs ++ x ∷ []) ≡ true
any-append_one p [] x h = rw h refl
any-append_one p (y ∷ ys) x h =
    rw (any-append_one p ys x h) (elim (Bool-cases (p y)) [ inl e ↦ rw e refl | inr e ↦ rw e refl ])

created_tenant :
    (db db' : Db) (apartment_id : ℕ) (payload : Payload) (t : Tenant)
    → create_tenant db apartment_id payload ≡ ok (t, db')
    → (t.id ≡ next_key (λ (x : Tenant). x.id) db.tenants) × (has_row db' t.id ≡ true)
unfolding create_tenant
created_tenant db db' apartment_id payload t h =
    let (_, found, h1) = >>=-eq-ok (get_apartment db apartment_id >>= λ _. ok tt) _ h in
    let (_, inactive, h2) =
      >>=-eq-ok (raise_if (any (is_active_at apartment_id none) db.tenants) active_tenant) _ h1 in
    let (_, free, h3) =
      >>=-eq-ok (ensure_contract_does_not_overlap db apartment_id payload none) _ h2 in
    let q = ok-injective h3 in
    let new = new_tenant db apartment_id payload in
    (
      ap (λ (r : Tenant × Db). r.0.id) (sym q),
      rw (← ap (λ (r : Tenant × Db). r.0) q, ← ap (λ (r : Tenant × Db). r.1) q)
          (any-append_one (has_id new.id) db.tenants new (eq→== new.id new.id refl)),
    )

-- Where the removal of a deleted tenant's directory raises and leaves some of the files, and the next
-- tenant gets the key of the deleted one, the next start of the program gives that tenant these
-- files.
pub restart_gives_old_files :
    (w : World) (s : Staged) (left : Directory) (db' : Db) (apartment_id : ℕ) (payload : Payload)
    (t : Tenant)
    → IsTidy w
    → w.phase ≡ Phase.committed (s ∷ [])
    → next_key (λ (x : Tenant). x.id) w.db.tenants ≡ s.tenant_id
    → create_tenant w.db apartment_id payload ≡ ok (t, db')
    → (w' : World) × (restart (record (clean_one (some left) w) { db = db' }) ≡ ok w')
      × (w'.uploads.directory t.id ≡ some left)
unfolding IsTidy clean_one
restart_gives_old_files w s left db' apartment_id payload t tidy e key created =
    let (id, row) = created_tenant w.db db' apartment_id payload t created in
    let (d, _, gone, _) : Fits (Phase.committed (s ∷ [])) w.db w.uploads = rw e at tidy in
    let s' : Staged = record s { files = left } in
    let u : Uploads = record w.uploads { deleting = drop_staged s w.uploads.deleting ++ s' ∷ [] } in
    let one : u.deleting ≡ s' ∷ [] = rw (d, drop_only s) refl in
    let same : t.id ≡ s.tenant_id = id ∙ key in
    let there : has_row db' s.tenant_id ≡ true = rw same at row in
    let w2 : World = record w { db = db'; uploads = u; phase = Phase.idle } in
    rw (e, clean_one)
      (
        _,
        restarted w2 _ (recover_back (has_row db') u s' one there gone),
        rw (same, eq→== s.tenant_id s.tenant_id refl) refl,
      )
