-- ===== src/Tenants/Deletion.antt =====
-- `delete_tenant` of backend/app/routers/tenants.py over the files of backend/app/services/storage.py,
-- step by step, so that the program may stop between any two steps.
pub mod Recovery
pub mod Leftovers
pub mod Moves
pub mod Refinement
pub mod Reuse
use home_trap.Prelude.{
  ℕ, Bool, true, false, not, Option, none, some, List, [], ◌∷◌, ◌++◌, Text, ◌==◌, filter, any,
  if◌then◌else◌,
}
use home_trap.Prelude.Result.{Result, ok, err, ◌>>=◌}
use home_trap.Models.{Tenant, TenantAttachment, Db}
use home_trap.Tenants.{has_id}
use home_trap.Storage.{
  Staged, Directory, Uploads, RuntimeError, pending_tenant_file_deletions, stage_tenant_files,
  restore_staged_tenant_files, delete_staged_tenant_files, recover_tenant_file_deletions,
  drop_staged,
}

-- Where the request that holds the write lock stands: no request; the files staged and the row not
-- yet deleted for good; the row deleted, and staged directories to remove.
pub data Phase : Type 0 where
  idle : Phase
  staged : ℕ → Option Staged → List Staged → Phase
  committed : List Staged → Phase

-- What is durable, and the phase, which is not.
pub record World : Type 0 where
  pub db : Db
  pub attachments : List TenantAttachment
  pub uploads : Uploads
  pub phase : Phase

abbrev pub has_row : Db → ℕ → Bool
has_row db tenant_id = any (has_id tenant_id) db.tenants

abbrev appended : List Staged → Option Staged → List Staged
appended pending none = pending
appended pending (some s) = pending ++ s ∷ []

-- Up to the staging, for a tenant that is there.
unfoldable pub begin_delete : ℕ → Text → World → World
unfolding pending_tenant_file_deletions stage_tenant_files
begin_delete tenant_id token w =
    let pending = pending_tenant_file_deletions tenant_id w.uploads in
    let (s, uploads) = stage_tenant_files tenant_id token w.uploads in
    record w { uploads = uploads; phase = Phase.staged tenant_id s (appended pending s) }

-- For a tenant that is gone: only what is pending is removed.
unfoldable pub begin_absent : ℕ → World → World
unfolding pending_tenant_file_deletions
begin_absent tenant_id w = record w {
  phase = Phase.committed (pending_tenant_file_deletions tenant_id w.uploads);
}

-- `session.delete(tenant)` and the commit; the rows of its attachments go with it.
unfoldable pub delete_row : ℕ → World → World
delete_row tenant_id w = record w {
  db = record w.db { tenants = filter (λ t. not (has_id tenant_id t)) w.db.tenants };
  attachments = filter (λ (a : TenantAttachment). not (a.tenant_id == tenant_id)) w.attachments;
}

unfoldable pub commit_delete : World → World
unfolding delete_row
commit_delete w = elim w.phase [
  | Phase.staged tenant_id s pending ↦ record (delete_row tenant_id w) {
    phase = Phase.committed pending;
  }
  | _ ↦ w
]

-- The commit raised: the session is rolled back and the files are put back.
unfoldable pub fail_commit : World → Result RuntimeError World
unfolding restore_staged_tenant_files
fail_commit w = elim w.phase [
  | Phase.staged tenant_id (some s) pending ↦ restore_staged_tenant_files s w.uploads >>= λ uploads.
      ok (record w { uploads = uploads; phase = Phase.idle })
  | _ ↦ ok (record w { phase = Phase.idle })
]

-- One round of the last loop; where the removal raises, the request ends.
unfoldable pub clean_one : Option Directory → World → World
unfolding delete_staged_tenant_files
clean_one left w = elim w.phase [
  | Phase.committed (s ∷ rest) ↦
      let (removed, uploads) = delete_staged_tenant_files s left w.uploads in
      record w { uploads = uploads; phase = if removed then Phase.committed rest else Phase.idle }
  | Phase.committed [] ↦ record w { phase = Phase.idle }
  | _ ↦ w
]

-- A removal that has come half-way.
unfoldable pub tear : Directory → World → World
tear files w = elim w.phase [
  | Phase.committed (s ∷ rest) ↦
      let torn : Staged = record s { files = files } in
      record w {
        uploads = record w.uploads { deleting = drop_staged s w.uploads.deleting ++ torn ∷ [] };
        phase = Phase.committed (torn ∷ rest);
      }
  | _ ↦ w
]

-- The program stops, and starts again with the recovery.
unfoldable pub restart : World → Result RuntimeError World
unfolding recover_tenant_file_deletions
restart w = recover_tenant_file_deletions (has_row w.db) w.uploads >>= λ uploads.
    ok (record w { uploads = uploads; phase = Phase.idle })

-- The rounds that are left, for the directories that are left.
unfoldable pub clean_all : List Staged → World → World
unfolding clean_one
clean_all [] w = clean_one none w
clean_all (s ∷ ss) w = clean_all ss (clean_one none w)

abbrev pub to_remove : Phase → List Staged
to_remove (Phase.committed ss) = ss
to_remove phase = []

abbrev finish_delete : World → World
finish_delete w = clean_all (to_remove w.phase) w

-- A request for a tenant that is gone.
abbrev respond_absent : List Staged → ℕ → World → ℕ × World
respond_absent [] tenant_id w = (404, w)
respond_absent (s ∷ ss) tenant_id w = (204, finish_delete (begin_absent tenant_id w))

-- The whole request, where nothing stops it and every removal gets through, by whether the commit
-- gets through: the status and what is left.
unfoldable pub delete_tenant : Bool → ℕ → Text → World → Result RuntimeError (ℕ × World)
unfolding begin_delete begin_absent commit_delete fail_commit clean_all
    pending_tenant_file_deletions
delete_tenant commits tenant_id token w = elim (has_row w.db tenant_id) [
  | true ↦ elim commits [
    | true ↦ ok (204, finish_delete (commit_delete (begin_delete tenant_id token w)))
    | false ↦ fail_commit (begin_delete tenant_id token w) >>= λ w'. ok (500, w')
  ]
  | false ↦ ok (respond_absent (pending_tenant_file_deletions tenant_id w.uploads) tenant_id w)
]
