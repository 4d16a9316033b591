-- ===== src/Tenants/Deletion/Recovery.antt =====
-- The files of a tenant as a client sees them, and one staged directory at the start of the program.
use home_trap.Prelude.{
  ℕ, ◌≡◌, refl, Bool, true, false, Option, none, some, [], ◌∷◌, text_eq_refl, ◌==◌, eq→==,
  if◌then◌else◌,
}
use home_trap.Prelude.Result.{ok}
use home_trap.Models.{Db}
use home_trap.Storage.{
  Staged, Directory, Uploads, restore_staged_tenant_files, recover_tenant_file_deletions,
  recover_all, drop_staged, set_directory,
}
use home_trap.Tenants.Deletion.{Phase, World, has_row, restart}

-- The directory of a tenant, also while it is staged in a request that has not committed.
abbrev pub held : Phase → ℕ → Option Directory → Option Directory
held (Phase.staged tenant_id (some s) pending) i d = if i == tenant_id then some s.files else d
held phase i d = d

unfoldable pub files_of : World → ℕ → Option Directory
files_of w i = held w.phase i (w.uploads.directory i)

-- What a client can tell of a tenant: none where there is no row, else its files.
unfoldable pub view : World → ℕ → Option (Option Directory)
unfolding files_of
view w i = if has_row w.db i then some (files_of w i) else none

-- How the staged directories fit the phase where no removal has failed: at rest there are none.
abbrev pub Fits : Phase → Db → Uploads → Type 0
Fits Phase.idle db u = u.deleting ≡ []
Fits (Phase.staged tenant_id none pending) db u =
    (u.deleting ≡ [])
    × (pending ≡ [])
    × (u.directory tenant_id ≡ none)
    × (has_row db tenant_id ≡ true)
Fits (Phase.staged tenant_id (some s) pending) db u =
    (u.deleting ≡ s ∷ [])
    × (pending ≡ s ∷ [])
    × (u.directory tenant_id ≡ none)
    × (s.tenant_id ≡ tenant_id)
    × (has_row db tenant_id ≡ true)
Fits (Phase.committed []) db u = u.deleting ≡ []
Fits (Phase.committed (s ∷ ss)) db u =
    (u.deleting ≡ s ∷ [])
    × (ss ≡ [])
    × (u.directory s.tenant_id ≡ none)
    × (has_row db s.tenant_id ≡ false)

unfoldable pub IsTidy : World → Type 0
IsTidy w = Fits w.phase w.db w.uploads

pub drop_only : (s : Staged) → drop_staged s (s ∷ []) ≡ []
drop_only s = rw (text_eq_refl s.token, eq→== s.tenant_id s.tenant_id refl) refl

pub recover_back :
    (rows : ℕ → Bool) (u : Uploads) (s : Staged)
    → u.deleting ≡ s ∷ []
    → rows s.tenant_id ≡ true
    → u.directory s.tenant_id ≡ none
    → recover_tenant_file_deletions rows u
      ≡ ok (
          set_directory s.tenant_id
            (some s.files)
            (record u { deleting = drop_staged s u.deleting }))
unfolding recover_tenant_file_deletions
recover_back rows u s e r d = rw (e, recover_all, r, restore_staged_tenant_files, d) refl

-- Where the recovery of the files is known, so is the restart.
pub restarted :
    (w : World) (u : Uploads)
    → recover_tenant_file_deletions (has_row w.db) w.uploads ≡ ok u
    → restart w ≡ ok (record w { uploads = u; phase = Phase.idle })
unfolding restart
restarted w u e = rw e refl
