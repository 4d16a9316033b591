-- ===== src/Storage.antt =====
-- backend/app/services/storage.py: the attachments' directories, the staging of a tenant's files for
-- deletion, and the recovery at the start of the program. A rename is atomic and durable, since
-- the code syncs both directories; `rmtree` may fail and leave a part.
pub mod Types
pub mod Files
use home_trap.Prelude.{
  ℕ, Bool, true, false, not, ◌&&◌, Option, none, some, List, [], ◌∷◌, ◌++◌, Text, text_eq, ◌==◌,
  filter, any, if◌then◌else◌,
}
use home_trap.Prelude.Result.{Result, ok, err, ◌>>=◌}

abbrev pub Content : Type 0
Content = List ℕ

-- The files of a directory, by name.
abbrev pub Directory : Type 0
Directory = List (Text × Content)

-- `.deleting/tenant-<tenant_id>-<token>`
pub record Staged : Type 0 where
  pub tenant_id : ℕ
  pub token : Text
  pub files : Directory

-- `uploads_dir`: `tenants/<id>` where it exists, and the directories in `.deleting` whose names the
-- recovery's pattern matches, in the order of their names.
pub record Uploads : Type 0 where
  pub directory : ℕ → Option Directory
  pub deleting : List Staged

abbrev pub has_name : Text → Text × Content → Bool
has_name name (n, content) = text_eq n name

abbrev pub has_file : Text → Directory → Bool
has_file name dir = any (has_name name) dir

-- What is read at a path.
unfoldable pub content_of : Text → Option Directory → Option Content
content_of name none = none
content_of name (some []) = none
content_of name (some (f ∷ fs)) =
    let later = content_of name (some fs) in if has_name name f then some f.1 else later

abbrev pub set_directory : ℕ → Option Directory → Uploads → Uploads
set_directory tenant_id d u = record u {
  directory = λ i. if i == tenant_id then d else u.directory i;
}

abbrev or_empty : Option Directory → Directory
or_empty none = []
or_empty (some d) = d

-- `path.unlink(missing_ok=True)`
unfoldable pub unlink : ℕ → Text → Uploads → Uploads
unlink tenant_id name u = elim (u.directory tenant_id) [
  | none ↦ u
  | some d ↦ set_directory tenant_id (some (filter (λ f. not (has_name name f)) d)) u
]

-- `rmdir` of a directory that is there and empty.
unfoldable pub remove_if_empty : ℕ → Uploads → Uploads
remove_if_empty tenant_id u = elim (u.directory tenant_id) [
  | none ↦ u
  | some [] ↦ set_directory tenant_id none u
  | some (f ∷ fs) ↦ u
]

-- `temporary.replace(target)` in a directory that `mkdir` has made if need be.
unfoldable pub write_file : ℕ → Text → Content → Uploads → Uploads
write_file tenant_id name content u =
    let dir = or_empty (u.directory tenant_id) in
    set_directory tenant_id (some (filter (λ f. not (has_name name f)) dir ++ (name, content) ∷ []))
      u

-- `save_attachment` under a stored name; where the disk refuses, the error is raised after the
-- temporary file, the target and an empty directory are removed.
unfoldable pub save_attachment : ℕ → Text → Content → Bool → Uploads → Bool × Uploads
unfolding write_file unlink remove_if_empty
save_attachment tenant_id stored_name content disk u =
    if disk
    then (true, write_file tenant_id stored_name content u)
    else (false, remove_if_empty tenant_id (unlink tenant_id stored_name u))

unfoldable pub delete_attachment : ℕ → Text → Uploads → Uploads
unfolding unlink remove_if_empty
delete_attachment tenant_id stored_name u =
    remove_if_empty tenant_id (unlink tenant_id stored_name u)

unfoldable pub pending_tenant_file_deletions : ℕ → Uploads → List Staged
pending_tenant_file_deletions tenant_id u =
    filter (λ (s : Staged). s.tenant_id == tenant_id) u.deleting

abbrev pub same_name : Staged → Staged → Bool
same_name s t = s.tenant_id == t.tenant_id && text_eq s.token t.token

abbrev pub drop_staged : Staged → List Staged → List Staged
drop_staged s ss = filter (λ t. not (same_name s t)) ss

-- `stage_tenant_files`, with the token of the new name; the place of the name in the listing does
-- not matter, so it is put last.
unfoldable pub stage_tenant_files : ℕ → Text → Uploads → Option Staged × Uploads
stage_tenant_files tenant_id token u = elim (u.directory tenant_id) [
  | none ↦ (none, u)
  | some dir ↦
      let staged : Staged = record { tenant_id = tenant_id; token = token; files = dir } in
      (
        some staged,
        set_directory tenant_id none (record u { deleting = u.deleting ++ staged ∷ [] }),
      )
]

-- "Tenant attachment directory already exists"
pub data RuntimeError : Type 0 where
  directory_exists : ℕ → RuntimeError

unfoldable pub restore_staged_tenant_files : Staged → Uploads → Result RuntimeError Uploads
restore_staged_tenant_files s u = elim (u.directory s.tenant_id) [
  | some dir ↦ err (RuntimeError.directory_exists s.tenant_id)
  | none ↦
      ok (
        set_directory s.tenant_id (some s.files) (record u { deleting = drop_staged s u.deleting }))
]

-- `delete_staged_tenant_files`: `rmtree` gets through, or fails and leaves some of the files.
unfoldable pub delete_staged_tenant_files : Staged → Option Directory → Uploads → Bool × Uploads
delete_staged_tenant_files s left u = elim left [
  | none ↦ (true, record u { deleting = drop_staged s u.deleting })
  | some files ↦
      (false, record u { deleting = drop_staged s u.deleting ++ record s { files = files } ∷ [] })
]

-- The loop of `recover_tenant_file_deletions` over the listing, by whether the tenant has a row.
unfoldable pub recover_all : (ℕ → Bool) → List Staged → Uploads → Result RuntimeError Uploads
unfolding restore_staged_tenant_files delete_staged_tenant_files
recover_all has_row [] u = ok u
recover_all has_row (s ∷ ss) u = elim (has_row s.tenant_id) [
  | false ↦ recover_all has_row ss (delete_staged_tenant_files s none u).1
  | true ↦ restore_staged_tenant_files s u >>= λ u'. recover_all has_row ss u'
]

-- `recover_tenant_file_deletions`, where the disk lets every removal through.
unfoldable pub recover_tenant_file_deletions : (ℕ → Bool) → Uploads → Result RuntimeError Uploads
unfolding recover_all
recover_tenant_file_deletions has_row u = recover_all has_row u.deleting u
