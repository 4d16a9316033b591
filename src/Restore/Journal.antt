-- ===== src/Restore/Journal.antt =====
-- The restore journal of backend/app/services/restore.py: `_finish_restore_journal`,
-- `recover_restore_journals` and the part of `import_backup` that moves files. `sha256` is a parameter.
-- The text of journal.json is taken as the entries that were written to it, and paths are a parameter.
pub mod Files
pub mod Finishing
pub mod Recovery
use home_trap.Prelude.{
  ℕ, Bool, true, false, not, ◌&&◌, Option, none, some, List, [], ◌∷◌, Text, text, text_eq, ◌==◌,
  length, any, filter, map, if◌then◌else◌,
}
use home_trap.Prelude.Result.{Result, ok, err, ◌>>=◌, ◌>>◌, raise_if}
use home_trap.Models.{TenantAttachment}
use home_trap.Storage.{
  Content, Directory, Uploads, content_of, has_name, write_file, delete_attachment,
}

-- An entry of the journal, as it is written.
pub record JournalEntry : Type 0 where
  pub staged_name : Text
  pub target : Text
  pub size : ℕ
  pub sha256 : Text

-- An entry whose target has been read: it is the file `stored_name` of the tenant.
pub record Entry : Type 0 where
  pub staged_name : Text
  pub tenant_id : ℕ
  pub stored_name : Text
  pub size : ℕ
  pub sha256 : Text

-- The journal's directory: the staged files, and the entries where journal.json has been written.
pub record Journal : Type 0 where
  pub staged : Directory
  pub files : Option (List JournalEntry)

-- An item of `pending_files`: the staged path with what was copied there, and the target.
pub record Pending : Type 0 where
  pub staged_name : Text
  pub content : Content
  pub tenant_id : ℕ
  pub stored_name : Text

pub data RestoreError : Type 0 where
  unsafe_target invalid_target orphan_differs target_differs file_missing : RestoreError

-- What `pathlib` and `int` make of a target: the path of a tenant's file below `uploads_dir`, the parts of a
-- path there when it is resolved, with none where it leads out, and the number of a tenant.
pub record Paths : Type 0 where
  pub join : ℕ → Text → Text
  pub resolve : Text → Option (List Text)
  pub int : Text → Option ℕ

-- The query for the row of an entry.
abbrev pub is_row_of : Entry → TenantAttachment → Bool
is_row_of e a =
    a.tenant_id == e.tenant_id && (text_eq a.stored_name e.stored_name && a.size_bytes == e.size)

unfoldable pub has_row_of : List TenantAttachment → Entry → Bool
has_row_of rows e = any (is_row_of e) rows

module _ (sha256 : Content → Text) where
  abbrev pub entry_of : Pending → Entry
  entry_of p = record {
    staged_name = p.staged_name;
    tenant_id = p.tenant_id;
    stored_name = p.stored_name;
    size = length p.content;
    sha256 = sha256 p.content;
  }

  -- The size and the hash of a file are those of the entry.
  abbrev pub is_content_of : Entry → Content → Bool
  is_content_of e c = length c == e.size && text_eq (sha256 c) e.sha256

  abbrev pub drop_file : Text → Directory → Directory
  drop_file name d = filter (λ f. not (has_name name f)) d

  -- Without a row: a target that is there is removed, with the directory if it was the last file. The
  -- directory `tenants`, which goes too where it is empty, is not part of `Uploads`: it is made again
  -- with the next file.
  unfoldable pub discard :
      Entry → Option Content → Directory → Uploads → Result RestoreError (Directory × Uploads)
  unfolding delete_attachment
  discard e none staged u = ok (staged, u)
  discard e (some c) staged u = do
    raise_if (not (is_content_of e c)) RestoreError.orphan_differs
    ok (staged, delete_attachment e.tenant_id e.stored_name u)

  -- The staged file is moved to its target.
  unfoldable pub move :
      Entry → Option Content → Directory → Uploads → Result RestoreError (Directory × Uploads)
  unfolding write_file
  move e none staged u = err RestoreError.file_missing
  move e (some c) staged u = do
    raise_if (not (text_eq (sha256 c) e.sha256)) RestoreError.file_missing
    ok (drop_file e.staged_name staged, write_file e.tenant_id e.stored_name c u)

  -- With a row: a target that is there must be the right one.
  unfoldable pub complete :
      Entry → Option Content → Directory → Uploads → Result RestoreError (Directory × Uploads)
  unfolding move content_of
  complete e none staged u = move e (content_of e.staged_name (some staged)) staged u
  complete e (some c) staged u = do
    raise_if (not (is_content_of e c)) RestoreError.target_differs
    ok (staged, u)

  -- One round of the loop of `_finish_restore_journal`.
  unfoldable pub finish_entry :
      List TenantAttachment
      → Entry
      → Directory
      → Uploads
      → Result RestoreError (Directory × Uploads)
  unfolding discard complete has_row_of content_of
  finish_entry rows e staged u =
      let target = content_of e.stored_name (u.directory e.tenant_id) in
      if has_row_of rows e then complete e target staged u else discard e target staged u

-- The target of an entry: a tenant's file, below `tenants`.
module _ (paths : Paths) where
  -- `int` raises for what is no number, which ends the pass as the checks of the parts do.
  abbrev pub tenant_file : JournalEntry → Text → Option ℕ → Result RestoreError Entry
  tenant_file e stored_name none = err RestoreError.invalid_target
  tenant_file e stored_name (some tenant_id) = ok (record {
    staged_name = e.staged_name;
    tenant_id = tenant_id;
    stored_name = stored_name;
    size = e.size;
    sha256 = e.sha256;
  })

  abbrev pub read_parts : JournalEntry → List Text → Result RestoreError Entry
  read_parts e (root ∷ tenant ∷ stored_name ∷ []) =
      if text_eq root (text "tenants")
      then tenant_file e stored_name (paths.int tenant)
      else err RestoreError.invalid_target
  read_parts e parts = err RestoreError.invalid_target

  unfoldable pub read_entry : JournalEntry → Result RestoreError Entry
  read_entry e = elim (paths.resolve e.target) [
    | none ↦ err RestoreError.unsafe_target
    | some parts ↦ read_parts e parts
  ]

module _ (sha256 : Content → Text) (paths : Paths) where
  -- What `import_backup` writes to journal.json.
  abbrev pub journal_entry : Pending → JournalEntry
  journal_entry p = record {
    staged_name = p.staged_name;
    target = paths.join p.tenant_id p.stored_name;
    size = length p.content;
    sha256 = sha256 p.content;
  }

  abbrev pub journal_entries : List Pending → List JournalEntry
  journal_entries ps = map journal_entry ps

  -- The loop of `_finish_restore_journal`.
  unfoldable pub finish_entries :
      List TenantAttachment
      → List JournalEntry
      → Directory
      → Uploads
      → Result RestoreError (Directory × Uploads)
  unfolding read_entry finish_entry
  finish_entries rows [] staged u = ok (staged, u)
  finish_entries rows (e ∷ es) staged u = read_entry paths e >>= λ t.
      finish_entry sha256 rows t staged u >>= λ r. finish_entries rows es r.0 r.1

  -- `_finish_restore_journal` with `remove_journal`: where it returns, the journal is gone.
  unfoldable pub finish_restore_journal :
      List TenantAttachment → Journal → Uploads → Result RestoreError Uploads
  unfolding finish_entries
  finish_restore_journal rows journal u = elim journal.files [
    | none ↦ ok u
    | some es ↦ finish_entries rows es journal.staged u >>= λ r. ok r.1
  ]

  -- `recover_restore_journals`, over the journals that are there.
  unfoldable pub recover_restore_journals :
      List TenantAttachment → List Journal → Uploads → Result RestoreError Uploads
  unfolding finish_restore_journal
  recover_restore_journals rows [] u = ok u
  recover_restore_journals rows (j ∷ js) u =
      finish_restore_journal rows j u >>= λ u'. recover_restore_journals rows js u'
