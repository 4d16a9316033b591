-- ===== src/Tenants/Attachments.antt =====
-- The attachments of backend/app/routers/tenants.py: uploading, listing, downloading and removing.
pub mod Backed
pub mod Requests
use home_trap.Prelude.{
  ℕ, Bool, true, false, not, ◌&&◌, ◌||◌, Option, none, some, List, [], ◌∷◌, ◌++◌, map, Text, ltb,
  ◌==◌, length, filter, find?, if◌then◌else◌,
}
use home_trap.Prelude.Result.{Result, ok, err, ◌>>=◌, ◌>>◌, raise_if, or_raise}
use home_trap.Prelude.Sort.{sort_by}
use home_trap.Calendar.{DateTime, date_ltb, date_eq}
use home_trap.Models.{TenantAttachment, Db, next_key}
use home_trap.Storage.{
  Content, Directory, Uploads, content_of, unlink, save_attachment, delete_attachment,
}
use home_trap.Storage.Types.{
  or_blank, AttachmentType, attachment_types, attachment_type, validate_file_type,
}
use home_trap.Tenants.Deletion.{World, has_row}

abbrev pub max_attachment_size : ℕ
max_attachment_size = 10485760

abbrev pub max_attachment_files : ℕ
max_attachment_files = 10

-- A file of the request, with the token that `uuid4` gives it and whether the disk takes it.
pub record UploadFile : Type 0 where
  pub filename : Option Text
  pub content_type : Option Text
  pub content : Content
  pub token : Text
  pub disk : Bool

-- A file that has passed the checks.
pub record Prepared : Type 0 where
  pub filename : Text
  pub content_type : Text
  pub content : Content
  pub stored_name : Text
  pub disk : Bool

-- `ATTACHMENT_TYPES[content_type][0]`, of a type that is there.
abbrev suffix_for : Option AttachmentType → Text
suffix_for none = []
suffix_for (some t) = t.stored_suffix

unfoldable pub prepare : UploadFile → Result ℕ Prepared
unfolding validate_file_type attachment_type
prepare f = elim (validate_file_type (or_blank f.filename) f.content_type) [
  | err unsupported ↦ err 415
  | ok content_type ↦
      raise_if (ltb max_attachment_size (length f.content)) 413
      >> ok (record {
        filename = or_blank f.filename;
        content_type = content_type;
        content = f.content;
        stored_name = f.token ++ suffix_for (attachment_type content_type attachment_types);
        disk = f.disk;
      })
]

unfoldable pub prepare_all : List UploadFile → Result ℕ (List Prepared)
unfolding prepare
prepare_all [] = ok []
prepare_all (f ∷ fs) = do p ← prepare f; ps ← prepare_all fs; ok (p ∷ ps)

-- `for path in saved_paths: path.unlink(missing_ok=True)`
unfoldable pub unlink_all : ℕ → List Text → Uploads → Uploads
unfolding unlink
unlink_all tenant_id [] u = u
unlink_all tenant_id (name ∷ names) u = unlink_all tenant_id names (unlink tenant_id name u)

-- The loop that saves: whether all were saved, the names saved, and the files.
unfoldable pub save_all : ℕ → List Prepared → List Text → Uploads → Bool × List Text × Uploads
unfolding save_attachment
save_all tenant_id [] saved u = (true, saved, u)
save_all tenant_id (p ∷ ps) saved u = elim p.disk [
  | true ↦
      save_all tenant_id ps (p.stored_name ∷ saved)
        (save_attachment tenant_id p.stored_name p.content true u).1
  | false ↦ (false, saved, (save_attachment tenant_id p.stored_name p.content false u).1)
]

abbrev pub new_row : ℕ → DateTime → List TenantAttachment → Prepared → TenantAttachment
new_row tenant_id now rows p = record {
  id = next_key (λ (a : TenantAttachment). a.id) rows;
  tenant_id = tenant_id;
  original_name = p.filename;
  stored_name = p.stored_name;
  content_type = p.content_type;
  size_bytes = length p.content;
  uploaded_at = now;
}

unfoldable pub add_rows :
    ℕ → DateTime → List Prepared → List TenantAttachment → List TenantAttachment
add_rows tenant_id now [] rows = rows
add_rows tenant_id now (p ∷ ps) rows =
    add_rows tenant_id now ps (rows ++ new_row tenant_id now rows p ∷ [])

-- What follows the loop, by whether all files were saved and whether the commit gets through.
abbrev pub close_upload :
    ℕ → DateTime → List Prepared → World → Bool → Bool × List Text × Uploads → ℕ × World
close_upload tenant_id now ps w true (true, saved, u) =
    (201, record w { attachments = add_rows tenant_id now ps w.attachments; uploads = u })
close_upload tenant_id now ps w commits (all_saved, saved, u) =
    (500, record w { uploads = unlink_all tenant_id saved u })

abbrev respond_upload : ℕ → DateTime → World → Bool → Result ℕ (List Prepared) → ℕ × World
respond_upload tenant_id now w commits (err status) = (status, w)
respond_upload tenant_id now w commits (ok ps) =
    close_upload tenant_id now ps w commits (save_all tenant_id ps [] w.uploads)

-- The checks before anything is written.
unfoldable pub check_upload : World → ℕ → List UploadFile → Result ℕ (List Prepared)
unfolding prepare_all
check_upload w tenant_id files = do
  raise_if (not (has_row w.db tenant_id)) 404
  raise_if (length files == 0) 422
  raise_if (ltb max_attachment_files (length files)) 413
  prepare_all files

unfoldable pub upload_attachments : Bool → DateTime → World → ℕ → List UploadFile → ℕ × World
unfolding check_upload save_all add_rows unlink_all
upload_attachments commits now w tenant_id files =
    respond_upload tenant_id now w commits (check_upload w tenant_id files)

-- `ORDER BY uploaded_at DESC, id DESC`
abbrev newer : TenantAttachment → TenantAttachment → Bool
newer a b =
    if not (date_eq a.uploaded_at.day b.uploaded_at.day)
    then date_ltb b.uploaded_at.day a.uploaded_at.day
    else if not (a.uploaded_at.microseconds == b.uploaded_at.microseconds)
    then ltb b.uploaded_at.microseconds a.uploaded_at.microseconds
    else not (ltb a.id b.id)

unfoldable pub list_attachments : World → ℕ → Result ℕ (List TenantAttachment)
unfolding sort_by
list_attachments w tenant_id = do
  raise_if (not (has_row w.db tenant_id)) 404
  ok (sort_by newer (filter (λ (a : TenantAttachment). a.tenant_id == tenant_id) w.attachments))

abbrev pub has_key : ℕ → TenantAttachment → Bool
has_key attachment_id a = a.id == attachment_id

unfoldable pub get_attachment : World → ℕ → Result ℕ TenantAttachment
get_attachment w attachment_id = or_raise (find? (has_key attachment_id) w.attachments) 404

-- Stored names hold no separator, so the path does not leave the directory.
unfoldable pub download_attachment : World → ℕ → Result ℕ Content
unfolding get_attachment content_of
download_attachment w attachment_id = do
  a ← get_attachment w attachment_id
  or_raise (content_of a.stored_name (w.uploads.directory a.tenant_id)) 404

abbrev drop_row : ℕ → World → World
drop_row attachment_id w = record w {
  attachments = filter (λ (a : TenantAttachment). not (has_key attachment_id a)) w.attachments;
}

-- The row first, then the file; where the commit raises, neither.
unfoldable pub remove_attachment : Bool → World → ℕ → ℕ × World
unfolding get_attachment delete_attachment
remove_attachment commits w attachment_id = elim (get_attachment w attachment_id) [
  | err status ↦ (status, w)
  | ok a ↦
      if commits
      then (
        204,
        record (drop_row attachment_id w) {
          uploads = delete_attachment a.tenant_id a.stored_name w.uploads;
        },
      )
      else (500, w)
]
