-- ===== src/Examples/Files.antt =====
-- The files of one tenant: its deletion, its attachments, and the restore of one of them.
use home_trap.Prelude.{
  ℕ, All, ◌≡◌, refl, sym, ap, ◌∙◌, map, inl, inr, true, Option, none, some, List, [], ◌∷◌, Text,
  text, ◌==◌, if◌then◌else◌,
}
use home_trap.Prelude.Result.{ok, ok-injective}
use home_trap.Calendar.{date}
use home_trap.Billing.Adjustments.Strip.{strip}
use home_trap.Models.{Tenant, TenantAttachment, Db}
use home_trap.Tenants.{Payload, new_tenant, create_tenant}
use home_trap.Storage.{Content, Directory, Staged, write_file, content_of}
use home_trap.Storage.Types.{validate_file_type}
use home_trap.Tenants.Deletion.{Phase, World, begin_delete, commit_delete, clean_one, tear, restart}
use home_trap.Tenants.Deletion.Recovery.{IsTidy}
use home_trap.Tenants.Deletion.Leftovers.{IsOrderly}
use home_trap.Tenants.Deletion.Refinement.{Run, here, next, Recovers, Run-Recovers}
use home_trap.Tenants.Deletion.Moves.{Step}
use home_trap.Tenants.Deletion.Reuse.{restart_gives_old_files}
use home_trap.Tenants.Attachments.{
  UploadFile, Prepared, check_upload, prepare_all, prepare, upload_attachments, remove_attachment,
}
use home_trap.Tenants.Attachments.Backed.{IsBacked, AreApart}
use home_trap.Tenants.Attachments.Requests.{
  AreFresh, AreBacked, Request, Requests, Requests-AreBacked,
}
use home_trap.Restore.Journal.{
  Paths, read_entry, Pending, journal_entries, finish_entries, has_row_of,
}
use home_trap.Restore.Journal.Finishing.{Disk, ArePendingApart}
use home_trap.Restore.Journal.Recovery.{IsReadable, Stops, Recovered, import-Recovered}
use home_trap.Examples.Data.{store, now}

abbrev contract : Payload
contract = record {
  full_name = text "Olha";
  phone = none;
  email = none;
  contract_start = date 2026 1 10;
  contract_end = none;
  billing_day = some 31;
  notes = none;
}

abbrev let_out : Db
let_out = record store { tenants = new_tenant store 1 contract ∷ [] }

abbrev scan : Content
scan = 37 ∷ 80 ∷ []

abbrev scans : Directory
scans = (text "a.pdf", scan) ∷ []

abbrev scan_row : TenantAttachment
scan_row = record {
  id = 1;
  tenant_id = 1;
  original_name = text "Contract.pdf";
  stored_name = text "a.pdf";
  content_type = text "application/pdf";
  size_bytes = 2;
  uploaded_at = now;
}

abbrev only_first : Option Directory → ℕ → Option Directory
only_first d i = if i == 1 then d else none

abbrev rented : World
rented = record {
  db = let_out;
  attachments = scan_row ∷ [];
  uploads = record { directory = only_first (some scans); deleting = [] };
  phase = Phase.idle;
}

rented-IsOrderly : IsOrderly rented
unfolding IsOrderly
rented-IsOrderly s m = absurd m

abbrev deleted : World
deleted = commit_delete (begin_delete 1 (text "t") rented)

abbrev half_removed : World
half_removed = tear [] deleted

image_type :
    validate_file_type (text "a/B.JPEG") (some (text " Image/JPEG; q=1")) ≡ ok (text "image/jpeg")
unfolding validate_file_type strip
image_type = refl

abbrev scan_file : Staged
scan_file = record { tenant_id = 1; token = text "t"; files = scans }

abbrev failed : World
failed = clean_one (some []) half_removed

-- The removal comes half-way and fails there, and the request ends.
removal_failed : Run rented failed
unfolding begin_delete commit_delete tear
removal_failed =
    next half_removed failed
      (next deleted half_removed
        (next (begin_delete 1 (text "t") rented) deleted
          (next rented (begin_delete 1 (text "t") rented) here (Step.begins 1 (text "t") refl refl))
          (Step.commits 1 (some scan_file) (scan_file ∷ []) refl))
        (Step.tears [] scan_file [] refl))
      (Step.cleans (some []) (record scan_file { files = [] } ∷ []) refl)

Run-Recovers_example : Recovers rented failed
Run-Recovers_example = Run-Recovers rented failed rented-IsOrderly removal_failed

-- The tenant that comes after the one that was deleted.
abbrev next_tenant : Tenant
next_tenant = new_tenant deleted.db 1 contract

deleted-IsTidy : IsTidy deleted
unfolding IsTidy begin_delete commit_delete
deleted-IsTidy = (refl, refl, refl, refl)

restart_gives_old_files_example :
    (w' : World) × (restart (record (clean_one (some scans) deleted) { db = let_out }) ≡ ok w')
    × (w'.uploads.directory 1 ≡ some scans)
unfolding create_tenant begin_delete commit_delete
restart_gives_old_files_example =
    restart_gives_old_files deleted scan_file scans let_out 1 contract next_tenant deleted-IsTidy
      refl refl refl

abbrev photo : UploadFile
photo = record {
  filename = some (text "key.png");
  content_type = some (text "image/png");
  content = 137 ∷ 80 ∷ [];
  token = text "b";
  disk = true;
}

abbrev uploaded : World
uploaded = (upload_attachments true now rented 1 (photo ∷ [])).1

rented-IsBacked : IsBacked rented.attachments rented.uploads
rented-IsBacked a (inl e) = rw e refl
rented-IsBacked a (inr n) = absurd n

abbrev photo_prepared : Prepared
photo_prepared = record {
  filename = text "key.png";
  content_type = text "image/png";
  content = 137 ∷ 80 ∷ [];
  stored_name = text "b.png";
  disk = true;
}

rented-AreApart : AreApart rented.attachments
rented-AreApart a b (inl e) (inl f) h = ap (λ (x : TenantAttachment). x.id) (e ∙ sym f)
rented-AreApart a b (inl e) (inr n) h = absurd n
rented-AreApart a b (inr n) mb h = absurd n

photo_fresh : AreFresh rented 1 (photo ∷ [])
unfolding check_upload prepare_all prepare validate_file_type strip
photo_fresh ps h =
    let e : photo_prepared ∷ [] ≡ ps = ok-injective h in
    rw (← e) (
      λ p m a n. elim m [
        | inr z ↦ absurd z
        | inl f ↦ elim n [ inr z ↦ absurd z | inl g ↦ rw (f, g) refl ]
      ],
      (λ q z. absurd z, tt),
    )

abbrev removed : World
removed = (remove_attachment true uploaded 1).1

Requests-AreBacked_example : AreBacked removed
Requests-AreBacked_example =
    Requests-AreBacked rented removed (rented-IsBacked, rented-AreApart)
      (Requests.after uploaded removed
        (Requests.after rented uploaded Requests.none_yet
          (Request.upload true now 1 (photo ∷ []) photo_fresh))
        (Request.remove true 1))

-- The photo's file and row are left.
photo_left :
    (removed.uploads.directory 1 ≡ some ((text "b.png", 137 ∷ 80 ∷ []) ∷ []))
    × (map (λ (a : TenantAttachment). a.id) removed.attachments ≡ 2 ∷ [])
unfolding upload_attachments remove_attachment check_upload prepare_all prepare validate_file_type
    strip
photo_left = (refl, refl)

abbrev first : Pending
first = record { staged_name = text "5"; content = scan; tenant_id = 1; stored_name = text "a.pdf" }

abbrev second : Pending
second = record {
  staged_name = text "6";
  content = 1 ∷ [];
  tenant_id = 1;
  stored_name = text "c.pdf";
}

abbrev pending : List Pending
pending = first ∷ second ∷ []

abbrev sum : Content → Text
sum c = c

-- The number of the tenant stands before the name.
abbrev parts_of : Text → Option (List Text)
parts_of [] = none
parts_of (id ∷ name) = some (text "tenants" ∷ (id ∷ []) ∷ name ∷ [])

abbrev number_of : Text → Option ℕ
number_of [] = none
number_of (id ∷ rest) = some id

abbrev flat_paths : Paths
flat_paths = record { join = λ id name. id ∷ name; resolve = parts_of; int = number_of }

pending-IsReadable : All (IsReadable flat_paths) pending
pending-IsReadable = ((1 ∷ [], refl, refl), ((1 ∷ [], refl, refl), tt))

abbrev before_import : Disk
before_import = (
  (text "5", scan) ∷ (text "6", 1 ∷ []) ∷ [],
  record { directory = only_first none; deleting = [] },
)

abbrev key_row : TenantAttachment
key_row = record scan_row { id = 2; stored_name = text "c.pdf"; size_bytes = 1 }

abbrev after_first : Disk
after_first = ((text "6", 1 ∷ []) ∷ [], write_file 1 (text "a.pdf") scan before_import.1)

first_moved :
    finish_entries sum flat_paths
      (scan_row ∷ key_row ∷ [])
      (journal_entries sum flat_paths (first ∷ []))
      before_import.0
      before_import.1
    ≡ ok after_first
unfolding finish_entries read_entry write_file
first_moved = refl

pending_apart : ArePendingApart pending
pending_apart = (((refl, refl), tt), (tt, tt))

-- The import has stopped after its first file, and its rows were not committed.
import-Recovered_example : Recovered sum flat_paths [] pending before_import after_first
unfolding has_row_of content_of
import-Recovered_example =
    import-Recovered sum flat_paths (scan_row ∷ key_row ∷ []) [] pending (first ∷ []) (second ∷ [])
      before_import after_first after_first pending-IsReadable pending_apart
      (inr (refl, refl), (inr (refl, refl), tt)) (refl, (refl, tt)) refl first_moved Stops.here
