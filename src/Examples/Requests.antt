-- ===== src/Examples/Requests.antt =====
-- Requests on the small rental.
use home_trap.Prelude.{◌≡◌, ◌≤◌, ◌*◌, length, List, ◌∷◌, refl, some, none, []}
use home_trap.Prelude.Int.{pos}
use home_trap.Prelude.Result.{ok, err}
use home_trap.Nbu.{Http, get_rate}
use home_trap.Billing.Lifecycle.{IsSound}
use home_trap.Invoices.{Request, serve, create_invoice, create_rated}
use home_trap.Invoices.Soundness.{serve-IsSound}
use home_trap.Backup.{
  Member, ArchiveMetadataLimitError, total_size, validate_zip_metadata, max_backup_members,
  max_backup_uncompressed_size, max_backup_compression_ratio,
}
use home_trap.Backup.Limits.{stored_size, validate_zip_metadata-bounds}
use home_trap.Examples.Data.{store, january}
use home_trap.Examples.Billing.{store-IsSound}

abbrev answers : Http
answers day currency = some (pos 41500000)

abbrev silent : Http
silent day currency = none

abbrev wanted : Request
wanted = Request.create answers none 1 january

without_rate : (serve store (Request.create silent none 1 january)).0 ≡ err 503
unfolding serve create_invoice get_rate create_rated
without_rate = refl

serve-IsSound_example : IsSound (serve store wanted).1
serve-IsSound_example = serve-IsSound store wanted store-IsSound

-- Two files: one of 1000 bytes in 10, and an empty one.
abbrev archive : List Member
archive =
    record { file_size = 1000; compress_size = 10 }
    ∷ record { file_size = 0; compress_size = 0 }
    ∷ []

bomb_refused :
    validate_zip_metadata (record { file_size = 2001; compress_size = 10 } ∷ [])
    ≡ err ArchiveMetadataLimitError.compression_ratio
unfolding validate_zip_metadata
bomb_refused = refl

is_accepted : validate_zip_metadata archive ≡ ok tt
unfolding validate_zip_metadata
is_accepted = refl

validate_zip_metadata-bounds_example :
    (length archive ≤ max_backup_members)
    × (total_size archive ≤ max_backup_uncompressed_size)
    × (total_size archive ≤ max_backup_compression_ratio * stored_size archive)
validate_zip_metadata-bounds_example = validate_zip_metadata-bounds archive is_accepted
