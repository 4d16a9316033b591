-- ===== src/Backup.antt =====
-- backend/app/services/backup_limits.py: the quotas on the members of a backup archive. The archives
-- themselves and the restore are not modelled.
pub mod Limits
use home_trap.Prelude.{
  ℕ, ◌+◌, ◌*◌, max, Bool, true, false, ◌&&◌, List, [], ◌∷◌, ltb, leb, length, any, if◌then◌else◌,
}
use home_trap.Prelude.Result.{Result, ok, err, ◌>>◌, raise_if}

abbrev pub max_backup_uncompressed_size : ℕ
max_backup_uncompressed_size = 268435456

abbrev pub max_backup_members : ℕ
max_backup_members = 5000

abbrev pub max_backup_compression_ratio : ℕ
max_backup_compression_ratio = 200

-- What the quotas read of a `ZipInfo`.
pub record Member : Type 0 where
  pub file_size : ℕ
  pub compress_size : ℕ

-- `ArchiveMetadataLimitError`, by its `limit`.
pub data ArchiveMetadataLimitError : Type 0 where
  members uncompressed_size compression_ratio : ArchiveMetadataLimitError

unfoldable pub total_size : List Member → ℕ
total_size [] = 0
total_size (m ∷ ms) = m.file_size + total_size ms

-- The quotient of the two sizes is above the limit. Python divides to a float; the total size has
-- been checked by then, so the float is above the limit exactly where the quotient is.
abbrev pub exceeds_ratio : Member → Bool
exceeds_ratio m =
    ltb 0 m.file_size && ltb (max_backup_compression_ratio * max m.compress_size 1) m.file_size

unfoldable pub validate_zip_metadata : List Member → Result ArchiveMetadataLimitError (Unit {0})
unfolding total_size
validate_zip_metadata ms = do
  raise_if (ltb max_backup_members (length ms)) ArchiveMetadataLimitError.members
  raise_if (ltb max_backup_uncompressed_size (total_size ms))
      ArchiveMetadataLimitError.uncompressed_size
  raise_if (any exceeds_ratio ms) ArchiveMetadataLimitError.compression_ratio
