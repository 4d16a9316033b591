-- ===== src/Backup/Limits.antt =====
-- The sizes of an archive and of what it unpacks to, as `validate_zip_metadata` of
-- backend/app/services/backup_limits.py bounds them.
use home_trap.Prelude.{
  ℕ, ◌≡◌, ◌≤◌, ◌+◌, ◌*◌, max, refl, inl, inr, false, List, [], ◌∷◌, arith, ltb, length, any-false,
  In,
}
use home_trap.Prelude.Result.{ok, raise_if, >>=-eq-ok, raise_if-eq-ok}
use home_trap.Backup.{
  Member, ArchiveMetadataLimitError, total_size, exceeds_ratio, validate_zip_metadata,
  max_backup_members, max_backup_uncompressed_size, max_backup_compression_ratio,
}

-- The sum of the stored sizes, an empty one counted as one byte.
unfoldable pub stored_size : List Member → ℕ
stored_size [] = 0
stored_size (m ∷ ms) = max m.compress_size 1 + stored_size ms

unpacked :
    (ms : List Member)
    → ((m : Member) → In m ms → exceeds_ratio m ≡ false)
    → total_size ms ≤ max_backup_compression_ratio * stored_size ms
unfolding total_size stored_size
unpacked [] h = omega arith
unpacked (m ∷ ms) h =
    let ih = unpacked ms (λ x mx. h x (inr mx)) in
    let here = h m (inl refl) in
    let bound : m.file_size ≤ 200 * max m.compress_size 1 = ground arith in omega arith

-- An archive that is accepted has at most 5000 members and unpacks to at most 256 MiB and to at most
-- 200 times what its members take in the archive, where an empty member counts as one byte.
pub validate_zip_metadata-bounds :
    (ms : List Member)
    → validate_zip_metadata ms ≡ ok tt
    → (length ms ≤ max_backup_members)
      × (total_size ms ≤ max_backup_uncompressed_size)
      × (total_size ms ≤ max_backup_compression_ratio * stored_size ms)
unfolding validate_zip_metadata
validate_zip_metadata-bounds ms h =
    let (_, few, h1) =
      >>=-eq-ok (raise_if (ltb max_backup_members (length ms)) ArchiveMetadataLimitError.members) _
        h in
    let (_, small, h2) =
      >>=-eq-ok
        (raise_if (ltb max_backup_uncompressed_size (total_size ms))
          ArchiveMetadataLimitError.uncompressed_size)
        _ h1 in
    let count = raise_if-eq-ok _ _ few in
    let size = raise_if-eq-ok _ _ small in
    let tight = raise_if-eq-ok _ _ h2 in
    (ground arith, ground arith, unpacked ms (any-false exceeds_ratio ms tight))
