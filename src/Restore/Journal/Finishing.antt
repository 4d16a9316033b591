-- ===== src/Restore/Journal/Finishing.antt =====
-- One entry of the restore journal of backend/app/services/restore.py: what `_finish_restore_journal`
-- needs of it and what it leaves.
use home_trap.Prelude.{
  ℕ, ◌≡◌, refl, ◌∙◌, ◌⊎◌, inl, inr, Bool, true, false, Option, none, some, List, [], ◌∷◌, Text,
  text_eq, text_eq_refl, eq→==, length, Bool-cases, All, if◌then◌else◌,
}
use home_trap.Prelude.Result.{ok}
use home_trap.Models.{TenantAttachment}
use home_trap.Storage.{Content, Directory, Uploads, content_of, delete_attachment, write_file}
use home_trap.Storage.Files.{at_name}
use home_trap.Restore.Journal.{
  Pending, has_row_of, entry_of, is_content_of, drop_file, discard, move, complete, finish_entry,
}
use home_trap.Restore.Journal.Files.{
  file, content_of-dropped, file-write_file, file-delete_attachment,
}

-- The target of a pending file.
abbrev pub is_target : Pending → ℕ → Text → Bool
is_target p i m = at_name p.tenant_id p.stored_name i m

-- Two pending files have different targets and different staged names.
abbrev pub Differ : Pending → Pending → Type 0
Differ p q =
    (is_target p q.tenant_id q.stored_name ≡ false) × (text_eq p.staged_name q.staged_name ≡ false)

abbrev pub ArePendingApart : List Pending → Type 0
ArePendingApart [] = Unit
ArePendingApart (p ∷ ps) = All (Differ p) ps × ArePendingApart ps

-- What stands at the target.
abbrev pub target : Pending → Uploads → Option Content
target p u = file u p.tenant_id p.stored_name

-- The journal's staged files and the attachments.
abbrev pub Disk : Type 0
Disk = Directory × Uploads

-- The file is at its target, or staged with nothing at the target.
abbrev pub IsKept : Pending → Disk → Type 0
IsKept p (staged, u) =
    (target p u ≡ some p.content)
    ⊎ ((target p u ≡ none) × (content_of p.staged_name (some staged) ≡ some p.content))

abbrev pub IsFree : Pending → Disk → Type 0
IsFree p (staged, u) = (target p u ≡ some p.content) ⊎ (target p u ≡ none)

module _ (sha256 : Content → Text) (rows : List TenantAttachment) where
  abbrev pub row_of : Pending → Bool
  row_of p = has_row_of rows (entry_of sha256 p)

  -- What the pass over the journal needs of a pending file.
  abbrev pub Fits : Pending → Disk → Type 0
  Fits p d = ((row_of p ≡ true) → IsKept p d) × ((row_of p ≡ false) → IsFree p d)

  -- What it leaves.
  abbrev pub IsDone : Pending → Disk → Type 0
  IsDone p d = target p d.1 ≡ (if row_of p then some p.content else none)

  pub IsDone-Fits : (p : Pending) (d : Disk) → IsDone p d → Fits p d
  IsDone-Fits p d h = (λ r. inl (h ∙ rw r refl), λ r. inr (h ∙ rw r refl))

  pub right_content : (p : Pending) → is_content_of sha256 (entry_of sha256 p) p.content ≡ true
  right_content p =
      rw (eq→== (length p.content) (length p.content) refl, text_eq_refl (sha256 p.content)) refl

  -- What the pass over one entry changes: its target and its staged file.
  abbrev pub Changes : Pending → Disk → Disk → Type 0
  Changes p (staged, u) (staged', u') =
      ((i : ℕ) (m : Text) → is_target p i m ≡ false → file u' i m ≡ file u i m)
      × ((n : Text)
          → text_eq p.staged_name n ≡ false
          → content_of n (some staged') ≡ content_of n (some staged))

  abbrev pub Finished : Pending → Disk → Type 0
  Finished p d =
      (d' : Disk) × (finish_entry sha256 rows (entry_of sha256 p) d.0 d.1 ≡ ok d')
      × IsDone p d'
      × Changes p d d'

  pub own_target : (p : Pending) → is_target p p.tenant_id p.stored_name ≡ true
  own_target p = rw (eq→== p.tenant_id p.tenant_id refl, text_eq_refl p.stored_name) refl

  finish_present :
      (p : Pending) (d : Disk) → row_of p ≡ true → target p d.1 ≡ some p.content → Finished p d
  unfolding finish_entry complete
  finish_present p d r t =
      (d, rw (r, t, complete, right_content p) refl, t ∙ rw r refl, (λ i m o. refl, λ n o. refl))

  finish_staged :
      (p : Pending) (d : Disk)
      → row_of p ≡ true
      → target p d.1 ≡ none
      → content_of p.staged_name (some d.0) ≡ some p.content
      → Finished p d
  unfolding finish_entry complete move
  finish_staged p (staged, u) r t c = (
    (drop_file sha256 p.staged_name staged, write_file p.tenant_id p.stored_name p.content u),
    rw (r, t, complete, c, move, text_eq_refl (sha256 p.content)) refl,
    file-write_file p.tenant_id p.stored_name p.content u p.tenant_id p.stored_name
        ∙ rw (own_target p, r) refl,
    (
      λ i m o. file-write_file p.tenant_id p.stored_name p.content u i m ∙ rw o refl,
      λ n o. content_of-dropped p.staged_name n staged ∙ rw o refl,
    ),
  )

  finish_orphan :
      (p : Pending) (d : Disk) → row_of p ≡ false → target p d.1 ≡ some p.content → Finished p d
  unfolding finish_entry discard
  finish_orphan p (staged, u) r t = (
    (staged, delete_attachment p.tenant_id p.stored_name u),
    rw (r, t, discard, right_content p) refl,
    file-delete_attachment p.tenant_id p.stored_name u p.tenant_id p.stored_name
        ∙ rw (own_target p, r) refl,
    (λ i m o. file-delete_attachment p.tenant_id p.stored_name u i m ∙ rw o refl, λ n o. refl),
  )

  finish_absent : (p : Pending) (d : Disk) → row_of p ≡ false → target p d.1 ≡ none → Finished p d
  unfolding finish_entry discard
  finish_absent p d r t = (d, rw (r, t, discard) refl, t ∙ rw r refl, (λ i m o. refl, λ n o. refl))

  pub finish_one : (p : Pending) (d : Disk) → Fits p d → Finished p d
  finish_one p d (kept, free) = elim (Bool-cases (row_of p)) [
    | inl r ↦ elim (kept r) [ inl t ↦ finish_present p d r t | inr h ↦ finish_staged p d r h.0 h.1 ]
    | inr r ↦ elim (free r) [ inl t ↦ finish_orphan p d r t | inr t ↦ finish_absent p d r t ]
  ]
