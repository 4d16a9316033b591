-- ===== src/Restore/Journal/Recovery.antt =====
-- The files of an import, in backend/app/services/restore.py, under the passes over its journal, whole or
-- stopped, and under the removal of the journal.
use home_trap.Prelude.{
  ℕ, ◌≡◌, refl, sym, ◌∙◌, inl, inr, true, false, none, some, List, [], ◌∷◌, ◌++◌, Text, text,
  text_eq_sym, Bool-cases, All, ==_sym, append_nil, if◌then◌else◌,
}
use home_trap.Prelude.Result.{ok, ok-injective}
use mathlib.Core.Path.{subst}
use home_trap.Models.{TenantAttachment}
use home_trap.Storage.{Content, Directory, Uploads}
use home_trap.Restore.Journal.{
  Journal, Pending, has_row_of, entry_of, discard, complete, journal_entries, finish_entry,
  finish_entries, finish_restore_journal, Paths, journal_entry, read_entry, tenant_file,
}
use home_trap.Restore.Journal.Files.{file}
use home_trap.Restore.Journal.Finishing.{
  is_target, Differ, ArePendingApart, target, Disk, IsKept, Fits, IsDone, Changes, finish_one,
  IsDone-Fits, row_of, right_content,
}

-- No pending file has this target.
abbrev IsOther : List Pending → ℕ → Text → Type 0
IsOther ps i m = All (λ p. is_target p i m ≡ false) ps

-- The targets of the others stay.
abbrev Leaves : List Pending → Disk → Disk → Type 0
Leaves ps d d' = (i : ℕ) (m : Text) → IsOther ps i m → file d'.1 i m ≡ file d.1 i m

-- Two targets are told apart alike from both sides.
apart_target :
    (p q : Pending)
    → is_target p q.tenant_id q.stored_name ≡ false
    → is_target q p.tenant_id p.stored_name ≡ false
apart_target p q h = rw (==_sym p.tenant_id q.tenant_id, text_eq_sym q.stored_name p.stored_name) h

apart_targets :
    (p : Pending) (qs : List Pending) → All (Differ p) qs → IsOther qs p.tenant_id p.stored_name
apart_targets p [] a = tt
apart_targets p (q ∷ qs) ((a, _), as') = (apart_target p q a, apart_targets p qs as')

-- The target that is written for a pending file reads as its tenant and name.
abbrev pub IsReadable : Paths → Pending → Type 0
IsReadable paths p =
    (tenant : Text) × (paths.resolve (paths.join p.tenant_id p.stored_name)
      ≡ some (text "tenants" ∷ tenant ∷ p.stored_name ∷ []))
    × (paths.int tenant ≡ some p.tenant_id)

read_back :
    (sha256 : Content → Text) (paths : Paths) (p : Pending)
    → IsReadable paths p
    → read_entry paths (journal_entry sha256 paths p) ≡ ok (entry_of sha256 p)
unfolding read_entry
read_back sha256 paths p (tenant, resolved, number) =
    rw (resolved, read_entry) (rw (number, tenant_file) refl)

module _ (sha256 : Content → Text) (paths : Paths) (rows : List TenantAttachment) where
  after_one :
      (p : Pending) (d d' : Disk)
      → Changes sha256 rows p d d'
      → (q : Pending) → Differ p q
      → Fits sha256 rows q d
      → Fits sha256 rows q d'
  after_one p d d' (files, staged) q (a, b) fits =
      rw (files q.tenant_id q.stored_name a, staged q.staged_name b) fits

  after_one_each :
      (p : Pending) (d d' : Disk)
      → Changes sha256 rows p d d'
      → (qs : List Pending) → All (Differ p) qs
      → All (λ q. Fits sha256 rows q d) qs
      → All (λ q. Fits sha256 rows q d') qs
  after_one_each p d d' c [] a f = tt
  after_one_each p d d' c (q ∷ qs) (a, as') (f, fs) =
      (after_one p d d' c q a f, after_one_each p d d' c qs as' fs)

  -- A pass that stops between two entries, or at the end.
  abbrev Passed : List Pending → List Pending → Disk → Type 0
  Passed before after d =
      (d' : Disk) × (finish_entries sha256 paths rows (journal_entries sha256 paths before) d.0 d.1
        ≡ ok d')
      × All (λ p. IsDone sha256 rows p d') before
      × All (λ p. Fits sha256 rows p d') (before ++ after)
      × Leaves (before ++ after) d d'

  pass :
      (before after : List Pending) (d : Disk)
      → All (IsReadable paths) (before ++ after)
      → ArePendingApart (before ++ after)
      → All (λ p. Fits sha256 rows p d) (before ++ after)
      → Passed before after d
  unfolding finish_entries
  pass [] after d t a f = (d, refl, tt, f, λ i m o. refl)
  pass (p ∷ before) after d (readable, t') (ap', a) (f, fs) =
      let (d1, e, t, c) = finish_one sha256 rows p d f in
      let (d2, es, ts, fs2, l) =
        pass before after d1 t' a (after_one_each p d d1 c (before ++ after) ap' fs) in
      let h : IsDone sha256 rows p d2 =
        l p.tenant_id p.stored_name (apart_targets p (before ++ after) ap') ∙ t in
      (
        d2,
        rw (read_back sha256 paths p readable, e) es,
        (h, ts),
        (IsDone-Fits sha256 rows p d2 h, fs2),
        λ i m o. l i m o.1 ∙ c.0 i m o.0,
      )

  -- The recovery of the files of an import, as often as it is stopped before it gets through.
  pub data Stops (ps : List Pending) : Disk → Disk → Type 0 where
    here : {d : Disk} → Stops ps d d
    stops :
        {d d' d'' : Disk} (before after : List Pending)
        → before ++ after ≡ ps
        → finish_entries sha256 paths rows (journal_entries sha256 paths before) d.0 d.1 ≡ ok d'
        → Stops ps d' d''
        → Stops ps d d''

  -- All of its files fit, and the targets of the others are as they were.
  abbrev Fit : List Pending → Disk → Disk → Type 0
  Fit ps d d' = All (λ p. Fits sha256 rows p d') ps × Leaves ps d d'

  pass-Fit :
      (before after : List Pending) (d d' : Disk)
      → All (IsReadable paths) (before ++ after)
      → ArePendingApart (before ++ after)
      → All (λ p. Fits sha256 rows p d) (before ++ after)
      → finish_entries sha256 paths rows (journal_entries sha256 paths before) d.0 d.1 ≡ ok d'
      → Fit (before ++ after) d d'
  pass-Fit before after d d' t a f e =
      let (d1, e1, _, f1, l1) = pass before after d t a f in
      subst (λ x. Fit (before ++ after) d x) (ok-injective (sym e1 ∙ e)) (f1, l1)

  Stops-Fit :
      (ps : List Pending) (d d' : Disk)
      → All (IsReadable paths) ps
      → ArePendingApart ps
      → All (λ p. Fits sha256 rows p d) ps
      → Stops ps d d'
      → Fit ps d d'
  Stops-Fit ps d d' t a f here = (f, λ i m o. refl)
  Stops-Fit ps d d' t a f (stops {d' = d1} before after q e r) =
      let (f1, l1) : Fit ps d d1 =
        subst (λ x. Fit x d d1) q (pass-Fit before after d d1 (rw q t) (rw q a) (rw q f) e) in
      let (f2, l2) = Stops-Fit ps d1 d' t a f1 r in (f2, λ i m o. l2 i m o ∙ l1 i m o)

  -- An entry that is done is passed over.
  finish_done :
      (p : Pending) (d : Disk)
      → IsDone sha256 rows p d
      → finish_entry sha256 rows (entry_of sha256 p) d.0 d.1 ≡ ok d
  unfolding finish_entry discard complete
  finish_done p d h = elim (Bool-cases (row_of sha256 rows p)) [
    | inl r ↦
        let t : target p d.1 ≡ some p.content = h ∙ rw r refl in
        rw (r, t, complete, right_content sha256 rows p) refl
    | inr r ↦ let t : target p d.1 ≡ none = h ∙ rw r refl in rw (r, t, discard) refl
  ]

  finish_again :
      (ps : List Pending) (d : Disk)
      → All (IsReadable paths) ps
      → All (λ p. IsDone sha256 rows p d) ps
      → finish_entries sha256 paths rows (journal_entries sha256 paths ps) d.0 d.1 ≡ ok d
  unfolding finish_entries
  finish_again [] d t h = refl
  finish_again (p ∷ ps) d (readable, t) (h, hs) =
      rw (read_back sha256 paths p readable, finish_done p d h) (finish_again ps d t hs)

  any_staged :
      (ps : List Pending) (d : Disk) (left : Directory)
      → All (λ p. IsDone sha256 rows p d) ps
      → All (λ p. IsDone sha256 rows p (left, d.1)) ps
  any_staged [] d left h = tt
  any_staged (p ∷ ps) d left (h, hs) = (h, any_staged ps d left hs)

  abbrev journal_of : List Pending → Directory → Journal
  journal_of ps staged = record { staged = staged; files = some (journal_entries sha256 paths ps) }

  -- The recovery gets through and leaves exactly the files that have rows; the others stay, and what is left
  -- of the journal changes nothing.
  abbrev pub Recovered : List Pending → Disk → Disk → Type 0
  Recovered ps d (staged, u) =
      (u' : Uploads) × (finish_restore_journal sha256 paths rows (journal_of ps staged) u ≡ ok u')
      × All (λ p. target p u' ≡ (if row_of sha256 rows p then some p.content else none)) ps
      × ((i : ℕ) (m : Text) → IsOther ps i m → file u' i m ≡ file d.1 i m)
      × ((left : Directory)
          → finish_restore_journal sha256 paths rows (journal_of ps left) u' ≡ ok u')

  whole_pass :
      (ps : List Pending) (d : Disk)
      → All (IsReadable paths) ps
      → ArePendingApart ps
      → All (λ p. Fits sha256 rows p d) ps
      → Recovered ps d d
  unfolding finish_restore_journal
  whole_pass ps d readable a f =
      let (d', e, t, _, l) =
        pass ps [] d (rw (append_nil ps) readable) (rw (append_nil ps) a) (rw (append_nil ps) f) in
      (
        d'.1,
        rw e refl,
        t,
        (λ i m o. l i m (rw (append_nil ps) o)),
        (λ left. rw (finish_again ps (left, d'.1) readable (any_staged ps d' left t)) refl),
      )

  -- Where the files of the import are kept, the recovery finds what it needs whatever the rows.
  IsKept-Fits :
      (ps : List Pending) (d : Disk) → All (λ p. IsKept p d) ps → All (λ p. Fits sha256 rows p d) ps
  IsKept-Fits [] d k = tt
  IsKept-Fits (p ∷ ps) d (k, ks) =
      ((λ r. k, λ r. elim k [ inl t ↦ inl t | inr h ↦ inr h.0 ]), IsKept-Fits ps d ks)

  Fits-IsKept :
      (ps : List Pending) (d : Disk)
      → All (λ p. row_of sha256 rows p ≡ true) ps
      → All (λ p. Fits sha256 rows p d) ps
      → All (λ p. IsKept p d) ps
  Fits-IsKept [] d r f = tt
  Fits-IsKept (p ∷ ps) d (r, rs) (f, fs) = (f.0 r, Fits-IsKept ps d rs fs)

-- Where the targets that are written read as the tenants and names of the pending files: an import that
-- has staged its files, each with nothing at its target or already there, and written
-- its journal, moves them while it sees all of its rows, and stops after any of them. The
-- recoveries that follow stop as often as they like. If they find the rows `rows` (those of the
-- commit, or those before), the recovery that is not stopped succeeds, each target holds its file
-- where its row is there and is absent where it is not, no other file has changed, and the recovery
-- run again over what is left of the staged files changes nothing.
pub import-Recovered :
    (sha256 : Content → Text) (paths : Paths) (flushed rows : List TenantAttachment)
    (ps before after : List Pending) (d d1 d2 : Disk)
    → All (IsReadable paths) ps
    → ArePendingApart ps
    → All (λ p. IsKept p d) ps
    → All (λ p. has_row_of flushed (entry_of sha256 p) ≡ true) ps
    → before ++ after ≡ ps
    → finish_entries sha256 paths flushed (journal_entries sha256 paths before) d.0 d.1 ≡ ok d1
    → Stops sha256 paths rows ps d1 d2
    → Recovered sha256 paths rows ps d d2
import-Recovered sha256 paths flushed rows ps before after d d1 d2 t a k all q e r =
    let (f1, l1) : Fit sha256 paths flushed ps d d1 =
      subst (λ x. Fit sha256 paths flushed x d d1) q
        (pass-Fit sha256 paths flushed before after d d1 (rw q t) (rw q a)
          (rw q (IsKept-Fits sha256 paths flushed ps d k)) e) in
    let (f2, l2) =
      Stops-Fit sha256 paths rows ps d1 d2 t a
        (IsKept-Fits sha256 paths rows ps d1 (Fits-IsKept sha256 paths flushed ps d1 all f1)) r in
    let (u, g, done, l, again) = whole_pass sha256 paths rows ps d2 t a f2 in
    (u, g, done, (λ i m o. l i m o ∙ l2 i m o ∙ l1 i m o), again)
