-- ===== src/Tenants/Deletion/Leftovers.antt =====
-- The directories that deletions have left in `.deleting`, and what the start of the program does to
-- them.
use home_trap.Prelude.{
  ℕ, ◌≡◌, refl, sym, ap, ◌∙◌, inl, inr, Bool, true, false, none, some, List, [], ◌∷◌, ◌++◌,
  text_eq_refl, eq→==, In, In-filter, In-append, not-true,
}
use mathlib.Core.Bool.{false≢true}
use home_trap.Prelude.Result.{ok}
use home_trap.Models.{Db}
use home_trap.Storage.{
  Staged, Uploads, restore_staged_tenant_files, delete_staged_tenant_files,
  recover_tenant_file_deletions, recover_all, same_name, drop_staged, set_directory,
}
use home_trap.Tenants.Deletion.{Phase, World, has_row, restart}
use home_trap.Tenants.Deletion.Recovery.{view, files_of, restarted}

-- Directories of tenants that have no row, and directories of one tenant.
abbrev pub AreRowless : Db → List Staged → Type 0
AreRowless db ss = (s : Staged) → In s ss → has_row db s.tenant_id ≡ false

abbrev pub AreOf : ℕ → List Staged → Type 0
AreOf id ss = (s : Staged) → In s ss → s.tenant_id ≡ id

-- How the staged directories fit the phase: but for the one that a request holds, all are of tenants
-- without a row.
abbrev pub Fit : Phase → Db → Uploads → Type 0
Fit Phase.idle db u = AreRowless db u.deleting
Fit (Phase.staged id none pending) db u =
    AreRowless db u.deleting × AreOf id pending × (has_row db id ≡ true)
Fit (Phase.staged id (some s) pending) db u =
    (rest : List Staged) × (u.deleting ≡ rest ++ s ∷ [])
    × AreRowless db rest
    × AreOf id pending
    × (u.directory id ≡ none)
    × (s.tenant_id ≡ id)
    × (has_row db id ≡ true)
Fit (Phase.committed ss) db u = AreRowless db u.deleting × AreRowless db ss

unfoldable pub IsOrderly : World → Type 0
IsOrderly w = Fit w.phase w.db w.uploads

same_name_refl : (s : Staged) → same_name s s ≡ true
same_name_refl s = rw (eq→== s.tenant_id s.tenant_id refl) (text_eq_refl s.token)

-- What is not dropped has another name.
pub In-drop_staged :
    (s x : Staged) (ss : List Staged) → In x (drop_staged s ss) → In x ss × (same_name s x ≡ false)
In-drop_staged s x ss m = let (n, t) = In-filter _ x ss m in (n, not-true _ t)

pub not_dropped : (s x : Staged) → same_name s x ≡ false → x ≡ s → ⊥
not_dropped s x h e = false≢true (sym h ∙ ap (same_name s) e ∙ same_name_refl s)

-- The files after the removal of some directories.
unfoldable dropped : List Staged → Uploads → Uploads
dropped [] u = u
dropped (s ∷ ss) u = dropped ss (record u { deleting = drop_staged s u.deleting })

directory-dropped : (ss : List Staged) (u : Uploads) → (dropped ss u).directory ≡ u.directory
unfolding dropped
directory-dropped [] u = refl
directory-dropped (s ∷ ss) u = directory-dropped ss _

In-dropped :
    (x : Staged) (ss : List Staged) (u : Uploads)
    → In x (dropped ss u).deleting
    → In x u.deleting × ((s : Staged) → In s ss → same_name s x ≡ false)
unfolding dropped
In-dropped x [] u m = (m, λ s n. absurd n)
In-dropped x (s ∷ ss) u m =
    let (n, others) = In-dropped x ss (record u { deleting = drop_staged s u.deleting }) m in
    let (k, other) = In-drop_staged s x u.deleting n in
    (k, λ t mt. elim mt [ inl e ↦ rw e other | inr r ↦ others t r ])

-- The directories of tenants without a row are removed one after another.
recover_all-rowless :
    (rows : ℕ → Bool) (ss more : List Staged) (u : Uploads)
    → ((s : Staged) → In s ss → rows s.tenant_id ≡ false)
    → recover_all rows (ss ++ more) u ≡ recover_all rows more (dropped ss u)
unfolding recover_all delete_staged_tenant_files dropped
recover_all-rowless rows [] more u h = refl
recover_all-rowless rows (s ∷ ss) more u h =
    rw (h s (inl refl)) (recover_all-rowless rows ss more _ (λ t m. h t (inr m)))

recover_none : (rows : ℕ → Bool) (u : Uploads) → recover_all rows [] u ≡ ok u
unfolding recover_all
recover_none rows u = refl

recover_one :
    (rows : ℕ → Bool) (s : Staged) (u : Uploads)
    → rows s.tenant_id ≡ true
    → u.directory s.tenant_id ≡ none
    → recover_all rows (s ∷ []) u
      ≡ ok (
          set_directory s.tenant_id
            (some s.files)
            (record u { deleting = drop_staged s u.deleting }))
unfolding recover_all restore_staged_tenant_files
recover_one rows s u r d = rw (recover_all, r, restore_staged_tenant_files, d) refl

append_none : (ss : List Staged) → ss ++ [] ≡ ss
append_none [] = refl
append_none (s ∷ ss) = ap (λ t. s ∷ t) (append_none ss)

nothing_in : (ss : List Staged) → ((s : Staged) → In s ss → ⊥) → ss ≡ []
nothing_in [] h = refl
nothing_in (s ∷ ss) h = absurd (h s (inl refl))

-- The start of the program gets through and leaves nothing staged, and no client can tell that the program
-- stopped.
abbrev pub Restarts : World → Type 0
Restarts w =
    (w' : World) × (restart w ≡ ok w')
    × (w'.phase ≡ Phase.idle)
    × (w'.uploads.deleting ≡ [])
    × ((i : ℕ) → view w' i ≡ view w i)

-- All staged directories are of tenants without a row, and no request holds one.
restart_rowless :
    (w : World)
    → AreRowless w.db w.uploads.deleting
    → ((i : ℕ) → files_of w i ≡ w.uploads.directory i)
    → Restarts w
unfolding recover_tenant_file_deletions view files_of
restart_rowless w h free =
    let ss = w.uploads.deleting in
    let through : recover_all (has_row w.db) ss w.uploads ≡ ok (dropped ss w.uploads) =
      ap (λ t. recover_all (has_row w.db) t w.uploads) (sym (append_none ss))
      ∙ recover_all-rowless (has_row w.db) ss [] w.uploads h
      ∙ recover_none (has_row w.db) (dropped ss w.uploads) in
    (
      record w { uploads = dropped ss w.uploads; phase = Phase.idle },
      restarted w (dropped ss w.uploads) through,
      refl,
      nothing_in _
          (λ x m. let (n, other) = In-dropped x ss w.uploads m in not_dropped x x (other x n) refl),
      λ i. rw (free i, directory-dropped ss w.uploads) refl,
    )

-- A request that has not committed holds the last one.
restart_held :
    (w : World) (id : ℕ) (s : Staged) (pending rest : List Staged)
    → w.phase ≡ Phase.staged id (some s) pending
    → w.uploads.deleting ≡ rest ++ s ∷ []
    → AreRowless w.db rest
    → w.uploads.directory id ≡ none
    → s.tenant_id ≡ id
    → has_row w.db id ≡ true
    → Restarts w
unfolding recover_tenant_file_deletions view files_of
restart_held w id s pending rest e d h gone same row =
    let v = dropped rest w.uploads in
    let u =
      set_directory s.tenant_id (some s.files) (record v { deleting = drop_staged s v.deleting }) in
    let unheld : v.directory s.tenant_id ≡ none =
      rw (directory-dropped rest w.uploads) (rw same gone) in
    let there : has_row w.db s.tenant_id ≡ true = rw same row in
    let through : recover_all (has_row w.db) w.uploads.deleting w.uploads ≡ ok u =
      ap (λ t. recover_all (has_row w.db) t w.uploads) d
      ∙ recover_all-rowless (has_row w.db) rest (s ∷ []) w.uploads h
      ∙ recover_one (has_row w.db) s v there unheld in
    (
      record w { uploads = u; phase = Phase.idle },
      restarted w u through,
      refl,
      nothing_in _ (λ x m.
          let (n, other) = In-drop_staged s x v.deleting m in
          let (k, others) = In-dropped x rest w.uploads n in
          elim ((In-append x rest (s ∷ [])).0 (rw d at k)) [
            | inl r ↦ not_dropped x x (others x r) refl
            | inr (inl q) ↦ not_dropped s x other q
            | inr (inr z) ↦ z
          ]),
      λ i. rw (e, same, directory-dropped rest w.uploads) refl,
    )

restart_from : (w : World) (p : Phase) → w.phase ≡ p → Fit p w.db w.uploads → Restarts w
unfolding files_of
restart_from w Phase.idle e t = restart_rowless w t (λ i. rw e refl)
restart_from w (Phase.staged id none pending) e (t, _, _) = restart_rowless w t (λ i. rw e refl)
restart_from w (Phase.staged id (some s) pending) e (rest, d, t, _, gone, same, row) =
    restart_held w id s pending rest e d t gone same row
restart_from w (Phase.committed ss) e (t, _) = restart_rowless w t (λ i. rw e refl)

pub restart-orderly : (w : World) → IsOrderly w → Restarts w
unfolding IsOrderly
restart-orderly w t = restart_from w w.phase refl t
