-- ===== src/Tenants/Deletion/Moves.antt =====
-- The moves of the requests that delete tenants in backend/app/routers/tenants.py, and what a client sees
-- of each.
use home_trap.Prelude.{
  ℕ, ◌≡◌, refl, sym, ap, ◌∙◌, inl, inr, true, false, not, ◌||◌, Option, none, some, List, [], ◌∷◌,
  ◌++◌, Text, ◌==◌, eq→==, ==_iff, In-filter, In-append_one, filter, any, arith, Bool-cases,
  if◌then◌else◌,
}
use home_trap.Prelude.Result.{ok, ok-injective}
use home_trap.Models.{Tenant}
use home_trap.Tenants.{has_id}
use home_trap.Storage.{
  Staged, Directory, pending_tenant_file_deletions, stage_tenant_files, restore_staged_tenant_files,
  delete_staged_tenant_files, set_directory, drop_staged,
}
use home_trap.Tenants.Deletion.{
  Phase, World, has_row, begin_delete, begin_absent, delete_row, commit_delete, fail_commit,
  clean_one, tear, restart,
}
use home_trap.Tenants.Deletion.Recovery.{files_of, view}
use home_trap.Tenants.Deletion.Leftovers.{
  AreRowless, AreOf, Fit, IsOrderly, In-drop_staged, not_dropped, restart-orderly,
}

-- One move of a request that deletes a tenant, or of the program that stops and starts.
pub data Step (w : World) : World → Type 0 where
  begins :
      (id : ℕ) (token : Text)
      → w.phase ≡ Phase.idle
      → has_row w.db id ≡ true
      → Step w (begin_delete id token w)
  begins_absent :
      (id : ℕ) → w.phase ≡ Phase.idle → has_row w.db id ≡ false → Step w (begin_absent id w)
  commits :
      (id : ℕ) (s : Option Staged) (pending : List Staged)
      → w.phase ≡ Phase.staged id s pending
      → Step w (commit_delete w)
  fails :
      (id : ℕ) (s : Option Staged) (pending : List Staged) (w' : World)
      → w.phase ≡ Phase.staged id s pending
      → fail_commit w ≡ ok w'
      → Step w w'
  cleans :
      (left : Option Directory) (ss : List Staged)
      → w.phase ≡ Phase.committed ss
      → Step w (clean_one left w)
  tears :
      (files : Directory) (s : Staged) (ss : List Staged)
      → w.phase ≡ Phase.committed (s ∷ ss)
      → Step w (tear files w)
  stops : (w' : World) → restart w ≡ ok w' → Step w w'

-- No client can tell the two apart, but for one tenant that is there before and not after.
pub data Effect (w w' : World) : Type 0 where
  nothing : ((i : ℕ) → view w' i ≡ view w i) → Effect w w'
  deletes :
      (id : ℕ)
      → has_row w.db id ≡ true
      → view w' id ≡ none
      → ((i : ℕ) → (i == id) ≡ false → view w' i ≡ view w i)
      → Effect w w'

abbrev taken : ℕ → Text → Directory → Staged
taken id token d = record { tenant_id = id; token = token; files = d }

begun_without :
    (w : World) (id : ℕ) (token : Text)
    → w.uploads.directory id ≡ none
    → begin_delete id token w
      ≡ record w { phase = Phase.staged id none (pending_tenant_file_deletions id w.uploads) }
unfolding begin_delete stage_tenant_files
begun_without w id token dir = rw (stage_tenant_files, dir) refl

begun_with :
    (w : World) (id : ℕ) (token : Text) (d : Directory)
    → w.uploads.directory id ≡ some d
    → begin_delete id token w ≡ record w {
      uploads =
          set_directory id none
            (record w.uploads { deleting = w.uploads.deleting ++ taken id token d ∷ [] });
      phase =
          Phase.staged id
            (some (taken id token d))
            (pending_tenant_file_deletions id w.uploads ++ taken id token d ∷ []);
    }
unfolding begin_delete stage_tenant_files
begun_with w id token d dir = rw (stage_tenant_files, dir) refl

pending-AreOf : (w : World) (id : ℕ) → AreOf id (pending_tenant_file_deletions id w.uploads)
unfolding pending_tenant_file_deletions
pending-AreOf w id s m =
    let (_, t) = In-filter (λ (x : Staged). x.tenant_id == id) s w.uploads.deleting m in
    (==_iff s.tenant_id id).0 t

-- A move leaves the staged directories in order and is one effect.
abbrev pub Moves : World → World → Type 0
Moves w w' = IsOrderly w' × Effect w w'

begins-Moves :
    (w : World) (id : ℕ) (token : Text) (d : Option Directory)
    → w.phase ≡ Phase.idle
    → has_row w.db id ≡ true
    → w.uploads.directory id ≡ d
    → AreRowless w.db w.uploads.deleting
    → Moves w (begin_delete id token w)
unfolding IsOrderly view files_of
begins-Moves w id token none e row dir t =
    rw (begun_without w id token dir)
      ((t, pending-AreOf w id, row), Effect.nothing (λ i. rw e refl))
begins-Moves w id token (some d) e row dir t = rw (begun_with w id token d dir) (
  (
    w.uploads.deleting,
    refl,
    t,
    λ s m. elim (In-append_one s (taken id token d) _ m) [
      | inl old ↦ pending-AreOf w id s old
      | inr q ↦ ap (λ (x : Staged). x.tenant_id) q
    ],
    rw (eq→== id id refl) refl,
    refl,
    row,
  ),
  Effect.nothing (λ i. rw e (ap (λ o. if has_row w.db i then some o else none) (staged_view i))),
)
  where
    staged_view :
        (i : ℕ)
        → (if i == id then some d else (if i == id then none else w.uploads.directory i))
          ≡ w.uploads.directory i
    staged_view i = elim (Bool-cases (i == id)) [
      | inl q ↦ rw (q, (==_iff i id).0 q, dir) refl
      | inr q ↦ rw q refl
    ]

no_row : (id : ℕ) (ts : List Tenant) → any (has_id id) (filter (λ t. not (has_id id t)) ts) ≡ false
no_row id [] = refl
no_row id (t ∷ ts) = elim (Bool-cases (t.id == id)) [
  | inl e ↦ rw e (no_row id ts)
  | inr e ↦ rw (e, e) (no_row id ts)
]

other_row :
    (id i : ℕ) (ts : List Tenant)
    → (i == id) ≡ false
    → any (has_id i) (filter (λ t. not (has_id id t)) ts) ≡ any (has_id i) ts
other_row id i [] d = refl
other_row id i (t ∷ ts) d = elim (Bool-cases (t.id == id)) [
  | inl e ↦ let other : (t.id == i) ≡ false = ground arith in rw (e, other) (other_row id i ts d)
  | inr e ↦ rw e (ap (λ b. (t.id == i) || b) (other_row id i ts d))
]

begins_absent-Moves :
    (w : World) (id : ℕ)
    → w.phase ≡ Phase.idle
    → has_row w.db id ≡ false
    → AreRowless w.db w.uploads.deleting
    → Moves w (begin_absent id w)
unfolding IsOrderly view files_of begin_absent
begins_absent-Moves w id e row t =
    ((t, λ s m. rw (pending-AreOf w id s m) row), Effect.nothing (λ i. rw e refl))

-- What has no row still has none.
still_rowless :
    (w : World) (id i : ℕ)
    → has_row w.db i ≡ false
    → any (has_id i) (filter (λ t. not (has_id id t)) w.db.tenants) ≡ false
still_rowless w id i h = elim (Bool-cases (i == id)) [
  | inl e ↦ rw ((==_iff i id).0 e) (no_row id w.db.tenants)
  | inr e ↦ other_row id i w.db.tenants e ∙ h
]

commits-Moves :
    (w : World) (id : ℕ) (s : Option Staged) (pending : List Staged)
    → w.phase ≡ Phase.staged id s pending
    → Fit (Phase.staged id s pending) w.db w.uploads
    → Moves w (commit_delete w)
unfolding IsOrderly view files_of commit_delete delete_row
commits-Moves w id none pending e (t, p, row) = rw e (
  (λ x m. still_rowless w id x.tenant_id (t x m), λ x m. rw (p x m) (no_row id w.db.tenants)),
  Effect.deletes id row (rw (no_row id w.db.tenants) refl)
      (λ i other. rw (other_row id i w.db.tenants other) refl),
)
commits-Moves w id (some s) pending e (rest, d, t, p, gone, same, row) = rw e (
  (
    λ x m. elim (In-append_one x s rest (rw d at m)) [
      | inl old ↦ still_rowless w id x.tenant_id (t x old)
      | inr q ↦ rw (q, same) (no_row id w.db.tenants)
    ],
    λ x m. rw (p x m) (no_row id w.db.tenants),
  ),
  Effect.deletes id row (rw (no_row id w.db.tenants) refl)
      (λ i other. rw (other_row id i w.db.tenants other, other) refl),
)

fails-Moves :
    (w w' : World) (id : ℕ) (s : Option Staged) (pending : List Staged)
    → w.phase ≡ Phase.staged id s pending
    → Fit (Phase.staged id s pending) w.db w.uploads
    → fail_commit w ≡ ok w'
    → Moves w w'
unfolding IsOrderly view files_of fail_commit restore_staged_tenant_files
fails-Moves w w' id none pending e (t, p, row) h =
    let q = ok-injective (rw (fail_commit, e) at h) in rw (← q) (t, Effect.nothing (λ i. rw e refl))
fails-Moves w w' id (some s) pending e (rest, d, t, p, gone, same, row) h =
    let gone' : w.uploads.directory s.tenant_id ≡ none = rw same gone in
    let q = ok-injective (rw (fail_commit, e, restore_staged_tenant_files, gone') at h) in
    rw (← q) (
      λ x m.
          let (n, other) = In-drop_staged s x w.uploads.deleting m in
          elim (In-append_one x s rest (rw d at n)) [
            | inl old ↦ t x old
            | inr k ↦ absurd (not_dropped s x other k)
          ],
      Effect.nothing (λ i. rw (e, same) refl),
    )

-- The directories but one, and what is left of it.
left_rowless :
    (w : World) (s : Staged) (files : Directory)
    → AreRowless w.db w.uploads.deleting
    → has_row w.db s.tenant_id ≡ false
    → AreRowless w.db (drop_staged s w.uploads.deleting ++ record s { files = files } ∷ [])
left_rowless w s files t row x m =
    elim (In-append_one x (record s { files = files }) (drop_staged s w.uploads.deleting) m) [
      | inl old ↦ t x (In-drop_staged s x w.uploads.deleting old).0
      | inr q ↦ rw q row
    ]

cleans-Moves :
    (w : World) (left : Option Directory) (ss : List Staged)
    → w.phase ≡ Phase.committed ss
    → Fit (Phase.committed ss) w.db w.uploads
    → Moves w (clean_one left w)
unfolding IsOrderly view files_of clean_one delete_staged_tenant_files
cleans-Moves w left [] e (t, p) = rw e (t, Effect.nothing (λ i. refl))
cleans-Moves w none (s ∷ ss) e (t, p) = rw e (
  (λ x m. t x (In-drop_staged s x w.uploads.deleting m).0, λ x m. p x (inr m)),
  Effect.nothing (λ i. refl),
)
cleans-Moves w (some files) (s ∷ ss) e (t, p) =
    rw e (left_rowless w s files t (p s (inl refl)), Effect.nothing (λ i. refl))

tears-Moves :
    (w : World) (files : Directory) (s : Staged) (ss : List Staged)
    → w.phase ≡ Phase.committed (s ∷ ss)
    → Fit (Phase.committed (s ∷ ss)) w.db w.uploads
    → Moves w (tear files w)
unfolding IsOrderly view files_of tear
tears-Moves w files s ss e (t, p) = rw e (
  (
    left_rowless w s files t (p s (inl refl)),
    λ x m. elim m [ inl q ↦ rw q (p s (inl refl)) | inr old ↦ p x (inr old) ],
  ),
  Effect.nothing (λ i. refl),
)

pub Step-Moves : (w w' : World) → Step w w' → IsOrderly w → Moves w w'
unfolding IsOrderly
Step-Moves w _ (Step.begins id token e row) t =
    begins-Moves w id token (w.uploads.directory id) e row refl (rw e at t)
Step-Moves w _ (Step.begins_absent id e row) t = begins_absent-Moves w id e row (rw e at t)
Step-Moves w _ (Step.commits id s pending e) t = commits-Moves w id s pending e (rw e at t)
Step-Moves w w' (Step.fails id s pending _ e h) t = fails-Moves w w' id s pending e (rw e at t) h
Step-Moves w _ (Step.cleans left ss e) t = cleans-Moves w left ss e (rw e at t)
Step-Moves w _ (Step.tears files s ss e) t = tears-Moves w files s ss e (rw e at t)
Step-Moves w w' (Step.stops _ h) t =
    let (x, k, idle, clear, same) = restart-orderly w t in
    let q : x ≡ w' = ok-injective (sym k ∙ h) in
    rw (← q) (rw idle (λ s m. absurd (rw clear at m)), Effect.nothing same)
