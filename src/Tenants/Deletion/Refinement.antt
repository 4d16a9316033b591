-- ===== src/Tenants/Deletion/Refinement.antt =====
-- What a tenant's deletion in backend/app/routers/tenants.py looks like from outside, also where the
-- program stops in the middle of it.
use home_trap.Prelude.{ℕ, ◌≡◌, refl, ◌∙◌, ◌⊎◌, inl, inr, Option, none, [], ◌==◌, ==_iff, Bool-cases}
use home_trap.Prelude.Result.{ok}
use home_trap.Storage.{Directory}
use home_trap.Tenants.Deletion.{Phase, World, restart}
use home_trap.Tenants.Deletion.Recovery.{view}
use home_trap.Tenants.Deletion.Leftovers.{IsOrderly, restart-orderly}
use home_trap.Tenants.Deletion.Moves.{Step, Effect, Step-Moves}

-- Any moves from one world on.
pub data Run (start : World) : World → Type 0 where
  here : Run start start
  next : (w w' : World) → Run start w → Step w w' → Run start w'

-- The program can be started again, nothing is then left staged, and each tenant has its files as at
-- first or is gone.
abbrev pub Recovers : World → World → Type 0
Recovers start w =
    (w' : World) × (restart w ≡ ok w')
    × (w'.phase ≡ Phase.idle)
    × (w'.uploads.deleting ≡ [])
    × ((i : ℕ) → (view w' i ≡ view start i) ⊎ (view w' i ≡ none))

Run-IsOrderly : (start w : World) → IsOrderly start → Run start w → IsOrderly w
Run-IsOrderly start _ t Run.here = t
Run-IsOrderly start _ t (Run.next w w' r step) =
    (Step-Moves w w' step (Run-IsOrderly start w t r)).0

kept_or_gone :
    (w w' : World) (o : Option (Option Directory)) (i : ℕ)
    → Effect w w'
    → (view w i ≡ o) ⊎ (view w i ≡ none)
    → (view w' i ≡ o) ⊎ (view w' i ≡ none)
kept_or_gone w w' o i (Effect.nothing same) (inl k) = inl (same i ∙ k)
kept_or_gone w w' o i (Effect.nothing same) (inr k) = inr (same i ∙ k)
kept_or_gone w w' o i (Effect.deletes id row gone others) before = elim (Bool-cases (i == id)) [
  | inl e ↦ let q : i ≡ id = (==_iff i id).0 e in inr (rw q gone)
  | inr e ↦ elim before [ inl k ↦ inl (others i e ∙ k) | inr k ↦ inr (others i e ∙ k) ]
]

Run-view :
    (start w : World) (i : ℕ)
    → IsOrderly start
    → Run start w
    → (view w i ≡ view start i) ⊎ (view w i ≡ none)
Run-view start _ i t Run.here = inl refl
Run-view start _ i t (Run.next w w' r step) =
    kept_or_gone w w' (view start i) i (Step-Moves w w' step (Run-IsOrderly start w t r)).1
      (Run-view start w i t r)

-- Where at first every staged directory, but one that a request holds, is of a tenant without a row:
-- whatever moves requests that delete tenants have made, failing commits, removals that fail and
-- leave files for good, removals that a stop cuts short and stops with a new start of the program
-- included, the program can be started again where the disk lets the removals through; nothing is
-- then left staged, and each tenant has all its files as at first or has no row.
pub Run-Recovers : (start w : World) → IsOrderly start → Run start w → Recovers start w
Run-Recovers start w t r =
    let (w', k, idle, clear, same) = restart-orderly w (Run-IsOrderly start w t r) in
    (
      w',
      k,
      idle,
      clear,
      λ i. elim (Run-view start w i t r) [ inl e ↦ inl (same i ∙ e) | inr e ↦ inr (same i ∙ e) ],
    )
