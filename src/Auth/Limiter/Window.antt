-- ===== src/Auth/Limiter/Window.antt =====
-- The failures that `try_acquire` of backend/app/auth.py drops.
use home_trap.Prelude.{
  ℕ, ◌≡◌, ◌≤◌, ◌+◌, refl, ap, sym, Bool, not, List, [], ◌∷◌, arith, leb, filter, All, false,
  Bool-cases, inl, inr,
}
use home_trap.Auth.Limiter.{expire}

-- Moments that do not decrease.
abbrev pub InOrder : List ℕ → Type 0
InOrder [] = Unit {0}
InOrder (x ∷ xs) = All (λ y. x ≤ y) xs × InOrder xs

-- A failure still counts until it is a window old.
abbrev pub is_recent : ℕ → ℕ → ℕ → Bool
is_recent window_seconds now failure = not (leb (failure + window_seconds) now)

recent_after :
    (w now x : ℕ) (xs : List ℕ)
    → All (λ y. x ≤ y) xs
    → leb (x + w) now ≡ false
    → filter (is_recent w now) xs ≡ xs
recent_after w now x [] h k = refl
recent_after w now x (y ∷ ys) (h, hs) k =
    let e : leb (y + w) now ≡ false = ground arith in
    rw e (ap (λ zs. y ∷ zs) (recent_after w now x ys hs k))

-- On failures in the order of time, dropping the expired ones from the front leaves exactly those
-- younger than the window.
pub expire-filter :
    (window_seconds now : ℕ) (failures : List ℕ)
    → InOrder failures
    → expire window_seconds now failures ≡ filter (is_recent window_seconds now) failures
unfolding expire
expire-filter w now [] h = refl
expire-filter w now (x ∷ xs) (h, hs) = elim (Bool-cases (leb (x + w) now)) [
  | inl e ↦ rw e (expire-filter w now xs hs)
  | inr e ↦ rw e (ap (λ zs. x ∷ zs) (sym (recent_after w now x xs h e)))
]
