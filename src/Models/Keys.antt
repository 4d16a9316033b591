-- ===== src/Models/Keys.antt =====
-- A new key is not in use.
use home_trap.Prelude.{ℕ, ◌<◌, inl, inr, List, [], ◌∷◌, In, arith}
use home_trap.Models.{next_key}

pub lt-next_key :
    {A : Type 0} (key : A → ℕ) (x : A) (xs : List A) → In x xs → key x < next_key key xs
lt-next_key key x [] m = absurd m
lt-next_key key x (y ∷ ys) (inl e) = rw e (omega arith)
lt-next_key key x (y ∷ ys) (inr m) = omega (arith, lt-next_key key x ys m)
