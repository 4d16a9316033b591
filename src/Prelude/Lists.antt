-- ===== src/Prelude/Lists.antt =====
-- Lists searched by Boolean tests: what the queries of the program are made of.
use Prim.Native.Nat.{ℕ, suc}
use mathlib.Core.Path.{◌≡◌, refl}
use mathlib.Core.Logic.{◌⊎◌, inl, inr, ◌↔◌}
use mathlib.Core.Bool.{Bool, true, false, ◌||◌}
use mathlib.Core.Option.{Option, none, some}
use mathlib.Core.List.{List, [], ◌∷◌, ◌++◌}
use native.Mathlib.Omega.{arith}
use home_trap.Prelude.Tests.{if◌then◌else◌, Bool-cases}

-- Every element has the property; computes to a nested product.
abbrev pub All {ℓ κ} : {A : Type ℓ} → (A → Type κ) → List A → Type κ
All P [] = Unit
All P (x ∷ xs) = P x × All P xs

-- The element stands in the list, at a place that the proof shows.
abbrev pub In : {A : Type 0} → A → List A → Type 0
In x [] = ⊥
In x (y ∷ ys) = (x ≡ y) ⊎ In x ys

module _ {ℓ} {A : Type ℓ} where
  abbrev pub length : List A → ℕ
  length [] = 0
  length (x ∷ xs) = suc (length xs)

  pub append_nil : (xs : List A) → xs ++ [] ≡ xs
  append_nil [] = refl
  append_nil (x ∷ xs) = rw (append_nil xs) refl

  -- `WHERE`
  abbrev pub filter : (A → Bool) → List A → List A
  filter p [] = []
  filter p (x ∷ xs) = if p x then x ∷ filter p xs else filter p xs

  -- `next((x for x in xs if p x), None)`, `session.scalar(select(…).where(…))`
  abbrev pub find? : (A → Bool) → List A → Option A
  find? p [] = none
  find? p (x ∷ xs) = if p x then some x else find? p xs

  abbrev pub any : (A → Bool) → List A → Bool
  any p [] = false
  any p (x ∷ xs) = p x || any p xs

  pub any-append : (p : A → Bool) (xs ys : List A) → any p (xs ++ ys) ≡ (any p xs || any p ys)
  any-append p [] ys = refl
  any-append p (x ∷ xs) ys = rw (any-append p xs ys) (ground arith)

  -- `LIMIT 1`
  abbrev pub head? : List A → Option A
  head? [] = none
  head? (x ∷ xs) = some x

  -- `UPDATE … SET … WHERE`
  abbrev pub update_where : (A → Bool) → (A → A) → List A → List A
  update_where p f [] = []
  update_where p f (x ∷ xs) = (if p x then f x else x) ∷ update_where p f xs

module _ {ℓ κ} {A : Type ℓ} (P : A → Type κ) where
  pub All-filter : (p : A → Bool) (xs : List A) → All P xs → All P (filter p xs)
  All-filter p [] h = tt
  All-filter p (x ∷ xs) h = elim (Bool-cases (p x)) [
    | inl e ↦ rw e (h.0, All-filter p xs h.1)
    | inr e ↦ rw e (All-filter p xs h.1)
  ]

  pub All-append : (xs ys : List A) → All P xs → All P ys → All P (xs ++ ys)
  All-append [] ys hx hy = hy
  All-append (x ∷ xs) ys hx hy = (hx.0, All-append xs ys hx.1 hy)

  pub All-update_where :
      (p : A → Bool) (f : A → A) (xs : List A)
      → ((x : A) → p x ≡ true → P x → P (f x))
      → All P xs
      → All P (update_where p f xs)
  All-update_where p f [] keep h = tt
  All-update_where p f (x ∷ xs) keep h = elim (Bool-cases (p x)) [
    | inl e ↦ rw e (keep x e h.0, All-update_where p f xs keep h.1)
    | inr e ↦ rw e (h.0, All-update_where p f xs keep h.1)
  ]

module _ {κ} {A : Type 0} (P : A → Type κ) where
  pub All→In : (xs : List A) → All P xs → (x : A) → In x xs → P x
  All→In [] h x m = absurd m
  All→In (y ∷ ys) h x (inl e) = rw e h.0
  All→In (y ∷ ys) h x (inr m) = All→In ys h.1 x m

  pub In→All : (xs : List A) → ((x : A) → In x xs → P x) → All P xs
  In→All [] h = tt
  In→All (y ∷ ys) h = (h y (inl refl), In→All ys (λ x m. h x (inr m)))

module _ {A : Type 0} where
  pub In-filter : (p : A → Bool) (x : A) (xs : List A) → In x (filter p xs) → In x xs × (p x ≡ true)
  In-filter p x [] m = absurd m
  In-filter p x (y ∷ ys) m = elim (Bool-cases (p y)) [
    | inl e ↦ elim (let m' : In x (y ∷ filter p ys) = rw e at m in m') [
      | inl q ↦ (inl q, rw q e)
      | inr r ↦ let (a, b) = In-filter p x ys r in (inr a, b)
    ]
    | inr e ↦ let (a, b) = In-filter p x ys (rw e at m) in (inr a, b)
  ]

  pub filter-In : (p : A → Bool) (x : A) (xs : List A) → In x xs → p x ≡ true → In x (filter p xs)
  filter-In p x [] m e = absurd m
  filter-In p x (y ∷ ys) (inl q) e = let e' : p y ≡ true = rw q at e in rw e' (inl q)
  filter-In p x (y ∷ ys) (inr m) e = elim (Bool-cases (p y)) [
    | inl t ↦ rw t (inr (filter-In p x ys m e))
    | inr f ↦ rw f (filter-In p x ys m e)
  ]

  pub find?-some :
      (p : A → Bool) (xs : List A) (x : A) → find? p xs ≡ some x → In x xs × (p x ≡ true)
  find?-some p [] x h = cc
  find?-some p (y ∷ ys) x h = elim (Bool-cases (p y)) [
    | inl e ↦
        let q : some y ≡ some x = rw e at h in (inl (cc), let y≡x : y ≡ x = cc in rw (← y≡x) e)
    | inr e ↦ let (a, b) = find?-some p ys x (rw e at h) in (inr a, b)
  ]

  pub find?-none :
      (p : A → Bool) (xs : List A) → find? p xs ≡ none → (x : A) → In x xs → p x ≡ false
  find?-none p [] h x m = absurd m
  find?-none p (y ∷ ys) h x (inl q) = rw q (ground arith)
  find?-none p (y ∷ ys) h x (inr m) = find?-none p ys (ground arith) x m

  pub In-append : (x : A) (xs ys : List A) → In x (xs ++ ys) ↔ (In x xs ⊎ In x ys)
  In-append x [] ys = (inr, elim [ inl m ↦ absurd m | inr m ↦ m ])
  In-append x (z ∷ xs) ys = (
    elim [
      | inl e ↦ inl (inl e)
      | inr m ↦ elim ((In-append x xs ys).0 m) [ inl a ↦ inl (inr a) | inr b ↦ inr b ]
    ],
    elim [
      | inl a ↦ elim a [ inl e ↦ inl e | inr m ↦ inr ((In-append x xs ys).1 (inl m)) ]
      | inr b ↦ inr ((In-append x xs ys).1 (inr b))
    ],
  )

module _ {A : Type 0} where
  -- A test that no element passes.
  pub any-false : (p : A → Bool) (xs : List A) → any p xs ≡ false → (x : A) → In x xs → p x ≡ false
  any-false p [] h x m = absurd m
  any-false p (y ∷ ys) h x (inl e) = rw e (ground arith)
  any-false p (y ∷ ys) h x (inr m) = any-false p ys (ground arith) x m

  pub any-true : (p : A → Bool) (xs : List A) → any p xs ≡ true → (x : A) × In x xs × (p x ≡ true)
  any-true p [] h = cc
  any-true p (y ∷ ys) h = elim (Bool-cases (p y)) [
    | inl e ↦ (y, inl refl, e)
    | inr e ↦ let (x, m, t) = any-true p ys (ground arith) in (x, inr m, t)
  ]

  -- Where an element of an updated list comes from.
  pub In-update_where :
      (p : A → Bool) (f : A → A) (x : A) (xs : List A)
      → In x (update_where p f xs)
      → (y : A) × In y xs × (((p y ≡ true) × (x ≡ f y)) ⊎ ((p y ≡ false) × (x ≡ y)))
  In-update_where p f x [] m = absurd m
  In-update_where p f x (z ∷ zs) (inl e) = elim (Bool-cases (p z)) [
    | inl t ↦ (z, inl refl, inl (t, rw t at e))
    | inr t ↦ (z, inl refl, inr (t, rw t at e))
  ]
  In-update_where p f x (z ∷ zs) (inr m) =
      let (y, my, h) = In-update_where p f x zs m in (y, inr my, h)

  pub In-append_one : (x y : A) (xs : List A) → In x (xs ++ y ∷ []) → In x xs ⊎ (x ≡ y)
  In-append_one x y xs m = elim ((In-append x xs (y ∷ [])).0 m) [
    | inl a ↦ inl a
    | inr b ↦ elim b [ inl e ↦ inr e | inr n ↦ absurd n ]
  ]
