-- ===== src/Prelude/Sort.antt =====
-- `ORDER BY` as a stable insertion sort by a Boolean comparison, and what stands first in it.
use mathlib.Core.Path.{◌≡◌, refl, sym, ap, ◌∙◌}
use mathlib.Core.Logic.{◌⊎◌, inl, inr, ◌↔◌}
use mathlib.Core.Bool.{Bool, true, false, false≢true}
use mathlib.Core.Option.{Option, none, some}
use mathlib.Core.List.{List, [], ◌∷◌}
use native.Mathlib.Omega.{arith}
use home_trap.Prelude.Tests.{if◌then◌else◌, Bool-cases}
use home_trap.Prelude.Lists.{
  All, In, head?, filter, find?, find?-some, find?-none, All→In, In-filter, filter-In,
}

module _ {A : Type 0} (le : A → A → Bool) where
  unfoldable pub insert_by : A → List A → List A
  insert_by x [] = x ∷ []
  insert_by x (y ∷ ys) = if le x y then x ∷ y ∷ ys else y ∷ insert_by x ys

  unfoldable pub sort_by : List A → List A
  unfolding insert_by
  sort_by [] = []
  sort_by (x ∷ xs) = insert_by x (sort_by xs)

  -- `min(xs, key=…)` and `ORDER BY … LIMIT 1`.
  abbrev pub first_by : List A → Option A
  first_by xs = head? (sort_by xs)

  In-insert_by : (z x : A) (ys : List A) → In z (insert_by x ys) ↔ ((z ≡ x) ⊎ In z ys)
  unfolding insert_by
  In-insert_by z x [] = (λ m. m, λ m. m)
  In-insert_by z x (y ∷ ys) = elim (Bool-cases (le x y)) [
    | inl e ↦ rw e (λ m. m, λ m. m)
    | inr e ↦ rw e (
      elim [
        | inl q ↦ inr (inl q)
        | inr m ↦ elim ((In-insert_by z x ys).0 m) [ inl a ↦ inl a | inr b ↦ inr (inr b) ]
      ],
      elim [
        | inl q ↦ inr ((In-insert_by z x ys).1 (inl q))
        | inr m ↦ elim m [ inl a ↦ inl a | inr b ↦ inr ((In-insert_by z x ys).1 (inr b)) ]
      ],
    )
  ]

  -- Sorting keeps what is in the list.
  pub In-sort_by : (z : A) (xs : List A) → In z (sort_by xs) ↔ In z xs
  unfolding sort_by
  In-sort_by z [] = (λ m. m, λ m. m)
  In-sort_by z (x ∷ xs) = (
    λ m. elim ((In-insert_by z x (sort_by xs)).0 m) [
      | inl e ↦ inl e
      | inr r ↦ inr ((In-sort_by z xs).0 r)
    ],
    elim [
      | inl e ↦ (In-insert_by z x (sort_by xs)).1 (inl e)
      | inr m ↦ (In-insert_by z x (sort_by xs)).1 (inr ((In-sort_by z xs).1 m))
    ],
  )

  first_by-none-head : (x : A) (ys : List A) → head? (insert_by x ys) ≡ none → ⊥
  unfolding insert_by
  first_by-none-head x [] h = cc
  first_by-none-head x (y ∷ ys) h = ground arith

  -- Nothing stands first only in the empty list.
  pub first_by-none : (xs : List A) → first_by xs ≡ none → xs ≡ []
  unfolding sort_by
  first_by-none [] h = refl
  first_by-none (x ∷ xs) h = absurd (first_by-none-head x (sort_by xs) h)

  head?-In : (x : A) (ys : List A) → head? ys ≡ some x → In x ys
  head?-In x [] h = cc
  head?-In x (y ∷ ys) h = inl (cc)

  pub first_by-In : (x : A) (xs : List A) → first_by xs ≡ some x → In x xs
  first_by-In x xs h = (In-sort_by x xs).0 (head?-In x (sort_by xs) h)

-- A comparison by which a list can be sorted.
pub record IsTotalOrder {A : Type 0} (le : A → A → Bool) : Type 0 where
  pub total : (a b : A) → (le a b ≡ true) ⊎ (le b a ≡ true)
  pub trans : (a b c : A) → le a b ≡ true → le b c ≡ true → le a c ≡ true

module _ {A : Type 0} (le : A → A → Bool) (order : IsTotalOrder le) where
  -- The list is in order, each element against all that follow.
  abbrev pub IsSorted : List A → Type 0
  IsSorted [] = Unit
  IsSorted (x ∷ xs) = All (λ y. le x y ≡ true) xs × IsSorted xs

  All-trans :
      (x y : A) (zs : List A)
      → le x y ≡ true
      → All (λ z. le y z ≡ true) zs
      → All (λ z. le x z ≡ true) zs
  All-trans x y [] h t = tt
  All-trans x y (z ∷ zs) h t = (order.trans x y z h t.0, All-trans x y zs h t.1)

  le_of_not : (x y : A) → le x y ≡ false → le y x ≡ true
  le_of_not x y h = elim (order.total x y) [ inl a ↦ cc | inr b ↦ b ]

  All-insert_by :
      (P : A → Type 0) (x : A) (ys : List A) → P x → All P ys → All P (insert_by le x ys)
  unfolding insert_by
  All-insert_by P x [] h t = (h, tt)
  All-insert_by P x (y ∷ ys) h t = elim (Bool-cases (le x y)) [
    | inl e ↦ rw e (h, t)
    | inr e ↦ rw e (t.0, All-insert_by P x ys h t.1)
  ]

  insert_by-IsSorted : (x : A) (ys : List A) → IsSorted ys → IsSorted (insert_by le x ys)
  unfolding insert_by
  insert_by-IsSorted x [] s = (tt, tt)
  insert_by-IsSorted x (y ∷ ys) s = elim (Bool-cases (le x y)) [
    | inl e ↦ rw e ((e, All-trans x y ys e s.0), s)
    | inr e ↦
        rw e (
          All-insert_by (λ z. le y z ≡ true) x ys (le_of_not x y e) s.0,
          insert_by-IsSorted x ys s.1,
        )
  ]

  pub sort_by-IsSorted : (xs : List A) → IsSorted (sort_by le xs)
  unfolding sort_by
  sort_by-IsSorted [] = tt
  sort_by-IsSorted (x ∷ xs) = insert_by-IsSorted x (sort_by le xs) (sort_by-IsSorted xs)

  refl_le : (x : A) → le x x ≡ true
  refl_le x = elim (order.total x x) [ inl a ↦ a | inr a ↦ a ]

  head?-least : (x y : A) (zs : List A) → IsSorted zs → head? zs ≡ some x → In y zs → le x y ≡ true
  head?-least x y [] s h m = absurd m
  head?-least x y (z ∷ zs) s h (inl e) = let z≡x : z ≡ x = cc in rw (e, z≡x) (refl_le x)
  head?-least x y (z ∷ zs) s h (inr m) =
      let z≡x : z ≡ x = cc in rw (← z≡x) (All→In (λ w. le z w ≡ true) zs s.0 y m)

  -- What stands first is least.
  pub first_by-least : (x y : A) (xs : List A) → first_by le xs ≡ some x → In y xs → le x y ≡ true
  first_by-least x y xs h m =
      head?-least x y (sort_by le xs) (sort_by-IsSorted xs) h ((In-sort_by le y xs).1 m)

-- What `SELECT … WHERE p ORDER BY le LIMIT 1` returns: a least row among those that pass, or nothing
-- where none passes.
abbrev pub Selected : {A : Type 0} → (A → A → Bool) → (A → Bool) → List A → Option A → Type 0
Selected le p xs none = (y : _) → In y xs → p y ≡ false
Selected le p xs (some x) =
    In x xs × (p x ≡ true) × ((y : _) → In y xs → p y ≡ true → le x y ≡ true)

module _ {A : Type 0} (le : A → A → Bool) (order : IsTotalOrder le) (p : A → Bool)
    (xs : List A) where
  abbrev pub select : Option A
  select = first_by le (filter p xs)

  nothing_passes : filter p xs ≡ [] → (y : A) → In y xs → p y ≡ false
  nothing_passes e y m = elim (Bool-cases (p y)) [
    | inl t ↦ absurd (let m' : In y (filter p xs) = filter-In p y xs m t in rw e at m')
    | inr f ↦ f
  ]

  Selected-case : (o : Option A) → select ≡ o → Selected le p xs o
  Selected-case none e = nothing_passes (first_by-none le (filter p xs) e)
  Selected-case (some x) e =
      let (m, t) = In-filter p x xs (first_by-In le x (filter p xs) e) in
      (m, t, λ y my ty. first_by-least le order x y (filter p xs) e (filter-In p y xs my ty))

  pub select-Selected : Selected le p xs select
  select-Selected = Selected-case select refl

module _ {A : Type 0} (le : A → A → Bool) (order : IsTotalOrder le) (p : A → Bool) where
  find?-IsSorted-least :
      (x y : A) (zs : List A)
      → IsSorted le order zs
      → find? p zs ≡ some x
      → In y zs
      → p y ≡ true
      → le x y ≡ true
  find?-IsSorted-least x y [] s h m t = absurd m
  find?-IsSorted-least x y (z ∷ zs) s h m t = elim (Bool-cases (p z)) [
    | inl e ↦ head?-least le order x y (z ∷ zs) s (rw e at h) m
    | inr e ↦ elim m [
      | inl q ↦ absurd (false≢true (sym e ∙ ap p (sym q) ∙ t))
      | inr r ↦ find?-IsSorted-least x y zs s.1 (rw e at h) r t
    ]
  ]

  find?-sort_by-case :
      (xs : List A) (o : Option A) → find? p (sort_by le xs) ≡ o → Selected le p xs o
  find?-sort_by-case xs none e = λ y m. find?-none p (sort_by le xs) e y ((In-sort_by le y xs).1 m)
  find?-sort_by-case xs (some x) e =
      let (m, t) = find?-some p (sort_by le xs) x e in
      (
        (In-sort_by le x xs).0 m,
        t,
        λ y my ty.
            find?-IsSorted-least x y (sort_by le xs) (sort_by-IsSorted le order xs) e
              ((In-sort_by le y xs).1 my) ty,
      )

  -- The first row of a sorted table that passes is a least one among those that pass.
  pub find?-sort_by-Selected : (xs : List A) → Selected le p xs (find? p (sort_by le xs))
  find?-sort_by-Selected xs = find?-sort_by-case xs (find? p (sort_by le xs)) refl
