-- ===== src/Stats/Tally.antt =====
-- The dicts of sums in the reports of backend/app/routers/stats.py: `d[key] = d.get(key, ZERO) + amount`.
pub mod Keys
use home_trap.Prelude.{
  ℕ, suc, ◌≡◌, refl, sym, ap, ◌∙◌, inl, inr, Bool, true, false, not, ◌||◌, List, [], ◌∷◌, ◌++◌, map,
  filter, any, arith, All, any-append, Bool-cases, if◌then◌else◌,
}
use mathlib.Core.Bool.{false≢true}
use home_trap.Prelude.Int.{ℤ, pos, ◌+ℤ◌, sum, int_laws, zero-+ℤ}
use home_trap.Prelude.Sort.{insert_by, sort_by}

module _ {K : Type 0} (eq : K → K → Bool) where
  unfoldable pub add_at : K → ℤ → List (K × ℤ) → List (K × ℤ)
  add_at k a [] = (k, pos 0 +ℤ a) ∷ []
  add_at k a ((j, b) ∷ d) =
      let rest = add_at k a d in if eq j k then (j, b +ℤ a) ∷ d else (j, b) ∷ rest

  -- `d.get(key, ZERO)`
  unfoldable pub amount_at : K → List (K × ℤ) → ℤ
  amount_at k [] = pos 0
  amount_at k ((j, b) ∷ d) = let later = amount_at k d in if eq j k then b else later

  unfoldable pub tally : List (K × ℤ) → List (K × ℤ) → List (K × ℤ)
  unfolding add_at
  tally [] d = d
  tally ((k, a) ∷ rows) d = tally rows (add_at k a d)

  -- The elements of a set.
  unfoldable pub distinct : List K → List K
  distinct [] = []
  distinct (x ∷ xs) = x ∷ filter (λ y. not (eq x y)) (distinct xs)

sum-insert_by :
    {K : Type 0} (le : K → K → Bool) (f : K → ℤ) (x : K) (xs : List K)
    → sum (map f (insert_by le x xs)) ≡ f x +ℤ sum (map f xs)
unfolding insert_by
sum-insert_by le f x [] = refl
sum-insert_by le f x (y ∷ ys) = elim (Bool-cases (le x y)) [
  | inl e ↦ rw e refl
  | inr e ↦ rw e (rw (sum-insert_by le f x ys) (omega int_laws))
]

pub sum-sort_by :
    {K : Type 0} (le : K → K → Bool) (f : K → ℤ) (xs : List K)
    → sum (map f (sort_by le xs)) ≡ sum (map f xs)
unfolding sort_by
sum-sort_by le f [] = refl
sum-sort_by le f (x ∷ xs) =
    sum-insert_by le f x (sort_by le xs) ∙ ap (λ s. f x +ℤ s) (sum-sort_by le f xs)

-- The keys of a dict.
abbrev pub keys : {K : Type 0} → List (K × ℤ) → List K
keys d = map (λ r. r.0) d

abbrev pub amounts : {K : Type 0} → List (K × ℤ) → List ℤ
amounts d = map (λ r. r.1) d

pub amounts-add_at :
    {K : Type 0} (eq : K → K → Bool) (k : K) (a : ℤ) (d : List (K × ℤ))
    → sum (amounts (add_at eq k a d)) ≡ sum (amounts d) +ℤ a
unfolding add_at
amounts-add_at eq k a [] = omega int_laws
amounts-add_at eq k a ((j, b) ∷ d) =
    let ih = amounts-add_at eq k a d in
    elim (Bool-cases (eq j k)) [
      | inl e ↦ rw e (omega int_laws)
      | inr e ↦ rw (e, ih) (omega int_laws)
    ]

-- The amounts of a dict of sums come to those of the rows.
pub amounts-tally :
    {K : Type 0} (eq : K → K → Bool) (rows d : List (K × ℤ))
    → sum (amounts (tally eq rows d)) ≡ sum (amounts d) +ℤ sum (amounts rows)
unfolding tally
amounts-tally eq [] d = omega int_laws
amounts-tally eq ((k, a) ∷ rows) d =
    amounts-tally eq rows (add_at eq k a d) ∙ rw (amounts-add_at eq k a d) (omega int_laws)
