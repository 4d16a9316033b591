-- ===== src/Stats/Tally/Keys.antt =====
-- What the dicts of sums in backend/app/routers/stats.py hold under their keys.
use home_trap.Prelude.{
  ℕ, suc, ◌≡◌, refl, sym, ap, ◌∙◌, inl, inr, Bool, true, false, not, ◌||◌, List, [], ◌∷◌, ◌++◌, map,
  filter, any, arith, All, any-append, Bool-cases, if◌then◌else◌,
}
use mathlib.Core.Bool.{false≢true}
use home_trap.Prelude.Int.{ℤ, pos, ◌+ℤ◌, sum, int_laws, zero-+ℤ}
use home_trap.Prelude.Sort.{sort_by}
use home_trap.Stats.Tally.{add_at, amount_at, tally, distinct, keys, amounts, sum-sort_by}

module _ {K : Type 0} (eq : K → K → Bool) (eq→same : (a b : K) → eq a b ≡ true → a ≡ b)
    (eq_refl : (a : K) → eq a a ≡ true) where
  -- The amount of a row where it has the key.
  abbrev counted : K → K → ℤ → ℤ
  counted j k a = if eq k j then a else pos 0

  -- The sum of the rows with a key.
  unfoldable pub sum_for : K → List (K × ℤ) → ℤ
  sum_for j [] = pos 0
  sum_for j ((k, a) ∷ rows) = counted j k a +ℤ sum_for j rows

  amount_at-add_at :
      (j k : K) (a : ℤ) (d : List (K × ℤ))
      → amount_at eq j (add_at eq k a d) ≡ amount_at eq j d +ℤ counted j k a
  unfolding add_at amount_at
  amount_at-add_at j k a [] = elim (Bool-cases (eq k j)) [
    | inl e ↦ rw e refl
    | inr e ↦ rw e (omega int_laws)
  ]
  amount_at-add_at j k a ((i, b) ∷ d) =
      let ih = amount_at-add_at j k a d in
      elim (Bool-cases (eq i k)) [
        | inl e ↦
            rw (e, eq→same i k e)
              (elim (Bool-cases (eq k j)) [ inl f ↦ rw f refl | inr f ↦ rw f (omega int_laws) ])
        | inr e ↦
            rw (e, ih)
              (elim (Bool-cases (eq i j)) [
                | inl f ↦ rw f (elim (Bool-cases (eq k j)) [
                  | inl g ↦
                      let q : i ≡ k = eq→same i j f ∙ sym (eq→same k j g) in
                      absurd (false≢true (sym e ∙ rw q (eq_refl k)))
                  | inr g ↦ rw g (omega int_laws)
                ])
                | inr f ↦ rw f refl
              ])
      ]

  -- A dict of sums has under each key the sum of its rows.
  pub amount_at-tally :
      (j : K) (rows d : List (K × ℤ))
      → amount_at eq j (tally eq rows d) ≡ amount_at eq j d +ℤ sum_for j rows
  unfolding tally sum_for
  amount_at-tally j [] d = omega int_laws
  amount_at-tally j ((k, a) ∷ rows) d =
      amount_at-tally j rows (add_at eq k a d) ∙ rw (amount_at-add_at j k a d) (omega int_laws)

  -- How often a key stands in a list.
  abbrev count_if : Bool → ℕ → ℕ
  count_if b n = if b then suc n else n

  unfoldable pub occurrences : K → List K → ℕ
  occurrences k [] = 0
  occurrences k (x ∷ xs) = count_if (eq k x) (occurrences k xs)

  occurrences-filter_other :
      (k x : K) (xs : List K)
      → occurrences k (filter (λ y. not (eq x y)) xs) ≡ (if eq x k then 0 else occurrences k xs)
  unfolding occurrences
  occurrences-filter_other k x [] = elim (Bool-cases (eq x k)) [
    | inl e ↦ rw e refl
    | inr e ↦ rw e refl
  ]
  occurrences-filter_other k x (y ∷ ys) =
      let ih = occurrences-filter_other k x ys in
      elim (Bool-cases (eq x y)) [
        | inl e ↦
            rw (e, ih)
              (elim (Bool-cases (eq x k)) [
                | inl f ↦ rw f refl
                | inr f ↦
                    let g : eq k y ≡ false =
                      other k y (λ h. eq→same x y e ∙ sym (eq→same k y h)) f in
                    rw (f, g) refl
              ])
        | inr e ↦
            rw (e, ih)
              (elim (Bool-cases (eq x k)) [
                | inl f ↦ let g : eq k y ≡ false = rw (eq→same x k f) at e in rw (f, g) refl
                | inr f ↦ rw f refl
              ])
      ]
    where
      other : (k y : K) → ((eq k y ≡ true) → x ≡ k) → eq x k ≡ false → eq k y ≡ false
      other k y h f = elim (Bool-cases (eq k y)) [
        | inl t ↦ absurd (false≢true (sym f ∙ rw (h t) (eq_refl k)))
        | inr t ↦ t
      ]

  -- The elements of a set stand in it once.
  occurrences-distinct :
      (k : K) (xs : List K)
      → occurrences k (distinct eq xs) ≡ (if any (λ x. eq x k) xs then 1 else 0)
  unfolding occurrences distinct
  occurrences-distinct k [] = refl
  occurrences-distinct k (x ∷ xs) =
      rw (occurrences-filter_other k x (distinct eq xs)) (elim (Bool-cases (eq x k)) [
        | inl e ↦ let f : eq k x ≡ true = rw (eq→same x k e) (eq_refl k) in rw (e, f) refl
        | inr e ↦ let f : eq k x ≡ false = flipped e in rw (e, f) (occurrences-distinct k xs)
      ])
    where
      flipped : eq x k ≡ false → eq k x ≡ false
      flipped e = elim (Bool-cases (eq k x)) [
        | inl t ↦ absurd (false≢true (sym e ∙ rw (eq→same k x t) (eq_refl x)))
        | inr t ↦ t
      ]

  -- The keys of a dict of sums are those of its rows.
  keys-add_at :
      (j k : K) (a : ℤ) (d : List (K × ℤ))
      → any (λ x. eq x j) (keys (add_at eq k a d)) ≡ (any (λ x. eq x j) (keys d) || eq k j)
  unfolding add_at
  keys-add_at j k a [] = ground arith
  keys-add_at j k a ((i, b) ∷ d) =
      let ih = keys-add_at j k a d in
      elim (Bool-cases (eq i k)) [
        | inl e ↦ rw (e, eq→same i k e) (or_idem (eq k j) (any (λ x. eq x j) (keys d)))
        | inr e ↦ rw (e, ih) (or_assoc (eq i j) (any (λ x. eq x j) (keys d)) (eq k j))
      ]
    where
      or_idem : (b c : Bool) → (b || c) ≡ ((b || c) || b)
      or_idem b c = ground arith

      or_assoc : (b c e : Bool) → (b || (c || e)) ≡ ((b || c) || e)
      or_assoc b c e = ground arith

  keys-tally :
      (j : K) (rows d : List (K × ℤ))
      → any (λ x. eq x j) (keys (tally eq rows d))
        ≡ (any (λ x. eq x j) (keys d) || any (λ x. eq x j) (keys rows))
  unfolding tally
  keys-tally j [] d = ground arith
  keys-tally j ((k, a) ∷ rows) d =
      keys-tally j rows (add_at eq k a d)
      ∙ rw (keys-add_at j k a d)
          (or_assoc (any (λ x. eq x j) (keys d)) (eq k j) (any (λ x. eq x j) (keys rows)))
    where
      or_assoc : (b c e : Bool) → ((b || c) || e) ≡ (b || (c || e))
      or_assoc b c e = ground arith

  counted_never :
      (k : K) (a : ℤ) (ps : List K)
      → occurrences k ps ≡ 0
      → sum (map (λ p. counted p k a) ps) ≡ pos 0
  unfolding occurrences
  counted_never k a [] h = refl
  counted_never k a (p ∷ ps) h = elim (Bool-cases (eq k p)) [
    | inl e ↦ let z = rw e at h in ground arith
    | inr e ↦ rw e (rw (counted_never k a ps (rw e at h)) (omega int_laws))
  ]

  counted_once :
      (k : K) (a : ℤ) (ps : List K) → occurrences k ps ≡ 1 → sum (map (λ p. counted p k a) ps) ≡ a
  unfolding occurrences
  counted_once k a [] h = ground arith
  counted_once k a (p ∷ ps) h = elim (Bool-cases (eq k p)) [
    | inl e ↦
        let z : occurrences k ps ≡ 0 = let y = rw e at h in omega arith in
        rw e (rw (counted_never k a ps z) (omega int_laws))
    | inr e ↦ rw e (rw (counted_once k a ps (rw e at h)) (omega int_laws))
  ]

  sum_split :
      (k : K) (a : ℤ) (rows : List (K × ℤ)) (ps : List K)
      → sum (map (λ p. sum_for p ((k, a) ∷ rows)) ps)
        ≡ sum (map (λ p. counted p k a) ps) +ℤ sum (map (λ p. sum_for p rows) ps)
  unfolding sum_for
  sum_split k a rows [] = omega int_laws
  sum_split k a rows (p ∷ ps) = rw (sum_split k a rows ps) (omega int_laws)

  sum_none : (ps : List K) → sum (map (λ p. sum_for p []) ps) ≡ pos 0
  unfolding sum_for
  sum_none [] = refl
  sum_none (p ∷ ps) = rw (sum_none ps) (omega int_laws)

  sum_each :
      (rows : List (K × ℤ)) (ps : List K)
      → All (λ r. occurrences r.0 ps ≡ 1) rows
      → sum (map (λ p. sum_for p rows) ps) ≡ sum (amounts rows)
  sum_each [] ps h = sum_none ps
  sum_each ((k, a) ∷ rows) ps (h, hs) =
      sum_split k a rows ps ∙ rw (counted_once k a ps h, sum_each rows ps hs) refl

  once_each :
      (rows : List (K × ℤ)) (xs : List K)
      → All (λ r. any (λ x. eq x r.0) xs ≡ true) rows
      → All (λ r. occurrences r.0 (distinct eq xs) ≡ 1) rows
  once_each [] xs h = tt
  once_each ((k, a) ∷ rows) xs (h, hs) =
      (occurrences-distinct k xs ∙ rw h refl, once_each rows xs hs)

  look_up :
      (rows : List (K × ℤ)) (ps : List K)
      → sum (map (λ p. amount_at eq p (tally eq rows [])) ps) ≡ sum (map (λ p. sum_for p rows) ps)
  unfolding amount_at
  look_up rows [] = refl
  look_up rows (p ∷ ps) =
      rw (look_up rows ps, amount_at-tally p rows [])
        (ap (λ x. x +ℤ sum (map (λ q. sum_for q rows) ps)) (zero-+ℤ (sum_for p rows)))

  -- Over a set of keys that has all those of the rows, what a dict of sums holds comes to the rows.
  pub sum-distinct :
      (le : K → K → Bool) (rows : List (K × ℤ)) (xs : List K)
      → All (λ r. any (λ x. eq x r.0) xs ≡ true) rows
      → sum (map (λ p. amount_at eq p (tally eq rows [])) (sort_by le (distinct eq xs)))
        ≡ sum (amounts rows)
  sum-distinct le rows xs h =
      sum-sort_by le (λ p. amount_at eq p (tally eq rows [])) (distinct eq xs)
      ∙ look_up rows (distinct eq xs)
      ∙ sum_each rows (distinct eq xs) (once_each rows xs h)

  own_keys :
      (rows : List (K × ℤ)) (xs : List K)
      → ((j : K) → any (λ x. eq x j) (keys rows) ≡ true → any (λ x. eq x j) xs ≡ true)
      → All (λ r. any (λ x. eq x r.0) xs ≡ true) rows
  own_keys [] xs h = tt
  own_keys ((k, a) ∷ rows) xs h =
      (h k (rw (eq_refl k) refl), own_keys rows xs (λ j m. h j (rw m (or_true (eq k j)))))
    where
      or_true : (b : Bool) → (b || true) ≡ true
      or_true b = ground arith

  -- The same over the keys of two dicts of sums.
  pub sum-keys_left :
      (le : K → K → Bool) (rows others : List (K × ℤ))
      → sum (
          map
            (λ p. amount_at eq p (tally eq rows []))
            (sort_by le (distinct eq (keys (tally eq rows []) ++ keys (tally eq others [])))))
        ≡ sum (amounts rows)
  sum-keys_left le rows others = sum-distinct le rows _ (
      own_keys rows _ (λ j m.
        any-append (λ x. eq x j) (keys (tally eq rows [])) (keys (tally eq others []))
        ∙ rw (keys-tally j rows [], m) refl))

  pub sum-keys_right :
      (le : K → K → Bool) (rows others : List (K × ℤ))
      → sum (
          map
            (λ p. amount_at eq p (tally eq rows []))
            (sort_by le (distinct eq (keys (tally eq others []) ++ keys (tally eq rows [])))))
        ≡ sum (amounts rows)
  sum-keys_right le rows others = sum-distinct le rows _ (
      own_keys rows _ (λ j m.
        any-append (λ x. eq x j) (keys (tally eq others [])) (keys (tally eq rows []))
        ∙ rw (keys-tally j rows [], m) (or_true (any (λ x. eq x j) (keys (tally eq others []))))))
    where
      or_true : (b : Bool) → (b || true) ≡ true
      or_true b = ground arith
