-- ===== src/Billing/Draft/Dict.antt =====
-- The dict of `_previous_readings`: `setdefault` keeps the first row of each service.
use home_trap.Prelude.{
  ℕ, ◌≡◌, refl, ◌∙◌, inl, inr, Bool, true, false, Option, none, some, List, [], ◌∷◌, ◌++◌, arith,
  opt_eq, is_some, find?, Bool-cases, if◌then◌else◌,
}
use home_trap.Prelude.Int.{ℤ}
use home_trap.Billing.Draft.{Reading, Previous, get, setdefault, collect}

abbrev pub or_else : Option ℤ → Option ℤ → Option ℤ
or_else (some v) other = some v
or_else none other = other

abbrev pub for_service : Option ℕ → Reading → Bool
for_service k r = opt_eq r.service_id k

abbrev pub current_of : Option Reading → Option ℤ
current_of none = none
current_of (some r) = some r.current

pub opt_eq→eq : (a b : Option ℕ) → opt_eq a b ≡ true → a ≡ b
opt_eq→eq a b h = ground arith

get-append_one :
    (d : Previous) (k j : Option ℕ) (v : ℤ)
    → get (d ++ (k, v) ∷ []) j ≡ or_else (get d j) (if opt_eq k j then some v else none)
unfolding get
get-append_one [] k j v = refl
get-append_one ((i, w) ∷ d) k j v = elim (Bool-cases (opt_eq i j)) [
  | inl e ↦ rw e
  | inr e ↦ rw e (get-append_one d k j v)
]

get-setdefault :
    (d : Previous) (k j : Option ℕ) (v : ℤ)
    → get (setdefault d k v) j ≡ or_else (get d j) (if opt_eq k j then some v else none)
unfolding setdefault
get-setdefault d k j v = elim (Bool-cases (is_some (get d k))) [
  | inl known ↦ rw known (elim (Bool-cases (opt_eq k j)) [
    | inl e ↦ rw (← opt_eq→eq k j e) (some_stays (get d k) _ known)
    | inr e ↦ rw e (or_else-none (get d j))
  ])
  | inr new ↦ rw new (get-append_one d k j v)
]
  where
    some_stays : (o other : Option ℤ) → is_some o ≡ true → o ≡ or_else o other
    some_stays none other h = cc
    some_stays (some v) other h = refl

    or_else-none : (o : Option ℤ) → o ≡ or_else o none
    or_else-none none = refl
    or_else-none (some v) = refl

-- The dict holds the first row of each service.
pub get-collect :
    (d : Previous) (rows : List Reading) (k : Option ℕ)
    → get (collect d rows) k ≡ or_else (get d k) (current_of (find? (for_service k) rows))
unfolding collect
get-collect d [] k = or_else-none (get d k)
  where
    or_else-none : (o : Option ℤ) → o ≡ or_else o none
    or_else-none none = refl
    or_else-none (some v) = refl
get-collect d (r ∷ rows) k =
    get-collect (setdefault d r.service_id r.current) rows k
    ∙ rw (get-setdefault d r.service_id k r.current) (first_wins (get d k) (opt_eq r.service_id k))
  where
    first_wins :
        (o : Option ℤ) (same : Bool)
        → or_else
            (or_else o (if same then some r.current else none))
            (current_of (find? (for_service k) rows))
          ≡ or_else o (current_of (if same then some r else find? (for_service k) rows))
    first_wins none true = refl
    first_wins none false = refl
    first_wins (some v) b = refl
