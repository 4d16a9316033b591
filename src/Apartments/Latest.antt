-- ===== src/Apartments/Latest.antt =====
-- `_latest_invoices` of backend/app/routers/apartments.py at one apartment.
use home_trap.Prelude.{
  ℕ, ◌≡◌, refl, ◌∙◌, inl, inr, true, false, Option, none, some, List, [], ◌∷◌, ◌==◌, In, In-filter,
  filter-In, filter, arith, Bool-cases,
}
use mathlib.Core.Bool.{false≢true}
use home_trap.Calendar.{Date, date_ltb, date_leb, date_eq}
use home_trap.Models.{Invoice, Db}
use home_trap.Apartments.{
  last_row, later_date, latest_period, at_apartment, has_period, latest_invoice,
}

last_row-In : {A : Type 0} (x : A) (xs : List A) → last_row xs ≡ some x → In x xs
unfolding last_row
last_row-In x [] h = cc
last_row-In x (y ∷ ys) h = last_of (last_row ys) refl (last_row-In x ys)
  where
    last_of : (o : Option _) → last_row ys ≡ o → (last_row ys ≡ some x → In x ys) → In x (y ∷ ys)
    last_of none e ih = let q : some y ≡ some x = rw e at h in inl (cc)
    last_of (some z) e ih = let q : some z ≡ some x = rw e at h in inr (ih (e ∙ q))

last_row-none : {A : Type 0} (xs : List A) → last_row xs ≡ none → xs ≡ []
unfolding last_row
last_row-none [] h = refl
last_row-none (y ∷ ys) h = some_last (last_row ys) refl
  where
    some_last : (o : Option _) → last_row ys ≡ o → y ∷ ys ≡ []
    some_last none e = let q : some y ≡ none = rw e at h in cc
    some_last (some z) e = let q : some z ≡ none = rw e at h in cc

-- The latest period is that of one of the invoices, and no invoice is after it.
abbrev Greatest : List Invoice → Option Date → Type 0
Greatest is none = is ≡ []
Greatest is (some d) =
    ((i : Invoice) × In i is × (date_eq i.period d ≡ true))
    × ((j : Invoice) → In j is → date_leb j.period d ≡ true)

later_date-Greatest :
    (i : Invoice) (is : List Invoice) (o : Option Date)
    → Greatest is o
    → Greatest (i ∷ is) (later_date i.period o)
later_date-Greatest i is none h = (
  (i, inl refl, ground arith),
  λ j m. elim m [
    | inl e ↦ rw e (ground arith)
    | inr n ↦ absurd (let n' : In j [] = rw h at n in n')
  ],
)
later_date-Greatest i is (some d) ((k, mk, ek), bound) = elim (Bool-cases (date_ltb i.period d)) [
  | inl t ↦
      rw t ((k, inr mk, ek), λ j m. elim m [ inl e ↦ rw e (ground arith) | inr n ↦ bound j n ])
  | inr f ↦ rw f (
    (i, inl refl, ground arith),
    λ j m. elim m [ inl e ↦ rw e (ground arith) | inr n ↦ let b = bound j n in ground arith ],
  )
]

latest_period-Greatest : (is : List Invoice) → Greatest is (latest_period is)
unfolding latest_period
latest_period-Greatest [] = refl
latest_period-Greatest (i ∷ is) =
    later_date-Greatest i is (latest_period is) (latest_period-Greatest is)

abbrev pub Latest : Db → ℕ → Option Invoice → Type 0
Latest db apartment_id none =
    (j : Invoice) → In j db.invoices → (j.apartment_id == apartment_id) ≡ false
Latest db apartment_id (some i) =
    In i db.invoices
    × ((i.apartment_id == apartment_id) ≡ true)
    × ((j : Invoice)
        → In j db.invoices
        → (j.apartment_id == apartment_id) ≡ true
        → date_leb j.period i.period ≡ true)

found-Latest :
    (db : Db) (id : ℕ) (d : Option Date) (o : Option Invoice)
    → latest_period (filter (at_apartment id) db.invoices) ≡ d
    → last_row (filter (has_period d) (filter (at_apartment id) db.invoices)) ≡ o
    → Greatest (filter (at_apartment id) db.invoices) d
    → Latest db id o
found-Latest db id none none e h g = λ j m. elim (Bool-cases (j.apartment_id == id)) [
  | inr f ↦ f
  | inl t ↦ absurd (
      let m' : In j (filter (at_apartment id) db.invoices) =
        filter-In (at_apartment id) j db.invoices m t in
      rw g at m')
]
found-Latest db id (some d) none e h ((i, mi, ei), bound) = absurd (
    let m' : In i (filter (has_period (some d)) (filter (at_apartment id) db.invoices)) =
      filter-In (has_period (some d)) i _ mi ei in
    rw (last_row-none _ h) at m')
found-Latest db id none (some i) e h g =
    let (m, t) =
      In-filter (has_period none) i (filter (at_apartment id) db.invoices) (last_row-In i _ h) in
    absurd (false≢true t)
found-Latest db id (some d) (some i) e h (_, bound) =
    let (m, t) = In-filter (has_period (some d)) i _ (last_row-In i _ h) in
    let (mi, at) = In-filter (at_apartment id) i db.invoices m in
    (
      mi,
      at,
      λ j mj aj. let b = bound j (filter-In (at_apartment id) j db.invoices mj aj) in ground arith,
    )

-- The latest invoice of an apartment is one of its invoices, with none of a later period, and is
-- absent only where the apartment has no invoice.
pub latest_invoice-Latest :
    (db : Db) (apartment_id : ℕ) → Latest db apartment_id (latest_invoice db apartment_id)
unfolding latest_invoice
latest_invoice-Latest db apartment_id =
    found-Latest db apartment_id _ _ refl refl
      (latest_period-Greatest (filter (at_apartment apartment_id) db.invoices))
