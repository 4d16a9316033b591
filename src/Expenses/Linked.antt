-- ===== src/Expenses/Linked.antt =====
-- The operations of backend/app/routers/expenses.py and the expenses of invoices.
use home_trap.Prelude.{
  ℕ, ◌≡◌, sym, ap, ◌∙◌, inl, inr, Bool, true, false, not, List, [], ◌∷◌, ==_iff, is_some, In,
  In-append, In-filter, filter-In, In-update_where, find?-some, update_where, Bool-cases,
}
use mathlib.Core.Bool.{false≢true}
use home_trap.Prelude.Result.{ok, >>=-eq-ok, raise_if-eq-ok, or_raise-eq-ok, ok-injective}
use home_trap.Models.{Expense, Db}
use home_trap.Expenses.{
  NewExpense, Updates, is_expense, get_expense, ensure_expense_is_editable, check_apartment,
  named_apartment, write_updates, create_expense, update_expense, delete_expense,
}

-- Keys are unique among the expenses.
abbrev pub UniqueIds : List Expense → Type 0
UniqueIds xs = (a b : Expense) → In a xs → In b xs → a.id ≡ b.id → a ≡ b

-- No expense of an invoice line has been added, lost or changed.
abbrev pub SameLinked : List Expense → List Expense → Type 0
SameLinked xs ys =
    (e : Expense) → is_some e.invoice_line_id ≡ true → (In e xs → In e ys) × (In e ys → In e xs)

editable :
    (db : Db) (id : ℕ) (old e : Expense)
    → UniqueIds db.expenses
    → get_expense db id ≡ ok old
    → ensure_expense_is_editable old ≡ ok tt
    → In e db.expenses
    → is_some e.invoice_line_id ≡ true
    → is_expense id e ≡ false
unfolding get_expense ensure_expense_is_editable
editable db id old e unique got free m linked = elim (Bool-cases (is_expense id e)) [
  | inr f ↦ f
  | inl t ↦
      let (mo, to) = find?-some (is_expense id) db.expenses old (or_raise-eq-ok _ _ got) in
      let same = unique e old m mo ((==_iff e.id id).0 t ∙ sym ((==_iff old.id id).0 to)) in
      absurd (
        false≢true (
          sym (raise_if-eq-ok _ _ free)
          ∙ ap (λ (x : Expense). is_some x.invoice_line_id) (sym same)
          ∙ linked))
]

update_where-In :
    {A : Type 0} (p : A → Bool) (f : A → A) (x : A) (xs : List A)
    → In x xs
    → p x ≡ false
    → In x (update_where p f xs)
update_where-In p f x [] m e = absurd m
update_where-In p f x (y ∷ ys) (inl q) e = let e' : p y ≡ false = rw q at e in rw e' (inl q)
update_where-In p f x (y ∷ ys) (inr m) e = inr (update_where-In p f x ys m e)

pub create_expense-SameLinked :
    (db : Db) (payload : NewExpense) (e : Expense) (db' : Db)
    → create_expense db payload ≡ ok (e, db')
    → SameLinked db.expenses db'.expenses
unfolding create_expense
create_expense-SameLinked db payload e db' h x linked =
    let (_, checked, h1) = >>=-eq-ok (check_apartment db payload.apartment_id) _ h in
    rw (← ap (λ (r : Expense × Db). r.1.expenses) (ok-injective h1)) (
      λ m. (In-append x db.expenses _).1 (inl m),
      λ m. elim ((In-append x db.expenses _).0 m) [
        | inl a ↦ a
        | inr b ↦ elim b [
          | inl q ↦
              absurd (false≢true (ap (λ (y : Expense). is_some y.invoice_line_id) (sym q) ∙ linked))
          | inr n ↦ absurd n
        ]
      ],
    )

unlinked :
    (updates : Updates) (old : Expense)
    → ensure_expense_is_editable old ≡ ok tt
    → is_some (write_updates updates old).invoice_line_id ≡ false
unfolding ensure_expense_is_editable write_updates
unlinked updates old free = raise_if-eq-ok _ _ free

pub update_expense-SameLinked :
    (db : Db) (id : ℕ) (updates : Updates) (e : Expense) (db' : Db)
    → UniqueIds db.expenses
    → update_expense db id updates ≡ ok (e, db')
    → SameLinked db.expenses db'.expenses
unfolding update_expense
update_expense-SameLinked db id updates e db' unique h x linked =
    let (old, got, h1) = >>=-eq-ok (get_expense db id) _ h in
    let (_, free, h2) = >>=-eq-ok (ensure_expense_is_editable old) _ h1 in
    let (_, checked, h3) =
      >>=-eq-ok (check_apartment db (named_apartment updates.apartment_id)) _ h2 in
    let new = write_updates updates old in
    rw (← ap (λ (r : Expense × Db). r.1.expenses) (ok-injective h3)) (
      λ m.
          update_where-In (is_expense id) (λ _. new) x db.expenses m
            (editable db id old x unique got free m linked),
      λ m.
          let (y, my, c) = In-update_where (is_expense id) (λ _. new) x db.expenses m in
          elim c [
            | inr (_, q) ↦ rw q my
            | inl (_, q) ↦ absurd (
                false≢true (
                  sym (unlinked updates old free)
                  ∙ ap (λ (z : Expense). is_some z.invoice_line_id) (sym q)
                  ∙ linked))
          ],
    )

pub delete_expense-SameLinked :
    (db : Db) (id : ℕ) (db' : Db)
    → UniqueIds db.expenses
    → delete_expense db id ≡ ok db'
    → SameLinked db.expenses db'.expenses
unfolding delete_expense
delete_expense-SameLinked db id db' unique h x linked =
    let (old, got, h1) = >>=-eq-ok (get_expense db id) _ h in
    let (_, free, h2) = >>=-eq-ok (ensure_expense_is_editable old) _ h1 in
    rw (← ap (λ (r : Db). r.expenses) (ok-injective h2)) (
      λ m.
          filter-In (λ (y : Expense). not (is_expense id y)) x db.expenses m
            (ap not (editable db id old x unique got free m linked)),
      λ m. (In-filter (λ (y : Expense). not (is_expense id y)) x db.expenses m).0,
    )

-- One request that changes the expenses.
pub data Request (db : Db) : Db → Type 0 where
  create :
      (payload : NewExpense) (e : Expense) (db' : Db)
      → create_expense db payload ≡ ok (e, db')
      → Request db db'
  update :
      (id : ℕ) (updates : Updates) (e : Expense) (db' : Db)
      → update_expense db id updates ≡ ok (e, db')
      → Request db db'
  delete : (id : ℕ) (db' : Db) → delete_expense db id ≡ ok db' → Request db db'

-- Where keys are unique, an expense linked to an invoice line is in the table after a request that
-- creates, updates or deletes an expense exactly where it was in the table before.
pub Request-SameLinked :
    (db db' : Db) → UniqueIds db.expenses → Request db db' → SameLinked db.expenses db'.expenses
Request-SameLinked db _ unique (Request.create payload e db' h) =
    create_expense-SameLinked db payload e db' h
Request-SameLinked db _ unique (Request.update id updates e db' h) =
    update_expense-SameLinked db id updates e db' unique h
Request-SameLinked db _ unique (Request.delete id db' h) =
    delete_expense-SameLinked db id db' unique h
