-- ===== src/Billing/Chronology.antt =====
-- The order of an apartment's invoices, with which `validate_invoice_chronology` and the unique
-- constraint on apartment and period are concerned.
pub mod Operations
use home_trap.Prelude.{
  ℕ, ◌≡◌, refl, sym, ap, ◌∙◌, ◌⊎◌, inl, inr, Bool, true, false, not, ◌&&◌, List, [], ◌∷◌, ◌++◌,
  arith, ◌==◌, ==_iff, In, any, filter, update_where, In-filter, In-append_one, In-update_where,
  any-false, and-false, eq→==, Bool-cases,
}
use mathlib.Core.Bool.{false≢true}
use home_trap.Calendar.{date_ltb, date_eq}
use home_trap.Calendar.Order.{eq_of_not_before, date_eq_refl, date_eq_sym, date_ltb_irrefl}
use home_trap.Models.{InvoiceStatus, status_eq, Invoice}
use home_trap.Billing.{is_later, is_earlier_draft}
use home_trap.Billing.Draft.{same_period}
use home_trap.Billing.Update.{has_invoice_id}

-- No invoice of an apartment lies after one of its drafts, and no two share a period.
pub record IsChronological (xs : List Invoice) : Type 0 where
  pub draft_last :
      (i j : Invoice)
      → In i xs
      → In j xs
      → i.apartment_id ≡ j.apartment_id
      → i.status ≡ InvoiceStatus.draft
      → date_ltb i.period j.period ≡ false
  pub one_per_period :
      (i j : Invoice)
      → In i xs
      → In j xs
      → i.apartment_id ≡ j.apartment_id
      → date_eq i.period j.period ≡ true
      → i.id ≡ j.id

-- The new invoice stands where the old one stood.
pub record TakesPlace (old new : Invoice) : Type 0 where
  pub id : new.id ≡ old.id
  pub apartment_id : new.apartment_id ≡ old.apartment_id
  pub period : new.period ≡ old.period

replaced :
    (x new : Invoice) (id : ℕ) (xs : List Invoice)
    → In x (update_where (has_invoice_id id) (λ _. new) xs)
    → (x ≡ new) ⊎ (In x xs × ((x.id == id) ≡ false))
replaced x new id xs m =
    let (y, my, h) = In-update_where (has_invoice_id id) (λ _. new) x xs m in
    elim h [ inl (t, e) ↦ inl e | inr (t, e) ↦ inr (rw e my, rw e t) ]

module _ (xs : List Invoice) (old new : Invoice) (c : IsChronological xs) (m : In old xs)
    (t : TakesPlace old new)
    (last : new.status ≡ InvoiceStatus.draft
      → (j : Invoice) → In j xs
      → old.apartment_id ≡ j.apartment_id
      → date_ltb old.period j.period ≡ false) where
  abbrev ys : List Invoice
  ys = update_where (has_invoice_id old.id) (λ _. new) xs

  replaced_draft_last :
      (i j : Invoice)
      → (i ≡ new) ⊎ (In i xs × ((i.id == old.id) ≡ false))
      → (j ≡ new) ⊎ (In j xs × ((j.id == old.id) ≡ false))
      → i.apartment_id ≡ j.apartment_id
      → i.status ≡ InvoiceStatus.draft
      → date_ltb i.period j.period ≡ false
  replaced_draft_last i j (inl p) (inl q) same d = rw (p, q) (date_ltb_irrefl new.period)
  replaced_draft_last i j (inl p) (inr (mj, _)) same d =
      rw (p, t.period) (last (rw p at d) j mj (sym t.apartment_id ∙ rw p at same))
  replaced_draft_last i j (inr (mi, _)) (inl q) same d =
      rw (q, t.period) (c.draft_last i old mi m ((rw q at same) ∙ t.apartment_id) d)
  replaced_draft_last i j (inr (mi, _)) (inr (mj, _)) same d = c.draft_last i j mi mj same d

  replaced_one_per_period :
      (i j : Invoice)
      → (i ≡ new) ⊎ (In i xs × ((i.id == old.id) ≡ false))
      → (j ≡ new) ⊎ (In j xs × ((j.id == old.id) ≡ false))
      → i.apartment_id ≡ j.apartment_id
      → date_eq i.period j.period ≡ true
      → i.id ≡ j.id
  replaced_one_per_period i j (inl p) (inl q) same e = cc
  replaced_one_per_period i j (inl p) (inr (mj, _)) same e =
      rw (p, t.id)
        (c.one_per_period old j m mj (sym t.apartment_id ∙ rw p at same) (rw (p, t.period) at e))
  replaced_one_per_period i j (inr (mi, _)) (inl q) same e =
      rw (q, t.id)
        (c.one_per_period i old mi m ((rw q at same) ∙ t.apartment_id) (rw (q, t.period) at e))
  replaced_one_per_period i j (inr (mi, _)) (inr (mj, _)) same e = c.one_per_period i j mi mj same e

  -- An invoice rewritten in place, not to a draft unless it is the last of its apartment.
  pub replace-IsChronological : IsChronological ys
  replace-IsChronological = record {
    draft_last = λ i j mi mj.
        replaced_draft_last i j (replaced i new old.id xs mi) (replaced j new old.id xs mj);
    one_per_period = λ i j mi mj.
        replaced_one_per_period i j (replaced i new old.id xs mi) (replaced j new old.id xs mj);
  }

-- Fewer invoices.
pub filter-IsChronological :
    (p : Invoice → Bool) (xs : List Invoice) → IsChronological xs → IsChronological (filter p xs)
filter-IsChronological p xs c = record {
  draft_last = λ i j mi mj. c.draft_last i j (In-filter p i xs mi).0 (In-filter p j xs mj).0;
  one_per_period =
      λ i j mi mj. c.one_per_period i j (In-filter p i xs mi).0 (In-filter p j xs mj).0;
}

not_earlier :
    (new i : Invoice)
    → is_earlier_draft new.apartment_id new.period i ≡ false
    → i.apartment_id ≡ new.apartment_id
    → i.status ≡ InvoiceStatus.draft
    → date_ltb i.period new.period ≡ false
not_earlier new i h e d =
    let h' = and-false _ _ h (eq→== i.apartment_id new.apartment_id e) in
    elim (Bool-cases (date_ltb i.period new.period)) [
      | inl before ↦
          absurd (
            false≢true
              (sym (and-false _ _ h' before) ∙ ap (λ s. status_eq s InvoiceStatus.draft) d))
      | inr after ↦ after
    ]

pub not_later :
    (new j : Invoice)
    → is_later new.apartment_id new.period j ≡ false
    → new.apartment_id ≡ j.apartment_id
    → date_ltb new.period j.period ≡ false
not_later new j h e = and-false _ _ h (eq→== j.apartment_id new.apartment_id (sym e))

not_same :
    (new i : Invoice)
    → same_period new.apartment_id new.period i ≡ false
    → i.apartment_id ≡ new.apartment_id
    → date_eq i.period new.period ≡ true
    → ⊥
not_same new i h e k =
    false≢true (sym (and-false _ _ h (eq→== i.apartment_id new.apartment_id e)) ∙ k)

module _ (xs : List Invoice) (new : Invoice) (c : IsChronological xs)
    (no_later : any (is_later new.apartment_id new.period) xs ≡ false)
    (no_draft : any (is_earlier_draft new.apartment_id new.period) xs ≡ false)
    (no_same : any (same_period new.apartment_id new.period) xs ≡ false) where
  appended_draft_last :
      (i j : Invoice)
      → In i xs ⊎ (i ≡ new)
      → In j xs ⊎ (j ≡ new)
      → i.apartment_id ≡ j.apartment_id
      → i.status ≡ InvoiceStatus.draft
      → date_ltb i.period j.period ≡ false
  appended_draft_last i j (inl mi) (inl mj) same d = c.draft_last i j mi mj same d
  appended_draft_last i j (inl mi) (inr q) same d =
      rw q (not_earlier new i (any-false _ xs no_draft i mi) (rw q at same) d)
  appended_draft_last i j (inr p) (inl mj) same d =
      rw p (not_later new j (any-false _ xs no_later j mj) (rw p at same))
  appended_draft_last i j (inr p) (inr q) same d = rw (p, q) (date_ltb_irrefl new.period)

  appended_one_per_period :
      (i j : Invoice)
      → In i xs ⊎ (i ≡ new)
      → In j xs ⊎ (j ≡ new)
      → i.apartment_id ≡ j.apartment_id
      → date_eq i.period j.period ≡ true
      → i.id ≡ j.id
  appended_one_per_period i j (inl mi) (inl mj) same e = c.one_per_period i j mi mj same e
  appended_one_per_period i j (inl mi) (inr q) same e =
      absurd (not_same new i (any-false _ xs no_same i mi) (rw q at same) (rw q at e))
  appended_one_per_period i j (inr p) (inl mj) same e = absurd (
      not_same new j (any-false _ xs no_same j mj) (sym (rw p at same))
        (date_eq_sym new.period j.period (rw p at e)))
  appended_one_per_period i j (inr p) (inr q) same e = cc

  -- One more invoice, after all others of its apartment and with no draft before it.
  pub append-IsChronological : IsChronological (xs ++ new ∷ [])
  append-IsChronological = record {
    draft_last = λ i j mi mj.
        appended_draft_last i j (In-append_one i new xs mi) (In-append_one j new xs mj);
    one_per_period = λ i j mi mj.
        appended_one_per_period i j (In-append_one i new xs mi) (In-append_one j new xs mj);
  }

-- An apartment has at most one draft.
pub one_draft :
    (xs : List Invoice) (i j : Invoice)
    → IsChronological xs
    → In i xs
    → In j xs
    → i.apartment_id ≡ j.apartment_id
    → i.status ≡ InvoiceStatus.draft
    → j.status ≡ InvoiceStatus.draft
    → i.id ≡ j.id
one_draft xs i j c mi mj same di dj =
    let e : i.period ≡ j.period =
      eq_of_not_before i.period j.period (c.draft_last i j mi mj same di)
        (c.draft_last j i mj mi (sym same) dj) in
    c.one_per_period i j mi mj same (rw e (date_eq_refl j.period))
