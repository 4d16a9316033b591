-- ===== src/Billing/Lifecycle.antt =====
-- The operations of backend/app/services/billing.py as the steps of one system.
use home_trap.Prelude.{
  ℕ, ◌≡◌, refl, sym, ap, ◌∙◌, inl, inr, false, not, Option, none, List, In, any, any-false,
  In-append_one, In-filter, In-update_where, update_where, find?,
}
use home_trap.Prelude.Int.{ℤ}
use home_trap.Prelude.Result.{ok, raise_if, >>=-eq-ok, ok-injective}
use home_trap.Calendar.{Date, DateTime, date_ltb}
use home_trap.Models.{InvoiceStatus, status_eq, Invoice, Apartment, Db, next_key}
use home_trap.Billing.{
  not_deletable, is_later, validate_invoice_chronology, get_invoice, locked_invoice,
}
use home_trap.Billing.Recalculate.{recalculate}
use home_trap.Billing.Recalculate.Totals.{recalculate-IsSettled}
use home_trap.Billing.Draft.{create_draft, empty_draft}
use home_trap.Billing.Adjustments.{Adjustment}
use home_trap.Billing.Update.{Readings, has_invoice_id, store_invoice, update_draft, delete_draft}
use home_trap.Billing.Transition.{
  Action, lacks_reading, raise_missing, transition, transition_invoice,
}
use home_trap.Billing.Transition.Machine.{IsWellFormed, transition-Transitioned}
use home_trap.Billing.Chronology.{IsChronological, TakesPlace, not_later, replace-IsChronological}
use home_trap.Billing.Chronology.Operations.{
  create_draft-Created, Rewritten, locked_invoice-In, validate_invoice_chronology-ok,
  update_draft-Rewritten, create_draft-IsChronological, update_draft-IsChronological,
  delete_draft-IsChronological,
}
use InvoiceStatus.{draft, issued, paid}

-- Where an action leads back to a draft, no invoice of the apartment is later.
abbrev LastIfDraft : Db → Invoice → Invoice → Type 0
LastIfDraft db i i' = i'.status ≡ draft → any (is_later i.apartment_id i.period) db.invoices ≡ false

transition-TakesPlace :
    (db : Db) (now : DateTime) (action : Action) (s : InvoiceStatus) (i i' : Invoice)
    → transition db now action s i ≡ ok i'
    → TakesPlace i i' × LastIfDraft db i i'
unfolding transition recalculate
transition-TakesPlace db now Action.issue draft i i' h =
    let (_, complete, k) = >>=-eq-ok (raise_missing (find? lacks_reading i.lines)) _ h in
    rw (← ok-injective k) (record { id = refl; apartment_id = refl; period = refl }, λ d. cc)
transition-TakesPlace db now Action.revert_to_draft issued i i' h =
    let (_, last, k) =
      >>=-eq-ok (validate_invoice_chronology db i.apartment_id i.period false) _ h in
    rw (← ok-injective k) (
      record { id = refl; apartment_id = refl; period = refl },
      λ d. (validate_invoice_chronology-ok db i.apartment_id i.period false last).0,
    )
transition-TakesPlace db now Action.mark_paid issued i i' h =
    rw (← ok-injective h) (record { id = refl; apartment_id = refl; period = refl }, λ d. cc)
transition-TakesPlace db now Action.unmark_paid paid i i' h =
    rw (← ok-injective h) (record { id = refl; apartment_id = refl; period = refl }, λ d. cc)
transition-TakesPlace db now action s i i' h = cc

-- A transition that returned has rewritten one invoice by a transition.
pub transition_invoice-Rewritten :
    (db : Db) (now : DateTime) (id : ℕ) (action : Action) (found : Invoice) (db' : Db)
    → transition_invoice db now id action ≡ ok (found, db')
    → (r : Rewritten db db') × (transition db now action r.old.status r.old ≡ ok r.new)
      × LastIfDraft db r.old r.new
unfolding transition_invoice
transition_invoice-Rewritten db now id action found db' h =
    let (i, locked, h1) = >>=-eq-ok (locked_invoice db id) _ h in
    let (i', moved, h2) = >>=-eq-ok (transition db now action i.status i) _ h1 in
    let (_, got, h3) = >>=-eq-ok (get_invoice (store_invoice db i') i.id) _ h2 in
    let (place, last) = transition-TakesPlace db now action i.status i i' moved in
    (
      record {
        old = i;
        new = i';
        member = (locked_invoice-In db id i locked).0;
        place = place;
        invoices =
            ap (λ (r : Invoice × Db). r.1.invoices) (sym (ok-injective h3))
            ∙ ap (λ (k : ℕ). update_where (has_invoice_id k) (λ _. i') db.invoices) place.id;
      },
      moved,
      last,
    )

-- A step of the system: a call that returned. A call that raised has changed nothing.
pub data Step (db db' : Db) : Type 0 where
  creates :
      (apartment : Apartment) (period : Date) (rate : ℤ) (found : Invoice)
      → create_draft db apartment period rate ≡ ok (found, db')
      → Step db db'
  updates :
      (id : ℕ) (rate : Option ℤ) (readings : Readings) (adjustments : Option (List Adjustment))
      (found : Invoice)
      → update_draft db id rate readings adjustments ≡ ok (found, db')
      → Step db db'
  deletes : (id : ℕ) → delete_draft db id ≡ ok db' → Step db db'
  transitions :
      (now : DateTime) (id : ℕ) (action : Action) (found : Invoice)
      → transition_invoice db now id action ≡ ok (found, db')
      → Step db db'

pub data Reach (start : Db) : Db → Type 0 where
  here : Reach start start
  next : {db db' : Db} → Reach start db → Step db db' → Reach start db'

-- What the billing service keeps true of its invoices.
pub record IsSound (db : Db) : Type 0 where
  pub chronological : IsChronological db.invoices
  pub well_formed : (i : Invoice) → In i db.invoices → IsWellFormed i

-- One invoice rewritten by a well-formed one.
Rewritten-IsWellFormed :
    (db db' : Db) (r : Rewritten db db')
    → IsSound db
    → IsWellFormed r.new
    → (i : Invoice) → In i db'.invoices
    → IsWellFormed i
Rewritten-IsWellFormed db db' r s w i m =
    let (y, my, h) =
      In-update_where (has_invoice_id r.old.id) (λ _. r.new) i db.invoices (rw r.invoices at m) in
    elim h [ inl (_, e) ↦ rw e w | inr (_, e) ↦ rw e (s.well_formed y my) ]

recalculate-IsWellFormed :
    (w i : Invoice)
    → i ≡ recalculate w
    → i.status ≡ draft
    → i.issued_at ≡ none
    → i.paid_at ≡ none
    → IsWellFormed i
recalculate-IsWellFormed w i e d a p = record {
  stamps = rw d (a, p);
  settled = rw e (recalculate-IsSettled w).1;
  read = λ past. absurd (past d);
}

draft_stamps :
    (i : Invoice) → i.status ≡ draft → IsWellFormed i → (i.issued_at ≡ none) × (i.paid_at ≡ none)
draft_stamps i d w = rw d at w.stamps

Step-creates :
    (db db' : Db) (apartment : Apartment) (period : Date) (rate : ℤ) (found : Invoice)
    → IsSound db
    → create_draft db apartment period rate ≡ ok (found, db')
    → IsSound db'
unfolding recalculate
Step-creates db db' apartment period rate found s h = record {
  chronological = create_draft-IsChronological db apartment period rate found db' s.chronological h;
  well_formed = λ i m.
      let c = create_draft-Created db apartment period rate found db' h in
      let m' = rw c.stored at m in
      let blank =
        empty_draft apartment period rate (next_key (λ (k : Invoice). k.id) db.invoices) c.lines in
      elim (In-append_one i _ db.invoices m') [
        | inl old ↦ s.well_formed i old
        | inr e ↦ recalculate-IsWellFormed blank i e (rw e refl) (rw e refl) (rw e refl)
      ];
}

Step-updates :
    (db db' : Db) (id : ℕ) (rate : Option ℤ) (readings : Readings)
    (adjustments : Option (List Adjustment)) (found : Invoice)
    → IsSound db
    → update_draft db id rate readings adjustments ≡ ok (found, db')
    → IsSound db'
Step-updates db db' id rate readings adjustments found s h =
    let (r, d, (status, issued_at, paid_at), (w, e)) =
      update_draft-Rewritten db id rate readings adjustments found db' h in
    let (a, p) = draft_stamps r.old d (s.well_formed r.old r.member) in
    record {
      chronological =
          update_draft-IsChronological db id rate readings adjustments found db' s.chronological h;
      well_formed =
          Rewritten-IsWellFormed db db' r s
            (recalculate-IsWellFormed w r.new e (status ∙ d) (issued_at ∙ a) (paid_at ∙ p));
    }

In-deleted :
    (db db' : Db) (id : ℕ)
    → delete_draft db id ≡ ok db'
    → (i : Invoice) → In i db'.invoices
    → In i db.invoices
unfolding delete_draft
In-deleted db db' id h i m =
    let (invoice, locked, h1) = >>=-eq-ok (locked_invoice db id) _ h in
    let (_, deletable, h2) =
      >>=-eq-ok (raise_if (not (status_eq invoice.status InvoiceStatus.draft)) not_deletable) _
        h1 in
    (In-filter _ i db.invoices (rw (← ok-injective h2) at m)).0

not_later→before :
    (db : Db) (i j : Invoice)
    → any (is_later i.apartment_id i.period) db.invoices ≡ false
    → In j db.invoices
    → i.apartment_id ≡ j.apartment_id
    → date_ltb i.period j.period ≡ false
not_later→before db i j none_later m e = not_later i j (any-false _ db.invoices none_later j m) e

Step-transitions :
    (db db' : Db) (now : DateTime) (id : ℕ) (action : Action) (found : Invoice)
    → IsSound db
    → transition_invoice db now id action ≡ ok (found, db')
    → IsSound db'
Step-transitions db db' now id action found s h =
    let (r, moved, last) = transition_invoice-Rewritten db now id action found db' h in
    record {
      chronological = rw r.invoices (
          replace-IsChronological db.invoices r.old r.new s.chronological r.member r.place
            (λ d j mj same. not_later→before db r.old j (last d) mj same));
      well_formed =
          Rewritten-IsWellFormed db db' r s
            (transition-Transitioned db now action r.old r.new (s.well_formed r.old r.member)
              moved).1;
    }

-- Every operation that returns keeps the invoices sound.
pub Step-IsSound : (db db' : Db) → Step db db' → IsSound db → IsSound db'
Step-IsSound db db' (creates apartment period rate found h) s =
    Step-creates db db' apartment period rate found s h
Step-IsSound db db' (updates id rate readings adjustments found h) s =
    Step-updates db db' id rate readings adjustments found s h
Step-IsSound db db' (deletes id h) s = record {
  chronological = delete_draft-IsChronological db id db' s.chronological h;
  well_formed = λ i m. s.well_formed i (In-deleted db db' id h i m);
}
Step-IsSound db db' (transitions now id action found h) s =
    Step-transitions db db' now id action found s h

-- Whatever sequence of operations ran on sound invoices, the invoices are sound: no invoice of an
-- apartment lies after one of its drafts, no two share a period, every invoice carries the stamps of
-- its status and totals that agree with its lines, and none has left the draft with a reading missing.
pub Reach-IsSound : {start db : Db} → Reach start db → IsSound start → IsSound db
Reach-IsSound here s = s
Reach-IsSound (next {db} {db'} r step) s = Step-IsSound db db' step (Reach-IsSound r s)
