-- ===== src/Billing/Chronology/Operations.antt =====
-- The operations of backend/app/services/billing.py and the order of the invoices.
use home_trap.Prelude.{
  ℕ, ◌≡◌, refl, sym, ap, ◌∙◌, Bool, true, false, not, ◌&&◌, Option, none, some, List, [], ◌∷◌, ◌++◌,
  arith, ◌==◌, ==_iff, In, any, find?-some, update_where, not-false,
}
use home_trap.Prelude.Int.{ℤ}
use home_trap.Prelude.Result.{ok, raise_if, >>=-eq-ok, raise_if-eq-ok, or_raise-eq-ok, ok-injective}
use home_trap.Calendar.{Date}
use home_trap.Models.{InvoiceStatus, status_eq, InvoiceLine, Invoice, Apartment, Db, next_key}
use home_trap.Billing.{
  period_not_first_day, integrity_error, unknown_line, not_editable, not_deletable,
  serialize_invoice_mutations, is_later, is_earlier_draft, validate_invoice_chronology, get_invoice,
  locked_invoice,
}
use home_trap.Billing.Recalculate.{recalculate}
use home_trap.Billing.Draft.{
  same_period, previous_readings, draft_lines, active_services, all_lines, empty_draft,
  create_draft,
}
use home_trap.Billing.Adjustments.{Adjustment, Workspace, least_unknown, raise_unknown, line_ids}
use home_trap.Billing.Adjustments.Expenses.{
  SameHeader, SameHeader-refl, SameHeader-trans, sync_adjustments-SameHeader,
}
use home_trap.Billing.Update.{
  Readings, reading_ids, apply_readings, with_rate, apply_adjustments, has_invoice_id,
  store_invoice, workspace, update_draft, delete_draft,
}
use home_trap.Billing.Chronology.{
  IsChronological, TakesPlace, replace-IsChronological, append-IsChronological,
  filter-IsChronological,
}

-- What a check that passed has found.
pub validate_invoice_chronology-ok :
    (db : Db) (apartment_id : ℕ) (period : Date) (reject : Bool)
    → validate_invoice_chronology db apartment_id period reject ≡ ok tt
    → (any (is_later apartment_id period) db.invoices ≡ false)
      × ((reject && any (is_earlier_draft apartment_id period) db.invoices) ≡ false)
unfolding validate_invoice_chronology
validate_invoice_chronology-ok db apartment_id period reject h =
    let (u, a, k) = >>=-eq-ok _ _ h in (raise_if-eq-ok _ _ a, raise_if-eq-ok _ _ k)

-- What `create_draft` has done where it returned.
pub record Created (db : Db) (apartment : Apartment) (period : Date) (rate : ℤ) (db' : Db)
    : Type 0 where
  pub no_later : any (is_later apartment.id period) db.invoices ≡ false
  pub no_draft : any (is_earlier_draft apartment.id period) db.invoices ≡ false
  pub no_same : any (same_period apartment.id period) db.invoices ≡ false
  pub lines : List InvoiceLine
  pub drafted :
      draft_lines db period
        (previous_readings db apartment.id period)
        (active_services db apartment.id)
        (next_key (λ (l : InvoiceLine). l.id) (all_lines db.invoices))
      ≡ ok lines
  pub stored : db' ≡ record db {
    invoices =
        db.invoices
        ++ recalculate
            (empty_draft apartment period rate (next_key (λ (i : Invoice). i.id) db.invoices) lines)
          ∷ [];
  }

pub create_draft-Created :
    (db : Db) (apartment : Apartment) (period : Date) (rate : ℤ) (found : Invoice) (db' : Db)
    → create_draft db apartment period rate ≡ ok (found, db')
    → Created db apartment period rate db'
unfolding create_draft
create_draft-Created db apartment period rate found db' h =
    let (_, first, h1) = >>=-eq-ok (raise_if (not (period.day == 1)) period_not_first_day) _ h in
    let (_, locked, h2) = >>=-eq-ok (serialize_invoice_mutations db apartment.id) _ h1 in
    let (_, checked, h3) =
      >>=-eq-ok (validate_invoice_chronology db apartment.id period true) _ h2 in
    let (_, unique, h4) =
      >>=-eq-ok (raise_if (any (same_period apartment.id period) db.invoices) integrity_error) _
        h3 in
    let (lines, drafted, h5) =
      >>=-eq-ok
        (draft_lines db period (previous_readings db apartment.id period)
          (active_services db apartment.id)
          (next_key (λ (l : InvoiceLine). l.id) (all_lines db.invoices)))
        _ h4 in
    let invoice_id = next_key (λ (i : Invoice). i.id) db.invoices in
    let db'' = record db {
      invoices =
          db.invoices ++ recalculate (empty_draft apartment period rate invoice_id lines) ∷ [];
    } in
    let (i, got, h6) = >>=-eq-ok (get_invoice db'' invoice_id) _ h5 in
    let (later, draft) = validate_invoice_chronology-ok db apartment.id period true checked in
    record {
      no_later = later;
      no_draft = draft;
      no_same = raise_if-eq-ok _ _ unique;
      lines = lines;
      drafted = drafted;
      stored = cc;
    }

-- An operation that returned has rewritten one invoice in place and no other.
pub record Rewritten (db db' : Db) : Type 0 where
  pub old : Invoice
  pub new : Invoice
  pub member : In old db.invoices
  pub place : TakesPlace old new
  pub invoices : db'.invoices ≡ update_where (has_invoice_id old.id) (λ _. new) db.invoices

recalculate-SameHeader : (i : Invoice) → SameHeader i (recalculate i)
unfolding recalculate
recalculate-SameHeader i = record {
  id = refl;
  apartment_id = refl;
  period = refl;
  status = refl;
  issued_at = refl;
  paid_at = refl;
  exchange_rate = refl;
  rent_amount_usd = refl;
}

-- The invoice that is found under the lock stands in the table.
pub locked_invoice-In :
    (db : Db) (id : ℕ) (i : Invoice) → locked_invoice db id ≡ ok i → In i db.invoices × (i.id ≡ id)
unfolding locked_invoice
locked_invoice-In db id i h =
    let (j, got, h1) = >>=-eq-ok (get_invoice db id) _ h in
    let (_, locked, h2) = >>=-eq-ok (serialize_invoice_mutations db j.apartment_id) _ h1 in
    let (m, e) = find?-some (λ (x : Invoice). x.id == id) db.invoices i (or_raise-eq-ok _ _ h2) in
    (m, (==_iff i.id id).0 e)

with_rate-TakesPlace :
    (i : Invoice) (rate : Option ℤ) (ls : List InvoiceLine)
    → TakesPlace i (record (with_rate i rate) { lines = ls })
with_rate-TakesPlace i none ls = record { id = refl; apartment_id = refl; period = refl }
with_rate-TakesPlace i (some r) ls = record { id = refl; apartment_id = refl; period = refl }

-- Status and stamps of the new invoice are those of the old one.
abbrev pub SameStamps : Invoice → Invoice → Type 0
SameStamps old new =
    (new.status ≡ old.status) × (new.issued_at ≡ old.issued_at) × (new.paid_at ≡ old.paid_at)

with_rate-SameStamps : (i : Invoice) (rate : Option ℤ) → SameStamps i (with_rate i rate)
with_rate-SameStamps i none = (refl, refl, refl)
with_rate-SameStamps i (some r) = (refl, refl, refl)

apply_adjustments-SameHeader :
    (ws ws' : Workspace) (adjustments : Option (List Adjustment))
    → apply_adjustments ws adjustments ≡ ok ws'
    → SameHeader ws.invoice ws'.invoice
apply_adjustments-SameHeader ws ws' none h =
    let e : ws ≡ ws' = cc in rw e (SameHeader-refl ws'.invoice)
apply_adjustments-SameHeader ws ws' (some adjustments) h =
    sync_adjustments-SameHeader ws ws' adjustments h

status_eq→eq : (s t : InvoiceStatus) → status_eq s t ≡ true → s ≡ t
status_eq→eq s t h = ground arith

-- A draft that was updated is rewritten in place by a recalculated one, with its status and stamps.
pub update_draft-Rewritten :
    (db : Db) (id : ℕ) (rate : Option ℤ) (readings : Readings)
    (adjustments : Option (List Adjustment)) (found : Invoice) (db' : Db)
    → update_draft db id rate readings adjustments ≡ ok (found, db')
    → (r : Rewritten db db') × (r.old.status ≡ InvoiceStatus.draft)
      × SameStamps r.old r.new
      × ((w : Invoice) × (r.new ≡ recalculate w))
unfolding update_draft
update_draft-Rewritten db id rate readings adjustments found db' h =
    let (invoice, locked, h1) = >>=-eq-ok (locked_invoice db id) _ h in
    let (_, editable, h2) =
      >>=-eq-ok (raise_if (not (status_eq invoice.status InvoiceStatus.draft)) not_editable) _ h1 in
    let (_, last, h3) =
      >>=-eq-ok (validate_invoice_chronology db invoice.apartment_id invoice.period false) _ h2 in
    let (_, known, h4) =
      >>=-eq-ok
        (raise_unknown (least_unknown (reading_ids readings) (line_ids invoice.lines)) unknown_line)
        _ h3 in
    let (lines, read, h5) = >>=-eq-ok (apply_readings invoice.lines readings) _ h4 in
    let invoice' : Invoice = record (with_rate invoice rate) { lines = lines } in
    let (ws, synced, h6) = >>=-eq-ok (apply_adjustments (workspace db invoice') adjustments) _ h5 in
    let stored = store_invoice (record db { expenses = ws.expenses }) (recalculate ws.invoice) in
    let (i, got, h7) = >>=-eq-ok (get_invoice stored invoice.id) _ h6 in
    let (m, _) = locked_invoice-In db id invoice locked in
    let place = with_rate-TakesPlace invoice rate lines in
    let same =
      SameHeader-trans invoice' ws.invoice (recalculate ws.invoice)
        (apply_adjustments-SameHeader (workspace db invoice') ws adjustments synced)
        (recalculate-SameHeader ws.invoice) in
    let kept = with_rate-SameStamps invoice rate in
    let draft = status_eq→eq _ _ (not-false _ (raise_if-eq-ok _ _ editable)) in
    (
      record {
        old = invoice;
        new = recalculate ws.invoice;
        member = m;
        place = record {
          id = same.id ∙ place.id;
          apartment_id = same.apartment_id ∙ place.apartment_id;
          period = same.period ∙ place.period;
        };
        invoices =
            ap (λ (r : Invoice × Db). r.1.invoices) (sym (ok-injective h7))
            ∙ ap
                (λ (k : ℕ).
                  update_where (has_invoice_id k) (λ _. recalculate ws.invoice) db.invoices)
                (same.id ∙ place.id);
      },
      draft,
      (same.status ∙ kept.0, same.issued_at ∙ kept.1, same.paid_at ∙ kept.2),
      (ws.invoice, refl),
    )

-- Every operation keeps the order: creating a draft,
pub create_draft-IsChronological :
    (db : Db) (apartment : Apartment) (period : Date) (rate : ℤ) (found : Invoice) (db' : Db)
    → IsChronological db.invoices
    → create_draft db apartment period rate ≡ ok (found, db')
    → IsChronological db'.invoices
unfolding recalculate
create_draft-IsChronological db apartment period rate found db' c h =
    let r = create_draft-Created db apartment period rate found db' h in
    rw r.stored (append-IsChronological db.invoices _ c r.no_later r.no_draft r.no_same)

-- editing it,
pub update_draft-IsChronological :
    (db : Db) (id : ℕ) (rate : Option ℤ) (readings : Readings)
    (adjustments : Option (List Adjustment)) (found : Invoice) (db' : Db)
    → IsChronological db.invoices
    → update_draft db id rate readings adjustments ≡ ok (found, db')
    → IsChronological db'.invoices
update_draft-IsChronological db id rate readings adjustments found db' c h =
    let (r, draft, _, _) = update_draft-Rewritten db id rate readings adjustments found db' h in
    rw r.invoices (
      replace-IsChronological db.invoices r.old r.new c r.member r.place
        (λ _ j mj same. c.draft_last r.old j r.member mj same draft))

-- and deleting it,
pub delete_draft-IsChronological :
    (db : Db) (id : ℕ) (db' : Db)
    → IsChronological db.invoices
    → delete_draft db id ≡ ok db'
    → IsChronological db'.invoices
unfolding delete_draft
delete_draft-IsChronological db id db' c h =
    let (invoice, locked, h1) = >>=-eq-ok (locked_invoice db id) _ h in
    let (_, draft, h2) =
      >>=-eq-ok (raise_if (not (status_eq invoice.status InvoiceStatus.draft)) not_deletable) _
        h1 in
    rw (← ok-injective h2) (filter-IsChronological _ db.invoices c)
