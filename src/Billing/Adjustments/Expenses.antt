-- ===== src/Billing/Adjustments/Expenses.antt =====
-- `_sync_adjustments`, the header of the invoice, and the expenses of others.
use home_trap.Prelude.{
  ℕ, ◌≡◌, refl, sym, ap, ◌∙◌, Bool, not, Option, none, some, List, [], ◌∷◌, arith, Text, find?,
  filter,
}
use home_trap.Prelude.Result.{ok, >>=-eq-ok, raise_if, or_raise}
use home_trap.Models.{Invoice, InvoiceLine}
use home_trap.Billing.{unknown_adjustment, duplicate_ids}
use home_trap.Billing.Recalculate.{is_adjustment}
use home_trap.Billing.Adjustments.{
  Adjustment, Workspace, sync_adjustment_expense, normalize_all, requested, has_duplicates,
  contains, raise_unknown, least_unknown, line_ids, new_line, relabel, has_line_id, append_line,
  relabel_line, sync_item, sync_items, remove_lines, sync_adjustments,
}

-- Two versions of an invoice that differ in their lines and totals only.
pub record SameHeader (a b : Invoice) : Type 0 where
  pub id : b.id ≡ a.id
  pub apartment_id : b.apartment_id ≡ a.apartment_id
  pub period : b.period ≡ a.period
  pub status : b.status ≡ a.status
  pub issued_at : b.issued_at ≡ a.issued_at
  pub paid_at : b.paid_at ≡ a.paid_at
  pub exchange_rate : b.exchange_rate ≡ a.exchange_rate
  pub rent_amount_usd : b.rent_amount_usd ≡ a.rent_amount_usd

pub SameHeader-trans : (a b c : Invoice) → SameHeader a b → SameHeader b c → SameHeader a c
SameHeader-trans a b c h k = record {
  id = k.id ∙ h.id;
  apartment_id = k.apartment_id ∙ h.apartment_id;
  period = k.period ∙ h.period;
  status = k.status ∙ h.status;
  issued_at = k.issued_at ∙ h.issued_at;
  paid_at = k.paid_at ∙ h.paid_at;
  exchange_rate = k.exchange_rate ∙ h.exchange_rate;
  rent_amount_usd = k.rent_amount_usd ∙ h.rent_amount_usd;
}

pub SameHeader-refl : (a : Invoice) → SameHeader a a
SameHeader-refl a = record {
  id = refl;
  apartment_id = refl;
  period = refl;
  status = refl;
  issued_at = refl;
  paid_at = refl;
  exchange_rate = refl;
  rent_amount_usd = refl;
}

-- New lines are all that differs.
with_new_lines : (a : Invoice) (ls : List InvoiceLine) → SameHeader a (record a { lines = ls })
with_new_lines a ls = record {
  id = refl;
  apartment_id = refl;
  period = refl;
  status = refl;
  issued_at = refl;
  paid_at = refl;
  exchange_rate = refl;
  rent_amount_usd = refl;
}

SameHeader-eq : (a b : Invoice) → b ≡ a → SameHeader a b
SameHeader-eq a b e = rw e (SameHeader-refl a)

pub invoice-sync_adjustment_expense :
    (ws ws' : Workspace) (line : InvoiceLine) (wanted : Bool) (category : Option Text)
    → sync_adjustment_expense ws line wanted category ≡ ok ws'
    → ws'.invoice ≡ ws.invoice
unfolding sync_adjustment_expense
invoice-sync_adjustment_expense ws ws' line wanted category h = ground arith

sync_item-SameHeader :
    (ws ws' : Workspace) (item : Adjustment) (id : Option ℕ)
    → sync_item ws item id ≡ ok ws'
    → SameHeader ws.invoice ws'.invoice
unfolding sync_item
sync_item-SameHeader ws ws' item none h =
    let line = new_line ws.next_line item in
    SameHeader-trans ws.invoice (append_line ws line).invoice ws'.invoice
      (with_new_lines ws.invoice _)
      (SameHeader-eq _ _ (
        invoice-sync_adjustment_expense (append_line ws line) ws' line item.record_as_expense
          item.category h))
sync_item-SameHeader ws ws' item (some line_id) h =
    let (line, found, k) =
      >>=-eq-ok
        (or_raise (find? (has_line_id line_id) (filter is_adjustment ws.invoice.lines))
          (unknown_adjustment line_id))
        _ h in
    SameHeader-trans ws.invoice (relabel_line ws line_id item).invoice ws'.invoice
      (with_new_lines ws.invoice _)
      (SameHeader-eq _ _ (
        invoice-sync_adjustment_expense (relabel_line ws line_id item) ws' (relabel item line)
          item.record_as_expense item.category k))

sync_items-SameHeader :
    (ws ws' : Workspace) (items : List Adjustment)
    → sync_items ws items ≡ ok ws'
    → SameHeader ws.invoice ws'.invoice
unfolding sync_items
sync_items-SameHeader ws ws' [] h = let e : ws ≡ ws' = cc in rw e (SameHeader-refl ws'.invoice)
sync_items-SameHeader ws ws' (item ∷ items) h =
    let (mid, first, rest) = >>=-eq-ok (sync_item ws item item.id) _ h in
    SameHeader-trans ws.invoice mid.invoice ws'.invoice
      (sync_item-SameHeader ws mid item item.id first) (sync_items-SameHeader mid ws' items rest)

-- The adjustments change the lines of the invoice and nothing else of it.
pub sync_adjustments-SameHeader :
    (ws ws' : Workspace) (adjustments : List Adjustment)
    → sync_adjustments ws adjustments ≡ ok ws'
    → SameHeader ws.invoice ws'.invoice
unfolding sync_adjustments
sync_adjustments-SameHeader ws ws' adjustments h =
    let existing = line_ids (filter is_adjustment ws.invoice.lines) in
    let (items, normal, h1) = >>=-eq-ok (normalize_all adjustments) _ h in
    let (_, single, h2) =
      >>=-eq-ok (raise_if (has_duplicates (requested items)) duplicate_ids) _ h1 in
    let (_, known, h3) =
      >>=-eq-ok (raise_unknown (least_unknown (requested items) existing) unknown_adjustment) _
        h2 in
    let (mid, synced, h4) = >>=-eq-ok (sync_items ws items) _ h3 in
    let removed = filter (λ x. not (contains (requested items) x)) existing in
    let e : remove_lines mid removed ≡ ws' = cc in
    SameHeader-trans ws.invoice mid.invoice ws'.invoice (sync_items-SameHeader ws mid items synced)
      (SameHeader-trans mid.invoice (remove_lines mid removed).invoice ws'.invoice
        (with_new_lines mid.invoice _)
        (SameHeader-eq _ _ (ap (λ (w : Workspace). w.invoice) (sym e))))
