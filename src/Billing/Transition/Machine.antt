-- ===== src/Billing/Transition/Machine.antt =====
-- The state machine of an invoice: which actions move it where, and what they stamp.
use home_trap.Prelude.{
  ◌≢◌, map, ◌≡◌, refl, sym, ◌∙◌, ◌↔◌, inl, inr, Bool, true, false, Option, none, some, List, [],
  ◌∷◌, arith, In, any, find?, find?-none, Option-cases,
}
use home_trap.Prelude.Result.{ok, err, ◌>>=◌, >>=-eq-ok, ok-injective, raise_if}
use mathlib.Core.Bool.{false≢true}
use home_trap.Calendar.{DateTime}
use home_trap.Models.{InvoiceStatus, InvoiceLine, Invoice, Db}
use home_trap.Billing.{
  cannot_transition, later_invoice, earlier_draft, is_later, validate_invoice_chronology,
}
use home_trap.Billing.Recalculate.{refresh_line, recalculate}
use home_trap.Billing.Recalculate.Totals.{IsSettled, lines-recalculate, recalculate-IsSettled}
use home_trap.Billing.Transition.{Action, lacks_reading, raise_missing, transition}
use Action.{issue, revert_to_draft, mark_paid, unmark_paid}
use InvoiceStatus.{draft, issued, paid}

-- The moves of the machine.
pub data Move : InvoiceStatus → Action → InvoiceStatus → Type 0 where
  issues : Move draft issue issued
  reverts : Move issued revert_to_draft draft
  pays : Move issued mark_paid paid
  unpays : Move paid unmark_paid issued

-- When an invoice was issued and paid is known exactly where its status says that it was.
abbrev pub StampsOf : InvoiceStatus → Option DateTime → Option DateTime → Type 0
StampsOf draft issued_at paid_at = (issued_at ≡ none) × (paid_at ≡ none)
StampsOf issued issued_at paid_at = ((t : DateTime) × (issued_at ≡ some t)) × (paid_at ≡ none)
StampsOf paid issued_at paid_at =
    ((t : DateTime) × (issued_at ≡ some t)) × ((t : DateTime) × (paid_at ≡ some t))

-- What every stored invoice satisfies: its stamps fit its status, its totals fit its lines, and past
-- the draft no metered line lacks a reading.
pub record IsWellFormed (i : Invoice) : Type 0 where
  pub stamps : StampsOf i.status i.issued_at i.paid_at
  pub settled : IsSettled i
  pub read : i.status ≢ draft → (l : InvoiceLine) → In l i.lines → lacks_reading l ≡ false

lines_read :
    (i : Invoice)
    → raise_missing (find? lacks_reading i.lines) ≡ ok tt
    → (l : InvoiceLine) → In l i.lines
    → lacks_reading l ≡ false
lines_read i h =
    find?-none lacks_reading i.lines (elim (Option-cases (find? lacks_reading i.lines)) [
      | inl e ↦ e
      | inr (l, e) ↦ absurd (let h' : raise_missing (some l) ≡ ok tt = rw e at h in cc)
    ])

-- `recalculate` fills in consumption and amounts; whether a reading is there it leaves alone.
lacks_reading-refresh_line : (l : InvoiceLine) → lacks_reading (refresh_line l) ≡ lacks_reading l
unfolding refresh_line
lacks_reading-refresh_line l = ground arith

In-map :
    (f : InvoiceLine → InvoiceLine) (l : InvoiceLine) (ls : List InvoiceLine)
    → In l (map f ls)
    → (k : InvoiceLine) × In k ls × (l ≡ f k)
In-map f l [] m = absurd m
In-map f l (x ∷ xs) (inl e) = (x, inl refl, e)
In-map f l (x ∷ xs) (inr m) = let (k, mk, e) = In-map f l xs m in (k, inr mk, e)

read-recalculate :
    (i : Invoice)
    → ((l : InvoiceLine) → In l i.lines → lacks_reading l ≡ false)
    → (l : InvoiceLine) → In l (recalculate i).lines
    → lacks_reading l ≡ false
read-recalculate i h l m =
    let (k, mk, e) = In-map refresh_line l i.lines (rw (lines-recalculate i) at m) in
    rw e (lacks_reading-refresh_line k ∙ h k mk)

-- The stamps of an invoice whose status is known.
stamps_at :
    (i : Invoice) (s : InvoiceStatus)
    → i.status ≡ s
    → IsWellFormed i
    → StampsOf s i.issued_at i.paid_at
stamps_at i s e w = rw e at w.stamps

draft≢issued : draft ≢ issued
draft≢issued h = cc

-- Status and stamps have no part in the totals.
restamped :
    (i : Invoice) (s : InvoiceStatus) (issued_at paid_at : Option DateTime)
    → IsSettled i
    → IsSettled (record i { status = s; issued_at = issued_at; paid_at = paid_at })
restamped i s issued_at paid_at h = record {
  rent = h.rent;
  utilities = h.utilities;
  adjustments = h.adjustments;
  grand = h.grand;
}

-- What an action that went through has done to a well-formed invoice.
abbrev pub Transitioned : Action → Invoice → Invoice → Type 0
Transitioned action i i' = Move i.status action i'.status × IsWellFormed i'

issue-Transitioned :
    (i : Invoice) (now : DateTime)
    → i.status ≡ draft
    → raise_missing (find? lacks_reading i.lines) ≡ ok tt
    → IsWellFormed i
    → Transitioned issue i (record (recalculate i) { status = issued; issued_at = some now })
unfolding recalculate
issue-Transitioned i now e h w = (
  rw e issues,
  record {
    stamps = ((now, refl), (stamps_at i draft e w).1);
    settled = restamped (recalculate i) issued (some now) i.paid_at (recalculate-IsSettled i).1;
    read = λ _. read-recalculate i (lines_read i h);
  },
)

revert-Transitioned :
    (i : Invoice)
    → i.status ≡ issued
    → IsWellFormed i
    → Transitioned revert_to_draft i (record i { status = draft; issued_at = none })
revert-Transitioned i e w = (
  rw e reverts,
  record {
    stamps = (refl, (stamps_at i issued e w).1);
    settled = restamped i draft none i.paid_at w.settled;
    read = λ h. absurd (h refl);
  },
)

pay-Transitioned :
    (i : Invoice) (now : DateTime)
    → i.status ≡ issued
    → IsWellFormed i
    → Transitioned mark_paid i (record i { status = paid; paid_at = some now })
pay-Transitioned i now e w = (
  rw e pays,
  record {
    stamps = ((stamps_at i issued e w).0, (now, refl));
    settled = restamped i paid i.issued_at (some now) w.settled;
    read = λ _. w.read (λ d. draft≢issued (sym d ∙ e));
  },
)

unpay-Transitioned :
    (i : Invoice)
    → i.status ≡ paid
    → IsWellFormed i
    → Transitioned unmark_paid i (record i { status = issued; paid_at = none })
unpay-Transitioned i e w = (
  rw e unpays,
  record {
    stamps = ((stamps_at i paid e w).0, refl);
    settled = restamped i issued i.issued_at none w.settled;
    read = λ _. w.read (λ d. draft≢paid (sym d ∙ e));
  },
)
  where
    draft≢paid : draft ≢ paid
    draft≢paid h = cc

transition_by-status :
    (db : Db) (now : DateTime) (action : Action) (s : InvoiceStatus) (i i' : Invoice)
    → i.status ≡ s
    → IsWellFormed i
    → transition db now action s i ≡ ok i'
    → Transitioned action i i'
unfolding transition
transition_by-status db now issue draft i i' e w h =
    let (_, complete, k) = >>=-eq-ok (raise_missing (find? lacks_reading i.lines)) _ h in
    rw (← ok-injective k) (issue-Transitioned i now e complete w)
transition_by-status db now revert_to_draft issued i i' e w h =
    let (_, last, k) =
      >>=-eq-ok (validate_invoice_chronology db i.apartment_id i.period false) _ h in
    rw (← ok-injective k) (revert-Transitioned i e w)
transition_by-status db now mark_paid issued i i' e w h =
    rw (← ok-injective h) (pay-Transitioned i now e w)
transition_by-status db now unmark_paid paid i i' e w h =
    rw (← ok-injective h) (unpay-Transitioned i e w)
transition_by-status db now action s i i' e w h = cc

-- An action that goes through makes a move of the machine and leaves a well-formed invoice: its
-- stamps fit its new status, its totals its lines, and it is issued only with all readings.
pub transition-Transitioned :
    (db : Db) (now : DateTime) (action : Action) (i i' : Invoice)
    → IsWellFormed i
    → transition db now action i.status i ≡ ok i'
    → Transitioned action i i'
transition-Transitioned db now action i i' w h =
    transition_by-status db now action i.status i i' refl w h

issue_not_refused :
    (o : Option InvoiceLine) (i i' : Invoice) (s : InvoiceStatus)
    → (raise_missing o >>= λ _. ok i') ≡ err (cannot_transition s)
    → ⊥
issue_not_refused none i i' s h = cc
issue_not_refused (some l) i i' s h = cc

revert_not_refused :
    (later earlier : Bool) (i' : Invoice) (s : InvoiceStatus)
    → ((raise_if later later_invoice >>= λ _. raise_if earlier earlier_draft) >>= λ _. ok i')
      ≡ err (cannot_transition s)
    → ⊥
revert_not_refused true e i' s h = cc
revert_not_refused false true i' s h = cc
revert_not_refused false false i' s h = cc

is_named : Action → Bool
is_named (Action.other x) = false
is_named _ = true

Move-is_named : {s t : InvoiceStatus} {action : Action} → Move s action t → is_named action ≡ true
unfolding is_named
Move-is_named issues = refl
Move-is_named reverts = refl
Move-is_named pays = refl
Move-is_named unpays = refl

refused_by-status :
    (db : Db) (now : DateTime) (action : Action) (s : InvoiceStatus) (i : Invoice)
    → (transition db now action s i ≡ err (cannot_transition i.status))
      ↔ ((t : InvoiceStatus) → ¬ (Move s action t))
unfolding transition is_named
refused_by-status db now issue draft i = (
  λ h. absurd (issue_not_refused (find? lacks_reading i.lines) i _ i.status h),
  λ no_move. absurd (no_move issued issues),
)
refused_by-status db now revert_to_draft issued i = (
  λ h. absurd (
      revert_not_refused (any (is_later i.apartment_id i.period) db.invoices) false
        (record i { status = draft; issued_at = none }) i.status h),
  λ no_move. absurd (no_move draft reverts),
)
refused_by-status db now mark_paid issued i = (λ h. cc, λ no_move. absurd (no_move paid pays))
refused_by-status db now unmark_paid paid i = (λ h. cc, λ no_move. absurd (no_move issued unpays))
refused_by-status db now (Action.other x) s i =
    (λ h t move. false≢true (Move-is_named move), λ no_move. refl)
refused_by-status db now action s i = (λ h t move. elim move [ ], λ no_move. refl)

-- An action is refused as impossible exactly where the machine has no move for it.
pub transition-refused :
    (db : Db) (now : DateTime) (action : Action) (i : Invoice)
    → (transition db now action i.status i ≡ err (cannot_transition i.status))
      ↔ ((s : InvoiceStatus) → ¬ (Move i.status action s))
transition-refused db now action i = refused_by-status db now action i.status i
