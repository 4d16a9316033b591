-- ===== src/Examples/Billing.antt =====
-- The billing service on the small rental.
use home_trap.Prelude.{◌≡◌, refl, inl, true, none, some, [], ◌∷◌, text}
use home_trap.Prelude.Int.{pos, negsuc, ◌+ℤ◌, ◌-ℤ◌, ◌*ℤ◌, abs}
use home_trap.Prelude.Result.{Result, ok, err}
use home_trap.Money.{money}
use home_trap.Models.{Invoice, InvoiceLine, Db}
use home_trap.Billing.{Fault}
use home_trap.Billing.Recalculate.{recalculate}
use home_trap.Billing.Draft.{create_draft, previous_readings, draft_lines}
use home_trap.Billing.Adjustments.{Adjustment}
use home_trap.Billing.Update.{update_draft}
use home_trap.Billing.Transition.Machine.{IsWellFormed}
use home_trap.Billing.Transition.{Action, transition_invoice}
use home_trap.Billing.Lifecycle.{
  Reach, here, next, creates, updates, transitions, IsSound, Reach-IsSound,
}
use home_trap.Examples.Data.{flat, store, rate, january, now}

abbrev result_or : {A : Type 0} → A → Result Fault A → A
result_or d (ok a) = a
result_or d (err e) = d

abbrev blank : Invoice
blank = record {
  id = 0;
  apartment_id = 0;
  period = january;
  status = home_trap.Models.InvoiceStatus.draft;
  issued_at = none;
  paid_at = none;
  exchange_rate = pos 0;
  rent_amount_usd = pos 0;
  rent_amount_uah = pos 0;
  utilities_total = pos 0;
  adjustments_total = pos 0;
  grand_total = pos 0;
  lines = [];
}

-- The draft of January: the rent is 500.00 USD at 41.5.
abbrev first_draft : Invoice × Db
first_draft = result_or (blank, store) (create_draft store flat january rate)

first_draft_total : first_draft.0.grand_total ≡ pos 2100000
unfolding create_draft recalculate money draft_lines previous_readings ◌+ℤ◌ ◌*ℤ◌
first_draft_total = refl

created : create_draft store flat january rate ≡ ok first_draft
unfolding create_draft recalculate money draft_lines previous_readings ◌+ℤ◌ ◌*ℤ◌
created = refl

-- A repair of 150.00 that the tenant paid for.
abbrev repair : Adjustment
repair = record {
  id = none;
  label = text " repair ";
  amount = negsuc 14999;
  record_as_expense = true;
  category = some (text "repair");
}

abbrev pub edited : Invoice × Db
edited =
    result_or (blank, store)
      (update_draft first_draft.1 1 none ((1, some (pos 120000)) ∷ []) (some (repair ∷ [])))

updated :
    update_draft first_draft.1 1 none ((1, some (pos 120000)) ∷ []) (some (repair ∷ [])) ≡ ok edited
unfolding update_draft create_draft recalculate money draft_lines previous_readings ◌+ℤ◌ ◌*ℤ◌ ◌-ℤ◌
    abs
updated = refl

edited_total : (edited.0.grand_total ≡ pos 2085000) × (edited.0.adjustments_total ≡ negsuc 14999)
unfolding update_draft create_draft recalculate money draft_lines previous_readings ◌+ℤ◌ ◌*ℤ◌ ◌-ℤ◌
    abs
edited_total = (refl, refl)

abbrev pub issued : Invoice × Db
issued = result_or (blank, store) (transition_invoice edited.1 now 1 Action.issue)

was_issued : transition_invoice edited.1 now 1 Action.issue ≡ ok issued
unfolding transition_invoice update_draft create_draft recalculate money draft_lines
    previous_readings ◌+ℤ◌ ◌*ℤ◌ ◌-ℤ◌ abs
was_issued = refl

-- Three operations in a row.
three_steps : Reach store issued.1
three_steps =
    next
      (next (next here (creates flat january rate first_draft.0 created))
        (updates 1 none ((1, some (pos 120000)) ∷ []) (some (repair ∷ [])) edited.0 updated))
      (transitions now 1 Action.issue issued.0 was_issued)

pub store-IsSound : IsSound store
store-IsSound = record {
  chronological = record { draft_last = λ i j m. absurd m; one_per_period = λ i j m. absurd m };
  well_formed = λ i m. absurd m;
}

pub issued-IsWellFormed : IsWellFormed issued.0
unfolding transition_invoice update_draft create_draft recalculate money draft_lines
    previous_readings ◌+ℤ◌ ◌*ℤ◌ ◌-ℤ◌ abs
issued-IsWellFormed = (Reach-IsSound three_steps store-IsSound).well_formed issued.0 (inl refl)

Reach-IsSound_example : IsSound issued.1
Reach-IsSound_example = Reach-IsSound three_steps store-IsSound
