-- ===== src/Examples/Tenants.antt =====
-- Contracts of the small rental.
use home_trap.Prelude.{◌≡◌, refl, none, some, text}
use home_trap.Prelude.Result.{Result, ok, err}
use home_trap.Calendar.{date}
use home_trap.Models.{Tenant, Db}
use home_trap.Tenants.{Refusal, Payload, new_tenant, create_tenant, end_contract}
use home_trap.Tenants.Contracts.{AreApart}
use home_trap.Tenants.Contracts.Operations.{Steps, Step, Steps-AreApart}
use home_trap.Examples.Data.{store}

abbrev contract : Payload
contract = record {
  full_name = text "Olha";
  phone = none;
  email = none;
  contract_start = date 2026 1 10;
  contract_end = none;
  billing_day = some 31;
  notes = none;
}

abbrev result_or : {A : Type 0} → A → Result Refusal A → A
result_or d (ok a) = a
result_or d (err e) = d

abbrev let_out : Tenant × Db
let_out = result_or (new_tenant store 1 contract, store) (create_tenant store 1 contract)

was_let : create_tenant store 1 contract ≡ ok let_out
unfolding create_tenant
was_let = refl

abbrev ended : Tenant × Db
ended = result_or let_out (end_contract let_out.1 1 (date 2026 5 9))

was_ended : end_contract let_out.1 1 (date 2026 5 9) ≡ ok ended
unfolding create_tenant end_contract
was_ended = refl

second_refused : create_tenant let_out.1 1 contract ≡ err Refusal.active_tenant
unfolding create_tenant
second_refused = refl

signed_and_ended : Steps store ended.1
signed_and_ended =
    Steps.step let_out.1 ended.1
      (Steps.step store let_out.1 Steps.stay (Step.create 1 contract let_out.0 refl was_let))
      (Step.finish 1 (date 2026 5 9) ended.0 was_ended)

Steps-AreApart_example : AreApart ended.1.tenants
Steps-AreApart_example =
    Steps-AreApart store ended.1 (record { apart = λ t u m. absurd m; dated = λ t m. absurd m })
      signed_and_ended
