-- ===== src/Schedule/Entries.antt =====
-- What the entries of `compute_billing_schedule` in backend/app/services/billing_schedule.py say.
use home_trap.Prelude.{
  ◌≡◌, refl, sym, ap, ◌∙◌, ◌⊎◌, inl, inr, true, false, Option, some, List, [], ◌∷◌, In, In-filter,
  Option-cases, and-true, not-true,
}
use home_trap.Prelude.Sort.{first_by-In}
use home_trap.Calendar.{Date, date_ltb, date_leb}
use home_trap.Models.{Db}
use home_trap.Schedule.{
  BillingScheduleEntry, first_upcoming, last_missed, scheduled, is_upcoming, collect_some,
  compute_billing_schedule_candidates, compute_billing_schedule,
}
use home_trap.Schedule.Candidates.{IsCandidate, candidates-IsCandidate}

pub In-collect_some :
    {A B : Type 0} (f : A → Option B) (y : B) (xs : List A)
    → In y (collect_some f xs)
    → (x : A) × In x xs × (f x ≡ some y)
In-collect_some f y [] m = absurd m
In-collect_some f y (x ∷ xs) m = elim (Option-cases (f x)) [
  | inl e ↦ let (z, mz, q) = In-collect_some f y xs (rw (e, In) at m) in (z, inr mz, q)
  | inr (w, e) ↦
      let m' : (y ≡ w) ⊎ In y (collect_some f xs) = rw (e, In) at m in
      elim m' [
        | inl q ↦ (x, inl refl, e ∙ ap some (sym q))
        | inr r ↦ let (z, mz, q) = In-collect_some f y xs r in (z, inr mz, q)
      ]
]

-- Each entry of the schedule is for an active apartment of the database and a tenant of it whose
-- contract has begun and does not end before the month that is billed now; its billing date has the
-- tenant's billing day, or is the last of a shorter month; its period is the month before that date, not
-- before the month of the contract's start and not after that of its end; it tells whether the apartment has an
-- invoice of that period; and either it is overdue, its billing date is past and there is no such invoice, or its
-- billing date is today or later.
pub compute_billing_schedule-IsCandidate :
    (db : Db) (today : Date) (e : BillingScheduleEntry)
    → In e (compute_billing_schedule db today)
    → IsCandidate db today e
      × (((e.is_overdue ≡ true)
            × (date_ltb e.billing_date today ≡ true)
            × (e.invoice_exists ≡ false))
          ⊎ (date_leb today e.billing_date ≡ true))
unfolding compute_billing_schedule scheduled
compute_billing_schedule-IsCandidate db today e m =
    let (es, mes, q) =
      In-collect_some (scheduled today) e (compute_billing_schedule_candidates db today) m in
    elim (Option-cases (last_missed es)) [
      | inl n ↦
          let up : first_upcoming today es ≡ some e = rw (n, scheduled) at q in
          let (me, ahead) = In-filter (is_upcoming today) e es (first_by-In _ e _ up) in
          (candidates-IsCandidate db today e es mes me, inr ahead)
      | inr (w, n) ↦
          let same : some w ≡ some e = rw (n, scheduled) at q in
          let w≡e : w ≡ e = cc in
          let missed : last_missed es ≡ some e = n ∙ same in
          let (me, late) =
            In-filter (λ (x : BillingScheduleEntry). x.is_overdue) e es
              (first_by-In _ e _ missed) in
          let c = candidates-IsCandidate db today e es mes me in
          let (past, free) = and-true _ _ (sym c.overdue ∙ late) in
          let missing = not-true _ free in (c, inl (late, past, missing))
    ]
