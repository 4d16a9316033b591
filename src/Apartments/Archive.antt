-- ===== src/Apartments/Archive.antt =====
-- `archive_apartment` of backend/app/routers/apartments.py under the billing schedule.
use home_trap.Prelude.{
  ℕ, ◌≡◌, refl, sym, ◌∙◌, inl, inr, true, false, List, ◌==◌, In, In-update_where, update_where,
  Bool-cases,
}
use mathlib.Core.Bool.{false≢true}
use home_trap.Prelude.Result.{ok, >>=-eq-ok, ok-injective}
use home_trap.Calendar.{Date}
use home_trap.Models.{Apartment, Db}
use home_trap.Schedule.{BillingScheduleEntry, compute_billing_schedule}
use home_trap.Schedule.Entries.{compute_billing_schedule-IsCandidate}
use home_trap.Apartments.{is_apartment, find_apartment, archive_apartment}

abbrev archived : Apartment → Apartment
archived a = record a { is_active = false }

archived_db :
    (db db' : Db) (apartment_id : ℕ)
    → archive_apartment db apartment_id ≡ ok db'
    → db'
      ≡ record db { apartments = update_where (is_apartment apartment_id) archived db.apartments }
unfolding archive_apartment
archived_db db db' apartment_id h =
    let (_, _, h1) = >>=-eq-ok (find_apartment db apartment_id) _ h in sym (ok-injective h1)

inactive :
    (id : ℕ) (as' : List Apartment) (a : Apartment)
    → In a (update_where (is_apartment id) archived as')
    → (a.id == id) ≡ true
    → a.is_active ≡ false
inactive id as' a m e =
    let (b, mb, h) = In-update_where (is_apartment id) archived a as' m in
    elim h [ inl r ↦ rw r.1 refl | inr r ↦ absurd (false≢true (sym r.0 ∙ rw (← r.1) e)) ]

-- After an apartment is archived, the billing schedule of no day has an entry for it.
pub archive_apartment-compute_billing_schedule :
    (db db' : Db) (apartment_id : ℕ) (today : Date) (e : BillingScheduleEntry)
    → archive_apartment db apartment_id ≡ ok db'
    → In e (compute_billing_schedule db' today)
    → (e.apartment.id == apartment_id) ≡ false
archive_apartment-compute_billing_schedule db db' apartment_id today e h m =
    elim (Bool-cases (e.apartment.id == apartment_id)) [
      | inr f ↦ f
      | inl t ↦
          let c = (compute_billing_schedule-IsCandidate db' today e m).0 in
          let a = c.apartment in
          let q = archived_db db db' apartment_id h in
          let off : e.apartment.is_active ≡ false =
            inactive apartment_id db.apartments e.apartment (rw q at a) t in
          let on = c.active in absurd (false≢true (sym off ∙ on))
    ]
