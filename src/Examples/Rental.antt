-- ===== src/Examples/Rental.antt =====
-- The apartments and services of the small rental.
use home_trap.Prelude.{
  ℕ, ◌≡◌, ◌⊎◌, refl, sym, ◌∙◌, inl, inr, In, true, false, some, [], ◌∷◌, ◌++◌, Text, text, ◌==◌,
}
use home_trap.Prelude.Int.{pos}
use home_trap.Prelude.Result.{ok, err}
use home_trap.Calendar.{Date, date, date_ltb}
use home_trap.Models.{Service, Tariff, Apartment, Db}
use home_trap.Billing.Tariffs.{get_tariff_for_period}
use home_trap.Schedule.{compute_billing_schedule}
use home_trap.Services.{ServiceRefusal, new_tariff, create_tariff, drop_service, delete_service}
use home_trap.Services.Tariffs.{create_tariff-InForce}
use home_trap.Services.Linked.{AreLinked, Change, Change-AreLinked}
use home_trap.Apartments.{archive_apartment, latest_invoice}
use home_trap.Apartments.Archive.{archive_apartment-compute_billing_schedule}
use home_trap.Apartments.Latest.{Latest, latest_invoice-Latest}
use home_trap.Examples.Data.{flat, store}
use home_trap.Examples.Reports.{let_out, missed, today}
use home_trap.Examples.Statistics.{books}

-- 33.00000 from April.
abbrev april_tariff : Tariff
april_tariff = new_tariff store 7 (pos 3300000) (date 2026 4 1)

abbrev repriced : Db
repriced = record store { tariffs = store.tariffs ++ april_tariff ∷ [] }

was_repriced : create_tariff store 7 (pos 3300000) (date 2026 4 1) ≡ ok (april_tariff, repriced)
unfolding create_tariff
was_repriced = refl

twice_refused : create_tariff repriced 7 (pos 1) (date 2026 4 1) ≡ err ServiceRefusal.tariff_exists
unfolding create_tariff
twice_refused = refl

create_tariff-InForce_example :
    (get_tariff_for_period repriced 7 (date 2026 4 1) ≡ some april_tariff)
    × ((s : ℕ) (p : Date)
        → ((s == 7) ≡ false) ⊎ (date_ltb p (date 2026 4 1) ≡ true)
        → get_tariff_for_period repriced s p ≡ get_tariff_for_period store s p)
create_tariff-InForce_example =
    create_tariff-InForce store repriced 7 (pos 3300000) (date 2026 4 1) april_tariff was_repriced

abbrev water_tariff : Tariff
water_tariff = record { id = 1; service_id = 7; value = pos 3050000; valid_from = date 2026 1 1 }

-- One tariff, of the water.
abbrev small : Db
small = record store { tariffs = water_tariff ∷ [] }

small-AreLinked : AreLinked small
small-AreLinked = record {
  lines = λ i l k mi ml e. absurd mi;
  tariffs = λ t m. elim m [ inl e ↦ rw e refl | inr n ↦ absurd n ];
  dated = λ t u mt mu same at. elim mt [
    | inl e ↦ elim mu [ inl f ↦ e ∙ sym f | inr n ↦ absurd n ]
    | inr n ↦ absurd n
  ];
}

abbrev key : Service → Text
key s = s.name

service_used : delete_service key books [] 1 7 ≡ err ServiceRefusal.used_by_invoices
unfolding delete_service
service_used = refl

was_deleted : delete_service key small [] 1 8 ≡ ok (drop_service 8 small, [])
unfolding delete_service
was_deleted = refl

Change-AreLinked_example : AreLinked (drop_service 8 small)
Change-AreLinked_example =
    Change-AreLinked small (drop_service 8 small) small-AreLinked
      (Change.deletes key [] [] 1 8 (drop_service 8 small) was_deleted)

latest_invoice-Latest_example : Latest books 1 (latest_invoice books 1)
latest_invoice-Latest_example = latest_invoice-Latest books 1

abbrev house : Apartment
house = record flat { id = 2; name = text "House" }

abbrev both : Db
both = record let_out { apartments = flat ∷ house ∷ [] }

abbrev one_archived : Db
one_archived = record both { apartments = flat ∷ record house { is_active = false } ∷ [] }

was_archived : archive_apartment both 2 ≡ ok one_archived
unfolding archive_apartment
was_archived = refl

still_missed : In missed (compute_billing_schedule one_archived today)
unfolding compute_billing_schedule
still_missed = inl refl

archive_apartment-compute_billing_schedule_example : (missed.apartment.id == 2) ≡ false
archive_apartment-compute_billing_schedule_example =
    archive_apartment-compute_billing_schedule both one_archived 2 today missed was_archived
      still_missed
