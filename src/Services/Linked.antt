-- ===== src/Services/Linked.antt =====
-- The references to services, in invoice lines and in tariffs, over the handlers of
-- backend/app/routers/services.py that change rows.
use home_trap.Prelude.{
  ℕ, ◌≡◌, refl, sym, ap, ◌∙◌, inl, inr, Bool, true, false, not, ◌||◌, some, List, [], ◌∷◌, ◌++◌,
  Text, ◌==◌, eq→==, filter, any, any-append, any-false, In, In-append_one, In-filter, update_where,
  not-true, arith, Bool-cases,
}
use mathlib.Core.Bool.{false≢true}
use home_trap.Prelude.Int.{ℤ}
use home_trap.Prelude.Result.{ok, >>=-eq-ok, >>-eq-ok, ok-injective, or_raise-eq-ok}
use home_trap.Calendar.{Date}
use home_trap.Calendar.Order.{date_eq_refl}
use home_trap.Models.{Service, Tariff, InvoiceLine, Invoice, Db}
use home_trap.Prelude.{find?}
use home_trap.Services.{
  ServicePayload, RestoreAlias, get_apartment, is_service, get_service, get_apartment_service,
  new_service, create_service, write_fields, update_service, is_line_of, is_used, drop_service,
  delete_service, is_tariff_at, create_tariff,
}
use home_trap.Services.Tariffs.{create_tariff-added}

abbrev pub is_there : Db → ℕ → Bool
is_there db service_id = any (is_service service_id) db.services

-- Every invoice line and every tariff has its service, and no two tariffs of a service have one date.
pub record AreLinked (db : Db) : Type 0 where
  pub lines :
      (i : Invoice) (l : InvoiceLine) (service_id : ℕ)
      → In i db.invoices
      → In l i.lines
      → l.service_id ≡ some service_id
      → is_there db service_id ≡ true
  pub tariffs : (t : Tariff) → In t db.tariffs → is_there db t.service_id ≡ true
  pub dated :
      (t u : Tariff)
      → In t db.tariffs
      → In u db.tariffs
      → t.service_id ≡ u.service_id
      → t.valid_from ≡ u.valid_from
      → t ≡ u

-- A request that has changed the rows.
pub data Change (db : Db) : Db → Type 0 where
  creates :
      (apartment_id : ℕ) (payload : ServicePayload) (s : Service) (db' : Db)
      → create_service db apartment_id payload ≡ ok (s, db')
      → Change db db'
  updates :
      (apartment_id service_id : ℕ) (payload : ServicePayload) (s : Service) (db' : Db)
      → update_service db apartment_id service_id payload ≡ ok (s, db')
      → Change db db'
  deletes :
      (restore_key : Service → Text) (aliases kept : List RestoreAlias)
      (apartment_id service_id : ℕ) (db' : Db)
      → delete_service restore_key db aliases apartment_id service_id ≡ ok (db', kept)
      → Change db db'
  prices :
      (service_id : ℕ) (value : ℤ) (valid_from : Date) (t : Tariff) (db' : Db)
      → create_tariff db service_id value valid_from ≡ ok (t, db')
      → Change db db'

-- Where services only come, references stay.
still_there :
    (db db' : Db)
    → AreLinked db
    → ((k : ℕ) → is_there db k ≡ true → is_there db' k ≡ true)
    → db'.invoices ≡ db.invoices
    → db'.tariffs ≡ db.tariffs
    → AreLinked db'
still_there db db' a kept same_invoices same_tariffs = record {
  lines = λ i l k mi ml e. kept k (a.lines i l k (rw same_invoices at mi) ml e);
  tariffs = λ t m. kept t.service_id (a.tariffs t (rw same_tariffs at m));
  dated = λ t u mt mu. a.dated t u (rw same_tariffs at mt) (rw same_tariffs at mu);
}

created :
    (db db' : Db) (apartment_id : ℕ) (payload : ServicePayload) (s : Service)
    → create_service db apartment_id payload ≡ ok (s, db')
    → db' ≡ record db { services = db.services ++ new_service db apartment_id payload ∷ [] }
unfolding create_service
created db db' apartment_id payload s h =
    let (_, _, h1) = >>=-eq-ok (get_apartment db apartment_id) _ h in
    sym (ap (λ (r : Service × Db). r.1) (ok-injective h1))

updated :
    (db db' : Db) (apartment_id service_id : ℕ) (payload : ServicePayload) (s : Service)
    → update_service db apartment_id service_id payload ≡ ok (s, db')
    → db' ≡ record db {
      services = update_where (is_service service_id) (write_fields payload) db.services;
    }
unfolding update_service
updated db db' apartment_id service_id payload s h =
    let (_, _, h1) = >>=-eq-ok (get_apartment_service db apartment_id service_id) _ h in
    sym (ap (λ (r : Service × Db). r.1) (ok-injective h1))

deleted :
    (restore_key : Service → Text) (db db' : Db) (aliases kept : List RestoreAlias)
    (apartment_id service_id : ℕ)
    → delete_service restore_key db aliases apartment_id service_id ≡ ok (db', kept)
    → (is_used db service_id ≡ false) × (db' ≡ drop_service service_id db)
unfolding delete_service
deleted restore_key db db' aliases kept apartment_id service_id h =
    let (_, _, h1) = >>=-eq-ok (get_apartment_service db apartment_id service_id) _ h in
    let (free, h2) = >>-eq-ok (is_used db service_id) _ _ h1 in
    (free, sym (ap (λ (r : Db × List RestoreAlias). r.0) (ok-injective h2)))

keys_stay :
    (k id : ℕ) (payload : ServicePayload) (ss : List Service)
    → any (is_service k) (update_where (is_service id) (write_fields payload) ss)
      ≡ any (is_service k) ss
keys_stay k id payload [] = refl
keys_stay k id payload (s ∷ ss) = elim (Bool-cases (s.id == id)) [
  | inl e ↦ rw (e, keys_stay k id payload ss) refl
  | inr e ↦ rw (e, keys_stay k id payload ss) refl
]

other_stays :
    (k id : ℕ) (ss : List Service)
    → (k == id) ≡ false
    → any (is_service k) (filter (λ s. not (is_service id s)) ss) ≡ any (is_service k) ss
other_stays k id [] d = refl
other_stays k id (s ∷ ss) d = elim (Bool-cases (s.id == id)) [
  | inl e ↦ let other : (s.id == k) ≡ false = ground arith in rw (e, other) (other_stays k id ss d)
  | inr e ↦ rw e (ap (λ b. (s.id == k) || b) (other_stays k id ss d))
]

-- The service of a line is used.
line_is_used :
    (db : Db) (i : Invoice) (l : InvoiceLine) (k id : ℕ)
    → is_used db id ≡ false
    → In i db.invoices
    → In l i.lines
    → l.service_id ≡ some k
    → (k == id) ≡ false
line_is_used db i l k id free mi ml e =
    let no_line : any (is_line_of id) i.lines ≡ false =
      any-false (λ (j : Invoice). any (is_line_of id) j.lines) db.invoices free i mi in
    let other : is_line_of id l ≡ false = any-false (is_line_of id) i.lines no_line l ml in
    rw e at other

drop_service-AreLinked :
    (db : Db) (id : ℕ) → is_used db id ≡ false → AreLinked db → AreLinked (drop_service id db)
drop_service-AreLinked db id free a = record {
  lines = λ i l k mi ml e.
      other_stays k id db.services (line_is_used db i l k id free mi ml e) ∙ a.lines i l k mi ml e;
  tariffs = λ t m.
      let (mt, other) = In-filter (λ (x : Tariff). not (x.service_id == id)) t db.tariffs m in
      other_stays t.service_id id db.services (not-true _ other) ∙ a.tariffs t mt;
  dated = λ t u mt mu.
      a.dated t u (In-filter (λ (x : Tariff). not (x.service_id == id)) t db.tariffs mt).0
        (In-filter (λ (x : Tariff). not (x.service_id == id)) u db.tariffs mu).0;
}

found_there :
    (id : ℕ) (ss : List Service) (s : Service)
    → find? (is_service id) ss ≡ some s
    → any (is_service id) ss ≡ true
found_there id [] s h = cc
found_there id (x ∷ ss) s h = elim (Bool-cases (x.id == id)) [
  | inl e ↦ rw e refl
  | inr e ↦ rw e (found_there id ss s (rw e at h))
]

got_there : (db : Db) (id : ℕ) (s : Service) → get_service db id ≡ ok s → is_there db id ≡ true
unfolding get_service
got_there db id s h =
    found_there id db.services s (or_raise-eq-ok (find? (is_service id) db.services) _ h)

-- The new tariff's date is no other's.
apart_from_new :
    (ts : List Tariff) (new t : Tariff)
    → any (is_tariff_at new.service_id new.valid_from) ts ≡ false
    → In t ts
    → t.service_id ≡ new.service_id
    → t.valid_from ≡ new.valid_from
    → t ≡ new
apart_from_new ts new t free m e d =
    let no = any-false (is_tariff_at new.service_id new.valid_from) ts free t m in
    absurd (
      false≢true (
        sym no
        ∙ rw (e, d) (rw (eq→== new.service_id new.service_id refl) (date_eq_refl new.valid_from))))

add_tariff-AreLinked :
    (db : Db) (new : Tariff)
    → any (is_tariff_at new.service_id new.valid_from) db.tariffs ≡ false
    → is_there db new.service_id ≡ true
    → AreLinked db
    → AreLinked (record db { tariffs = db.tariffs ++ new ∷ [] })
add_tariff-AreLinked db new free known a = record {
  lines = λ i l k mi ml e. a.lines i l k mi ml e;
  tariffs = λ t m. elim (In-append_one t new db.tariffs m) [
    | inl mt ↦ a.tariffs t mt
    | inr e ↦ rw e known
  ];
  dated = λ t u mt mu same at. elim (In-append_one t new db.tariffs mt) [
    | inl ot ↦ elim (In-append_one u new db.tariffs mu) [
      | inl ou ↦ a.dated t u ot ou same at
      | inr eu ↦
          apart_from_new db.tariffs new t free ot (same ∙ ap (λ (x : Tariff). x.service_id) eu)
            (at ∙ ap (λ (x : Tariff). x.valid_from) eu)
          ∙ sym eu
    ]
    | inr et ↦ elim (In-append_one u new db.tariffs mu) [
      | inl ou ↦
          et
          ∙ sym (
              apart_from_new db.tariffs new u free ou
                (sym same ∙ ap (λ (x : Tariff). x.service_id) et)
                (sym at ∙ ap (λ (x : Tariff). x.valid_from) et))
      | inr eu ↦ et ∙ sym eu
    ]
  ];
}

or_kept : (b c : Bool) → b ≡ true → (b || c) ≡ true
or_kept b c h = rw h refl

-- Where every invoice line and every tariff has its service, and no two tariffs of a service have one
-- date, this is so after a service is created, updated or deleted and after a tariff is created.
pub Change-AreLinked : (db db' : Db) → AreLinked db → Change db db' → AreLinked db'
Change-AreLinked db db' a (Change.creates apartment_id payload s _ h) =
    let q = created db db' apartment_id payload s h in
    still_there db db' a
      (λ k there. rw q (any-append (is_service k) db.services _ ∙ or_kept (is_there db k) _ there))
      (rw q refl) (rw q refl)
Change-AreLinked db db' a (Change.updates apartment_id service_id payload s _ h) =
    let q = updated db db' apartment_id service_id payload s h in
    still_there db db' a (λ k there. rw q (keys_stay k service_id payload db.services ∙ there))
      (rw q refl) (rw q refl)
Change-AreLinked db db' a (Change.deletes restore_key aliases kept apartment_id service_id _ h) =
    let (free, q) = deleted restore_key db db' aliases kept apartment_id service_id h in
    rw q (drop_service-AreLinked db service_id free a)
Change-AreLinked db db' a (Change.prices service_id value valid_from t _ h) =
    let (e, q, free, (s, hs)) = create_tariff-added db db' service_id value valid_from t h in
    rw q (add_tariff-AreLinked db t (rw e free) (rw e (got_there db service_id s hs)) a)
