-- ===== src/Invoices/Soundness.antt =====
-- The requests of backend/app/routers/invoices.py and the soundness of the invoices.
use home_trap.Prelude.{
  ℕ, ◌≡◌, refl, sym, ap, inl, inr, Option, none, some, ◌==◌, Text, text, find?, Option-cases,
}
use home_trap.Prelude.Int.{ℤ}
use home_trap.Prelude.Result.{Result, ok, err, Result-cases, ok-injective}
use home_trap.Calendar.{Date, DateTime}
use home_trap.Models.{Apartment, Invoice, Db}
use home_trap.Nbu.{
  Http, RateResult, NbuRateUnavailable, get_rate, fetch_rate, fall_back, latest_rate, is_rate_of,
}
use home_trap.Billing.{Fault}
use home_trap.Billing.Draft.{create_draft}
use home_trap.Billing.Update.{update_draft, delete_draft}
use home_trap.Billing.Transition.{Action, transition_invoice}
use home_trap.Billing.Lifecycle.{
  Step, creates, updates, deletes, transitions, IsSound, Step-IsSound,
}
use home_trap.Invoices.{
  Request, respond, respond_deleted, create_rated, create_invoice, update_invoice, delete_invoice,
  known_action, change_invoice_status, serve,
}

-- What is sound depends on the invoices alone.
pub same_invoices-IsSound : (db db' : Db) → db'.invoices ≡ db.invoices → IsSound db → IsSound db'
same_invoices-IsSound db db' e s = record {
  chronological = rw e s.chronological;
  well_formed = λ i m. s.well_formed i (rw e at m);
}

-- Where a call either fails or is a sound step, its answer leaves sound invoices.
respond-IsSound :
    (status : Fault → ℕ) (db : Db) (r : Result Fault (Invoice × Db))
    → IsSound db
    → ((found : Invoice) (db' : Db) → r ≡ ok (found, db') → Step db db')
    → IsSound (respond status db r).1
respond-IsSound status db (err fault) s step = s
respond-IsSound status db (ok (found, db')) s step = Step-IsSound db db' (step found db' refl) s

fall_back-db :
    (db : Db) (day : Date) (currency : Text) (error : NbuRateUnavailable) (r : RateResult)
    (db' : Db)
    → fall_back db day currency error ≡ ok (r, db')
    → db' ≡ db
unfolding fall_back
fall_back-db db day currency error r db' h = elim (Option-cases (latest_rate db day currency)) [
  | inl e ↦
      let bad : ◌≡◌ {A = Result NbuRateUnavailable (RateResult × Db)} (err error) (ok (r, db')) =
        rw (e, fall_back) at h in
      cc
  | inr (x, e) ↦ ap (λ (q : RateResult × Db). q.1) (sym (ok-injective (rw (e, fall_back) at h)))
]

-- The exchange rate changes no invoice.
pub get_rate-invoices :
    (http : Http) (meanwhile : Option ℤ) (db : Db) (day : Date) (currency : Text) (r : RateResult)
    (db' : Db)
    → get_rate http meanwhile db day currency ≡ ok (r, db')
    → db'.invoices ≡ db.invoices
unfolding get_rate
get_rate-invoices http meanwhile db day currency r db' h =
    elim (Option-cases (find? (is_rate_of day currency) db.exchange_rates)) [
      | inr (cached, e) ↦
          ap (λ (q : RateResult × Db). q.1.invoices) (sym (ok-injective (rw (e, get_rate) at h)))
      | inl e ↦ elim (Result-cases (fetch_rate http day currency)) [
        | inl (rate, f) ↦
            ap (λ (q : RateResult × Db). q.1.invoices)
              (sym (ok-injective (rw (e, f, get_rate) at h)))
        | inr (error, f) ↦
            ap (λ (d : Db). d.invoices)
              (fall_back-db db day currency error r db' (rw (e, f, get_rate) at h))
      ]
    ]

create_rated-IsSound :
    (db : Db) (apartment : Apartment) (period : Date)
    (o : Result NbuRateUnavailable (RateResult × Db))
    → IsSound db
    → ((r : RateResult) (db' : Db) → o ≡ ok (r, db') → db'.invoices ≡ db.invoices)
    → IsSound (create_rated db apartment period o).1
unfolding create_rated
create_rated-IsSound db apartment period (err e) s same = s
create_rated-IsSound db apartment period (ok (r, rated)) s same =
    respond-IsSound _ rated (create_draft rated apartment period r.rate)
      (same_invoices-IsSound db rated (same r rated refl) s)
      (λ found db' h. creates apartment period r.rate found h)

create_invoice-IsSound :
    (http : Http) (meanwhile : Option ℤ) (db : Db) (apartment_id : ℕ) (period : Date)
    → IsSound db
    → IsSound (create_invoice http meanwhile db apartment_id period).1
unfolding create_invoice
create_invoice-IsSound http meanwhile db apartment_id period s =
    elim (Option-cases (find? (λ (a : Apartment). a.id == apartment_id) db.apartments)) [
      | inl e ↦ rw (e, create_invoice) s
      | inr (apartment, e) ↦
          rw (e, create_invoice)
            (create_rated-IsSound db apartment period _ s
              (λ r db' h. get_rate-invoices http meanwhile db period (text "USD") r db' h))
    ]

delete_invoice-IsSound :
    (db : Db) (r : Result Fault Db)
    → IsSound db
    → ((db' : Db) → r ≡ ok db' → Step db db')
    → IsSound (respond_deleted db r).1
delete_invoice-IsSound db (err fault) s step = s
delete_invoice-IsSound db (ok db') s step = Step-IsSound db db' (step db' refl) s

change-IsSound :
    (now : DateTime) (db : Db) (invoice_id : ℕ) (action : Text) (o : Option Action)
    → known_action action ≡ o
    → IsSound db
    → IsSound (change_invoice_status now db invoice_id action).1
unfolding change_invoice_status
change-IsSound now db invoice_id action none e s = rw (e, change_invoice_status) s
change-IsSound now db invoice_id action (some known) e s =
    rw (e, change_invoice_status)
      (respond-IsSound _ db (transition_invoice db now invoice_id known) s
        (λ found db' h. transitions now invoice_id known found h))

-- Whatever a request asks for and whatever it is answered, an error included, sound invoices are
-- sound after it.
pub serve-IsSound : (db : Db) (request : Request) → IsSound db → IsSound (serve db request).1
unfolding serve update_invoice delete_invoice
serve-IsSound db (Request.create http meanwhile apartment_id period) s =
    create_invoice-IsSound http meanwhile db apartment_id period s
serve-IsSound db (Request.update id rate readings adjustments) s =
    respond-IsSound _ db (update_draft db id rate readings adjustments) s
      (λ found db' h. updates id rate readings adjustments found h)
serve-IsSound db (Request.delete id) s =
    delete_invoice-IsSound db (delete_draft db id) s (λ db' h. deletes id h)
serve-IsSound db (Request.change now id action) s =
    change-IsSound now db id action (known_action action) refl s
