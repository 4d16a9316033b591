-- ===== src/Tenants/Contracts.antt =====
-- The contracts of one apartment in backend/app/routers/tenants.py, and when two of them overlap.
pub mod Operations
use home_trap.Prelude.{
  ℕ, ◌≡◌, refl, sym, ap, ◌∙◌, ◌⊎◌, inl, inr, Bool, true, false, not, ◌&&◌, Option, none, some, List,
  [], ◌∷◌, ◌++◌, arith, ◌==◌, ==_iff, eq→==, In, any, any-false, and-false, update_where,
  In-append_one, In-update_where, Bool-cases,
}
use mathlib.Core.Bool.{false≢true}
use home_trap.Calendar.{Date}
use home_trap.Models.{Tenant}
use home_trap.Tenants.{ends_on_or_after, has_id}

-- Two contracts share a day: neither ends before the other starts.
unfoldable pub overlap : Tenant → Tenant → Bool
overlap t u =
    ends_on_or_after t.contract_end u.contract_start
    && ends_on_or_after u.contract_end t.contract_start

-- The contracts of an apartment are apart, and none ends before it starts.
pub record AreApart (xs : List Tenant) : Type 0 where
  pub apart :
      (t u : Tenant)
      → In t xs
      → In u xs
      → t.apartment_id ≡ u.apartment_id
      → overlap t u ≡ true
      → t.id ≡ u.id
  pub dated : (t : Tenant) → In t xs → ends_on_or_after t.contract_end t.contract_start ≡ true

overlap_sym : (t u : Tenant) → overlap t u ≡ true → overlap u t ≡ true
unfolding overlap
overlap_sym t u h = ground arith

replaced :
    (x new : Tenant) (id : ℕ) (xs : List Tenant)
    → In x (update_where (has_id id) (λ _. new) xs)
    → (x ≡ new) ⊎ (In x xs × ((x.id == id) ≡ false))
replaced x new id xs m =
    let (y, my, h) = In-update_where (has_id id) (λ _. new) x xs m in
    elim h [ inl (t, e) ↦ inl e | inr (t, e) ↦ inr (rw e my, rw e t) ]

module _ (xs : List Tenant) (new : Tenant) (c : AreApart xs)
    (ordered : ends_on_or_after new.contract_end new.contract_start ≡ true)
    (free : (u : Tenant)
      → In u xs
      → new.apartment_id ≡ u.apartment_id
      → (u.id == new.id) ≡ false
      → overlap new u ≡ true
      → new.id ≡ u.id) where
  replaced_apart :
      (t u : Tenant)
      → (t ≡ new) ⊎ (In t xs × ((t.id == new.id) ≡ false))
      → (u ≡ new) ⊎ (In u xs × ((u.id == new.id) ≡ false))
      → t.apartment_id ≡ u.apartment_id
      → overlap t u ≡ true
      → t.id ≡ u.id
  replaced_apart t u (inl p) (inl q) same o = cc
  replaced_apart t u (inl p) (inr (mu, d)) same o = rw p (free u mu (rw p at same) d (rw p at o))
  replaced_apart t u (inr (mt, d)) (inl q) same o =
      rw q (sym (free t mt (sym (rw q at same)) d (overlap_sym t new (rw q at o))))
  replaced_apart t u (inr (mt, _)) (inr (mu, _)) same o = c.apart t u mt mu same o

  -- A contract that is rewritten in place and apart from all others.
  pub replace-AreApart : AreApart (update_where (has_id new.id) (λ _. new) xs)
  replace-AreApart = record {
    apart =
        λ t u mt mu. replaced_apart t u (replaced t new new.id xs mt) (replaced u new new.id xs mu);
    dated = λ t m. elim (replaced t new new.id xs m) [
      | inl p ↦ rw p ordered
      | inr (mt, _) ↦ c.dated t mt
    ];
  }

module _ (xs : List Tenant) (new : Tenant) (c : AreApart xs)
    (ordered : ends_on_or_after new.contract_end new.contract_start ≡ true)
    (free : (u : Tenant)
      → In u xs
      → new.apartment_id ≡ u.apartment_id
      → overlap new u ≡ false) where
  appended_apart :
      (t u : Tenant)
      → In t xs ⊎ (t ≡ new)
      → In u xs ⊎ (u ≡ new)
      → t.apartment_id ≡ u.apartment_id
      → overlap t u ≡ true
      → t.id ≡ u.id
  appended_apart t u (inl mt) (inl mu) same o = c.apart t u mt mu same o
  appended_apart t u (inl mt) (inr q) same o =
      absurd (false≢true (sym (free t mt (sym (rw q at same))) ∙ overlap_sym t new (rw q at o)))
  appended_apart t u (inr p) (inl mu) same o =
      absurd (false≢true (sym (free u mu (rw p at same)) ∙ rw p at o))
  appended_apart t u (inr p) (inr q) same o = cc

  -- One more contract, apart from all of its apartment.
  pub append-AreApart : AreApart (xs ++ new ∷ [])
  append-AreApart = record {
    apart = λ t u mt mu. appended_apart t u (In-append_one t new xs mt) (In-append_one u new xs mu);
    dated = λ t m. elim (In-append_one t new xs m) [ inl mt ↦ c.dated t mt | inr p ↦ rw p ordered ];
  }

-- At most one tenant of an apartment is active.
pub one_active :
    (xs : List Tenant) (t u : Tenant)
    → AreApart xs
    → In t xs
    → In u xs
    → t.apartment_id ≡ u.apartment_id
    → t.contract_end ≡ none
    → u.contract_end ≡ none
    → t.id ≡ u.id
unfolding overlap
one_active xs t u c mt mu same et eu = c.apart t u mt mu same (rw (et, eu) refl)
