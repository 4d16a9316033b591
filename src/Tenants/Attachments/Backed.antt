-- ===== src/Tenants/Attachments/Backed.antt =====
-- The rows of attachments and the files that they name, in backend/app/routers/tenants.py.
use home_trap.Prelude.{
  ℕ, ◌≡◌, refl, sym, ap, ◌∙◌, ◌⊎◌, inl, inr, Bool, true, false, not, ◌&&◌, ◌||◌, List, [], ◌∷◌,
  ◌++◌, Text, text_eq, text_eq_refl, eq→==, In, In-filter, In-append_one, ==_iff, not-true,
  find?-some, arith, Bool-cases,
}
use mathlib.Core.Bool.{false≢true}
use home_trap.Prelude.Result.{ok, or_raise-eq-ok, Result-cases}
use home_trap.Calendar.{DateTime}
use home_trap.Models.{TenantAttachment}
use home_trap.Storage.{Uploads, unlink, save_attachment}
use home_trap.Storage.Files.{has, at_name, has-unlink, has-save_attachment, has-delete_attachment}
use home_trap.Tenants.Deletion.{World}
use home_trap.Tenants.Attachments.{
  UploadFile, Prepared, unlink_all, save_all, new_row, add_rows, close_upload, check_upload,
  upload_attachments, has_key, get_attachment, remove_attachment,
}

abbrev pub of_row : TenantAttachment → ℕ → Text → Bool
of_row a id name = at_name id name a.tenant_id a.stored_name

-- Every row has its file.
abbrev pub IsBacked : List TenantAttachment → Uploads → Type 0
IsBacked rows u = (a : TenantAttachment) → In a rows → has u a.tenant_id a.stored_name ≡ true

-- No two of these names are one.
abbrev pub AreDistinct : List Prepared → Type 0
AreDistinct [] = Unit
AreDistinct (p ∷ ps) =
    ((q : Prepared) → In q ps → text_eq q.stored_name p.stored_name ≡ false) × AreDistinct ps

-- No row has one of these names yet.
abbrev pub AreNew : ℕ → List Prepared → List TenantAttachment → Type 0
AreNew id ps rows =
    (p : Prepared)
    → In p ps
    → (a : TenantAttachment) → In a rows
    → of_row a id p.stored_name ≡ false

or_kept : (b c : Bool) → b ≡ true → (b || c) ≡ true
or_kept b c h = rw h refl

and_kept : (b c : Bool) → b ≡ true → c ≡ false → (b && not c) ≡ true
and_kept b c h k = rw (h, k) refl

-- One save keeps every other file.
save-keeps :
    (id : ℕ) (p : Prepared) (disk : Bool) (u : Uploads) (i : ℕ) (m : Text)
    → has u i m ≡ true
    → at_name id p.stored_name i m ≡ false
    → has (save_attachment id p.stored_name p.content disk u).1 i m ≡ true
save-keeps id p true u i m h other =
    has-save_attachment id p.stored_name p.content true u i m ∙ or_kept (has u i m) _ h
save-keeps id p false u i m h other =
    has-save_attachment id p.stored_name p.content false u i m ∙ and_kept (has u i m) _ h other

save_all-keeps :
    (id : ℕ) (ps : List Prepared) (saved : List Text) (u : Uploads) (i : ℕ) (m : Text)
    → has u i m ≡ true
    → ((p : Prepared) → In p ps → at_name id p.stored_name i m ≡ false)
    → has (save_all id ps saved u).2 i m ≡ true
unfolding save_all
save_all-keeps id [] saved u i m h other = h
save_all-keeps id (p ∷ ps) saved u i m h other = elim (Bool-cases p.disk) [
  | inl e ↦
      rw (e, save_all)
        (save_all-keeps id ps (p.stored_name ∷ saved) _ i m
          (save-keeps id p true u i m h (other p (inl refl))) (λ q mq. other q (inr mq)))
  | inr e ↦ rw (e, save_all) (save-keeps id p false u i m h (other p (inl refl)))
]

-- What has been saved is of the batch.
save_all-saved :
    (id : ℕ) (ps : List Prepared) (saved : List Text) (u : Uploads) (name : Text)
    → In name (save_all id ps saved u).1
    → In name saved ⊎ ((p : Prepared) × In p ps × (name ≡ p.stored_name))
unfolding save_all
save_all-saved id [] saved u name m = inl m
save_all-saved id (p ∷ ps) saved u name m = elim (Bool-cases p.disk) [
  | inl e ↦ elim (save_all-saved id ps (p.stored_name ∷ saved) _ name (rw (e, save_all) at m)) [
    | inl (inl q) ↦ inr (p, inl refl, q)
    | inl (inr old) ↦ inl old
    | inr (q, mq, s) ↦ inr (q, inr mq, s)
  ]
  | inr e ↦ inl (rw (e, save_all) at m)
]

unlink_all-keeps :
    (id : ℕ) (names : List Text) (u : Uploads) (i : ℕ) (m : Text)
    → has u i m ≡ true
    → ((n : Text) → In n names → at_name id n i m ≡ false)
    → has (unlink_all id names u) i m ≡ true
unfolding unlink_all
unlink_all-keeps id [] u i m h other = h
unlink_all-keeps id (n ∷ names) u i m h other =
    unlink_all-keeps id names (unlink id n u) i m
      (has-unlink id n u i m ∙ and_kept (has u i m) _ h (other n (inl refl)))
      (λ k mk. other k (inr mk))

-- A loop that went through has only added files,
save_all-adds :
    (id : ℕ) (ps : List Prepared) (saved : List Text) (u : Uploads) (i : ℕ) (m : Text)
    → (save_all id ps saved u).0 ≡ true
    → has u i m ≡ true
    → has (save_all id ps saved u).2 i m ≡ true
unfolding save_all
save_all-adds id [] saved u i m all h = h
save_all-adds id (p ∷ ps) saved u i m all h = elim (Bool-cases p.disk) [
  | inl e ↦
      rw (e, save_all)
        (save_all-adds id ps (p.stored_name ∷ saved) _ i m (rw (e, save_all) at all)
          (has-save_attachment id p.stored_name p.content true u i m ∙ or_kept (has u i m) _ h))
  | inr e ↦ absurd (false≢true (rw (e, save_all) at all))
]

or_self : (b : Bool) (id : ℕ) (name : Text) → (b || at_name id name id name) ≡ true
or_self b id name = rw (eq→== id id refl, text_eq_refl name) (ground arith)

-- and has every file of the batch.
save_all-has :
    (id : ℕ) (ps : List Prepared) (saved : List Text) (u : Uploads) (p : Prepared)
    → (save_all id ps saved u).0 ≡ true
    → In p ps
    → has (save_all id ps saved u).2 id p.stored_name ≡ true
unfolding save_all
save_all-has id [] saved u p all m = absurd m
save_all-has id (q ∷ ps) saved u p all m = elim (Bool-cases q.disk) [
  | inr e ↦ absurd (false≢true (rw (e, save_all) at all))
  | inl e ↦
      let all' = rw (e, save_all) at all in
      rw (e, save_all)
        (elim m [
          | inr mp ↦ save_all-has id ps (q.stored_name ∷ saved) _ p all' mp
          | inl k ↦ save_all-adds id ps (q.stored_name ∷ saved) _ id p.stored_name all' (
              rw k (
                has-save_attachment id q.stored_name q.content true u id q.stored_name
                ∙ or_self (has u id q.stored_name) id q.stored_name))
        ])
]

In-add_rows :
    (id : ℕ) (now : DateTime) (ps : List Prepared) (rows : List TenantAttachment)
    (a : TenantAttachment)
    → In a (add_rows id now ps rows)
    → In a rows ⊎ ((p : Prepared) × In p ps × (a.tenant_id ≡ id) × (a.stored_name ≡ p.stored_name))
unfolding add_rows
In-add_rows id now [] rows a m = inl m
In-add_rows id now (p ∷ ps) rows a m =
    elim (In-add_rows id now ps (rows ++ new_row id now rows p ∷ []) a m) [
      | inr (q, mq, t, s) ↦ inr (q, inr mq, t, s)
      | inl old ↦ elim (In-append_one a (new_row id now rows p) rows old) [
        | inl ma ↦ inl ma
        | inr k ↦ inr (
          p,
          inl refl,
          ap (λ (x : TenantAttachment). x.tenant_id) k,
          ap (λ (x : TenantAttachment). x.stored_name) k,
        )
      ]
    ]

saved_rows-IsBacked :
    (id : ℕ) (now : DateTime) (ps : List Prepared) (rows : List TenantAttachment) (u : Uploads)
    → (save_all id ps [] u).0 ≡ true
    → IsBacked rows u
    → IsBacked (add_rows id now ps rows) (save_all id ps [] u).2
saved_rows-IsBacked id now ps rows u e b a m = elim (In-add_rows id now ps rows a m) [
  | inl old ↦ save_all-adds id ps [] u a.tenant_id a.stored_name e (b a old)
  | inr (p, mp, t, s) ↦ rw (t, s) (save_all-has id ps [] u p e mp)
]

-- Unlinking what was saved leaves the files that were there before.
unlinked-IsBacked :
    (id : ℕ) (ps : List Prepared) (rows : List TenantAttachment) (u : Uploads)
    → IsBacked rows u
    → AreNew id ps rows
    → IsBacked rows (unlink_all id (save_all id ps [] u).1 (save_all id ps [] u).2)
unlinked-IsBacked id ps rows u b fresh a m =
    unlink_all-keeps id (save_all id ps [] u).1 (save_all id ps [] u).2 a.tenant_id a.stored_name
      (save_all-keeps id ps [] u a.tenant_id a.stored_name (b a m) (λ p mp. fresh p mp a m))
      (λ n mn. elim (save_all-saved id ps [] u n mn) [
        | inl none_yet ↦ absurd none_yet
        | inr (p, mp, q) ↦ rw q (fresh p mp a m)
      ])

close_upload-IsBacked :
    (id : ℕ) (now : DateTime) (ps : List Prepared) (w : World) (commits all : Bool)
    → (save_all id ps [] w.uploads).0 ≡ all
    → IsBacked w.attachments w.uploads
    → AreNew id ps w.attachments
    → let w' = (close_upload id now ps w commits (save_all id ps [] w.uploads)).1 in
      IsBacked w'.attachments w'.uploads
close_upload-IsBacked id now ps w true true e b fresh =
    rw e (saved_rows-IsBacked id now ps w.attachments w.uploads e b)
close_upload-IsBacked id now ps w true false e b fresh =
    rw e (unlinked-IsBacked id ps w.attachments w.uploads b fresh)
close_upload-IsBacked id now ps w false all e b fresh =
    unlinked-IsBacked id ps w.attachments w.uploads b fresh

-- An upload, whatever its answer: where the disk refuses a file or the commit raises, all files of
-- the request are gone again.
pub upload-IsBacked :
    (commits : Bool) (now : DateTime) (w : World) (id : ℕ) (files : List UploadFile)
    → IsBacked w.attachments w.uploads
    → ((ps : List Prepared) → check_upload w id files ≡ ok ps → AreNew id ps w.attachments)
    → let w' = (upload_attachments commits now w id files).1 in IsBacked w'.attachments w'.uploads
unfolding upload_attachments
upload-IsBacked commits now w id files b fresh = elim (Result-cases (check_upload w id files)) [
  | inl (ps, e) ↦
      rw (e, upload_attachments)
        (close_upload-IsBacked id now ps w commits (save_all id ps [] w.uploads).0 refl b
          (fresh ps e))
  | inr (status, e) ↦ rw (e, upload_attachments) b
]

-- Each file is named by one row.
abbrev pub AreApart : List TenantAttachment → Type 0
AreApart rows =
    (a b : TenantAttachment)
    → In a rows
    → In b rows
    → of_row a b.tenant_id b.stored_name ≡ true
    → a.id ≡ b.id

-- The file that goes is no other row's.
other_file :
    (w : World) (attachment_id : ℕ) (a x : TenantAttachment)
    → AreApart w.attachments
    → get_attachment w attachment_id ≡ ok a
    → In x w.attachments
    → has_key attachment_id x ≡ false
    → at_name a.tenant_id a.stored_name x.tenant_id x.stored_name ≡ false
unfolding get_attachment
other_file w attachment_id a x apart e mx keyed =
    elim (Bool-cases (at_name a.tenant_id a.stored_name x.tenant_id x.stored_name)) [
      | inr f ↦ f
      | inl t ↦
          let (ma, ka) =
            find?-some (has_key attachment_id) w.attachments a (or_raise-eq-ok _ _ e) in
          let same : x.id ≡ a.id = apart x a mx ma t in
          absurd (false≢true (sym keyed ∙ eq→== _ _ (same ∙ (==_iff a.id attachment_id).0 ka)))
    ]

pub remove-IsBacked :
    (commits : Bool) (w : World) (attachment_id : ℕ)
    → IsBacked w.attachments w.uploads
    → AreApart w.attachments
    → let w' = (remove_attachment commits w attachment_id).1 in IsBacked w'.attachments w'.uploads
unfolding remove_attachment
remove-IsBacked false w attachment_id b apart =
    elim (Result-cases (get_attachment w attachment_id)) [
      | inl (a, e) ↦ rw (e, remove_attachment) b
      | inr (status, e) ↦ rw (e, remove_attachment) b
    ]
remove-IsBacked true w attachment_id b apart =
    elim (Result-cases (get_attachment w attachment_id)) [
      | inr (status, e) ↦ rw (e, remove_attachment) b
      | inl (a, e) ↦
          rw (e, remove_attachment)
            (λ x mx.
              let (mx', keyed) =
                In-filter (λ y. not (has_key attachment_id y)) x w.attachments mx in
              has-delete_attachment a.tenant_id a.stored_name w.uploads x.tenant_id x.stored_name
              ∙ and_kept (has w.uploads x.tenant_id x.stored_name) _ (b x mx')
                  (other_file w attachment_id a x apart e mx' (not-true _ keyed)))
    ]
