-- ===== src/Tenants/Attachments/Requests.antt =====
-- Uploads and removals of attachments one after another, in backend/app/routers/tenants.py.
use home_trap.Prelude.{
  ℕ, ◌≡◌, refl, sym, ap, ◌∙◌, inl, inr, Bool, true, false, not, List, [], ◌∷◌, ◌++◌, Text,
  text_eq_sym, In, In-filter, In-append_one, arith, Bool-cases,
}
use mathlib.Core.Bool.{false≢true}
use home_trap.Prelude.Result.{ok, Result-cases}
use home_trap.Calendar.{DateTime}
use home_trap.Models.{TenantAttachment}
use home_trap.Storage.{Uploads}
use home_trap.Tenants.Deletion.{World}
use home_trap.Tenants.Attachments.{
  UploadFile, Prepared, new_row, add_rows, close_upload, check_upload, upload_attachments, has_key,
  get_attachment, remove_attachment,
}
use home_trap.Tenants.Attachments.Backed.{
  of_row, IsBacked, AreDistinct, AreNew, AreApart, upload-IsBacked, remove-IsBacked,
}

-- Each row after an upload names its own file.
of_row_sym :
    (a b : TenantAttachment)
    → of_row a b.tenant_id b.stored_name ≡ of_row b a.tenant_id a.stored_name
of_row_sym a b = rw (text_eq_sym b.stored_name a.stored_name) (ground arith)

append_one-AreApart :
    (rows : List TenantAttachment) (new : TenantAttachment)
    → AreApart rows
    → ((a : TenantAttachment) → In a rows → of_row a new.tenant_id new.stored_name ≡ false)
    → AreApart (rows ++ new ∷ [])
append_one-AreApart rows new apart fresh a b ma mb h = elim (In-append_one a new rows ma) [
  | inl oa ↦ elim (In-append_one b new rows mb) [
    | inl ob ↦ apart a b oa ob h
    | inr eb ↦ absurd (false≢true (sym (fresh a oa) ∙ rw eb at h))
  ]
  | inr ea ↦ elim (In-append_one b new rows mb) [
    | inl ob ↦
        let h' : of_row new b.tenant_id b.stored_name ≡ true = rw ea at h in
        absurd (false≢true (sym (fresh b ob) ∙ of_row_sym b new ∙ h'))
    | inr eb ↦ ap (λ (x : TenantAttachment). x.id) (ea ∙ sym eb)
  ]
]

add_rows-AreApart :
    (id : ℕ) (now : DateTime) (ps : List Prepared) (rows : List TenantAttachment)
    → AreApart rows
    → AreNew id ps rows
    → AreDistinct ps
    → AreApart (add_rows id now ps rows)
unfolding add_rows
add_rows-AreApart id now [] rows apart fresh distinct = apart
add_rows-AreApart id now (p ∷ ps) rows apart fresh distinct =
    add_rows-AreApart id now ps (rows ++ new_row id now rows p ∷ [])
      (append_one-AreApart rows (new_row id now rows p) apart (fresh p (inl refl)))
      (λ q mq a ma. elim (In-append_one a (new_row id now rows p) rows ma) [
        | inl old ↦ fresh q (inr mq) a old
        | inr e ↦ rw e (rw (distinct.0 q mq) (ground arith))
      ])
      distinct.1

close_upload-AreApart :
    (id : ℕ) (now : DateTime) (ps : List Prepared) (w : World) (commits : Bool)
    (saved : Bool × List Text × Uploads)
    → AreApart w.attachments
    → AreNew id ps w.attachments
    → AreDistinct ps
    → AreApart (close_upload id now ps w commits saved).1.attachments
close_upload-AreApart id now ps w true (true, s, u) apart fresh distinct =
    add_rows-AreApart id now ps w.attachments apart fresh distinct
close_upload-AreApart id now ps w true (false, s, u) apart fresh distinct = apart
close_upload-AreApart id now ps w false (true, s, u) apart fresh distinct = apart
close_upload-AreApart id now ps w false (false, s, u) apart fresh distinct = apart

-- What `uuid4` is relied on for: names that no row has, and no two of them one.
abbrev pub AreFresh : World → ℕ → List UploadFile → Type 0
AreFresh w id files =
    (ps : List Prepared)
    → check_upload w id files ≡ ok ps
    → AreNew id ps w.attachments × AreDistinct ps

upload-AreApart :
    (commits : Bool) (now : DateTime) (w : World) (id : ℕ) (files : List UploadFile)
    → AreApart w.attachments
    → AreFresh w id files
    → AreApart (upload_attachments commits now w id files).1.attachments
unfolding upload_attachments
upload-AreApart commits now w id files apart fresh = elim (Result-cases (check_upload w id files)) [
  | inl (ps, e) ↦
      let (new, distinct) = fresh ps e in
      rw (e, upload_attachments) (close_upload-AreApart id now ps w commits _ apart new distinct)
  | inr (status, e) ↦ rw (e, upload_attachments) apart
]

remove-AreApart :
    (commits : Bool) (w : World) (attachment_id : ℕ)
    → AreApart w.attachments
    → AreApart (remove_attachment commits w attachment_id).1.attachments
unfolding remove_attachment
remove-AreApart commits w attachment_id apart =
    elim (Result-cases (get_attachment w attachment_id)) [
      | inr (status, e) ↦ rw (e, remove_attachment) apart
      | inl (a, e) ↦ elim (Bool-cases commits) [
        | inr f ↦ rw (e, f, remove_attachment) apart
        | inl t ↦
            rw (e, t, remove_attachment)
              (λ x y mx my h.
                apart x y (In-filter (λ z. not (has_key attachment_id z)) x w.attachments mx).0
                  (In-filter (λ z. not (has_key attachment_id z)) y w.attachments my).0 h)
      ]
    ]

-- A request that changes attachments.
pub data Request (w : World) : World → Type 0 where
  upload :
      (commits : Bool) (now : DateTime) (id : ℕ) (files : List UploadFile)
      → AreFresh w id files
      → Request w (upload_attachments commits now w id files).1
  remove :
      (commits : Bool) (attachment_id : ℕ) → Request w (remove_attachment commits w attachment_id).1

-- Requests one after another.
pub data Requests (start : World) : World → Type 0 where
  none_yet : Requests start start
  after : (w w' : World) → Requests start w → Request w w' → Requests start w'

-- Every row has its file, and no two rows name one file.
abbrev pub AreBacked : World → Type 0
AreBacked w = IsBacked w.attachments w.uploads × AreApart w.attachments

Request-AreBacked : (w w' : World) → Request w w' → AreBacked w → AreBacked w'
Request-AreBacked w _ (Request.upload commits now id files fresh) (backed, apart) = (
  upload-IsBacked commits now w id files backed (λ ps e. (fresh ps e).0),
  upload-AreApart commits now w id files apart fresh,
)
Request-AreBacked w _ (Request.remove commits attachment_id) (backed, apart) = (
  remove-IsBacked commits w attachment_id backed apart,
  remove-AreApart commits w attachment_id apart,
)

-- Where every row of an attachment has its file and no two rows name one file, both are so after any
-- uploads and removals, also where the disk refuses a file or a commit raises, as long as each upload's
-- stored names differ from one another and from those that rows have for the tenant.
pub Requests-AreBacked : (start w : World) → AreBacked start → Requests start w → AreBacked w
Requests-AreBacked start _ b Requests.none_yet = b
Requests-AreBacked start _ b (Requests.after w w' r request) =
    Request-AreBacked w w' request (Requests-AreBacked start w b r)
