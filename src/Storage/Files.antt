-- ===== src/Storage/Files.antt =====
-- Which files there are after each operation of backend/app/services/storage.py on one file.
use home_trap.Prelude.{
  ℕ, ◌≡◌, refl, ◌∙◌, inl, inr, Bool, true, false, not, ◌&&◌, ◌||◌, Option, none, some, [], ◌∷◌,
  ◌++◌, Text, text_eq, text_eq→eq, text_eq_refl, text_eq_sym, ◌==◌, ==_iff, filter, arith,
  Bool-cases, if◌then◌else◌,
}
use home_trap.Storage.{
  Content, Directory, Uploads, has_name, has_file, unlink, remove_if_empty, write_file,
  save_attachment, delete_attachment,
}

abbrev pub has_file_in : Option Directory → Text → Bool
has_file_in none name = false
has_file_in (some d) name = has_file name d

-- Whether a tenant's directory holds a file of that name.
abbrev pub has : Uploads → ℕ → Text → Bool
has u i name = has_file_in (u.directory i) name

pub text_eq_trans : (a b c : Text) → text_eq a b ≡ true → text_eq a c ≡ text_eq b c
text_eq_trans a b c h = rw (text_eq→eq a b h) refl

has_file-unlinked :
    (name m : Text) (d : Directory)
    → has_file m (filter (λ f. not (has_name name f)) d) ≡ (has_file m d && not (text_eq name m))
has_file-unlinked name m [] = refl
has_file-unlinked name m ((n, c) ∷ d) =
    let ih = has_file-unlinked name m d in
    elim (Bool-cases (text_eq n name)) [
      | inl e ↦
          let q : n ≡ name = text_eq→eq n name e in rw (q, text_eq_refl name, ih) (ground arith)
      | inr e ↦
          rw (e, ih)
            (elim (Bool-cases (text_eq n m)) [
              | inl f ↦
                  let q : n ≡ m = text_eq→eq n m f in
                  let g : text_eq name m ≡ false = text_eq_sym name m ∙ rw q at e in rw (f, g) refl
              | inr f ↦ rw f (ground arith)
            ])
    ]

has_file-append_one :
    (m : Text) (d : Directory) (name : Text) (c : Content)
    → has_file m (d ++ (name, c) ∷ []) ≡ (has_file m d || text_eq name m)
has_file-append_one m [] name c = ground arith
has_file-append_one m ((n, b) ∷ d) name c = rw (has_file-append_one m d name c) (ground arith)

-- The file that is named.
abbrev pub at_name : ℕ → Text → ℕ → Text → Bool
at_name id name i m = i == id && text_eq name m

pub has-unlink :
    (id : ℕ) (name : Text) (u : Uploads) (i : ℕ) (m : Text)
    → has (unlink id name u) i m ≡ (has u i m && not (at_name id name i m))
unfolding unlink
has-unlink id name u i m = unlinked (u.directory id) refl
  where
    unlinked :
        (o : Option Directory)
        → u.directory id ≡ o
        → has (unlink id name u) i m ≡ (has u i m && not (at_name id name i m))
    unlinked none e =
        rw (unlink, e)
          (elim (Bool-cases (i == id)) [
            | inl q ↦ rw ((==_iff i id).0 q, e) refl
            | inr q ↦ rw q (ground arith)
          ])
    unlinked (some d) e =
        rw (unlink, e)
          (elim (Bool-cases (i == id)) [
            | inl q ↦ rw q (rw ((==_iff i id).0 q, e) (has_file-unlinked name m d))
            | inr q ↦ rw q (ground arith)
          ])

pub has-remove_if_empty :
    (id : ℕ) (u : Uploads) (i : ℕ) (m : Text) → has (remove_if_empty id u) i m ≡ has u i m
unfolding remove_if_empty
has-remove_if_empty id u i m = removed (u.directory id) refl
  where
    removed :
        (o : Option Directory) → u.directory id ≡ o → has (remove_if_empty id u) i m ≡ has u i m
    removed none e = rw (remove_if_empty, e) refl
    removed (some []) e =
        rw (remove_if_empty, e)
          (elim (Bool-cases (i == id)) [
            | inl q ↦ rw q (rw ((==_iff i id).0 q, e) refl)
            | inr q ↦ rw q refl
          ])
    removed (some (f ∷ fs)) e = rw (remove_if_empty, e) refl

written : (b c : Bool) → ((b && not c) || c) ≡ (b || c)
written true true = refl
written true false = refl
written false true = refl
written false false = refl

pub has-write_file :
    (id : ℕ) (name : Text) (c : Content) (u : Uploads) (i : ℕ) (m : Text)
    → has (write_file id name c u) i m ≡ (has u i m || at_name id name i m)
unfolding write_file
has-write_file id name c u i m = wrote (u.directory id) refl
  where
    wrote :
        (o : Option Directory)
        → u.directory id ≡ o
        → has (write_file id name c u) i m ≡ (has u i m || at_name id name i m)
    wrote none e =
        rw (write_file, e)
          (elim (Bool-cases (i == id)) [
            | inl q ↦ rw q (rw ((==_iff i id).0 q, e) (ground arith))
            | inr q ↦ rw q (ground arith)
          ])
    wrote (some d) e =
        rw (write_file, e)
          (elim (Bool-cases (i == id)) [
            | inl q ↦ rw q (
                rw ((==_iff i id).0 q, e)
                  (rw
                    (
                      has_file-append_one m (filter (λ f. not (has_name name f)) d) name c,
                      has_file-unlinked name m d,
                    )
                    (written (has_file m d) (text_eq name m))))
            | inr q ↦ rw q (ground arith)
          ])

-- What a save leaves: the file where the disk takes it, and no such file where it does not.
pub has-save_attachment :
    (id : ℕ) (name : Text) (c : Content) (disk : Bool) (u : Uploads) (i : ℕ) (m : Text)
    → has (save_attachment id name c disk u).1 i m ≡ (
        if disk
        then (has u i m || at_name id name i m)
        else (has u i m && not (at_name id name i m)))
unfolding save_attachment
has-save_attachment id name c true u i m = has-write_file id name c u i m
has-save_attachment id name c false u i m =
    has-remove_if_empty id (unlink id name u) i m ∙ has-unlink id name u i m

pub has-delete_attachment :
    (id : ℕ) (name : Text) (u : Uploads) (i : ℕ) (m : Text)
    → has (delete_attachment id name u) i m ≡ (has u i m && not (at_name id name i m))
unfolding delete_attachment
has-delete_attachment id name u i m =
    has-remove_if_empty id (unlink id name u) i m ∙ has-unlink id name u i m
