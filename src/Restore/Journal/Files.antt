-- ===== src/Restore/Journal/Files.antt =====
-- The content of each file after the operations of backend/app/services/storage.py that the journal
-- uses.
use home_trap.Prelude.{
  ℕ, ◌≡◌, refl, sym, ◌∙◌, inl, inr, Bool, true, false, not, Option, none, some, [], ◌∷◌, ◌++◌, Text,
  text_eq, text_eq→eq, text_eq_sym, ◌==◌, ==_iff, filter, arith, Bool-cases, if◌then◌else◌,
}
use home_trap.Storage.{
  Content, Directory, Uploads, has_name, content_of, unlink, remove_if_empty, write_file,
  delete_attachment,
}
use home_trap.Storage.Files.{at_name}

abbrev dropped : Text → Directory → Directory
dropped n d = filter (λ f. not (has_name n f)) d

pub content_of-cons :
    (m n : Text) (c : Content) (d : Directory)
    → content_of m (some ((n, c) ∷ d)) ≡ (if text_eq n m then some c else content_of m (some d))
unfolding content_of
content_of-cons m n c d = refl

-- Two names that are one text are told apart from others alike.
same_name_test : (n k m : Text) → text_eq n k ≡ true → text_eq n m ≡ text_eq k m
same_name_test n k m h = rw (text_eq→eq n k h) refl

pub content_of-dropped :
    (n m : Text) (d : Directory)
    → content_of m (some (dropped n d)) ≡ (if text_eq n m then none else content_of m (some d))
unfolding content_of
content_of-dropped n m [] = ground arith
content_of-dropped n m ((k, c) ∷ d) =
    let ih = content_of-dropped n m d in
    elim (Bool-cases (text_eq k n)) [
      | inl e ↦ rw (e, ih) (let t = same_name_test k n m e in rw t (ground arith))
      | inr e ↦
          rw (e, content_of, ih)
            (elim (Bool-cases (text_eq k m)) [
              | inl f ↦
                  let g : text_eq n m ≡ false =
                    text_eq_sym n m ∙ sym (same_name_test k m n f) ∙ e in
                  rw (f, g) refl
              | inr f ↦ rw f refl
            ])
    ]

content_of-append_one :
    (m n : Text) (c : Content) (d : Directory)
    → content_of m (some (d ++ (n, c) ∷ [])) ≡ (elim (content_of m (some d)) [
      | some x ↦ some x
      | none ↦ if text_eq n m then some c else none
    ])
unfolding content_of
content_of-append_one m n c [] = refl
content_of-append_one m n c ((k, b) ∷ d) =
    let ih = content_of-append_one m n c d in
    elim (Bool-cases (text_eq k m)) [
      | inl e ↦ rw (e, content_of) refl
      | inr e ↦ rw (e, content_of) ih
    ]

written_over :
    (b : Bool) (o : Option Content) (c : Content)
    → (elim (if b then none else o) [ some x ↦ some x | none ↦ if b then some c else none ])
      ≡ (if b then some c else o)
written_over true o c = refl
written_over false none c = refl
written_over false (some x) c = refl

content_of-written :
    (m n : Text) (c : Content) (d : Directory)
    → content_of m (some (dropped n d ++ (n, c) ∷ []))
      ≡ (if text_eq n m then some c else content_of m (some d))
content_of-written m n c d =
    content_of-append_one m n c (dropped n d)
    ∙ rw (content_of-dropped n m d) (written_over (text_eq n m) (content_of m (some d)) c)

-- What stands at a path.
abbrev pub file : Uploads → ℕ → Text → Option Content
file u i m = content_of m (u.directory i)

pub file-write_file :
    (id : ℕ) (name : Text) (c : Content) (u : Uploads) (i : ℕ) (m : Text)
    → file (write_file id name c u) i m ≡ (if at_name id name i m then some c else file u i m)
unfolding write_file content_of
file-write_file id name c u i m = wrote (u.directory id) refl
  where
    wrote :
        (o : Option Directory)
        → u.directory id ≡ o
        → file (write_file id name c u) i m ≡ (if at_name id name i m then some c else file u i m)
    wrote none e =
        rw (write_file, e)
          (elim (Bool-cases (i == id)) [
            | inl q ↦ rw q (rw ((==_iff i id).0 q, e) (content_of-written m name c []))
            | inr q ↦ rw q refl
          ])
    wrote (some d) e =
        rw (write_file, e)
          (elim (Bool-cases (i == id)) [
            | inl q ↦ rw q (rw ((==_iff i id).0 q, e) (content_of-written m name c d))
            | inr q ↦ rw q refl
          ])

file-unlink :
    (id : ℕ) (name : Text) (u : Uploads) (i : ℕ) (m : Text)
    → file (unlink id name u) i m ≡ (if at_name id name i m then none else file u i m)
unfolding unlink content_of
file-unlink id name u i m = gone (u.directory id) refl
  where
    gone :
        (o : Option Directory)
        → u.directory id ≡ o
        → file (unlink id name u) i m ≡ (if at_name id name i m then none else file u i m)
    gone none e =
        rw (unlink, e)
          (elim (Bool-cases (i == id)) [
            | inl q ↦ rw q (rw ((==_iff i id).0 q, e, content_of) (ground arith))
            | inr q ↦ rw q refl
          ])
    gone (some d) e =
        rw (unlink, e)
          (elim (Bool-cases (i == id)) [
            | inl q ↦ rw q (rw ((==_iff i id).0 q, e) (content_of-dropped name m d))
            | inr q ↦ rw q refl
          ])

file-remove_if_empty :
    (id : ℕ) (u : Uploads) (i : ℕ) (m : Text) → file (remove_if_empty id u) i m ≡ file u i m
unfolding remove_if_empty content_of
file-remove_if_empty id u i m = removed (u.directory id) refl
  where
    removed :
        (o : Option Directory) → u.directory id ≡ o → file (remove_if_empty id u) i m ≡ file u i m
    removed none e = rw (remove_if_empty, e) refl
    removed (some []) e =
        rw (remove_if_empty, e)
          (elim (Bool-cases (i == id)) [
            | inl q ↦ rw q (rw ((==_iff i id).0 q, e, content_of) refl)
            | inr q ↦ rw q refl
          ])
    removed (some (f ∷ fs)) e = rw (remove_if_empty, e) refl

pub file-delete_attachment :
    (id : ℕ) (name : Text) (u : Uploads) (i : ℕ) (m : Text)
    → file (delete_attachment id name u) i m ≡ (if at_name id name i m then none else file u i m)
unfolding delete_attachment
file-delete_attachment id name u i m =
    file-remove_if_empty id (unlink id name u) i m ∙ file-unlink id name u i m
