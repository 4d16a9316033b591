-- ===== src/Auth/Session/Cookies.antt =====
-- What a session cookie of backend/app/auth.py says, and which cookies are accepted.
use home_trap.Prelude.{
  ℕ, ◌+◌, ◌≡◌, refl, ap, ◌∙◌, sym, inl, inr, true, false, Option, none, some, [], ◌∷◌, ◌++◌, Text,
  text_eq, text_eq→eq, text_eq_refl, ltb, ◌==◌, ==_iff, eq→==, any, arith, Bool-cases, Option-cases,
  if◌then◌else◌,
}
use home_trap.Prelude.Int.{ℤ, pos, ltb_ℤ}
use home_trap.Prelude.Result.{Result, ok, err}
use home_trap.Auth.Session.{
  session_max_age_seconds, split_last, split_first, Codec, encode_session, decode_session,
  TypeError, is_ascii, unexpired, read_payload, read_text, check_payload, check_cookie,
}

-- The character is not in the text.
abbrev pub IsFreeOf : ℕ → Text → Type 0
IsFreeOf c t = any (λ x. x == c) t ≡ false

split_last-free : (c : ℕ) (t : Text) → IsFreeOf c t → split_last c t ≡ none
unfolding split_last
split_last-free c [] h = refl
split_last-free c (x ∷ xs) h = elim (Bool-cases (x == c)) [
  | inl e ↦ ground arith
  | inr e ↦ rw (split_last-free c xs (rw e at h), e) refl
]

split_last-joined : (c : ℕ) (a b : Text) → IsFreeOf c b → split_last c (a ++ c ∷ b) ≡ some (a, b)
unfolding split_last
split_last-joined c [] b h = rw (split_last-free c b h, eq→== c c refl) refl
split_last-joined c (x ∷ a) b h = rw (split_last-joined c a b h) refl

split_first-joined : (c : ℕ) (a b : Text) → IsFreeOf c a → split_first c (a ++ c ∷ b) ≡ some (a, b)
unfolding split_first
split_first-joined c [] b h = rw (eq→== c c refl) refl
split_first-joined c (x ∷ a) b h = elim (Bool-cases (x == c)) [
  | inl e ↦ ground arith
  | inr e ↦ rw (e, split_first-joined c a b (rw e at h)) refl
]

abbrev joined : ℕ → Option (Text × Text) → Text
joined c none = []
joined c (some (a, b)) = a ++ c ∷ b

abbrev before : Option (Text × Text) → Text
before none = []
before (some (a, b)) = a

-- The parts that a split gives are those of the text.
split_last-parts : (c : ℕ) (t a b : Text) → split_last c t ≡ some (a, b) → t ≡ a ++ c ∷ b
unfolding split_last
split_last-parts c [] a b h = cc
split_last-parts c (x ∷ xs) a b h = parts (split_last c xs) refl (split_last-parts c xs)
  where
    parts :
        (o : Option (Text × Text))
        → split_last c xs ≡ o
        → ((a' b' : Text) → split_last c xs ≡ some (a', b') → xs ≡ a' ++ c ∷ b')
        → x ∷ xs ≡ a ++ c ∷ b
    parts none e ih = elim (Bool-cases (x == c)) [
      | inl t ↦
          let q : some ([], xs) ≡ some (a, b) = rw (e, t) at h in
          rw ((==_iff x c).0 t) (ap (joined c) q)
      | inr t ↦ let q : ◌≡◌ {A = Option (Text × Text)} none (some (a, b)) = rw (e, t) at h in cc
    ]
    parts (some (a', b')) e ih =
        let q : some (x ∷ a', b') ≡ some (a, b) = rw e at h in
        ap (λ t. x ∷ t) (ih a' b' e) ∙ ap (joined c) q

split_first-parts :
    (c : ℕ) (t a b : Text) → split_first c t ≡ some (a, b) → (t ≡ a ++ c ∷ b) × IsFreeOf c a
unfolding split_first
split_first-parts c [] a b h = cc
split_first-parts c (x ∷ xs) a b h = elim (Bool-cases (x == c)) [
  | inl t ↦
      let q : some ([], xs) ≡ some (a, b) = rw (t, split_first) at h in
      (rw ((==_iff x c).0 t) (ap (joined c) q), ap (λ o. any (λ y. y == c) (before o)) (sym q))
  | inr t ↦ elim (Option-cases (split_first c xs)) [
    | inl e ↦ let q : ◌≡◌ {A = Option (Text × Text)} none (some (a, b)) = rw (t, e) at h in cc
    | inr ((a', b'), e) ↦
        let q : some (x ∷ a', b') ≡ some (a, b) = rw (t, e) at h in
        let (same, free) = split_first-parts c xs a' b' e in
        let free' : IsFreeOf c (x ∷ a') = rw t free in
        (
          ap (λ u. x ∷ u) same ∙ ap (joined c) q,
          ap (λ o. any (λ y. y == c) (before o)) (sym q) ∙ free',
        )
  ]
]

expired_test : (a b : ℕ) → ltb_ℤ (pos a) (pos b) ≡ ltb a b
expired_test a b = ground arith

-- What the libraries promise: decoding gives back what was encoded, and the texts have no separator.
pub record IsCodec (codec : Codec) : Type 0 where
  pub decoded : (t : Text) → codec.decode64 (codec.encode64 t) ≡ some t
  pub hex : (key t : Text) → IsFreeOf b'.' (codec.hmac key t)
  pub ascii : (key t : Text) → is_ascii (codec.hmac key t) ≡ true
  pub text : (m n : ℕ) → let t = codec.str m ++ b':' ∷ codec.str n in codec.utf8 t ≡ some t
  pub digits : (n : ℕ) → IsFreeOf b':' (codec.str n)
  pub printed : (n : ℕ) → codec.int (codec.str n) ≡ some (pos n)

-- A cookie that was made at one time is read at another with the same key as the user's id up to seven
-- days later, and as nothing after that.
pub decode_session-encode_session :
    (codec : Codec) (user_id : ℕ) (secret_key : Text) (now later : ℕ)
    → IsCodec codec
    → decode_session codec (encode_session codec user_id secret_key now) secret_key later
      ≡ ok (if ltb (now + session_max_age_seconds) later then none else some (pos user_id))
unfolding encode_session decode_session
decode_session-encode_session codec user_id secret_key now later laws =
    let expires = codec.str (now + session_max_age_seconds) in
    let payload = codec.str user_id ++ b':' ∷ expires in
    rw
      (
        split_last-joined b'.' (codec.encode64 payload) (codec.hmac secret_key payload)
            (laws.hex secret_key payload),
        laws.decoded payload,
        laws.ascii secret_key payload,
        text_eq_refl (codec.hmac secret_key payload),
        laws.text user_id (now + session_max_age_seconds),
        split_first-joined b':' (codec.str user_id) expires (laws.digits user_id),
        laws.printed (now + session_max_age_seconds),
        laws.printed user_id,
      )
      (ap (λ b. ok (if b then none else some (pos user_id)))
        (expired_test (now + session_max_age_seconds) later))

-- What a text says that reads as a user's id: the id, and a time that is not before now.
abbrev pub TellsUser : Codec → Text → ℕ → ℤ → Type 0
TellsUser codec t now user_id =
    (raw_user_id : Text) × (raw_expires_at : Text) × (expires_at : ℤ) × (t
      ≡ raw_user_id ++ b':' ∷ raw_expires_at)
    × IsFreeOf b':' raw_user_id
    × (codec.int raw_user_id ≡ some user_id)
    × (codec.int raw_expires_at ≡ some expires_at)
    × (ltb_ℤ expires_at (pos now) ≡ false)

-- What the cookie's last part signs.
abbrev pub Signed : Codec → Text → Text → ℕ → ℤ → Type 0
Signed codec cookie secret_key now user_id =
    (encoded : Text) × (payload : Text) × (t : Text) × (cookie
      ≡ encoded ++ b'.' ∷ codec.hmac secret_key payload)
    × (codec.decode64 encoded ≡ some payload)
    × (codec.utf8 payload ≡ some t)
    × TellsUser codec t now user_id

read_unexpired :
    (codec : Codec) (now : ℕ) (e u : Option ℤ) (user_id : ℤ)
    → unexpired codec now e u ≡ some user_id
    → (u ≡ some user_id) × ((x : ℤ) × (e ≡ some x) × (ltb_ℤ x (pos now) ≡ false))
read_unexpired codec now none u user_id h = cc
read_unexpired codec now (some x) u user_id h = elim (Bool-cases (ltb_ℤ x (pos now))) [
  | inl e ↦ let q : ◌≡◌ {A = Option ℤ} none (some user_id) = rw e at h in cc
  | inr e ↦ (rw e at h, (x, refl, e))
]

read_parts :
    (codec : Codec) (t : Text) (now : ℕ) (user_id : ℤ)
    → read_payload codec now (split_first b':' t) ≡ some user_id
    → TellsUser codec t now user_id
read_parts codec t now user_id h = elim (Option-cases (split_first b':' t)) [
  | inl e ↦ let q : ◌≡◌ {A = Option ℤ} none (some user_id) = rw e at h in cc
  | inr ((u, x), e) ↦
      let (same, free) = split_first-parts b':' t u x e in
      let (id, (expires, printed, ahead)) =
        read_unexpired codec now (codec.int x) (codec.int u) user_id (rw e at h) in
      (u, x, expires, same, free, id, printed, ahead)
]

read_bytes :
    (codec : Codec) (payload : Text) (now : ℕ) (user_id : ℤ)
    → read_text codec now (codec.utf8 payload) ≡ some user_id
    → (t : Text) × (codec.utf8 payload ≡ some t) × TellsUser codec t now user_id
read_bytes codec payload now user_id h = elim (Option-cases (codec.utf8 payload)) [
  | inl e ↦ let q : ◌≡◌ {A = Option ℤ} none (some user_id) = rw e at h in cc
  | inr (t, e) ↦ (t, e, read_parts codec t now user_id (rw e at h))
]

abbrev read_of : Result TypeError (Option ℤ) → Option ℤ
read_of (ok o) = o
read_of (err e) = none

checked_payload :
    (codec : Codec) (secret_key signature : Text) (now : ℕ) (user_id : ℤ) (payload : Text)
    → check_payload codec secret_key signature now (some payload) ≡ ok (some user_id)
    → (signature ≡ codec.hmac secret_key payload)
      × (read_text codec now (codec.utf8 payload) ≡ some user_id)
checked_payload codec secret_key signature now user_id payload h =
    elim (Bool-cases (is_ascii signature)) [
      | inr a ↦ let q : ◌≡◌ {A = Option ℤ} none (some user_id) = ap read_of (rw a at h) in cc
      | inl a ↦ elim (Bool-cases (text_eq signature (codec.hmac secret_key payload))) [
        | inl e ↦
            (text_eq→eq signature (codec.hmac secret_key payload) e, ap read_of (rw (a, e) at h))
        | inr e ↦ let q : ◌≡◌ {A = Option ℤ} none (some user_id) = ap read_of (rw (a, e) at h) in cc
      ]
    ]

checked_cookie :
    (codec : Codec) (cookie secret_key : Text) (now : ℕ) (user_id : ℤ) (o : Option (Text × Text))
    → split_last b'.' cookie ≡ o
    → check_cookie codec secret_key now o ≡ ok (some user_id)
    → Signed codec cookie secret_key now user_id
checked_cookie codec cookie secret_key now user_id none e h =
    let q : ◌≡◌ {A = Option ℤ} none (some user_id) = ap read_of h in cc
checked_cookie codec cookie secret_key now user_id (some (encoded, signature)) e h =
    elim (Option-cases (codec.decode64 encoded)) [
      | inl d ↦ let q : ◌≡◌ {A = Option ℤ} none (some user_id) = ap read_of (rw d at h) in cc
      | inr (payload, d) ↦
          let (same, read) =
            checked_payload codec secret_key signature now user_id payload (rw d at h) in
          let (t, bytes, parts) = read_bytes codec payload now user_id read in
          (
            encoded,
            payload,
            t,
            split_last-parts b'.' cookie encoded signature e ∙ rw same refl,
            d,
            bytes,
            parts,
          )
    ]

-- A cookie is accepted for a user's id only where its last part is the signature of its payload under the
-- secret key, and the payload is the id and a time, with a colon between, and the time is not before
-- now.
pub decode_session-Signed :
    (codec : Codec) (cookie secret_key : Text) (now : ℕ) (user_id : ℤ)
    → decode_session codec cookie secret_key now ≡ ok (some user_id)
    → Signed codec cookie secret_key now user_id
unfolding decode_session
decode_session-Signed codec cookie secret_key now user_id h =
    checked_cookie codec cookie secret_key now user_id (split_last b'.' cookie) refl h
