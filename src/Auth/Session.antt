-- ===== src/Auth/Session.antt =====
-- The sessions of backend/app/auth.py. Base64 (with the padding taken off and put back), the HMAC, bcrypt
-- and Python's `str` and `int` are parameters.
pub mod Cookies
use home_trap.Prelude.{
  ℕ, ◌+◌, ◌*◌, Bool, true, false, not, ◌||◌, Option, none, some, List, [], ◌∷◌, ◌++◌, Text, text,
  text_eq, ltb, leb, ◌==◌, find?, any, is_some, if◌then◌else◌,
}
use home_trap.Prelude.Int.{ℤ, pos, ltb_ℤ}
use home_trap.Prelude.Result.{Result, ok, err, ◌>>=◌}
use home_trap.Models.{next_key}

abbrev pub session_max_age_seconds : ℕ
session_max_age_seconds = 60 * 60 * 24 * 7

pub record User : Type 0 where
  pub id : ℕ
  pub username : Text
  pub password_hash : Text

-- `value.rsplit(c, 1)`, where it gives two parts.
unfoldable pub split_last : ℕ → Text → Option (Text × Text)
split_last c [] = none
split_last c (x ∷ xs) = elim (split_last c xs) [
  | some (a, b) ↦ some (x ∷ a, b)
  | none ↦ if x == c then some ([], xs) else none
]

-- `value.split(c, 1)`, where it gives two parts.
unfoldable pub split_first : ℕ → Text → Option (Text × Text)
split_first c [] = none
split_first c (x ∷ xs) =
    let rest = split_first c xs in
    if x == c then some ([], xs) else elim rest [ none ↦ none | some (a, b) ↦ some (x ∷ a, b) ]

-- What the code uses of its libraries; bytes are a text of small numbers, `utf8` is `bytes.decode`.
pub record Codec : Type 0 where
  pub encode64 : Text → Text
  pub decode64 : Text → Option Text
  pub utf8 : Text → Option Text
  pub hmac : Text → Text → Text
  pub str : ℕ → Text
  pub int : Text → Option ℤ

-- "comparing strings with non-ASCII characters is not supported", of `hmac.compare_digest`, which no
-- handler of `_decode_session` catches.
pub data TypeError : Type 0 where
  non_ascii : TypeError

abbrev pub is_ascii : Text → Bool
is_ascii t = not (any (λ c. leb 128 c) t)

module _ (codec : Codec) where
  unfoldable pub encode_session : ℕ → Text → ℕ → Text
  encode_session user_id secret_key now =
      let expires_at = now + session_max_age_seconds in
      let payload = codec.str user_id ++ b':' ∷ codec.str expires_at in
      codec.encode64 payload ++ b'.' ∷ codec.hmac secret_key payload

  -- From the two numbers of the payload on.
  abbrev pub unexpired : ℕ → Option ℤ → Option ℤ → Option ℤ
  unexpired now none user_id = none
  unexpired now (some expires_at) user_id = if ltb_ℤ expires_at (pos now) then none else user_id

  abbrev pub read_payload : ℕ → Option (Text × Text) → Option ℤ
  read_payload now none = none
  read_payload now (some (raw_user_id, raw_expires_at)) =
      unexpired now (codec.int raw_expires_at) (codec.int raw_user_id)

  abbrev pub read_text : ℕ → Option Text → Option ℤ
  read_text now none = none
  read_text now (some payload) = read_payload now (split_first b':' payload)

  abbrev pub check_payload : Text → Text → ℕ → Option Text → Result TypeError (Option ℤ)
  check_payload secret_key signature now none = ok none
  check_payload secret_key signature now (some payload) =
      if not (is_ascii signature)
      then err TypeError.non_ascii
      else if text_eq signature (codec.hmac secret_key payload)
      then ok (read_text now (codec.utf8 payload))
      else ok none

  abbrev pub check_cookie : Text → ℕ → Option (Text × Text) → Result TypeError (Option ℤ)
  check_cookie secret_key now none = ok none
  check_cookie secret_key now (some (encoded_payload, signature)) =
      check_payload secret_key signature now (codec.decode64 encoded_payload)

  unfoldable pub decode_session : Text → Text → ℕ → Result TypeError (Option ℤ)
  unfolding split_last split_first
  decode_session cookie_value secret_key now =
      check_cookie secret_key now (split_last b'.' cookie_value)

  -- `session.get(User, user_id)`
  abbrev pub user_with : List User → Option ℤ → Option User
  user_with users (some (pos user_id)) = find? (λ (u : User). u.id == user_id) users
  user_with users _ = none

  -- An empty cookie is none.
  unfoldable pub authenticated_user :
      List User → Option Text → Text → ℕ → Result TypeError (Option User)
  unfolding decode_session
  authenticated_user users none secret_key now = ok none
  authenticated_user users (some []) secret_key now = ok none
  authenticated_user users (some (c ∷ cookie)) secret_key now =
      decode_session (c ∷ cookie) secret_key now >>= λ user_id. ok (user_with users user_id)

  unfoldable pub is_authenticated : List User → Option Text → Text → ℕ → Result TypeError Bool
  unfolding authenticated_user
  is_authenticated users cookie secret_key now =
      authenticated_user users cookie secret_key now >>= λ user. ok (is_some user)

-- "ADMIN_USERNAME and ADMIN_PASSWORD must be configured together"
pub data AdminError : Type 0 where
  configured_apart : AdminError

abbrev pub is_blank : Option Text → Bool
is_blank none = true
is_blank (some []) = true
is_blank (some (c ∷ cs)) = false

abbrev pub value_of : Option Text → Text
value_of none = []
value_of (some t) = t

unfoldable pub ensure_admin :
    (Text → Text) → List User → Option Text → Option Text → Result AdminError (List User)
ensure_admin hash_password users admin_username admin_password =
    if not (is_some admin_username || is_some admin_password)
    then ok users
    else if is_blank admin_username || is_blank admin_password
    then err AdminError.configured_apart
    else if any (λ (u : User). text_eq u.username (value_of admin_username)) users
    then ok users
    else ok (
        users
        ++ record {
          id = next_key (λ (u : User). u.id) users;
          username = value_of admin_username;
          password_hash = hash_password (value_of admin_password);
        }
          ∷ [])
