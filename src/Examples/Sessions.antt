-- ===== src/Examples/Sessions.antt =====
-- A cookie under a small codec, and the first user.
use home_trap.Prelude.{
  ◌+◌, ◌-◌, ◌%◌, ◌≡◌, refl, false, any, leb, Option, none, some, [], ◌∷◌, map, Text, text, ltb,
  arith, if◌then◌else◌,
}
use home_trap.Prelude.Int.{ℤ, pos}
use home_trap.Prelude.Result.{ok, err}
use home_trap.Auth.Session.{
  Codec, TypeError, session_max_age_seconds, AdminError, encode_session, decode_session,
  ensure_admin,
}
use home_trap.Auth.Session.Cookies.{
  IsCodec, IsFreeOf, Signed, decode_session-encode_session, decode_session-Signed,
}

abbrev up : Text → Text
up t = map (λ c. c + 1000) t

abbrev down : Text → Text
down t = map (λ c. c - 1000) t

abbrev parsed : Text → Option ℤ
parsed [] = none
parsed (c ∷ cs) = some (pos (c - 100))

abbrev small_codec : Codec
small_codec = record {
  encode64 = up;
  decode64 = λ t. some (down t);
  utf8 = λ t. some t;
  hmac = λ key t. map (λ c. c % 32) key;
  str = λ n. (n + 100) ∷ [];
  int = parsed;
}

down-up : (t : Text) → down (up t) ≡ t
down-up [] = refl
down-up (c ∷ cs) = let e : c + 1000 - 1000 ≡ c = omega arith in rw (e, down-up cs) refl

low-IsFreeOf : (t : Text) → IsFreeOf b'.' (map (λ c. c % 32) t)
low-IsFreeOf [] = refl
low-IsFreeOf (c ∷ cs) = rw (low-IsFreeOf cs) (ground arith)

none_high : (t : Text) → any (λ c. leb 128 c) (map (λ c. c % 32) t) ≡ false
none_high [] = refl
none_high (c ∷ cs) = rw (none_high cs) (ground arith)

small_codec-IsCodec : IsCodec small_codec
small_codec-IsCodec = record {
  decoded = λ t. rw (down-up t) refl;
  hex = λ key t. low-IsFreeOf key;
  ascii = λ key t. rw (none_high key) refl;
  text = λ m n. refl;
  digits = λ n. ground arith;
  printed = λ n. let e : n + 100 - 100 ≡ n = omega arith in rw e refl;
}

abbrev key : Text
key = text "secret"

abbrev cookie : Text
cookie = encode_session small_codec 3 key 100

decode_session-encode_session_example :
    decode_session small_codec (encode_session small_codec 3 key 100) key 200
    ≡ ok (if ltb (100 + session_max_age_seconds) 200 then none else some (pos 3))
decode_session-encode_session_example =
    decode_session-encode_session small_codec 3 key 100 200 small_codec-IsCodec

was_read : decode_session small_codec cookie key 200 ≡ ok (some (pos 3))
unfolding encode_session decode_session
was_read = refl

decode_session-Signed_example : Signed small_codec cookie key 200 (pos 3)
decode_session-Signed_example = decode_session-Signed small_codec cookie key 200 (pos 3) was_read

other_key_refused : decode_session small_codec cookie (text "other") 200 ≡ ok none
unfolding encode_session decode_session
other_key_refused = refl

-- The cookie "a.é" ends the request with an error.
not_compared : decode_session small_codec (b'a' ∷ b'.' ∷ 233 ∷ []) key 200 ≡ err TypeError.non_ascii
unfolding decode_session
not_compared = refl

admin_added :
    ensure_admin (λ p. p) [] (some (text "admin")) (some (text "pw"))
    ≡ ok (record { id = 1; username = text "admin"; password_hash = text "pw" } ∷ [])
unfolding ensure_admin
admin_added = refl

half_configured :
    ensure_admin (λ p. p) [] (some (text "admin")) none ≡ err AdminError.configured_apart
unfolding ensure_admin
half_configured = refl
