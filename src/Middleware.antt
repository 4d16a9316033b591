-- ===== src/Middleware.antt =====
-- `RestoreUploadGuardMiddleware` of backend/app/middleware.py. The application behind it is a parameter: a
-- tree of the messages that it asks for and of the way that it ends.
pub mod Guard
use home_trap.Prelude.{
  ℕ, ◌+◌, Bool, true, false, not, ◌&&◌, Option, none, some, List, [], ◌∷◌, Text, text, text_eq, ltb,
  if◌then◌else◌,
}
use home_trap.Prelude.Int.{ℤ, pos, ltb_ℤ}

-- What the application behind the guard does: it asks for a message, and goes on by the bytes of its body, or
-- by the exception of the guard where it handles that; it ends with the messages that it has sent, or
-- lets an exception out, that of the guard or another.
pub data App : Type 0 where
  receive : (ℕ → App) → App → App
  finish : List Text → App
  leave : App
  crash : App

-- How a call of the application ended.
pub data Ending : Type 0 where
  finished : List Text → Ending
  left : Ending
  crashed : Ending

-- `body_too_large` and `received` when the application has ended.
pub record Watched : Type 0 where
  pub body_too_large : Bool
  pub received : ℕ
  pub ending : Ending

abbrev pub next_size : List ℕ → ℕ
next_size [] = 0
next_size (c ∷ chunks) = c

abbrev pub rest_of : List ℕ → List ℕ
rest_of [] = []
rest_of (c ∷ chunks) = chunks

-- The application with `limited_receive`, over the sizes of the bodies that the client sends.
unfoldable pub watch : App → ℕ → Bool → ℕ → List ℕ → Watched
watch (App.receive onward raised) limit too_large received chunks =
    let total = received + next_size chunks in
    elim (ltb limit total) [
      | true ↦ watch raised limit true total (rest_of chunks)
      | false ↦ watch (onward (next_size chunks)) limit too_large total (rest_of chunks)
    ]
watch (App.finish sent) limit too_large received chunks = record {
  body_too_large = too_large;
  received = received;
  ending = Ending.finished sent;
}
watch App.leave limit too_large received chunks = record {
  body_too_large = true;
  received = received;
  ending = Ending.left;
}
watch App.crash limit too_large received chunks = record {
  body_too_large = too_large;
  received = received;
  ending = Ending.crashed;
}

-- The application without the guard.
unfoldable pub run_app : App → List ℕ → Ending
run_app (App.receive onward raised) chunks = run_app (onward (next_size chunks)) (rest_of chunks)
run_app (App.finish sent) chunks = Ending.finished sent
run_app App.leave chunks = Ending.left
run_app App.crash chunks = Ending.crashed

-- What of a request the guard looks at; `content_length` holds none where it is no number.
pub record Scope : Type 0 where
  pub kind : Text
  pub method : Text
  pub path : Text
  pub content_length : Option (Option ℤ)

unfoldable pub guards : Scope → Bool
guards scope =
    text_eq scope.kind (text "http")
    && (text_eq scope.method (text "POST") && text_eq scope.path (text "/api/settings/restore"))

pub data Answer : Type 0 where
  unauthenticated too_large : Answer
  ended : Ending → Answer

abbrev pub declares_too_much : ℕ → Option (Option ℤ) → Bool
declares_too_much limit none = false
declares_too_much limit (some none) = true
declares_too_much limit (some (some n)) = ltb_ℤ (pos limit) n

-- An exception that is not the guard's goes through.
abbrev pub answer_of : Watched → Answer
answer_of w = elim w.ending [
  | Ending.crashed ↦ Answer.ended Ending.crashed
  | Ending.left ↦ Answer.too_large
  | Ending.finished sent ↦
      if w.body_too_large then Answer.too_large else Answer.ended (Ending.finished sent)
]

-- `__call__`, from the answer of `is_authenticated` on.
unfoldable pub call : App → ℕ → Scope → Bool → List ℕ → Answer
unfolding guards run_app watch
call app max_body_size scope authenticated chunks =
    if not (guards scope)
    then Answer.ended (run_app app chunks)
    else if not authenticated
    then Answer.unauthenticated
    else if declares_too_much max_body_size scope.content_length
    then Answer.too_large
    else answer_of (watch app max_body_size false 0 chunks)
