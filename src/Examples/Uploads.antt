-- ===== src/Examples/Uploads.antt =====
-- Restore requests behind the guard, with a limit of 100 bytes.
use home_trap.Prelude.{ℕ, ◌≤◌, ◌≡◌, refl, true, false, some, List, [], ◌∷◌, text, arith}
use home_trap.Prelude.Int.{pos}
use home_trap.Middleware.{App, Ending, run_app, Scope, guards, Answer, declares_too_much, call}
use home_trap.Middleware.Guard.{asked, body_size, plain_answer, call-received, call-transparent}

-- It asks for two messages, and answers on its own where the guard raises.
abbrev parser : App
parser =
    App.receive
      (λ first. App.receive (λ second. App.finish (text "ok" ∷ [])) (App.finish (text "bad" ∷ [])))
      (App.finish (text "bad" ∷ []))

abbrev restore : Scope
restore = record {
  kind = text "http";
  method = text "POST";
  path = text "/api/settings/restore";
  content_length = some (some (pos 90));
}

abbrev small : List ℕ
small = 60 ∷ 30 ∷ []

-- The answer of the application that handles the exception is dropped.
too_much : call parser 100 restore true (60 ∷ 50 ∷ []) ≡ Answer.too_large
unfolding call
too_much = refl

accepted : call parser 100 restore true small ≡ Answer.ended (Ending.finished (text "ok" ∷ []))
unfolding call
accepted = refl

is_guarded : guards restore ≡ true
unfolding guards
is_guarded = refl

small_fits : body_size small ≤ 100
unfolding body_size
small_fits = omega arith

call-received_example :
    (true ≡ true)
    × (declares_too_much 100 restore.content_length ≡ false)
    × (run_app parser small ≡ Ending.finished (text "ok" ∷ []))
    × (asked parser small ≤ 100)
call-received_example =
    call-received parser 100 restore true small (text "ok" ∷ []) is_guarded accepted

call-transparent_example : call parser 100 restore true small ≡ plain_answer (run_app parser small)
call-transparent_example = call-transparent parser 100 restore small is_guarded refl small_fits
