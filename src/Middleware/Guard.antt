-- ===== src/Middleware/Guard.antt =====
-- The limit on the body of a restore request in backend/app/middleware.py.
use home_trap.Prelude.{
  ℕ, ◌+◌, ◌≤◌, ◌≡◌, refl, sym, ap, ◌∙◌, inl, inr, Bool, true, false, List, [], ◌∷◌, Text, ltb,
  arith, Bool-cases,
}
use mathlib.Core.Bool.{false≢true}
use home_trap.Middleware.{
  App, Ending, Watched, next_size, rest_of, watch, run_app, Scope, guards, Answer,
  declares_too_much, answer_of, call,
}

-- The bytes of a body.
unfoldable pub body_size : List ℕ → ℕ
body_size [] = 0
body_size (c ∷ chunks) = c + body_size chunks

-- The bytes that an application receives where nothing is counted.
unfoldable pub asked : App → List ℕ → ℕ
asked (App.receive onward raised) chunks =
    next_size chunks + asked (onward (next_size chunks)) (rest_of chunks)
asked (App.finish sent) chunks = 0
asked App.leave chunks = 0
asked App.crash chunks = 0

-- What an application without the guard answers, where the guard's exception is an answer too.
abbrev pub plain_answer : Ending → Answer
plain_answer (Ending.finished sent) = Answer.ended (Ending.finished sent)
plain_answer Ending.left = Answer.too_large
plain_answer Ending.crashed = Answer.ended Ending.crashed

-- One message that is too much, and one that is not.
over_one :
    (onward : ℕ → App) (raised : App) (limit : ℕ) (flag : Bool) (received : ℕ) (chunks : List ℕ)
    → ltb limit (received + next_size chunks) ≡ true
    → watch (App.receive onward raised) limit flag received chunks
      ≡ watch raised limit true (received + next_size chunks) (rest_of chunks)
unfolding watch
over_one onward raised limit flag received chunks e = rw (watch, e) refl

within_one :
    (onward : ℕ → App) (raised : App) (limit : ℕ) (flag : Bool) (received : ℕ) (chunks : List ℕ)
    → ltb limit (received + next_size chunks) ≡ false
    → watch (App.receive onward raised) limit flag received chunks
      ≡ watch (onward (next_size chunks)) limit flag (received + next_size chunks) (rest_of chunks)
unfolding watch
within_one onward raised limit flag received chunks e = rw (watch, e) refl

ended_app :
    (limit : ℕ) (flag : Bool) (received : ℕ) (chunks : List ℕ) (sent : List Text)
    → (watch (App.finish sent) limit flag received chunks
        ≡ record { body_too_large = flag; received = received; ending = Ending.finished sent })
      × (watch App.leave limit flag received chunks
          ≡ record { body_too_large = true; received = received; ending = Ending.left })
      × (watch App.crash limit flag received chunks
          ≡ record { body_too_large = flag; received = received; ending = Ending.crashed })
unfolding watch
ended_app limit flag received chunks sent = (refl, refl, refl)

next_fits :
    (received limit : ℕ) (chunks : List ℕ)
    → received + body_size chunks ≤ limit
    → (ltb limit (received + next_size chunks) ≡ false)
      × (received + next_size chunks + body_size (rest_of chunks) ≤ limit)
unfolding body_size
next_fits received limit [] h = (ground arith, omega arith)
next_fits received limit (c ∷ chunks) h = (ground arith, omega arith)

watch-within :
    (app : App) (limit received : ℕ) (chunks : List ℕ)
    → received + body_size chunks ≤ limit
    → answer_of (watch app limit false received chunks) ≡ plain_answer (run_app app chunks)
unfolding run_app
watch-within (App.receive onward raised) limit received chunks h =
    let (small, fits) = next_fits received limit chunks h in
    ap answer_of (within_one onward raised limit false received chunks small)
    ∙ watch-within (onward (next_size chunks)) limit (received + next_size chunks) (rest_of chunks)
        fits
watch-within (App.finish sent) limit received chunks h =
    ap answer_of (ended_app limit false received chunks sent).0
watch-within App.leave limit received chunks h =
    ap answer_of (ended_app limit false received chunks []).1
watch-within App.crash limit received chunks h =
    ap answer_of (ended_app limit false received chunks []).2

-- Once too much has come in, this stays known.
watch-too_large :
    (app : App) (limit received : ℕ) (chunks : List ℕ)
    → (watch app limit true received chunks).body_too_large ≡ true
watch-too_large (App.receive onward raised) limit received chunks =
    elim (Bool-cases (ltb limit (received + next_size chunks))) [
      | inl e ↦
          rw (over_one onward raised limit true received chunks e)
            (watch-too_large raised limit (received + next_size chunks) (rest_of chunks))
      | inr e ↦ rw (within_one onward raised limit true received chunks e) (
          watch-too_large (onward (next_size chunks)) limit (received + next_size chunks)
            (rest_of chunks))
    ]
watch-too_large (App.finish sent) limit received chunks =
    rw (ended_app limit true received chunks sent).0 refl
watch-too_large App.leave limit received chunks =
    rw (ended_app limit true received chunks []).1 refl
watch-too_large App.crash limit received chunks =
    rw (ended_app limit true received chunks []).2 refl

-- Where nothing was too much, the application ran as without the guard, and what it asked for fits.
watch-asked :
    (app : App) (limit received : ℕ) (chunks : List ℕ)
    → received ≤ limit
    → (watch app limit false received chunks).body_too_large ≡ false
    → ((watch app limit false received chunks).ending ≡ run_app app chunks)
      × (received + asked app chunks ≤ limit)
unfolding asked run_app
watch-asked (App.receive onward raised) limit received chunks h e =
    elim (Bool-cases (ltb limit (received + next_size chunks))) [
      | inl t ↦ absurd (
          false≢true (
            sym (rw (over_one onward raised limit false received chunks t) at e)
            ∙ watch-too_large raised limit (received + next_size chunks) (rest_of chunks)))
      | inr t ↦
          let q = within_one onward raised limit false received chunks t in
          let (same, fits) =
            watch-asked (onward (next_size chunks)) limit (received + next_size chunks)
              (rest_of chunks) (ground arith) (rw q at e) in
          (rw q same, omega arith)
    ]
watch-asked (App.finish sent) limit received chunks h e =
    (rw (ended_app limit false received chunks sent).0 refl, omega arith)
watch-asked App.leave limit received chunks h e =
    let q = rw (ended_app limit false received chunks []).1 at e in cc
watch-asked App.crash limit received chunks h e =
    (rw (ended_app limit false received chunks []).2 refl, omega arith)

abbrev is_crash : Answer → Bool
is_crash (Answer.ended Ending.crashed) = true
is_crash _ = false

abbrev ending_of : Answer → Ending
ending_of (Answer.ended e) = e
ending_of _ = Ending.left

-- What an answer of the application says of the way that it ended.
answered :
    (w : Watched) (o : Ending) (sent : List Text)
    → w.ending ≡ o
    → answer_of w ≡ Answer.ended (Ending.finished sent)
    → (w.body_too_large ≡ false) × (w.ending ≡ Ending.finished sent)
answered w (Ending.finished s) sent q h = elim (Bool-cases w.body_too_large) [
  | inr e ↦
      let same : Answer.ended (Ending.finished s) ≡ Answer.ended (Ending.finished sent) =
        rw (q, e) at h in
      (e, q ∙ ap ending_of same)
  | inl e ↦ let bad : Answer.too_large ≡ Answer.ended (Ending.finished sent) = rw (q, e) at h in cc
]
answered w Ending.left sent q h =
    let bad : Answer.too_large ≡ Answer.ended (Ending.finished sent) = rw q at h in cc
answered w Ending.crashed sent q h =
    let bad : Answer.ended Ending.crashed ≡ Answer.ended (Ending.finished sent) = rw q at h in
    absurd (false≢true (sym (ap is_crash bad)))

-- Where a guarded request gets an answer of the application, whatever the application does with the guard's
-- exception: the request is authenticated and declares no length over the limit; the application gives
-- this answer also without the guard; and the bodies that it then asks for are within the limit
-- together.
pub call-received :
    (app : App) (limit : ℕ) (scope : Scope) (authenticated : Bool) (chunks : List ℕ)
    (sent : List Text)
    → guards scope ≡ true
    → call app limit scope authenticated chunks ≡ Answer.ended (Ending.finished sent)
    → (authenticated ≡ true)
      × (declares_too_much limit scope.content_length ≡ false)
      × (run_app app chunks ≡ Ending.finished sent)
      × (asked app chunks ≤ limit)
unfolding call
call-received app limit scope false chunks sent g h =
    let bad : Answer.unauthenticated ≡ Answer.ended (Ending.finished sent) = rw g at h in cc
call-received app limit scope true chunks sent g h =
    elim (Bool-cases (declares_too_much limit scope.content_length)) [
      | inl d ↦
          let bad : Answer.too_large ≡ Answer.ended (Ending.finished sent) = rw (g, d) at h in cc
      | inr d ↦
          let w = watch app limit false 0 chunks in
          let a : answer_of w ≡ Answer.ended (Ending.finished sent) = rw (g, d) at h in
          let (within, end) = answered w w.ending sent refl a in
          let (same, fits) = watch-asked app limit 0 chunks (omega arith) within in
          (refl, d, sym same ∙ end, omega (arith, fits))
    ]

-- An authenticated request that declares no length over the limit and whose whole body is within it
-- gets the answer that the application gives without the guard.
pub call-transparent :
    (app : App) (limit : ℕ) (scope : Scope) (chunks : List ℕ)
    → guards scope ≡ true
    → declares_too_much limit scope.content_length ≡ false
    → body_size chunks ≤ limit
    → call app limit scope true chunks ≡ plain_answer (run_app app chunks)
unfolding call
call-transparent app limit scope chunks g d h =
    rw (g, d) (watch-within app limit 0 chunks (omega arith))
