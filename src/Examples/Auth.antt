-- ===== src/Examples/Auth.antt =====
-- Login attempts of one client with a limit of one.
use home_trap.Prelude.{◌≡◌, refl, true, false, [], ◌∷◌, Text, text, filter, arith}
use home_trap.Auth.Limiter.{
  LoginAttemptReservation, LoginRateLimiter, new_limiter, expire, reserve, try_acquire,
  fail_attempt,
}
use home_trap.Auth.Limiter.Window.{is_recent, expire-filter}
use home_trap.Auth.Limiter.Concurrency.{Step, Run, IsLimited, Run-IsLimited}

abbrev client : Text
client = text "10.0.0.1"

abbrev entered : LoginAttemptReservation × LoginRateLimiter
entered = reserve (new_limiter 1 900) client 1000

abbrev failed : LoginAttemptReservation × LoginRateLimiter
failed = fail_attempt entered.0 entered.1 1001

second_denied : (try_acquire entered.1 client 1000).0 ≡ false
unfolding reserve try_acquire new_limiter
second_denied = refl

denied_in_window : (try_acquire failed.1 client 1900).0 ≡ false
unfolding fail_attempt reserve try_acquire new_limiter
denied_in_window = refl

granted_after_window : (try_acquire failed.1 client 1901).0 ≡ true
unfolding fail_attempt reserve try_acquire new_limiter
granted_after_window = refl

one_failure : Run 1 900 (record { limiter = failed.1; running = failed.0 ∷ [] })
one_failure =
    Run.next (Run.next Run.start (Step.enter client 1000)) (Step.fail [] [] entered.0 1001 refl)

Run-IsLimited_example : IsLimited (record { limiter = failed.1; running = failed.0 ∷ [] })
Run-IsLimited_example = Run-IsLimited one_failure

expire-filter_example :
    expire 900 1950 (1000 ∷ 1049 ∷ 1051 ∷ [])
    ≡ filter (is_recent 900 1950) (1000 ∷ 1049 ∷ 1051 ∷ [])
expire-filter_example =
    expire-filter 900 1950 (1000 ∷ 1049 ∷ 1051 ∷ [])
      ((omega arith, (omega arith, tt)), ((omega arith, tt), (tt, tt)))
