-- ===== src/Auth/Limiter.antt =====
-- `LoginRateLimiter` and `LoginAttemptReservation` of backend/app/auth.py. Times are moments of one
-- clock; the two `defaultdict`s are functions of the client's address, where a missing key has the
-- default's value. Each method runs under the limiter's lock, so a call is one step.
pub mod Window
pub mod Concurrency
use home_trap.Prelude.{
  ℕ, ◌+◌, ◌-◌, ◌≡◌, Bool, true, false, not, ◌&&◌, List, [], ◌∷◌, ◌++◌, Text, text_eq, ltb, leb,
  length, if◌then◌else◌,
}
use home_trap.Prelude.Int.{ℤ, pos, ◌+ℤ◌, ◌-ℤ◌, leb_ℤ}

pub record LoginRateLimiter : Type 0 where
  pub limit : ℕ
  pub window_seconds : ℕ
  pub failures : Text → List ℕ
  pub pending : Text → ℤ

-- `d[key] = value`
unfoldable pub write : {A : Type 0} → (Text → A) → Text → A → Text → A
write d key value k = if text_eq k key then value else d k

-- `LoginRateLimiter(limit, window_seconds)`
unfoldable pub new_limiter : ℕ → ℕ → LoginRateLimiter
new_limiter limit window_seconds = record {
  limit = limit;
  window_seconds = window_seconds;
  failures = λ _. [];
  pending = λ _. pos 0;
}

-- `while failures and failures[0] <= cutoff: failures.popleft()`, where the cutoff lies a window
-- before now, so that both sides are moved by the window.
unfoldable pub expire : ℕ → ℕ → List ℕ → List ℕ
expire window_seconds now [] = []
expire window_seconds now (failure ∷ failures) =
    let rest = expire window_seconds now failures in
    if leb (failure + window_seconds) now then rest else failure ∷ failures

unfoldable pub try_acquire : LoginRateLimiter → Text → ℕ → Bool × LoginRateLimiter
unfolding expire write ◌+ℤ◌
try_acquire limiter client_ip now =
    let failures = expire limiter.window_seconds now (limiter.failures client_ip) in
    let kept = record limiter { failures = write limiter.failures client_ip failures } in
    if leb_ℤ (pos limiter.limit) (pos (length failures) +ℤ limiter.pending client_ip)
    then (false, kept)
    else (
      true,
      record kept {
        pending = write limiter.pending client_ip (limiter.pending client_ip +ℤ pos 1);
      },
    )

-- `_complete_pending`: a count that reaches 0 is removed, which leaves the default 0.
unfoldable pub complete_pending : LoginRateLimiter → Text → LoginRateLimiter
unfolding write ◌-ℤ◌
complete_pending limiter client_ip = record limiter {
  pending = write limiter.pending client_ip (limiter.pending client_ip -ℤ pos 1);
}

-- `LoginRateLimiter.record_failure`
unfoldable pub record_failure : LoginRateLimiter → Text → ℕ → LoginRateLimiter
unfolding complete_pending write
record_failure limiter client_ip now =
    let completed = complete_pending limiter client_ip in
    record completed {
      failures = write completed.failures client_ip (completed.failures client_ip ++ now ∷ []);
    }

-- `LoginRateLimiter.clear`
unfoldable pub clear : LoginRateLimiter → Text → LoginRateLimiter
unfolding complete_pending write
clear limiter client_ip =
    let completed = complete_pending limiter client_ip in
    record completed { failures = write completed.failures client_ip [] }

pub record LoginAttemptReservation : Type 0 where
  pub client_ip : Text
  pub acquired : Bool
  pub completed : Bool

-- `LoginRateLimiter.reserve` with `LoginAttemptReservation.__init__`
unfoldable pub reserve : LoginRateLimiter → Text → ℕ → LoginAttemptReservation × LoginRateLimiter
unfolding try_acquire
reserve limiter client_ip now =
    let (acquired, limiter') = try_acquire limiter client_ip now in
    (record { client_ip = client_ip; acquired = acquired; completed = false }, limiter')

-- `self.acquired and not self._completed`
abbrev pub is_open : LoginAttemptReservation → Bool
is_open r = r.acquired && not r.completed

-- `LoginAttemptReservation.record_failure`
unfoldable pub fail_attempt :
    LoginAttemptReservation → LoginRateLimiter → ℕ → LoginAttemptReservation × LoginRateLimiter
unfolding record_failure
fail_attempt r limiter now =
    if is_open r
    then (record r { completed = true }, record_failure limiter r.client_ip now)
    else (r, limiter)

-- `LoginAttemptReservation.clear`
unfoldable pub clear_attempt :
    LoginAttemptReservation → LoginRateLimiter → LoginAttemptReservation × LoginRateLimiter
unfolding clear
clear_attempt r limiter =
    if is_open r then (record r { completed = true }, clear limiter r.client_ip) else (r, limiter)

-- `LoginAttemptReservation.__exit__`
unfoldable pub exit_attempt : LoginAttemptReservation → LoginRateLimiter → LoginRateLimiter
unfolding complete_pending
exit_attempt r limiter = if is_open r then complete_pending limiter r.client_ip else limiter
