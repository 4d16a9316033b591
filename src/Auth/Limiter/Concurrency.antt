-- ===== src/Auth/Limiter/Concurrency.antt =====
-- Login attempts that overlap in time: the `with` blocks of backend/app/routers/auth.py as steps that
-- interleave.
use home_trap.Prelude.{
  ℕ, ◌≡◌, ◌≤◌, ◌+◌, refl, ap, ◌∙◌, inl, inr, false, not, ◌&&◌, List, [], ◌∷◌, ◌++◌, Text, text_eq,
  text_eq→eq, text_eq_refl, arith, length, if◌then◌else◌, Bool-cases, and-true,
}
use home_trap.Prelude.Int.{pos, ◌+ℤ◌, leb_ℤ, int_laws}
use home_trap.Auth.Limiter.{
  LoginRateLimiter, write, expire, try_acquire, complete_pending, record_failure, clear,
  LoginAttemptReservation, reserve, is_open, fail_attempt, clear_attempt, exit_attempt, new_limiter,
}

-- The limiter and the reservations inside their `with` blocks.
pub record System : Type 0 where
  pub limiter : LoginRateLimiter
  pub running : List LoginAttemptReservation

-- Whether a reservation is a pending attempt of a client, as 1 or 0.
unfoldable pub one : Text → LoginAttemptReservation → ℕ
one k r = if is_open r && text_eq k r.client_ip then 1 else 0

-- The pending attempts of a client.
unfoldable pub count : Text → List LoginAttemptReservation → ℕ
unfolding one
count k [] = 0
count k (r ∷ rs) = one k r + count k rs

pub data Step (s : System) : System → Type 0 where
  enter :
      (client_ip : Text) (now : ℕ)
      → Step s (record {
        limiter = (reserve s.limiter client_ip now).1;
        running = (reserve s.limiter client_ip now).0 ∷ s.running;
      })
  fail :
      (before after : List LoginAttemptReservation) (r : LoginAttemptReservation) (now : ℕ)
      → s.running ≡ before ++ r ∷ after
      → Step s (record {
        limiter = (fail_attempt r s.limiter now).1;
        running = before ++ (fail_attempt r s.limiter now).0 ∷ after;
      })
  succeed :
      (before after : List LoginAttemptReservation) (r : LoginAttemptReservation)
      → s.running ≡ before ++ r ∷ after
      → Step s (record {
        limiter = (clear_attempt r s.limiter).1;
        running = before ++ (clear_attempt r s.limiter).0 ∷ after;
      })
  leave :
      (before after : List LoginAttemptReservation) (r : LoginAttemptReservation)
      → s.running ≡ before ++ r ∷ after
      → Step s (record { limiter = exit_attempt r s.limiter; running = before ++ after })

-- Any interleaving of steps, from a new limiter.
pub data Run (limit window_seconds : ℕ) : System → Type 0 where
  start :
      Run limit window_seconds (record { limiter = new_limiter limit window_seconds; running = [] })
  next : {s s' : System} → Run limit window_seconds s → Step s s' → Run limit window_seconds s'

-- What the limiter holds of a client that has n pending attempts.
pub record Holds (limiter : LoginRateLimiter) (k : Text) (n : ℕ) : Type 0 where
  pub pending : limiter.pending k ≡ pos n
  pub limited : length (limiter.failures k) + n ≤ limiter.limit

abbrev pub IsLimited : System → Type 0
IsLimited s = (k : Text) → Holds s.limiter k (count k s.running)

count-append :
    (k : Text) (xs ys : List LoginAttemptReservation) → count k (xs ++ ys) ≡ count k xs + count k ys
unfolding count
count-append k [] ys = omega arith
count-append k (x ∷ xs) ys = let ih = count-append k xs ys in omega arith

expire_le : (w now : ℕ) (xs : List ℕ) → length (expire w now xs) ≤ length xs
unfolding expire
expire_le w now [] = omega arith
expire_le w now (x ∷ xs) = let ih = expire_le w now xs in ground arith

room_for :
    (limit used n : ℕ) → leb_ℤ (pos limit) (pos used +ℤ pos n) ≡ false → used + (1 + n) ≤ limit
unfolding ◌+ℤ◌
room_for limit used n h = ground arith

-- A reserved attempt counts once more, and only where there is room.
acquire_own :
    (l : LoginRateLimiter) (now : ℕ) (k : Text) (n : ℕ)
    → Holds l k n
    → Holds (reserve l k now).1 k (one k (reserve l k now).0 + n)
unfolding reserve try_acquire write one
acquire_own l now k n h =
    let shrunk = expire_le l.window_seconds now (l.failures k) in
    let e = text_eq_refl k in
    let p = h.pending in
    let room = h.limited in
    let z : n ≡ 0 + n = omega arith in
    elim (Bool-cases (
      leb_ℤ (pos l.limit)
        (pos (length (expire l.window_seconds now (l.failures k))) +ℤ l.pending k))) [
          | inl t ↦ rw t (record { pending = p ∙ ap pos z; limited = rw e (omega arith) })
          | inr t ↦
              rw (t, e)
                (record {
                  pending = rw e (rw p (omega int_laws));
                  limited =
                      let t' = rw p at t in
                      rw e (
                        room_for l.limit (length (expire l.window_seconds now (l.failures k))) n
                          t');
                })
        ]

acquire_other :
    (l : LoginRateLimiter) (c : Text) (now : ℕ) (k : Text) (n : ℕ)
    → text_eq k c ≡ false
    → Holds l k n
    → Holds (reserve l c now).1 k (one k (reserve l c now).0 + n)
unfolding reserve try_acquire write one
acquire_other l c now k n e h =
    let p = h.pending in
    let room = h.limited in
    let z : n ≡ 0 + n = omega arith in
    elim (Bool-cases (
      leb_ℤ (pos l.limit)
        (pos (length (expire l.window_seconds now (l.failures c))) +ℤ l.pending c))) [
          | inl t ↦ rw t (record { pending = p ∙ ap pos z; limited = rw e (omega arith) })
          | inr t ↦
              rw (t, e) (record { pending = rw e (p ∙ ap pos z); limited = rw e (omega arith) })
        ]

reserve-Holds :
    (l : LoginRateLimiter) (c : Text) (now : ℕ) (k : Text) (n : ℕ)
    → Holds l k n
    → Holds (reserve l c now).1 k (one k (reserve l c now).0 + n)
reserve-Holds l c now k n h = elim (Bool-cases (text_eq k c)) [
  | inl e ↦ let p : k ≡ c = text_eq→eq k c e in rw (← p) (acquire_own l now k n h)
  | inr e ↦ acquire_other l c now k n e h
]

-- A completed attempt of the client stops counting, with at most one more failure.
complete_pending-Holds :
    (l : LoginRateLimiter) (k c : Text) (n : ℕ)
    → Holds l k ((if text_eq k c then 1 else 0) + n)
    → (complete_pending l c).pending k ≡ pos n
unfolding complete_pending write
complete_pending-Holds l k c n h = elim (Bool-cases (text_eq k c)) [
  | inl e ↦
      let p : k ≡ c = text_eq→eq k c e in
      let q = rw e at h.pending in rw e (rw (← p) (rw q (omega int_laws)))
  | inr e ↦ let q = rw e at h.pending in rw e (q ∙ ap pos (omega arith))
]

-- Leaving the block gives the reservation back, if it has not been completed.
exit-Holds :
    (r : LoginAttemptReservation) (l : LoginRateLimiter) (k : Text) (n : ℕ)
    → Holds l k (one k r + n)
    → Holds (exit_attempt r l) k n
unfolding exit_attempt one complete_pending
exit-Holds r l k n h = elim (Bool-cases (is_open r)) [
  | inl e ↦
      let h' = rw e at h in
      let bound = h'.limited in
      rw e (record { pending = complete_pending-Holds l k r.client_ip n h'; limited = omega arith })
  | inr e ↦
      let h' = rw e at h in
      let bound = h'.limited in
      rw e (record { pending = h'.pending ∙ ap pos (omega arith); limited = omega arith })
]

length-append_one : (x : ℕ) (xs : List ℕ) → length (xs ++ x ∷ []) ≡ 1 + length xs
length-append_one x [] = omega arith
length-append_one x (y ∷ ys) = let ih = length-append_one x ys in omega arith

-- A failure takes the place of the pending attempt,
fail-Holds :
    (r : LoginAttemptReservation) (l : LoginRateLimiter) (now : ℕ) (k : Text) (n : ℕ)
    → Holds l k (one k r + n)
    → Holds (fail_attempt r l now).1 k (one k (fail_attempt r l now).0 + n)
unfolding fail_attempt one record_failure complete_pending write
fail-Holds r l now k n h = elim (Bool-cases (is_open r)) [
  | inl e ↦
      let h' = rw e at h in
      let bound = h'.limited in
      let more = length-append_one now (l.failures r.client_ip) in
      let (acquired, _) = and-true r.acquired (not r.completed) e in
      rw (e, acquired)
        (record {
          pending = complete_pending-Holds l k r.client_ip n h' ∙ ap pos (omega arith);
          limited = elim (Bool-cases (text_eq k r.client_ip)) [
            | inl s ↦
                let q : k ≡ r.client_ip = text_eq→eq k r.client_ip s in
                let bound' = rw (s, q) at bound in rw s (omega arith)
            | inr s ↦ let bound' = rw s at bound in rw s (omega arith)
          ];
        })
  | inr e ↦ rw e h
]

-- and a success forgets the failures.
clear-Holds :
    (r : LoginAttemptReservation) (l : LoginRateLimiter) (k : Text) (n : ℕ)
    → Holds l k (one k r + n)
    → Holds (clear_attempt r l).1 k (one k (clear_attempt r l).0 + n)
unfolding clear_attempt one clear complete_pending write
clear-Holds r l k n h = elim (Bool-cases (is_open r)) [
  | inl e ↦
      let h' = rw e at h in
      let bound = h'.limited in
      let (acquired, _) = and-true r.acquired (not r.completed) e in
      rw (e, acquired)
        (record {
          pending = complete_pending-Holds l k r.client_ip n h' ∙ ap pos (omega arith);
          limited = elim (Bool-cases (text_eq k r.client_ip)) [
            | inl s ↦ let bound' = rw s at bound in rw s (omega arith)
            | inr s ↦ let bound' = rw s at bound in rw s (omega arith)
          ];
        })
  | inr e ↦ rw e h
]

-- One reservation of the running ones is picked out of the count.
count_picked :
    (k : Text) (before after : List LoginAttemptReservation) (r : LoginAttemptReservation)
    → count k (before ++ r ∷ after) ≡ one k r + count k (before ++ after)
unfolding count
count_picked k before after r =
    let a = count-append k before (r ∷ after) in let b = count-append k before after in omega arith

Step-IsLimited : (s s' : System) → Step s s' → IsLimited s → IsLimited s'
unfolding count
Step-IsLimited s _ (Step.enter client_ip now) h k =
    reserve-Holds s.limiter client_ip now k (count k s.running) (h k)
Step-IsLimited s _ (Step.fail before after r now e) h k =
    rw (count_picked k before after (fail_attempt r s.limiter now).0) (
      fail-Holds r s.limiter now k (count k (before ++ after))
        (rw (e, count_picked k before after r) at (h k)))
Step-IsLimited s _ (Step.succeed before after r e) h k =
    rw (count_picked k before after (clear_attempt r s.limiter).0) (
      clear-Holds r s.limiter k (count k (before ++ after))
        (rw (e, count_picked k before after r) at (h k)))
Step-IsLimited s _ (Step.leave before after r e) h k =
    exit-Holds r s.limiter k (count k (before ++ after))
      (rw (e, count_picked k before after r) at (h k))

-- Whatever login attempts run in whatever interleaving from a new limiter: the pending count of each
-- client is the number of its attempts in progress, and these with the failures kept never exceed
-- the limit.
pub Run-IsLimited :
    {limit window_seconds : ℕ} {s : System} → Run limit window_seconds s → IsLimited s
unfolding count new_limiter
Run-IsLimited Run.start k = record { pending = refl; limited = omega arith }
Run-IsLimited (Run.next {s} {s'} r step) k = Step-IsLimited s s' step (Run-IsLimited r) k
