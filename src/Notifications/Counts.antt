-- ===== src/Notifications/Counts.antt =====
-- The counts of a run of backend/app/services/notify.py.
use home_trap.Prelude.{
  ℕ, ◌+◌, ◌*◌, ◌≡◌, refl, ◌∙◌, Option, none, some, List, [], ◌∷◌, ◌++◌, Text, length, arith,
}
use native.Mathlib.Nat.{mul_comm, mul-add}
use home_trap.Notifications.{
  Message, Sender, NotificationResult, no_result, deliver, send_to, send_notification, merge_result,
}

-- Each notification has gone to each of so many senders, and was delivered or has an error.
unfoldable pub IsCounted : ℕ → NotificationResult → Type 0
IsCounted n r = r.deliveries + length r.errors ≡ r.notifications * n

length-append_one : {A : Type 0} (xs : List A) (x : A) → length (xs ++ x ∷ []) ≡ length xs + 1
length-append_one [] x = refl
length-append_one (y ∷ xs) x = let ih = length-append_one xs x in omega arith

length-append : {A : Type 0} (xs ys : List A) → length (xs ++ ys) ≡ length xs + length ys
length-append [] ys = omega arith
length-append (x ∷ xs) ys = let ih = length-append xs ys in omega arith

-- One message to some of the senders.
Sent : List Sender → NotificationResult → NotificationResult → Type 0
Sent ss r r' =
    (r'.deliveries + length r'.errors ≡ r.deliveries + length r.errors + length ss)
    × (r'.notifications ≡ r.notifications)

sent_one :
    (s : Sender) (o : Option Text) (r : NotificationResult)
    → (deliver s o r).deliveries + length (deliver s o r).errors
      ≡ r.deliveries + length r.errors + 1
sent_one s none r = omega arith
sent_one s (some e) r = rw (length-append_one r.errors (s.name, e)) (omega arith)

deliver-notifications :
    (s : Sender) (o : Option Text) (r : NotificationResult)
    → (deliver s o r).notifications ≡ r.notifications
deliver-notifications s none r = refl
deliver-notifications s (some e) r = refl

send_to-Sent :
    (ss : List Sender) (m : Message) (r : NotificationResult) → Sent ss r (send_to ss m r)
unfolding Sent send_to
send_to-Sent [] m r = (omega arith, refl)
send_to-Sent (s ∷ ss) m r =
    let (a, b) = send_to-Sent ss m (deliver s (s.raised m) r) in
    let c = sent_one s (s.raised m) r in
    (let a' = a in let c' = c in omega arith, b ∙ deliver-notifications s (s.raised m) r)

pub send_notification-IsCounted :
    (ss : List Sender) (m : Message) → IsCounted (length ss) (send_notification ss m)
unfolding IsCounted send_notification Sent
send_notification-IsCounted ss m =
    let (a, b) = send_to-Sent ss m (record no_result { notifications = 1 }) in
    rw b (let a' = a in omega arith)

pub merge_result-IsCounted :
    (n : ℕ) (r r' : NotificationResult)
    → IsCounted n r
    → IsCounted n r'
    → IsCounted n (merge_result r r')
unfolding IsCounted merge_result
merge_result-IsCounted n r r' h k = rw (length-append r.errors r'.errors) (
    let h' = h in
    let k' = k in
    rw (mul_comm (r.notifications + r'.notifications) n, mul-add n r.notifications r'.notifications)
      (rw (mul_comm n r.notifications, mul_comm n r'.notifications) (omega arith)))
