-- ===== src/Notifications/Overdue.antt =====
-- The messages on readings and on overdue invoices, in backend/app/services/notify.py, sent twice on one
-- day, and the whole daily run.
use home_trap.Prelude.{
  ℕ, ◌+◌, ◌≡◌, refl, sym, ◌∙◌, inl, inr, true, Option, none, some, List, [], ◌∷◌, ltb, ◌==◌, eq→==,
  All, arith, Bool-cases,
}
use mathlib.Core.Bool.{false≢true}
use home_trap.Calendar.{Date}
use home_trap.Calendar.Order.{date_eq_refl}
use home_trap.Models.{Invoice, Db}
use home_trap.Notifications.{
  Message, Sender, send_notification, merge_result, HistoryKey, key_eq, History, last_delivery,
  set_delivery, NotificationSettings,
}
use home_trap.Notifications.Daily.{
  Told, tell, told_today, no_names, active_names, tell_readings, due_age, tell_overdue,
  tell_all_overdue,
}

key_eq_refl : (k : HistoryKey) → key_eq k k ≡ true
key_eq_refl HistoryKey.readings = refl
key_eq_refl (HistoryKey.overdue i) = eq→== i i refl
key_eq_refl (HistoryKey.billing i d) = rw (eq→== i i refl, date_eq_refl d) refl
key_eq_refl (HistoryKey.billing_draft i d) = rw (eq→== i i refl, date_eq_refl d) refl

-- What is set today has been told today, and what had been told stays told.
told-set_delivery :
    (k : HistoryKey) (today : Date) (h : History)
    → told_today k today (set_delivery k today h) ≡ true
unfolding told_today last_delivery set_delivery
told-set_delivery k today [] = rw (key_eq_refl k, date_eq_refl today) refl
told-set_delivery k today ((j, d) ∷ h) = elim (Bool-cases (key_eq j k)) [
  | inl e ↦ rw (e, e, date_eq_refl today) refl
  | inr e ↦ rw (e, e) (told-set_delivery k today h)
]

still_told :
    (k j : HistoryKey) (today : Date) (h : History)
    → told_today k today h ≡ true
    → told_today k today (set_delivery j today h) ≡ true
unfolding told_today last_delivery set_delivery
still_told k j today [] t = cc
still_told k j today ((i, d) ∷ h) t = elim (Bool-cases (key_eq i j)) [
  | inl e ↦ rw e (elim (Bool-cases (key_eq i k)) [
    | inl f ↦ rw (f, date_eq_refl today) refl
    | inr f ↦ rw f (rw f at t)
  ])
  | inr e ↦ rw e (elim (Bool-cases (key_eq i k)) [
    | inl f ↦ rw f (rw f at t)
    | inr f ↦ rw f (still_told k j today h (rw f at t))
  ])
]

-- Every message is delivered by some sender.
abbrev pub Reaches : List Sender → Type 0
Reaches ss = (m : Message) → ltb 0 (send_notification ss m).deliveries ≡ true

more_deliveries : (r d : ℕ) → ltb 0 d ≡ true → ltb r (r + d) ≡ true
more_deliveries r d h = ground arith

module _ (ss : List Sender) (reaches : Reaches ss) (today : Date) where
  tell-told :
      (k : HistoryKey) (m : Message) (t : Told) → told_today k today (tell ss today k m t).1 ≡ true
  unfolding tell merge_result
  tell-told k m (r, h) =
      rw (more_deliveries r.deliveries (send_notification ss m).deliveries (reaches m))
        (told-set_delivery k today h)

  tell-stays :
      (k j : HistoryKey) (m : Message) (t : Told)
      → told_today k today t.1 ≡ true
      → told_today k today (tell ss today j m t).1 ≡ true
  unfolding tell merge_result
  tell-stays k j m (r, h) e =
      rw (more_deliveries r.deliveries (send_notification ss m).deliveries (reaches m))
        (still_told k j today h e)

  overdue-stays :
      (k : HistoryKey) (i : Invoice) (o : Option ℕ) (t : Told)
      → told_today k today t.1 ≡ true
      → told_today k today (tell_overdue ss today i o t).1 ≡ true
  overdue-stays k i none t e = e
  overdue-stays k i (some age) t e =
      elim (Bool-cases (told_today (HistoryKey.overdue i.id) today t.1)) [
        | inl f ↦ rw f e
        | inr f ↦ rw f (tell-stays k (HistoryKey.overdue i.id) _ t e)
      ]

  pub all_overdue-stays :
      (settings : NotificationSettings) (k : HistoryKey) (is : List Invoice) (t : Told)
      → told_today k today t.1 ≡ true
      → told_today k today (tell_all_overdue ss today settings is t).1 ≡ true
  unfolding tell_all_overdue
  all_overdue-stays settings k [] t e = e
  all_overdue-stays settings k (i ∷ is) t e =
      all_overdue-stays settings k is _ (overdue-stays k i (due_age today settings i.issued_at) t e)

  told_overdue :
      (i : Invoice) (age : ℕ) (t : Told)
      → told_today (HistoryKey.overdue i.id) today (tell_overdue ss today i (some age) t).1 ≡ true
  told_overdue i age t = elim (Bool-cases (told_today (HistoryKey.overdue i.id) today t.1)) [
    | inl f ↦ rw (f, f) refl
    | inr f ↦ rw f (tell-told (HistoryKey.overdue i.id) _ t)
  ]

  -- An invoice that needs no message any more.
  abbrev IsQuiet : NotificationSettings → Told → Invoice → Type 0
  IsQuiet settings t i =
      (age : ℕ)
      → due_age today settings i.issued_at ≡ some age
      → told_today (HistoryKey.overdue i.id) today t.1 ≡ true

  overdue-IsQuiet :
      (settings : NotificationSettings) (is : List Invoice) (t : Told)
      → All (IsQuiet settings (tell_all_overdue ss today settings is t)) is
  unfolding tell_all_overdue
  overdue-IsQuiet settings [] t = tt
  overdue-IsQuiet settings (i ∷ is) t = (
    λ age e.
        all_overdue-stays settings (HistoryKey.overdue i.id) is _ (rw e (told_overdue i age t)),
    overdue-IsQuiet settings is _,
  )

  quiet_one :
      (i : Invoice) (o : Option ℕ) (t : Told)
      → ((age : ℕ) → o ≡ some age → told_today (HistoryKey.overdue i.id) today t.1 ≡ true)
      → tell_overdue ss today i o t ≡ t
  quiet_one i none t q = refl
  quiet_one i (some age) t q = rw (q age refl) refl

  quiet_each :
      (settings : NotificationSettings) (is : List Invoice) (t : Told)
      → All (IsQuiet settings t) is
      → tell_all_overdue ss today settings is t ≡ t
  unfolding tell_all_overdue
  quiet_each settings [] t q = refl
  quiet_each settings (i ∷ is) t (q, qs) =
      rw (quiet_one i (due_age today settings i.issued_at) t q) (quiet_each settings is t qs)

  pub all_overdue_again :
      (settings : NotificationSettings) (is : List Invoice) (t : Told)
      → tell_all_overdue ss today settings is (tell_all_overdue ss today settings is t)
        ≡ tell_all_overdue ss today settings is t
  all_overdue_again settings is t = quiet_each settings is _ (overdue-IsQuiet settings is t)

  -- After the message on readings, if there was one to send, nothing more is sent of it.
  pub readings_again :
      (settings : NotificationSettings) (db : Db) (t u : Told)
      → (told_today HistoryKey.readings today (tell_readings ss today settings db t).1 ≡ true
          → told_today HistoryKey.readings today u.1 ≡ true)
      → tell_readings ss today settings db u ≡ u
  unfolding tell_readings
  readings_again settings db t u stays = elim (Bool-cases (today.day == settings.readings_day)) [
    | inr a ↦ rw a refl
    | inl a ↦ rw a (elim (Bool-cases (told_today HistoryKey.readings today u.1)) [
      | inl b ↦ rw b refl
      | inr b ↦ rw b (elim (Bool-cases (no_names (active_names db))) [
        | inl c ↦ rw c refl
        | inr c ↦
            let told : told_today HistoryKey.readings today (tell_readings ss today settings db t).1
                ≡ true =
              rw (a, c)
                (elim (Bool-cases (told_today HistoryKey.readings today t.1)) [
                  | inl f ↦ rw (f, f) refl
                  | inr f ↦ rw f (tell-told HistoryKey.readings _ t)
                ]) in
            absurd (false≢true (sym b ∙ stays told))
      ])
    ])
  ]
