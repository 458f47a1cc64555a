-- ===== src/Notifications/Steps.antt =====
-- app/services/notifications.py: each round of a dispatch has one of the effects of Notifications.Effects.
use brasil_lens_backend.Common.{
  ℕ, subst, ◌+◌, ◌-◌, ◌*◌, ◌⊎◌, ◌<◌, ◌≡◌, true, not, ◌||◌, Option, none, some, String, string_eq,
  option_eq, nat_eq, List, [], ◌∷◌, ◌==◌, if◌then◌else◌, arith, Option-cases, Bool-cases, inl, inr,
}
use brasil_lens_backend.Errors.{Result, ok, raise, DomainError, is_provider_error}
use brasil_lens_backend.Cache.{second}
use brasil_lens_backend.Notifications.{
  PushDelivery, Store, Pending, next_pending, save, remove_expired_subscription, Outcome, finished,
  delivered, dropped, failed, halted, crashed, Round, Eligible, is_eligible, after_failure, attempt,
  round, backoff, time_to_live, version, details_of, message_of, status_in,
}
use brasil_lens_backend.Notifications.Queue.{
  In, IsTaken, waiting, pending_row-waiting, next_pending-IsTaken,
}
use brasil_lens_backend.Notifications.Effects.{
  Effect, crashing, cancelling, delivering, dropping, failing, halting,
}

module _ (digest : String → String → Option String → List String → List String → String) where
  pub attempt-Effect :
      (s : Store) (eligible : Eligible) (r : Round) (p : Pending)
      → p.delivery.attempts < 5
      → Effect s p.delivery (attempt digest s eligible r p)
  unfolding attempt after_failure
  attempt-Effect s eligible r p lt =
      let d = p.delivery in
      elim (Bool-cases (
        not (p.event.alert_version == version digest p.alert)
        || not (is_eligible eligible p.event))) [
          | inl a ↦ rw (a, attempt) (cancelling r.now)
          | inr a ↦ elim (Bool-cases (time_to_live p.alert.expires r.now == 0)) [
            | inl b ↦ rw (a, b, attempt) (cancelling r.now)
            | inr b ↦ rw (a, b, attempt) (answered r.answer)
          ]
        ]
    where
      failure :
          (e : DomainError)
          → Effect s p.delivery (
              let tried : PushDelivery = record p.delivery { attempts = p.delivery.attempts + 1 } in
              let (saved, stop) = after_failure tried r.now e in
              (save s saved, if stop then halted p.delivery else failed p.delivery))
      failure e =
          let details = details_of e in
          let attempts : ℕ =
            if status_in (400 ∷ []) details.status then 5 else p.delivery.attempts + 1 in
          let next = r.now + backoff (p.delivery.attempts + 1) * second in
          elim (Bool-cases
            (status_in (401 ∷ 403 ∷ 429 ∷ []) details.status || details.configuration)) [
              | inl c ↦ rw c (
                  halting (message_of e) next (attempts - 1) (ground (arith, lt))
                    (ground (arith, lt)))
              | inr c ↦
                  rw c
                    (failing (message_of e) next attempts (ground (arith, lt)) (ground (arith, lt)))
            ]

      answered :
          (a : Result (Unit {0}))
          → Effect s p.delivery (
              let d = p.delivery in
              let tried : PushDelivery = record d { attempts = d.attempts + 1 } in
              elim a as (λ x. Store × Outcome) [
                | ok _ ↦
                    (save s (record tried { sent_at = some r.now; last_error = none }), delivered d)
                | raise e ↦
                    if not (is_provider_error e)
                    then (s, crashed e)
                    else if status_in (404 ∷ 410 ∷ []) (details_of e).status
                    then (remove_expired_subscription (save s tried) p.subscription.id, dropped d)
                    else let (saved, stop) = after_failure tried r.now e in
                      (save s saved, if stop then halted d else failed d)
              ])
      answered (ok _) = delivering r.now
      answered (raise e) = elim (Bool-cases (not (is_provider_error e))) [
        | inl a ↦ rw a (crashing e)
        | inr a ↦ elim (Bool-cases (status_in (404 ∷ 410 ∷ []) (details_of e).status)) [
          | inl b ↦ rw (a, b) (dropping p.subscription.id)
          | inr b ↦ rw (a, b) (failure e)
        ]
      ]

  -- A round that takes a delivery takes a waiting one of the table; any other changes nothing.
  pub round-Effect :
      (s : Store) (eligible : Eligible) (r : Round)
      → (round digest s eligible r ≡ (s, finished))
        ⊎ ((p : Pending) × In p.delivery s.deliveries
            × (waiting r.database_now p.delivery ≡ true)
            × Effect s p.delivery (round digest s eligible r))
  unfolding round
  round-Effect s eligible r = elim (Bool-cases r.lock_dispatch) [
    | inl a ↦ elim (Option-cases (next_pending s r.database_now)) [
      | inl b ↦ inl (rw (a, b, round))
      | inr (p, b) ↦
          taken p a b (
            subst (IsTaken s r.database_now s.deliveries) b (next_pending-IsTaken s r.database_now))
    ]
    | inr a ↦ inl (rw (a, round))
  ]
    where
      taken :
          (p : Pending)
          → r.lock_dispatch ≡ true
          → next_pending s r.database_now ≡ some p
          → IsTaken s r.database_now s.deliveries (some p)
          → (round digest s eligible r ≡ (s, finished))
            ⊎ ((p : Pending) × In p.delivery s.deliveries
                × (waiting r.database_now p.delivery ≡ true)
                × Effect s p.delivery (round digest s eligible r))
      taken p a b first =
          let wait = pending_row-waiting s r.database_now p.delivery p first.1 in
          inr (
            p,
            first.0,
            wait,
            rw (a, b, round) (attempt-Effect s eligible r p (ground (arith, wait))),
          )
