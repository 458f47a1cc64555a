-- ===== src/Notifications/Outcomes.antt =====
-- What a dispatch returns, and how it ends.
use brasil_lens_backend.Common.{
  ℕ, ap, ◌∙◌, zero, suc, ◌+◌, ◌-◌, ◌*◌, ◌≤◌, ◌<◌, ◌≡◌, ◌⊎◌, refl, true, false, not, ◌&&◌, ◌||◌,
  Option, none, some, String, string_eq, option_eq, nat_eq, List, [], ◌∷◌, ◌==◌, ==_iff, any_of,
  keep, find_first, length, arith, inl, inr,
}
use brasil_lens_backend.Errors.{ok, raise, DomainError, is_provider_error, is_ok}
use brasil_lens_backend.Cache.{second}
use brasil_lens_backend.Notifications.{
  PushDelivery, PushSubscription, Store, Pending, next_pending, save, remove_subscriptions,
  remove_expired_subscription, Outcome, finished, cancelled, delivered, dropped, failed, halted,
  crashed, Round, Eligible, is_eligible, after_failure, attempt, round, rounds, backoff,
  time_to_live, version, details_of, message_of, status_in,
}
use brasil_lens_backend.Notifications.Effects.{total}
use brasil_lens_backend.Notifications.Bounds.{served}

abbrev pub is_delivered : Outcome → ℕ
is_delivered (delivered d) = 1
is_delivered _ = 0

module _ (digest : String → String → Option String → List String → List String → String) where
  -- The loop is some rounds, no more than its limit; it returns what it had counted and how many of
  -- them sent a notification, or an error left it.
  abbrev pub IsServed : ℕ → Store → Eligible → (ℕ → Round) → ℕ → Type 0
  IsServed n s eligible env sent =
      let res = rounds digest n s eligible env sent in
      (rs : List (Eligible × Round)) × (length rs ≤ n)
      × (res.0 ≡ (served digest s rs).0)
      × ((res.1 ≡ ok (sent + total is_delivered (served digest s rs).1)) ⊎ (is_ok res.1 ≡ false))

  -- A dispatch is some rounds, no more than the limit of the batch; it returns how many of them sent
  -- a notification, unless an error of another kind leaves it.
  pub rounds-IsServed :
      (n : ℕ) (s : Store) (eligible : Eligible) (env : ℕ → Round) (sent : ℕ)
      → IsServed n s eligible env sent
  unfolding rounds
  rounds-IsServed zero s eligible env sent = ([], omega arith, refl, inl (ground arith))
  rounds-IsServed (suc n) s eligible env sent =
      step (round digest s eligible (env n)).1 refl
        (λ m. rounds-IsServed n (round digest s eligible (env n)).0 eligible env m)
    where
      on :
          (k m : ℕ)
          → m ≡ sent + k
          → rounds digest (suc n) s eligible env sent
            ≡ rounds digest n (round digest s eligible (env n)).0 eligible env m
          → is_delivered (round digest s eligible (env n)).1 ≡ k
          → IsServed n (round digest s eligible (env n)).0 eligible env m
          → IsServed (suc n) s eligible env sent
      on k m plus same count (rs, le, state, inl result) = (
        (eligible, env n) ∷ rs,
        omega (arith, le),
        cc (same, state),
        inl (ap (λ x. x.1) same ∙ result ∙ ap ok (omega (arith, plus, count))),
      )
      on k m plus same count (rs, le, state, inr result) =
          ((eligible, env n) ∷ rs, omega (arith, le), cc (same, state), inr (rw same result))

      step :
          (o : Outcome)
          → (round digest s eligible (env n)).1 ≡ o
          → ((m : ℕ) → IsServed n (round digest s eligible (env n)).0 eligible env m)
          → IsServed (suc n) s eligible env sent
      step finished h ih =
          ((eligible, env n) ∷ [], omega arith, rw (h, rounds), inl (rw (h, rounds) (ground arith)))
      step (cancelled d) h ih = on 0 sent (omega arith) (rw (h, rounds)) (rw h) (ih sent)
      step (delivered d) h ih = on 1 (sent + 1) refl (rw (h, rounds)) (rw h) (ih (sent + 1))
      step (dropped d) h ih = on 0 sent (omega arith) (rw (h, rounds)) (rw h) (ih sent)
      step (failed d) h ih = on 0 sent (omega arith) (rw (h, rounds)) (rw h) (ih sent)
      step (halted d) h ih =
          ((eligible, env n) ∷ [], omega arith, rw (h, rounds), inl (rw (h, rounds) (ground arith)))
      step (crashed e) h ih =
          ((eligible, env n) ∷ [], omega arith, rw (h, rounds), inr (rw (h, rounds)))

  module _ (s : Store) (eligible : Eligible) (r : Round) (p : Pending) (e : DomainError) where
    -- A notification that is due: the alert reads as when the event was made, it is still owed, and
    -- the alert is in force for at least a second.
    abbrev pub IsDue : Type 0
    IsDue =
        (r.lock_dispatch ≡ true)
        × (next_pending s r.database_now ≡ some p)
        × ((p.event.alert_version == version digest p.alert) ≡ true)
        × (is_eligible eligible p.event ≡ true)
        × (0 < time_to_live p.alert.expires r.now)

    ttl_nonzero : IsDue → (time_to_live p.alert.expires r.now == 0) ≡ false
    ttl_nonzero due = ground (arith, due)

    is_due :
        IsDue
        → (not (p.event.alert_version == version digest p.alert)
            || not (is_eligible eligible p.event))
          ≡ false
    is_due due = rw (due.2, due.3)

    refused_attempt :
        IsDue
        → r.answer ≡ raise e
        → is_provider_error e ≡ true
        → (status_in (401 ∷ 403 ∷ 429 ∷ []) (details_of e).status || (details_of e).configuration)
          ≡ true
        → status_in (400 ∷ []) (details_of e).status ≡ false
        → status_in (404 ∷ 410 ∷ []) (details_of e).status ≡ false
        → round digest s eligible r ≡ (
          save s (record p.delivery {
            last_error = some (message_of e);
            next_attempt_at = r.now + backoff (p.delivery.attempts + 1) * second;
          }),
          halted p.delivery,
        )
    unfolding round attempt after_failure
    refused_attempt due answer provider stop other gone =
        let back : p.delivery.attempts + 1 - 1 ≡ p.delivery.attempts = omega arith in
        rw (
          due.0,
          due.1,
          is_due due,
          ttl_nonzero due,
          answer,
          provider,
          gone,
          stop,
          other,
          round,
          attempt,
          back,
        )

    rounds_halted :
        (n sent : ℕ) (env : ℕ → Round) (d : PushDelivery) (after : Store)
        → round digest s eligible (env n) ≡ (after, halted d)
        → rounds digest (suc n) s eligible env sent ≡ (after, ok sent)
    unfolding rounds
    rounds_halted n sent env d after h = rw (ap (λ x. x.1) h, rounds) (cc h)

    -- Where the push service refuses the sender (401, 403, 429, or a configuration that is invalid),
    -- the dispatch ends with what it had sent, whatever its limit; the delivery keeps the attempts it
    -- had, and waits by the number of this one.
    pub refused_sender :
        (n sent : ℕ) (env : ℕ → Round)
        → IsDue
        → env n ≡ r
        → r.answer ≡ raise e
        → is_provider_error e ≡ true
        → (status_in (401 ∷ 403 ∷ 429 ∷ []) (details_of e).status || (details_of e).configuration)
          ≡ true
        → status_in (400 ∷ 404 ∷ 410 ∷ []) (details_of e).status ≡ false
        → rounds digest (suc n) s eligible env sent ≡ (
          save s (record p.delivery {
            last_error = some (message_of e);
            next_attempt_at = r.now + backoff (p.delivery.attempts + 1) * second;
          }),
          ok sent,
        )
    refused_sender n sent env due at answer provider stop other =
        let o : status_in (400 ∷ []) (details_of e).status ≡ false = ground (arith, other) in
        let g : status_in (404 ∷ 410 ∷ []) (details_of e).status ≡ false = ground (arith, other) in
        rounds_halted n sent env p.delivery _ (rw at (refused_attempt due answer provider stop o g))

    none_left :
        (xs : List PushSubscription)
        → find_first
            (λ x. x.id == p.subscription.id)
            (keep (λ x. not (x.id == p.subscription.id)) xs)
          ≡ none
    none_left [] = refl
    none_left (x ∷ xs) = ground (arith, none_left xs)

    same_found :
        (xs : List PushSubscription) (i : ℕ)
        → any_of (λ x. x.id == p.subscription.id) xs ≡ true
        → (i == p.subscription.id) ≡ true
        → any_of (λ x. x.id == p.subscription.id && x.id == i) xs ≡ true
    same_found [] i h k = h
    same_found (x ∷ xs) i h k = ground (
      arith,
      ==_iff i p.subscription.id,
      ==_iff x.id i,
      ==_iff x.id p.subscription.id,
      same_found xs i,
    )

    rows_gone :
        (xs : List PushSubscription) (ds : List PushDelivery)
        → any_of (λ x. x.id == p.subscription.id) xs ≡ true
        → find_first
            (λ y. y.subscription_id == p.subscription.id)
            (keep
              (λ d. not (any_of (λ x. x.id == p.subscription.id && x.id == d.subscription_id) xs))
              ds)
          ≡ none
    rows_gone xs [] h = refl
    rows_gone xs (d ∷ ds) h = ground (arith, same_found xs d.subscription_id h, rows_gone xs ds h)

    -- Where the push service answers that the subscription is gone (404 or 410), the round leaves
    -- neither the subscription, if it was in the table, nor any of its deliveries.
    pub gone_subscription :
        IsDue
        → r.answer ≡ raise e
        → is_provider_error e ≡ true
        → status_in (404 ∷ 410 ∷ []) (details_of e).status ≡ true
        → any_of (λ x. x.id == p.subscription.id) s.subscriptions ≡ true
        → let after = (round digest s eligible r).0 in
          (find_first (λ x. x.id == p.subscription.id) after.subscriptions ≡ none)
          × (find_first (λ y. y.subscription_id == p.subscription.id) after.deliveries ≡ none)
    unfolding round attempt save remove_expired_subscription remove_subscriptions
    gone_subscription due answer provider gone known =
        rw (due.0, due.1, is_due due, ttl_nonzero due, answer, provider, gone, round, attempt)
          (
            none_left s.subscriptions,
            rows_gone s.subscriptions
                (save s (record p.delivery { attempts = p.delivery.attempts + 1 })).deliveries
                known,
          )
