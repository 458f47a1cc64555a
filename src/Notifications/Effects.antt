-- ===== src/Notifications/Effects.antt =====
-- What a round may do to a delivery, and what that costs of its attempts.
use brasil_lens_backend.Common.{
  ℕ, ◌+◌, ◌-◌, ◌≤◌, ◌<◌, ◌≡◌, refl, Bool, true, false, not, ◌&&◌, ◌||◌, none, some, String,
  string_eq, option_eq, nat_eq, List, [], ◌∷◌, ◌==◌, any_of, is_some, if◌then◌else◌, arith,
}
use brasil_lens_backend.Errors.{DomainError}
use brasil_lens_backend.Notifications.{
  PushDelivery, Store, save, remove_subscriptions, remove_expired_subscription, Outcome, cancelled,
  delivered, dropped, failed, halted, crashed,
}
use brasil_lens_backend.Notifications.Queue.{In}
use brasil_lens_backend.Notifications.Rows.{
  is_row, row, UniqueRows, UniqueRows-keep, UniqueRows-save, weight, weight-keep, weight-save,
}

-- The attempts that a delivery has left.
abbrev pub attempts_left : PushDelivery → ℕ
attempts_left d = if is_some d.sent_at || is_some d.cancelled_at then 0 else 5 - d.attempts

-- 1 until it is sent.
abbrev pub unsent : PushDelivery → ℕ
unsent d = if is_some d.sent_at then 0 else 1

abbrev pub one_if : Bool → ℕ
one_if true = 1
one_if false = 0

abbrev pub total : (Outcome → ℕ) → List Outcome → ℕ
total f [] = 0
total f (o ∷ os) = f o + total f os

-- The attempts that a round spends of a delivery: one where the push service answered, unless it
-- refused the sender, which gives the attempt back.
abbrev pub attempts_spent : ℕ → ℕ → Outcome → ℕ
attempts_spent e x (delivered d) = one_if (is_row e x d)
attempts_spent e x (dropped d) = one_if (is_row e x d)
attempts_spent e x (failed d) = one_if (is_row e x d)
attempts_spent e x _ = 0

abbrev pub sent : ℕ → ℕ → Outcome → ℕ
sent e x (delivered d) = one_if (is_row e x d)
sent e x _ = 0

-- What a round may do to a waiting delivery.
pub data Effect (s : Store) (d : PushDelivery) : Store × Outcome → Type 0 where
  crashing : (e : DomainError) → Effect s d (s, crashed e)
  cancelling : (now : ℕ) → Effect s d (save s (record d { cancelled_at = some now }), cancelled d)
  delivering :
      (now : ℕ)
      → Effect s d (
        save s (record d { attempts = d.attempts + 1; sent_at = some now; last_error = none }),
        delivered d,
      )
  dropping :
      (subscription : ℕ)
      → Effect s d (
        remove_expired_subscription (save s (record d { attempts = d.attempts + 1 })) subscription,
        dropped d,
      )
  failing :
      (message : String) (next attempts : ℕ)
      → d.attempts < attempts
      → attempts ≤ 5
      → Effect s d (
        save s
            (record d { attempts = attempts; last_error = some message; next_attempt_at = next }),
        failed d,
      )
  halting :
      (message : String) (next attempts : ℕ)
      → d.attempts ≤ attempts
      → attempts ≤ 4
      → Effect s d (
        save s
            (record d { attempts = attempts; last_error = some message; next_attempt_at = next }),
        halted d,
      )

-- No effect spends more attempts than the delivery has left.
pub Effect-attempts_spent :
    (e x : ℕ) (s : Store) (d : PushDelivery) (res : Store × Outcome)
    → UniqueRows s.deliveries
    → In d s.deliveries
    → is_some d.sent_at ≡ false
    → is_some d.cancelled_at ≡ false
    → d.attempts < 5
    → Effect s d res
    → attempts_spent e x res.1 + weight attempts_left (row e x res.0.deliveries)
      ≤ weight attempts_left (row e x s.deliveries)
unfolding remove_expired_subscription remove_subscriptions
Effect-attempts_spent e x s d _ u i f g lt (crashing _) = omega arith
Effect-attempts_spent e x s d _ u i f g lt (cancelling now) = omega (
  arith,
  weight-save attempts_left e x 0 s d (record d { cancelled_at = some now }) u i refl refl
      (ground (arith, f, g)),
)
Effect-attempts_spent e x s d _ u i f g lt (delivering now) = ground (
  arith,
  weight-save attempts_left e x 1 s d
      (record d { attempts = d.attempts + 1; sent_at = some now; last_error = none }) u i refl refl
      (ground (arith, f, g, lt)),
)
Effect-attempts_spent e x s d _ u i f g lt (dropping subscription) =
    let d' : PushDelivery = record d { attempts = d.attempts + 1 } in
    ground (
      arith,
      weight-save attempts_left e x 1 s d d' u i refl refl (ground (arith, f, g, lt)),
      weight-keep attempts_left e x
          (λ y. not (
            any_of (λ z. z.id == subscription && z.id == y.subscription_id)
              (save s d').subscriptions))
          (save s d').deliveries (UniqueRows-save s d' u),
    )
Effect-attempts_spent e x s d _ u i f g lt (failing message next attempts up top) = ground (
  arith,
  weight-save attempts_left e x 1 s d
      (record d { attempts = attempts; last_error = some message; next_attempt_at = next }) u i refl
      refl (ground (arith, f, g, lt, up, top)),
)
Effect-attempts_spent e x s d _ u i f g lt (halting message next attempts up top) = ground (
  arith,
  weight-save attempts_left e x 0 s d
      (record d { attempts = attempts; last_error = some message; next_attempt_at = next }) u i refl
      refl (ground (arith, f, g, lt, up, top)),
)

pub Effect-sent :
    (e x : ℕ) (s : Store) (d : PushDelivery) (res : Store × Outcome)
    → UniqueRows s.deliveries
    → In d s.deliveries
    → is_some d.sent_at ≡ false
    → Effect s d res
    → sent e x res.1 + weight unsent (row e x res.0.deliveries)
      ≤ weight unsent (row e x s.deliveries)
unfolding remove_expired_subscription remove_subscriptions
Effect-sent e x s d _ u i f (crashing _) = omega arith
Effect-sent e x s d _ u i f (cancelling now) = ground (
  arith,
  weight-save unsent e x 0 s d (record d { cancelled_at = some now }) u i refl refl (omega arith),
)
Effect-sent e x s d _ u i f (delivering now) = ground (
  arith,
  weight-save unsent e x 1 s d
      (record d { attempts = d.attempts + 1; sent_at = some now; last_error = none }) u i refl refl
      (ground (arith, f)),
)
Effect-sent e x s d _ u i f (dropping subscription) =
    let d' : PushDelivery = record d { attempts = d.attempts + 1 } in
    ground (
      arith,
      weight-save unsent e x 0 s d d' u i refl refl (omega arith),
      weight-keep unsent e x
          (λ y. not (
            any_of (λ z. z.id == subscription && z.id == y.subscription_id)
              (save s d').subscriptions))
          (save s d').deliveries (UniqueRows-save s d' u),
    )
Effect-sent e x s d _ u i f (failing message next attempts up top) = ground (
  arith,
  weight-save unsent e x 0 s d
      (record d { attempts = attempts; last_error = some message; next_attempt_at = next }) u i refl
      refl (omega arith),
)
Effect-sent e x s d _ u i f (halting message next attempts up top) = ground (
  arith,
  weight-save unsent e x 0 s d
      (record d { attempts = attempts; last_error = some message; next_attempt_at = next }) u i refl
      refl (omega arith),
)

pub Effect-UniqueRows :
    (s : Store) (d : PushDelivery) (res : Store × Outcome)
    → UniqueRows s.deliveries
    → Effect s d res
    → UniqueRows res.0.deliveries
unfolding remove_expired_subscription remove_subscriptions
Effect-UniqueRows s d _ u (crashing _) = u
Effect-UniqueRows s d _ u (cancelling now) = UniqueRows-save s _ u
Effect-UniqueRows s d _ u (delivering now) = UniqueRows-save s _ u
Effect-UniqueRows s d _ u (dropping subscription) =
    UniqueRows-keep _ (save s (record d { attempts = d.attempts + 1 })).deliveries
      (UniqueRows-save s _ u)
Effect-UniqueRows s d _ u (failing _ _ _ _ _) = UniqueRows-save s _ u
Effect-UniqueRows s d _ u (halting _ _ _ _ _) = UniqueRows-save s _ u
