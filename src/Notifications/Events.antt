-- ===== src/Notifications/Events.antt =====
-- What enqueueing makes of events and deliveries, and their keys.
use brasil_lens_backend.Common.{
  ℕ, ◌≡◌, refl, Bool, false, not, ◌&&◌, ◌||◌, string_eq, option_eq, nat_eq, List, [], ◌∷◌, ◌++◌,
  ◌==◌, ==_iff, any_of, keep, find_first-append, arith, Bool-cases, inl, inr,
}
use brasil_lens_backend.Notifications.{NotificationEvent, PushDelivery, Store, same_row}
use brasil_lens_backend.Notifications.Dispatch.{
  same_event, insert_event, insert_delivery, insert_all, owed, prune, enqueue, is_stale,
}
use brasil_lens_backend.Notifications.Rows.{is_row, UniqueRows, UniqueRows-keep}

-- No two events of one identifier, nor of one account, alert, municipality and text.
abbrev pub UniqueEvents : List NotificationEvent → Type 0
UniqueEvents [] = Unit
UniqueEvents (e ∷ es) = (any_of (λ x. same_event e x) es ≡ false) × UniqueEvents es

any_of-append :
    {A : Type 0} (p : A → Bool) (xs ys : List A)
    → any_of p (xs ++ ys) ≡ (any_of p xs || any_of p ys)
any_of-append p [] ys = refl
any_of-append p (x ∷ xs) ys = ground (arith, any_of-append p xs ys)

any_of-keep :
    {A : Type 0} (p q : A → Bool) (xs : List A) → any_of p xs ≡ false → any_of p (keep q xs) ≡ false
any_of-keep p q [] h = refl
any_of-keep p q (x ∷ xs) h = ground (arith, any_of-keep p q xs)

UniqueEvents-insert :
    (es : List NotificationEvent) (e : NotificationEvent)
    → UniqueEvents es
    → UniqueEvents (insert_event es e)
unfolding insert_event
UniqueEvents-insert es e u = elim (Bool-cases (any_of (λ x. same_event x e) es)) [
  | inl p ↦ rw p u
  | inr p ↦ rw p (go es u p)
]
  where
    go :
        (xs : List NotificationEvent)
        → UniqueEvents xs
        → any_of (λ x. same_event x e) xs ≡ false
        → UniqueEvents (xs ++ e ∷ [])
    go [] u h = (refl, tt)
    go (x ∷ xs) u h = ground (arith, any_of-append (λ y. same_event x y) xs (e ∷ []), go xs u.1)

UniqueEvents-insert_all :
    (rows es : List NotificationEvent)
    → UniqueEvents es
    → UniqueEvents (insert_all insert_event es rows)
UniqueEvents-insert_all [] es u = u
UniqueEvents-insert_all (r ∷ rows) es u =
    UniqueEvents-insert_all rows (insert_event es r) (UniqueEvents-insert es r u)

UniqueEvents-keep :
    (q : NotificationEvent → Bool) (es : List NotificationEvent)
    → UniqueEvents es
    → UniqueEvents (keep q es)
UniqueEvents-keep q [] u = tt
UniqueEvents-keep q (e ∷ es) u =
    ground (arith, any_of-keep (λ x. same_event e x) q es u.0, UniqueEvents-keep q es u.1)

UniqueRows-insert :
    (ds : List PushDelivery) (d : PushDelivery) → UniqueRows ds → UniqueRows (insert_delivery ds d)
unfolding insert_delivery
UniqueRows-insert ds d u = elim (Bool-cases (any_of (λ x. same_row x d) ds)) [
  | inl p ↦ rw p u
  | inr p ↦ rw p (go ds u p)
]
  where
    go :
        (xs : List PushDelivery)
        → UniqueRows xs
        → any_of (λ x. same_row x d) xs ≡ false
        → UniqueRows (xs ++ d ∷ [])
    go [] u h = (refl, tt)
    go (x ∷ xs) u h = ground (
      arith,
      ==_iff x.event_id d.event_id,
      ==_iff d.event_id x.event_id,
      ==_iff x.subscription_id d.subscription_id,
      ==_iff d.subscription_id x.subscription_id,
      find_first-append (is_row x.event_id x.subscription_id) xs (d ∷ []),
      go xs u.1,
    )

UniqueRows-insert_all :
    (rows ds : List PushDelivery) → UniqueRows ds → UniqueRows (insert_all insert_delivery ds rows)
UniqueRows-insert_all [] ds u = u
UniqueRows-insert_all (r ∷ rows) ds u =
    UniqueRows-insert_all rows (insert_delivery ds r) (UniqueRows-insert ds r u)

prune-Unique :
    (s : Store) (now : ℕ)
    → UniqueEvents s.events
    → UniqueRows s.deliveries
    → UniqueEvents (prune s now).events × UniqueRows (prune s now).deliveries
unfolding prune
prune-Unique s now ue ud = (
  UniqueEvents-keep (λ e. not (is_stale s now e)) s.events ue,
  UniqueRows-keep (λ d. not (any_of (λ e. is_stale s now e && e.id == d.event_id) s.events))
      s.deliveries ud,
)

-- Enqueueing keeps the keys of both tables: no event is made twice for one account, alert,
-- municipality and text, and no delivery twice for one event and device.
pub enqueue-Unique :
    (s : Store) (now : ℕ) (rows : List NotificationEvent)
    → UniqueEvents s.events
    → UniqueRows s.deliveries
    → UniqueEvents (enqueue s now rows).events × UniqueRows (enqueue s now rows).deliveries
unfolding enqueue
enqueue-Unique s now rows ue ud =
    let s1 : Store = record s { events = insert_all insert_event s.events rows } in
    prune-Unique (record s1 { deliveries = insert_all insert_delivery s1.deliveries (owed s1 now) })
      now (UniqueEvents-insert_all rows s.events ue)
      (UniqueRows-insert_all (owed s1 now) s.deliveries ud)
