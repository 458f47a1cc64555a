-- ===== src/Notifications/Queue.antt =====
-- Which delivery is next, and what saving one leaves.
use brasil_lens_backend.Common.{
  ℕ, ◌⊎◌, ◌≡◌, ◌<◌, ◌≤◌, subst, ==_iff, ◌==◌, any_of, find_first, String, sym, refl, Bool, true,
  false, not, ◌&&◌, Option, none, some, string_eq, option_eq, nat_eq, List, [], ◌∷◌, leb, ltb,
  is_some, arith, Bool-cases, inl, inr, All,
}
use brasil_lens_backend.Notifications.{
  PushDelivery, Store, Pending, precedes, pending_row, earlier, first_pending, next_pending,
}

-- A delivery of the table.
abbrev pub In : PushDelivery → List PushDelivery → Type 0
In d [] = ⊥
In d (x ∷ xs) = (d ≡ x) ⊎ In d xs

-- A delivery that is waiting: neither sent nor cancelled, with attempts left, and due.
abbrev pub waiting : ℕ → PushDelivery → Bool
waiting now d =
    not (is_some d.sent_at)
    && not (is_some d.cancelled_at)
    && ltb d.attempts 5
    && leb d.next_attempt_at now

pub pending_row-waiting :
    (s : Store) (now : ℕ) (d : PushDelivery) (p : Pending)
    → pending_row s now d ≡ some p
    → waiting now d ≡ true
unfolding pending_row
pending_row-waiting s now d p h = ground arith

pending_row_delivery :
    (s : Store) (now : ℕ) (d : PushDelivery) (p : Pending)
    → pending_row s now d ≡ some p
    → p.delivery ≡ d
unfolding pending_row
pending_row_delivery s now d p h = ground arith

precedes_asym : (a b : PushDelivery) → precedes a b ≡ true → precedes b a ≡ false
unfolding precedes
precedes_asym a b h = ground arith

precedes_irrefl : (a : PushDelivery) → precedes a a ≡ false
unfolding precedes
precedes_irrefl a = ground arith

precedes_weak :
    (a b c : PushDelivery) → precedes a b ≡ false → precedes b c ≡ false → precedes a c ≡ false
unfolding precedes
precedes_weak a b c h k = ground arith

-- No row, or the first of the rows that `next_pending` admits.
abbrev pub IsTaken : Store → ℕ → List PushDelivery → Option Pending → Type 0
IsTaken s now ds none = All (λ d. pending_row s now d ≡ none) ds
IsTaken s now ds (some p) =
    In p.delivery ds
    × (pending_row s now p.delivery ≡ some p)
    × All (λ d. is_some (pending_row s now d) ≡ true → precedes d p.delivery ≡ false) ds

All-map :
    (P Q : PushDelivery → Type 0) (ds : List PushDelivery)
    → ((d : PushDelivery) → P d → Q d)
    → All P ds
    → All Q ds
All-map P Q [] f h = tt
All-map P Q (d ∷ ds) f h = (f d h.0, All-map P Q ds f h.1)

first_pending-IsTaken :
    (s : Store) (now : ℕ) (ds : List PushDelivery) → IsTaken s now ds (first_pending s now ds)
unfolding first_pending earlier
first_pending-IsTaken s now [] = tt
first_pending-IsTaken s now (d ∷ ds) =
    step (pending_row s now d) (first_pending s now ds) refl (first_pending-IsTaken s now ds)
  where
    step :
        (o q : Option Pending)
        → pending_row s now d ≡ o
        → IsTaken s now ds q
        → IsTaken s now (d ∷ ds) (earlier o q)
    step none none h k = (h, k)
    step none (some q) h k = (inr k.0, k.1, ((λ x. ground (arith, h)), k.2))
    step (some p) none h k =
        let e = pending_row_delivery s now d p h in
        (
          inl e,
          cc (e, h),
          (
            (λ x. rw e (precedes_irrefl d)),
            All-map (λ x. pending_row s now x ≡ none) _ ds
                (λ x none_here admitted. ground (arith, none_here, admitted)) k,
          ),
        )
    step (some p) (some q) h k =
        let e = pending_row_delivery s now d p h in
        elim (Bool-cases (precedes q.delivery p.delivery)) [
          | inl c ↦
              rw c (inr k.0, k.1, ((λ x. rw (sym e) (precedes_asym q.delivery p.delivery c)), k.2))
          | inr c ↦ rw c (
            inl e,
            cc (e, h),
            (
              (λ x. rw e (precedes_irrefl d)),
              All-map (λ x. is_some (pending_row s now x) ≡ true → precedes x q.delivery ≡ false) _
                  ds (λ x f admitted. precedes_weak x q.delivery p.delivery (f admitted) c) k.2,
            ),
          )
        ]

pub next_pending-IsTaken : (s : Store) (now : ℕ) → IsTaken s now s.deliveries (next_pending s now)
unfolding next_pending
next_pending-IsTaken s now = first_pending-IsTaken s now s.deliveries

-- A followed municipality of a user whose notifications are enabled and opted into.
abbrev pub is_followed : Store → String → String → Bool
is_followed s user_id code =
    any_of
      (λ f.
        f.user_id == user_id
        && f.municipality_code == code
        && f.notifications_enabled
        && is_some f.notifications_opt_in_at)
      s.followed

-- The rows that `next_pending` selects from: the delivery with its event, its subscription and its
-- alert, under each condition of the query.
pub record IsAdmitted (s : Store) (now : ℕ) (p : Pending) : Type 0 where
  pub event_found : find_first (λ e. e.id == p.delivery.event_id) s.events ≡ some p.event
  pub subscription_found :
      find_first (λ x. x.id == p.delivery.subscription_id) s.subscriptions ≡ some p.subscription
  pub alert_found : find_first (λ a. a.id == p.event.alert_id) s.alerts ≡ some p.alert
  pub unsent : p.delivery.sent_at ≡ none
  pub uncancelled : p.delivery.cancelled_at ≡ none
  pub attempts_left : p.delivery.attempts < 5
  pub due : p.delivery.next_attempt_at ≤ now
  pub current : now < p.alert.expires
  pub of_the_user : p.event.user_id ≡ p.subscription.user_id
  pub followed : is_followed s p.event.user_id p.event.municipality_code ≡ true

-- The order of the query: by creation, then by event, then by subscription.
abbrev pub Before : PushDelivery → PushDelivery → Type 0
Before a b =
    (a.created_at < b.created_at)
    ⊎ ((a.created_at ≡ b.created_at)
        × ((a.event_id < b.event_id)
            ⊎ ((a.event_id ≡ b.event_id) × (a.subscription_id < b.subscription_id))))

Before-precedes : (a b : PushDelivery) → Before a b → precedes a b ≡ true
unfolding precedes
Before-precedes a b h = ground (arith, h)

IsAdmitted-row :
    (s : Store) (now : ℕ) (p : Pending) → IsAdmitted s now p → pending_row s now p.delivery ≡ some p
unfolding pending_row
IsAdmitted-row s now p h =
    rw (h.event_found, h.subscription_found, h.alert_found, pending_row)
      (ground (
        arith,
        h.unsent,
        h.uncancelled,
        h.attempts_left,
        h.due,
        h.current,
        h.of_the_user,
        h.followed,
        ==_iff p.event.user_id p.subscription.user_id,
      ))

row-IsAdmitted :
    (s : Store) (now : ℕ) (d : PushDelivery) (p : Pending)
    → pending_row s now d ≡ some p
    → IsAdmitted s now p
unfolding pending_row
row-IsAdmitted s now d p h = record {
  event_found = ground arith;
  subscription_found = ground arith;
  alert_found = ground arith;
  unsent = ground arith;
  uncancelled = ground arith;
  attempts_left = ground arith;
  due = ground arith;
  current = ground arith;
  of_the_user = ground (arith, ==_iff p.event.user_id p.subscription.user_id);
  followed = ground arith;
}

-- No delivery, where none is admitted; or one of the table that is admitted and that no other that is
-- admitted comes before.
abbrev pub IsFirst : Store → ℕ → Option Pending → Type 0
IsFirst s now none = (q : Pending) → In q.delivery s.deliveries → ¬ IsAdmitted s now q
IsFirst s now (some p) =
    In p.delivery s.deliveries
    × IsAdmitted s now p
    × ((q : Pending)
        → In q.delivery s.deliveries
        → IsAdmitted s now q
        → ¬ Before q.delivery p.delivery)

All-In :
    (Q : PushDelivery → Type 0) (ds : List PushDelivery) (d : PushDelivery)
    → All Q ds
    → In d ds
    → Q d
All-In Q [] d h i = elim i [ ]
All-In Q (x ∷ ds) d h (inl e) = subst Q (sym e) h.0
All-In Q (x ∷ ds) d h (inr i) = All-In Q ds d h.1 i

IsTaken-IsFirst :
    (s : Store) (now : ℕ) (o : Option Pending) → IsTaken s now s.deliveries o → IsFirst s now o
IsTaken-IsFirst s now none h = λ q i a.
    cc (
      IsAdmitted-row s now q a,
      All-In (λ d. pending_row s now d ≡ none) s.deliveries q.delivery h i,
    )
IsTaken-IsFirst s now (some p) h = (
  h.0,
  row-IsAdmitted s now p.delivery p h.1,
  λ q i a b. ground (
    arith,
    IsAdmitted-row s now q a,
    Before-precedes q.delivery p.delivery b,
    All-In (λ d. is_some (pending_row s now d) ≡ true → precedes d p.delivery ≡ false) s.deliveries
        q.delivery h.2 i,
  ),
)

-- The delivery that is taken next is one of the table that meets every condition of the query: its
-- event, its subscription and its alert are there, it is neither sent nor cancelled, has been
-- attempted fewer than five times and is due, the alert has not expired, the subscription is the
-- user's, and the user follows the municipality with notifications enabled and opted into. None that
-- meets them comes before it by creation, event and subscription, and none is taken only where none
-- meets them.
pub next_pending-IsFirst : (s : Store) (now : ℕ) → IsFirst s now (next_pending s now)
next_pending-IsFirst s now = IsTaken-IsFirst s now (next_pending s now) (next_pending-IsTaken s now)
