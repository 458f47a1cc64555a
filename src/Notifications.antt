-- ===== src/Notifications.antt =====
-- app/services/notifications.py over app/repositories/notifications.py and
-- app/models/notification.py: the dispatch of push notifications. Identifiers drawn by uuid4 and
-- the rows' numbers are natural numbers, instants are in microseconds. The digest of an alert's
-- text is a parameter, and so is the intersection of an alert's polygon with a municipality.
pub mod Dispatch
pub mod Queue
pub mod Events
pub mod Rows
pub mod Effects
pub mod Steps
pub mod Bounds
pub mod Outcomes
pub mod Devices
use Prim.Native.Nat.{min}
use brasil_lens_backend.Common.{
  ℕ, zero, suc, ◌+◌, ◌-◌, ◌*◌, ◌/◌, ◌^◌, Bool, true, false, not, ◌&&◌, ◌||◌, Option, none, some,
  String, string_eq, option_eq, nat_eq, List, [], ◌∷◌, ◌++◌, ◌==◌, map, any_of, keep, find_first,
  leb, ltb, is_some, if◌then◌else◌,
}
use brasil_lens_backend.Errors.{
  Result, ok, raise, DomainError, ProviderDetails, is_provider_error, no_details,
}
use brasil_lens_backend.Cache.{second}

pub record FollowedMunicipality : Type 0 where
  pub user_id : String
  pub municipality_code : String
  pub notifications_enabled : Bool
  pub notifications_opt_in_at : Option ℕ

pub record WeatherAlert : Type 0 where
  pub id : ℕ
  pub provider : String
  pub event : String
  pub severity : String
  pub description : Option String
  pub risks : List String
  pub instructions : List String
  pub affected_ibge_codes : List String
  pub expires : ℕ

pub record Content : Type 0 where
  pub municipality_code : String
  pub municipality_name : String
  pub state_abbreviation : Option String
  pub source : String
  pub event : String
  pub severity : String
  pub description : Option String
  pub risks : List String
  pub instructions : List String

pub record NotificationEvent : Type 0 where
  pub id : ℕ
  pub user_id : String
  pub alert_id : ℕ
  pub municipality_code : String
  pub alert_version : String
  pub content : Content

pub record PushSubscription : Type 0 where
  pub id : ℕ
  pub user_id : String
  pub endpoint : String
  pub p256dh : String
  pub auth : String

pub record PushDelivery : Type 0 where
  pub event_id : ℕ
  pub subscription_id : ℕ
  pub created_at : ℕ
  pub attempts : ℕ
  pub next_attempt_at : ℕ
  pub sent_at : Option ℕ
  pub cancelled_at : Option ℕ
  pub last_error : Option String

pub record Store : Type 0 where
  pub followed : List FollowedMunicipality
  pub alerts : List WeatherAlert
  pub events : List NotificationEvent
  pub subscriptions : List PushSubscription
  pub deliveries : List PushDelivery

pub record Pending : Type 0 where
  pub delivery : PushDelivery
  pub event : NotificationEvent
  pub subscription : PushSubscription
  pub alert : WeatherAlert

-- followed_municipalities rows that take part: enabled, and with an opt-in
abbrev pub takes_part : FollowedMunicipality → String → String → Bool
takes_part f user_id code =
    f.user_id == user_id
    && f.municipality_code == code
    && f.notifications_enabled
    && is_some f.notifications_opt_in_at

-- ORDER BY created_at, event_id, subscription_id
unfoldable pub precedes : PushDelivery → PushDelivery → Bool
precedes a b =
    ltb a.created_at b.created_at
    || (a.created_at == b.created_at
        && (ltb a.event_id b.event_id
            || (a.event_id == b.event_id && ltb a.subscription_id b.subscription_id)))

-- The joins and conditions of `next_pending` for one delivery.
unfoldable pub pending_row : Store → ℕ → PushDelivery → Option Pending
pending_row s now d = elim (find_first (λ e. e.id == d.event_id) s.events) [
  | none ↦ none
  | some e ↦ elim (find_first (λ x. x.id == d.subscription_id) s.subscriptions) [
    | none ↦ none
    | some x ↦ elim (find_first (λ a. a.id == e.alert_id) s.alerts) [
      | none ↦ none
      | some a ↦
          if not (is_some d.sent_at)
            && not (is_some d.cancelled_at)
            && ltb d.attempts 5
            && leb d.next_attempt_at now
            && ltb now a.expires
            && e.user_id == x.user_id
            && any_of (λ f. takes_part f e.user_id e.municipality_code) s.followed
          then some (record { delivery = d; event = e; subscription = x; alert = a })
          else none
    ]
  ]
]

earlier : Option Pending → Option Pending → Option Pending
earlier none q = q
earlier (some p) none = some p
earlier (some p) (some q) = if precedes q.delivery p.delivery then some q else some p

-- ORDER BY … LIMIT 1
unfoldable pub first_pending : Store → ℕ → List PushDelivery → Option Pending
unfolding earlier
first_pending s now [] = none
first_pending s now (d ∷ ds) = earlier (pending_row s now d) (first_pending s now ds)

unfoldable pub next_pending : Store → ℕ → Option Pending
next_pending s now = first_pending s now s.deliveries

-- The row of a delivery, by its primary key.
abbrev pub same_row : PushDelivery → PushDelivery → Bool
same_row a b = a.event_id == b.event_id && a.subscription_id == b.subscription_id

-- The flush of a delivery that was changed.
unfoldable pub save : Store → PushDelivery → Store
save s d = record s { deliveries = map (λ x. if same_row x d then d else x) s.deliveries }

-- DELETE of a subscription; its deliveries go by the cascade
unfoldable pub remove_subscriptions : Store → (PushSubscription → Bool) → Store
remove_subscriptions s p = record s {
  subscriptions = keep (λ x. not (p x)) s.subscriptions;
  deliveries =
      keep (λ d. not (any_of (λ x. p x && x.id == d.subscription_id) s.subscriptions)) s.deliveries;
}

unfoldable pub remove_expired_subscription : Store → ℕ → Store
remove_expired_subscription s subscription_id =
    remove_subscriptions s (λ x. x.id == subscription_id)

unfoldable pub register : Store → ℕ → String → String → String → String → Store
register s fresh_id user_id endpoint p256dh auth =
    let s' = remove_subscriptions s (λ x. x.endpoint == endpoint && not (x.user_id == user_id)) in
    if any_of (λ x. x.endpoint == endpoint) s'.subscriptions
    then record s' {
      subscriptions =
          map (λ x. if x.endpoint == endpoint then record x { p256dh = p256dh; auth = auth } else x)
            s'.subscriptions;
    }
    else record s' {
      subscriptions =
          s'.subscriptions
          ++ record {
            id = fresh_id;
            user_id = user_id;
            endpoint = endpoint;
            p256dh = p256dh;
            auth = auth;
          }
            ∷ [];
    }

unfoldable pub unregister : Store → String → String → Store
unregister s user_id endpoint =
    remove_subscriptions s (λ x. x.user_id == user_id && x.endpoint == endpoint)

abbrev pub details_of : DomainError → ProviderDetails
details_of (DomainError.provider message details) = details
details_of _ = no_details

abbrev pub message_of : DomainError → String
message_of (DomainError.provider message details) = message
message_of (DomainError.provider_rate_limited message seconds) = message
message_of _ = ""

abbrev pub status_in : List ℕ → Option ℕ → Bool
status_in codes none = false
status_in codes (some code) = any_of (λ c. c == code) codes

-- What one round of the loop did, and for which delivery.
pub data Outcome : Type 0 where
  finished : Outcome
  cancelled : PushDelivery → Outcome
  delivered : PushDelivery → Outcome
  dropped : PushDelivery → Outcome
  failed : PushDelivery → Outcome
  halted : PushDelivery → Outcome
  crashed : DomainError → Outcome

-- What a round reads outside: the database's clock and the process's, the advisory lock, and the
-- answer of the push service.
pub record Round : Type 0 where
  pub database_now : ℕ
  pub now : ℕ
  pub lock_dispatch : Bool
  pub answer : Result (Unit {0})

-- The wait after the given number of attempts: ten minutes, doubled, an hour at most.
unfoldable pub backoff : ℕ → ℕ
backoff attempts = min 3600 (600 * 2 ^ (attempts - 1))

-- int((expires - now).total_seconds()) within 0 and an hour
unfoldable pub time_to_live : ℕ → ℕ → ℕ
time_to_live expires now = min 3600 ((expires - now) / second)

abbrev pub Eligible : Type 0
Eligible = List (String × ℕ × String)

abbrev pub is_eligible : Eligible → NotificationEvent → Bool
is_eligible eligible e =
    any_of (λ k. k.0 == e.user_id && k.1 == e.alert_id && k.2 == e.municipality_code) eligible

-- The handling of a ProviderError that leaves the subscription: 400 gives up, and refusals of the
-- sender take the attempt back and stop the loop.
unfoldable pub after_failure : PushDelivery → ℕ → DomainError → PushDelivery × Bool
after_failure d now e =
    let details = details_of e in
    let stop = status_in (401 ∷ 403 ∷ 429 ∷ []) details.status || details.configuration in
    let attempts = if status_in (400 ∷ []) details.status then 5 else d.attempts in
    (
      record d {
        last_error = some (message_of e);
        next_attempt_at = now + backoff d.attempts * second;
        attempts = if stop then attempts - 1 else attempts;
      },
      stop,
    )

module _ (digest : String → String → Option String → List String → List String → String) where
  unfoldable pub version : WeatherAlert → String
  version a = digest a.event a.severity a.description a.risks a.instructions

  -- One delivery: the part of the round after `next_pending`.
  unfoldable pub attempt : Store → Eligible → Round → Pending → Store × Outcome
  unfolding after_failure
  attempt s eligible r p =
      let d = p.delivery in
      let cancel = save s (record d { cancelled_at = some r.now }) in
      let tried : PushDelivery = record d { attempts = d.attempts + 1 } in
      if not (p.event.alert_version == version p.alert) || not (is_eligible eligible p.event)
      then (cancel, cancelled d)
      else if time_to_live p.alert.expires r.now == 0
      then (cancel, cancelled d)
      else elim r.answer [
        | ok _ ↦ (save s (record tried { sent_at = some r.now; last_error = none }), delivered d)
        | raise e ↦
            if not (is_provider_error e)
            then (s, crashed e)
            else if status_in (404 ∷ 410 ∷ []) (details_of e).status
            then (remove_expired_subscription (save s tried) p.subscription.id, dropped d)
            else let (saved, stop) = after_failure tried r.now e in
              (save s saved, if stop then halted d else failed d)
      ]

  -- One round of the loop, a transaction of its own.
  unfoldable pub round : Store → Eligible → Round → Store × Outcome
  round s eligible r =
      if not r.lock_dispatch then (s, finished) else elim (next_pending s r.database_now) [
        | none ↦ (s, finished)
        | some p ↦ attempt s eligible r p
      ]

  -- The loop: `range(settings.notification_batch_limit)` rounds at most, with the count of sent
  -- notifications or the error that left it.
  unfoldable pub rounds : ℕ → Store → Eligible → (ℕ → Round) → ℕ → Store × Result ℕ
  rounds zero s eligible env sent = (s, ok sent)
  rounds (suc n) s eligible env sent =
      let (s', outcome) = round s eligible (env n) in
      let next = rounds n s' eligible env in
      elim outcome [
        | finished ↦ (s', ok sent)
        | cancelled d ↦ next sent
        | delivered d ↦ next (sent + 1)
        | dropped d ↦ next sent
        | failed d ↦ next sent
        | halted d ↦ (s', ok sent)
        | crashed e ↦ (s', raise e)
      ]
