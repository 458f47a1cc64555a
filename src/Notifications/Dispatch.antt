-- ===== src/Notifications/Dispatch.antt =====
-- `candidates`, `enqueue` and `dispatch`: what the alerts in force owe to the accounts that follow
-- a municipality.
use brasil_lens_backend.Common.{
  true, false, ℕ, suc, ◌+◌, ◌*◌, Bool, false, not, ◌&&◌, ◌||◌, Option, none, some, String,
  string_eq, option_eq, nat_eq, List, [], ◌∷◌, ◌++◌, ◌==◌, map, any_of, keep, find_first, ltb,
  is_some, if◌then◌else◌,
}
use brasil_lens_backend.Errors.{Result}
use brasil_lens_backend.Cache.{second}
use brasil_lens_backend.Notifications.{
  FollowedMunicipality, WeatherAlert, Content, NotificationEvent, PushDelivery, Store, takes_part,
  same_row, version, Round, rounds,
}

pub data TerritoryLevel : Type 0 where
  country : TerritoryLevel
  region : TerritoryLevel
  state : TerritoryLevel
  municipality : TerritoryLevel

abbrev pub is_municipality : TerritoryLevel → Bool
is_municipality municipality = true
is_municipality _ = false

-- The columns of territories that are read here.
pub record Territory : Type 0 where
  pub id : ℕ
  pub ibge_code : String
  pub level : TerritoryLevel
  pub name : String
  pub abbreviation : Option String
  pub parent_id : Option ℕ

pub record Candidate : Type 0 where
  pub user_id : String
  pub municipality_code : String
  pub municipality_name : String
  pub state_abbreviation : Option String
  pub alert : WeatherAlert

abbrev pub flat_map {ℓ κ} : {A : Type ℓ} {B : Type κ} → (A → List B) → List A → List B
flat_map f [] = []
flat_map f (x ∷ xs) = f x ++ flat_map f xs

unfoldable pub content : Candidate → Content
content c = record {
  municipality_code = c.municipality_code;
  municipality_name = c.municipality_name;
  state_abbreviation = c.state_abbreviation;
  source = c.alert.provider;
  event = c.alert.event;
  severity = c.alert.severity;
  description = c.alert.description;
  risks = c.alert.risks;
  instructions = c.alert.instructions;
}

-- The unique constraint on notification_events, and its primary key.
abbrev pub same_event : NotificationEvent → NotificationEvent → Bool
same_event a b =
    a.id == b.id
    || (a.user_id == b.user_id
        && a.alert_id == b.alert_id
        && a.municipality_code == b.municipality_code
        && a.alert_version == b.alert_version)

-- INSERT … ON CONFLICT DO NOTHING
unfoldable pub insert_event : List NotificationEvent → NotificationEvent → List NotificationEvent
insert_event es e = if any_of (λ x. same_event x e) es then es else es ++ e ∷ []

unfoldable pub insert_delivery : List PushDelivery → PushDelivery → List PushDelivery
insert_delivery ds d = if any_of (λ x. same_row x d) ds then ds else ds ++ d ∷ []

abbrev pub insert_all {ℓ κ} : {A : Type ℓ} {B : Type κ} → (B → A → B) → B → List A → B
insert_all f b [] = b
insert_all f b (x ∷ xs) = insert_all f (f b x) xs

-- The join that the deliveries are selected from, with the columns' defaults.
unfoldable pub owed : Store → ℕ → List PushDelivery
owed s now =
    flat_map
      (λ e.
        if any_of (λ a. a.id == e.alert_id && ltb now a.expires) s.alerts
          && any_of (λ f. takes_part f e.user_id e.municipality_code) s.followed
        then map
            (λ x. record {
              event_id = e.id;
              subscription_id = x.id;
              created_at = now;
              attempts = 0;
              next_attempt_at = now;
              sent_at = none;
              cancelled_at = none;
              last_error = none;
            })
            (keep (λ x. x.user_id == e.user_id) s.subscriptions)
        else [])
      s.events

-- Thirty days after its alert expired an event is deleted, with its deliveries.
unfoldable pub is_stale : Store → ℕ → NotificationEvent → Bool
is_stale s now e =
    any_of (λ a. a.id == e.alert_id && ltb (a.expires + 30 * 24 * 60 * 60 * second) now) s.alerts

unfoldable pub prune : Store → ℕ → Store
unfolding is_stale
prune s now = record s {
  events = keep (λ e. not (is_stale s now e)) s.events;
  deliveries =
      keep (λ d. not (any_of (λ e. is_stale s now e && e.id == d.event_id) s.events)) s.deliveries;
}

unfoldable pub enqueue : Store → ℕ → List NotificationEvent → Store
unfolding insert_event insert_delivery owed prune
enqueue s now rows =
    let s1 : Store = record s { events = insert_all insert_event s.events rows } in
    let s2 : Store = record s1 {
      deliveries = insert_all insert_delivery s1.deliveries (owed s1 now);
    } in
    prune s2 now

-- `uuid4()` for each row
unfoldable pub numbered : (ℕ → ℕ) → List (ℕ → NotificationEvent) → List NotificationEvent
numbered fresh [] = []
numbered fresh (f ∷ fs) = f (fresh 0) ∷ numbered (λ n. fresh (suc n)) fs

module _ (intersects : WeatherAlert → String → Bool) (territories : List Territory) where
  unfoldable pub candidate : Store → ℕ → FollowedMunicipality → WeatherAlert → List Candidate
  candidate s now f a =
      let affected =
        any_of (λ c. c == f.municipality_code) a.affected_ibge_codes
        || (elim a.affected_ibge_codes [
          | [] ↦ intersects a f.municipality_code
          | c ∷ cs ↦ false
        ]) in
      if f.notifications_enabled
        && is_some f.notifications_opt_in_at
        && ltb now a.expires
        && affected
      then map
          (λ m. record {
            user_id = f.user_id;
            municipality_code = f.municipality_code;
            municipality_name = m.name;
            state_abbreviation = elim (find_first (λ t. some t.id == m.parent_id) territories) [
              | none ↦ none
              | some t ↦ t.abbreviation
            ];
            alert = a;
          })
          (keep (λ m. m.ibge_code == f.municipality_code && is_municipality m.level) territories)
      else []

  unfoldable pub candidates : Store → ℕ → List Candidate
  candidates s now = flat_map (λ f. flat_map (candidate s now f) s.alerts) s.followed

  module _ (digest : String → String → Option String → List String → List String → String) where
    unfoldable pub event_of : Candidate → ℕ → NotificationEvent
    event_of c id = record {
      id = id;
      user_id = c.user_id;
      alert_id = c.alert.id;
      municipality_code = c.municipality_code;
      alert_version = version digest c.alert;
      content = content c;
    }

    unfoldable pub dispatch : ℕ → Store → ℕ → (ℕ → ℕ) → (ℕ → Round) → Store × Result ℕ
    dispatch batch_limit s now fresh env =
        let found = candidates s now in
        let eligible = map (λ c. (c.user_id, c.alert.id, c.municipality_code)) found in
        let queued = enqueue s now (numbered fresh (map event_of found)) in
        rounds digest batch_limit queued eligible env 0
