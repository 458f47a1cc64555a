-- ===== src/Tests/NotificationsTests.antt =====
-- app/services/notifications.py at concrete inputs. The digest of an alert's text is its event.
use brasil_lens_backend.Common.{
  ◌+◌, ◌*◌, ◌≤◌, ◌≡◌, refl, true, false, String, string_eq, option_eq, List, [], ◌∷◌, Option, none,
  some, nat_eq, arith,
}
use brasil_lens_backend.Errors.{ok, raise, DomainError, is_provider_error}
use brasil_lens_backend.Cache.{second}
use brasil_lens_backend.Notifications.{
  WeatherAlert, NotificationEvent, PushSubscription, PushDelivery, Store, Pending, Round, Eligible,
  precedes, pending_row, first_pending, next_pending, save, remove_subscriptions,
  remove_expired_subscription, register, backoff, time_to_live, after_failure, version, attempt,
  round, rounds, message_of,
}
use brasil_lens_backend.Notifications.Dispatch.{enqueue}
use brasil_lens_backend.Notifications.Queue.{IsFirst, next_pending-IsFirst}
use brasil_lens_backend.Notifications.Rows.{UniqueRows}
use brasil_lens_backend.Notifications.Effects.{total, sent, attempts_spent}
use brasil_lens_backend.Notifications.Bounds.{served, served_bounds}
use brasil_lens_backend.Notifications.Events.{UniqueEvents, enqueue-Unique}
use brasil_lens_backend.Notifications.Outcomes.{IsServed, rounds-IsServed, refused_sender}

program : Unit {0}
unfolding precedes pending_row first_pending next_pending save remove_subscriptions
    remove_expired_subscription register backoff time_to_live after_failure version attempt round
    rounds is_provider_error
program = tt

abbrev digest : String → String → Option String → List String → List String → String
digest event severity description risks instructions = event

abbrev rain : WeatherAlert
rain = record {
  id = 7;
  provider = "inmet";
  event = "Chuvas intensas";
  severity = "Perigo";
  description = none;
  risks = [];
  instructions = [];
  affected_ibge_codes = "3550308" ∷ [];
  expires = 5000 * second;
}

abbrev notice : NotificationEvent
notice = record {
  id = 1;
  user_id = "a1";
  alert_id = 7;
  municipality_code = "3550308";
  alert_version = "Chuvas intensas";
  content = record {
    municipality_code = "3550308";
    municipality_name = "São Paulo";
    state_abbreviation = some "SP";
    source = "inmet";
    event = "Chuvas intensas";
    severity = "Perigo";
    description = none;
    risks = [];
    instructions = [];
  };
}

abbrev phone : PushSubscription
phone = record { id = 3; user_id = "a1"; endpoint = "https://push"; p256dh = "k"; auth = "a" }

abbrev owed_row : PushDelivery
owed_row = record {
  event_id = 1;
  subscription_id = 3;
  created_at = 10;
  attempts = 1;
  next_attempt_at = 10;
  sent_at = none;
  cancelled_at = none;
  last_error = none;
}

abbrev store : Store
store = record {
  followed =
      record {
        user_id = "a1";
        municipality_code = "3550308";
        notifications_enabled = true;
        notifications_opt_in_at = some 1;
      }
      ∷ [];
  alerts = rain ∷ [];
  events = notice ∷ [];
  subscriptions = phone ∷ [];
  deliveries = owed_row ∷ [];
}

abbrev eligible : Eligible
eligible = ("a1", 7, "3550308") ∷ []

abbrev good : Round
good = record { database_now = 20; now = 25; lock_dispatch = true; answer = ok tt }

abbrev busy : DomainError
busy = DomainError.provider "recusado" (record { status = some 429; configuration = false })

abbrev gone : DomainError
gone = DomainError.provider "recusado" (record { status = some 410; configuration = false })

abbrev pending : Pending
pending = record { delivery = owed_row; event = notice; subscription = phone; alert = rain }

next_pending-IsFirst_example : IsFirst store 20 (next_pending store 20)
next_pending-IsFirst_example = next_pending-IsFirst store 20

taken : next_pending store 20 ≡ some pending
unfolding program
taken = refl

served_bounds_example :
    let os = (served digest store ((eligible, good) ∷ (eligible, good) ∷ [])).1 in
    (total (sent 1 3) os ≤ 1) × (total (attempts_spent 1 3) os ≤ 5)
served_bounds_example =
    served_bounds digest 1 3 store ((eligible, good) ∷ (eligible, good) ∷ []) (refl, tt)

rounds-IsServed_example : IsServed digest 500 store eligible (λ n. good) 0
rounds-IsServed_example = rounds-IsServed digest 500 store eligible (λ n. good) 0

refused_sender_example :
    rounds digest 500 store eligible (λ n. record good { answer = raise busy }) 4 ≡ (
      save store (record owed_row {
        last_error = some (message_of busy);
        next_attempt_at = 25 + backoff 2 * second;
      }),
      ok 4,
    )
unfolding program
refused_sender_example =
    refused_sender digest store eligible (record good { answer = raise busy }) pending busy 499 4
      (λ n. record good { answer = raise busy }) (refl, taken, refl, refl, omega arith) refl refl
      refl refl refl

enqueue-Unique_example :
    UniqueEvents (enqueue store 20 (record notice { id = 2 } ∷ [])).events
    × UniqueRows (enqueue store 20 (record notice { id = 2 } ∷ [])).deliveries
enqueue-Unique_example =
    enqueue-Unique store 20 (record notice { id = 2 } ∷ []) (refl, tt) (refl, tt)
