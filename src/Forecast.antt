-- ===== src/Forecast.antt =====
-- app/core/cooldown.py and the readings of app/services/weather_forecast.py: when a reading may be
-- used, where readings are kept, and how a source that fails is left alone for a while. Instants
-- are in microseconds; `monotonic` is the clock of the caches and of the cooldowns. The store that
-- the processes share (Redis) and the source's answer are arguments.
pub mod Cooldown
pub mod Readings
use Prim.Native.Nat.{max}
use brasil_lens_backend.Common.{
  ℕ, zero, suc, ◌+◌, ◌-◌, ◌*◌, ◌/◌, ◌≡◌, ◌↔◌, refl, Bool, true, false, not, ◌&&◌, ◌||◌, Option,
  none, some, String, string_eq, List, [], ◌∷◌, ◌++◌, ◌==◌, ==_iff, HasEq, map, all_of, lookup,
  set_item, keep, leb, ltb, is_some, length, nat_eq, if◌then◌else◌, arith,
}
use brasil_lens_backend.Errors.{
  internal, Result, ok, raise, DomainError, provider, provider_rate_limited, is_provider_error,
  no_details,
}
use brasil_lens_backend.Cache
use brasil_lens_backend.Cache.{TtlCache, second}
use brasil_lens_backend.RateLimit.{ceil_seconds}

abbrev pub minute : ℕ
minute = 60 * second

abbrev pub min_freshness_after_fetch : ℕ
min_freshness_after_fetch = 2 * minute

abbrev pub max_data_age : ℕ
max_data_age = 120 * minute

abbrev pub map_freshness : ℕ
map_freshness = 30 * minute

abbrev pub future_tolerance : ℕ
future_tolerance = 15 * minute

abbrev pub reading_ttl_seconds : ℕ
reading_ttl_seconds = 12 * 60 * 60

-- SourceCooldown
pub record SourceCooldown : Type 0 where
  pub seconds : ℕ
  pub until : ℕ

unfoldable pub active : SourceCooldown → ℕ → Bool
active c monotonic = ltb monotonic c.until

unfoldable pub remaining_seconds : SourceCooldown → ℕ → ℕ
remaining_seconds c monotonic = ceil_seconds c.until monotonic

unfoldable pub trip : SourceCooldown → ℕ → SourceCooldown
trip c monotonic = record c { until = monotonic + c.seconds * second }

unfoldable pub reset : SourceCooldown → SourceCooldown
reset c = record c { until = 0 }

pub data Variant : Type 0 where
  current : Variant
  forecast : Variant

-- The fields of a city's weather that this code reads; a day of the forecast is a text.
pub record WeatherCity : Type 0 where
  pub id : String
  pub name : String
  pub observed_at : ℕ
  pub forecast : List String

pub record WeatherReading : Type 0 where
  pub fetched_at : ℕ
  pub city : WeatherCity

-- "variant:code"
pub data Key : Type 0 where
  key : Variant → String → Key

abbrev pub variant_beq : Variant → Variant → Bool
variant_beq current current = true
variant_beq forecast forecast = true
variant_beq _ _ = false

abbrev pub reading_key_beq : Key → Key → Bool
reading_key_beq (key v c) (key w d) = variant_beq v w && c == d

pub variant_beq_iff : (v w : Variant) → (variant_beq v w ≡ true) ↔ (v ≡ w)
variant_beq_iff current current = ground arith
variant_beq_iff current forecast = ground arith
variant_beq_iff forecast current = ground arith
variant_beq_iff forecast forecast = ground arith

pub reading_key_beq_iff : (a b : Key) → (reading_key_beq a b ≡ true) ↔ (a ≡ b)
reading_key_beq_iff (key v c) (key w d) = ground (arith, variant_beq_iff v w, ==_iff c d)

instance abbrev pub reading_key_eq : HasEq Key
reading_key_eq = record { same_iff = reading_key_beq_iff; same = reading_key_beq }

abbrev pub Readings : Type 0
Readings = TtlCache Key WeatherReading

-- The rate limit that a source announced: its end, and the error's message and seconds.
pub record RateLimited : Type 0 where
  pub until : ℕ
  pub error : Option (String × ℕ)

pub record Weather : Type 0 where
  pub readings : Readings
  pub cooldown : SourceCooldown
  pub limited : RateLimited

unfoldable pub rate_limit_cooldown : Weather → ℕ → Option DomainError
rate_limit_cooldown w monotonic =
    if leb w.limited.until monotonic then none else elim w.limited.error [
      | none ↦ none
      | some (message, seconds) ↦
          some (provider_rate_limited message (ceil_seconds w.limited.until monotonic))
    ]

unfoldable pub start_rate_limit_cooldown : Weather → ℕ → String → ℕ → Weather
start_rate_limit_cooldown w monotonic message seconds = record w {
  limited = record { until = monotonic + seconds * second; error = some (message, seconds) };
}

unfoldable pub source_failing : Weather → ℕ → Bool
source_failing w monotonic =
    is_some (rate_limit_cooldown w monotonic) || active w.cooldown monotonic

-- -FUTURE_TOLERANCE <= now - observed_at <= max_age
unfoldable pub within : WeatherCity → ℕ → ℕ → Bool
within city now max_age =
    leb city.observed_at (now + future_tolerance) && leb now (city.observed_at + max_age)

unfoldable pub is_fresh : WeatherReading → ℕ → ℕ → Bool
unfolding within
is_fresh reading now freshness =
    ltb now
      (max (reading.city.observed_at + freshness) (reading.fetched_at + min_freshness_after_fetch))
    && within reading.city now max_data_age

-- {key: reading for key in keys if _readings.get(key) is not None}
unfoldable pub local : Readings → ℕ → List Key → Readings × List (Key × WeatherReading)
local c monotonic [] = (c, [])
local c monotonic (k ∷ ks) =
    let (c', found) = Cache.get c monotonic k in
    let (c'', rest) = local c' monotonic ks in
    (c'', elim found [ none ↦ rest | some r ↦ (k, r) ∷ rest ])

-- `reading.fetched_at > found[key].fetched_at`, or nothing found
abbrev pub newer : WeatherReading → Option WeatherReading → Bool
newer r none = true
newer r (some old) = ltb old.fetched_at r.fetched_at

unfoldable pub merge_shared :
    (Key → Option WeatherReading)
    → ℕ
    → List Key
    → Readings × List (Key × WeatherReading)
    → Readings × List (Key × WeatherReading)
merge_shared shared monotonic [] (c, found) = (c, found)
merge_shared shared monotonic (k ∷ ks) (c, found) =
    merge_shared shared monotonic ks (elim (shared k) [
      | none ↦ (c, found)
      | some r ↦
          if newer r (lookup k found)
          then (Cache.set c monotonic k r none, set_item k r found)
          else (c, found)
    ])

-- The keys that the shared store is asked for.
abbrev pub is_pending : List (Key × WeatherReading) → ℕ → ℕ → Key → Bool
is_pending found now freshness k = elim (lookup k found) [
  | none ↦ true
  | some r ↦ not (is_fresh r now freshness)
]

unfoldable pub load :
    (Key → Option WeatherReading)
    → Readings
    → ℕ
    → ℕ
    → ℕ
    → List Key
    → Readings × List (Key × WeatherReading)
unfolding local merge_shared
load shared c monotonic now freshness keys =
    let (c', found) = local c monotonic keys in
    merge_shared shared monotonic (keep (is_pending found now freshness) keys) (c', found)

-- The local half of `_save`.
unfoldable pub save : Readings → ℕ → List (Key × WeatherReading) → Readings
save c monotonic [] = c
save c monotonic ((k, r) ∷ rest) = save (Cache.set c monotonic k r none) monotonic rest

-- The readings of a point: its own, and without the forecast for the current conditions.
abbrev pub entries_of : Variant → String → WeatherReading → List (Key × WeatherReading)
entries_of current code r = (key current code, r) ∷ []
entries_of forecast code r =
    (key forecast code, r)
    ∷ (key current code, record r { city = record (r.city) { forecast = [] } })
    ∷ []

-- The loop over points and cities, with the entries to store.
unfoldable pub stored_entries :
    Variant → ℕ → List String → List WeatherCity → List (Key × WeatherReading)
stored_entries variant now (code ∷ codes) (city ∷ cities) =
    entries_of variant code (record { fetched_at = now; city = record city { id = code } })
    ++ stored_entries variant now codes cities
stored_entries variant now _ _ = []

unfoldable pub fetched_entries : ℕ → List String → List WeatherCity → List (String × WeatherReading)
fetched_entries now (code ∷ codes) (city ∷ cities) =
    (code, record { fetched_at = now; city = record city { id = code } })
    ∷ fetched_entries now codes cities
fetched_entries now _ _ = []

-- The seconds that the message adds are left out.
abbrev pub not_responding : DomainError
not_responding = provider "A fonte de clima (Open-Meteo) não está respondendo." no_details

abbrev pub not_recent : DomainError
not_recent = provider "A fonte de clima não retornou condições recentes." no_details

-- The two `except` clauses: a rate limit starts its cooldown, any other provider's error trips the
-- source's.
unfoldable pub note_failure : Weather → ℕ → DomainError → Weather
unfolding start_rate_limit_cooldown trip
note_failure w monotonic (provider_rate_limited message seconds) =
    start_rate_limit_cooldown w monotonic message seconds
note_failure w monotonic (provider message details) = record w {
  cooldown = trip w.cooldown monotonic;
}
note_failure w monotonic _ = w

-- `answer` is what the source's client gives for the points, all chunks together: its cities, or
-- the error of the first chunk that fails. The fetch starts at `started`.
unfoldable pub fetch_and_store :
    Weather
    → ℕ
    → ℕ
    → ℕ
    → Variant
    → List String
    → Result (List WeatherCity)
    → Weather × Result (List (String × WeatherReading))
unfolding rate_limit_cooldown active note_failure within save stored_entries fetched_entries
fetch_and_store w started monotonic now variant codes answer =
    elim (rate_limit_cooldown w started) [
      | some limited ↦ (w, raise limited)
      | none ↦ if active w.cooldown started then (w, raise not_responding) else elim answer [
        | raise e ↦ (note_failure w monotonic e, raise e)
        | ok cities ↦
            if not (all_of (λ city. within city now max_data_age) cities)
            then (note_failure w monotonic not_recent, raise not_recent)
            else if not (length codes == length cities)
            then (w, raise (internal "ValueError"))
            else (
              record w {
                readings = save w.readings monotonic (stored_entries variant now codes cities);
              },
              ok (fetched_entries now codes cities),
            )
      ]
    ]
