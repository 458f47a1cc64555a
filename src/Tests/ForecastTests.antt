-- ===== src/Tests/ForecastTests.antt =====
-- app/services/weather_forecast.py at concrete inputs.
use brasil_lens_backend.Common.{
  ℕ, ◌+◌, ◌*◌, ◌≤◌, ◌<◌, ◌≡◌, refl, false, not, ◌&&◌, string_eq, [], ◌∷◌, none, some, nat_eq, arith,
  lookup,
}
use brasil_lens_backend.Errors.{is_ok, ok, raise, provider, provider_rate_limited, no_details}
use brasil_lens_backend.Cache
use brasil_lens_backend.Cache.{second}
use brasil_lens_backend.Cache.Room.{IsReady-init, peek}
use brasil_lens_backend.RateLimit.{ceil_seconds}
use brasil_lens_backend.Forecast.{
  Weather, WeatherCity, WeatherReading, Variant, key, reading_key_eq, minute, reading_ttl_seconds,
  active, trip, rate_limit_cooldown, source_failing, within, note_failure,
  start_rate_limit_cooldown, fetch_and_store, fetched_entries,
}
use brasil_lens_backend.Forecast.Cooldown.{
  is_usable, fetch_and_store_iff, rate_limit_rests, failure_rests,
}
use brasil_lens_backend.Forecast.Readings.{fetch_and_store-peek}

program : Unit {0}
unfolding Cache.init active trip rate_limit_cooldown source_failing within note_failure
    start_rate_limit_cooldown fetch_and_store fetched_entries lookup
program = tt

abbrev idle : Weather
idle = record {
  readings = Cache.init reading_ttl_seconds 12_000;
  cooldown = record { seconds = 60; until = 0 };
  limited = record { until = 0; error = none };
}

abbrev natal : WeatherCity
natal = record { id = "RN"; name = "Natal"; observed_at = 100 * minute; forecast = "sol" ∷ [] }

abbrev now : ℕ
now = 110 * minute

abbrev natal_reading : WeatherReading
natal_reading = record { fetched_at = now; city = record natal { id = "2408102" } }

fetch_and_store_iff_example :
    is_ok (fetch_and_store idle 5 9 now Variant.forecast ("2408102" ∷ []) (ok (natal ∷ []))).1
    ≡ (not (source_failing idle 5) && is_usable now ("2408102" ∷ []) (ok (natal ∷ [])))
fetch_and_store_iff_example =
    fetch_and_store_iff idle 5 9 now Variant.forecast ("2408102" ∷ []) (ok (natal ∷ []))

rate_limit_rests_example :
    let after =
      (fetch_and_store idle 5 9 now Variant.current
        ("2408102" ∷ [])
        (raise (provider_rate_limited "limite" 30))).0 in
    let left = ceil_seconds (9 + 30 * second) 1000 in
    (fetch_and_store after 1000 1001 now Variant.current ("2408102" ∷ []) (ok (natal ∷ []))
      ≡ (after, raise (provider_rate_limited "limite" left)))
    × (0 < left)
    × (left ≤ 30)
unfolding program
rate_limit_rests_example =
    rate_limit_rests idle 5 9 now Variant.current ("2408102" ∷ []) "limite" 30 1000 1001 now
      Variant.current ("2408102" ∷ []) (ok (natal ∷ [])) refl (omega arith) (omega arith)

failure_rests_example :
    let after =
      (fetch_and_store idle 5 9 now Variant.current
        ("2408102" ∷ [])
        (raise (provider "falha" no_details))).0 in
    ((fetch_and_store after 1000 1001 now Variant.current ("2408102" ∷ []) (ok (natal ∷ []))).0
      ≡ after)
    × (is_ok
          (fetch_and_store after 1000 1001 now Variant.current ("2408102" ∷ []) (ok (natal ∷ []))).1
        ≡ false)
unfolding program
failure_rests_example =
    failure_rests idle 5 9 now Variant.current ("2408102" ∷ []) "falha" no_details 1000 1001 now
      Variant.current ("2408102" ∷ []) (ok (natal ∷ [])) refl (omega arith)

fetch_and_store-peek_example :
    peek
      (fetch_and_store idle 5 9 now Variant.forecast ("2408102" ∷ []) (ok (natal ∷ []))).0.readings
      500
      (key Variant.forecast "2408102")
    ≡ some natal_reading
unfolding program
fetch_and_store-peek_example =
    fetch_and_store-peek idle 5 9 now Variant.forecast ("2408102" ∷ []) (natal ∷ []) 500 "2408102"
      natal_reading (("2408102", natal_reading) ∷ []) refl
      (IsReady-init 2 reading_ttl_seconds 12_000 (omega arith) (omega arith) (omega arith))
      (omega arith) (refl, tt) refl (omega arith)
