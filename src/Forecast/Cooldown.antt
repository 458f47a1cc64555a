-- ===== src/Forecast/Cooldown.antt =====
-- When the source is asked, and how long it is left alone.
use brasil_lens_backend.Common.{
  ℕ, ◌∙◌, ◌+◌, ◌*◌, ◌≤◌, ◌<◌, ◌≡◌, refl, Bool, true, false, not, ◌&&◌, none, some, String, List,
  ◌==◌, nat_eq, all_of, length, if◌then◌else◌, arith, Option-cases, Bool-cases, inl, inr, lt→ltb,
  lt→leb_false,
}
use brasil_lens_backend.Errors.{
  internal, Result, ok, raise, is_ok, DomainError, ProviderDetails, provider, provider_rate_limited,
}
use brasil_lens_backend.Cache.{second}
use brasil_lens_backend.RateLimit.{ceil_seconds}
use brasil_lens_backend.Forecast.{
  Weather, WeatherCity, WeatherReading, Variant, active, trip, rate_limit_cooldown,
  start_rate_limit_cooldown, source_failing, within, max_data_age, note_failure, fetch_and_store,
  save, stored_entries, fetched_entries, not_recent,
}

-- The answer is one that can be used: a recent city for each point.
abbrev pub is_usable : ℕ → List String → Result (List WeatherCity) → Bool
is_usable now codes (ok cities) =
    all_of (λ city. within city now max_data_age) cities && length codes == length cities
is_usable now codes (raise e) = false

pub idle_limit :
    (w : Weather) (started : ℕ)
    → source_failing w started ≡ false
    → rate_limit_cooldown w started ≡ none
unfolding source_failing
idle_limit w started h = elim (Option-cases (rate_limit_cooldown w started)) [
  | inl p ↦ p
  | inr (e, p) ↦ ground (arith, p, h)
]

pub idle_source :
    (w : Weather) (started : ℕ)
    → source_failing w started ≡ false
    → active w.cooldown started ≡ false
unfolding source_failing
idle_source w started h = ground (arith, h)

module _ (w : Weather) (started monotonic now : ℕ) (variant : Variant) (codes : List String) where
  -- A source that is asked and fails.
  asked :
      (e : DomainError)
      → source_failing w started ≡ false
      → fetch_and_store w started monotonic now variant codes (raise e)
        ≡ (note_failure w monotonic e, raise e)
  unfolding fetch_and_store
  asked e h = rw (idle_limit w started h, idle_source w started h, fetch_and_store)

  -- While the source is left alone a fetch changes nothing and fails, whatever it would answer.
  resting :
      (answer : Result (List WeatherCity))
      → source_failing w started ≡ true
      → ((fetch_and_store w started monotonic now variant codes answer).0 ≡ w)
        × (is_ok (fetch_and_store w started monotonic now variant codes answer).1 ≡ false)
  unfolding fetch_and_store source_failing
  resting answer h = elim (Option-cases (rate_limit_cooldown w started)) [
    | inl p ↦
        let on : active w.cooldown started ≡ true = ground (arith, p, h) in
        (rw (p, on, fetch_and_store), rw (p, on, fetch_and_store))
    | inr (e, p) ↦ (rw (p, fetch_and_store), rw (p, fetch_and_store))
  ]

  -- A fetch succeeds exactly where the source is not being left alone and its answer is a recent
  -- city for each point.
  pub fetch_and_store_iff :
      (answer : Result (List WeatherCity))
      → is_ok (fetch_and_store w started monotonic now variant codes answer).1
        ≡ (not (source_failing w started) && is_usable now codes answer)
  unfolding fetch_and_store
  fetch_and_store_iff answer = elim (Bool-cases (source_failing w started)) [
    | inl p ↦ (resting answer p).1 ∙ rw p
    | inr p ↦ rw (p, idle_limit w started p, idle_source w started p, fetch_and_store) (used answer)
  ]
    where
      used :
          (a : Result (List WeatherCity))
          → is_ok
              (elim a as (λ x. Weather × Result (List (String × WeatherReading))) [
                | raise e ↦ (note_failure w monotonic e, raise e)
                | ok cities ↦
                    if not (all_of (λ city. within city now max_data_age) cities)
                    then (note_failure w monotonic not_recent, raise not_recent)
                    else if not (length codes == length cities)
                    then (w, raise (internal "ValueError"))
                    else (
                      record w {
                        readings =
                            save w.readings monotonic (stored_entries variant now codes cities);
                      },
                      ok (fetched_entries now codes cities),
                    )
              ]).1
            ≡ is_usable now codes a
      used (raise e) = refl
      used (ok cities) = ground arith

limit_left :
    (w : Weather) (monotonic t seconds : ℕ) (message : String)
    → t < monotonic + seconds * second
    → rate_limit_cooldown (note_failure w monotonic (provider_rate_limited message seconds)) t
      ≡ some (provider_rate_limited message (ceil_seconds (monotonic + seconds * second) t))
unfolding rate_limit_cooldown note_failure start_rate_limit_cooldown
limit_left w monotonic t seconds message lt = rw (lt→leb_false _ _ lt)

seconds_left :
    (monotonic t seconds : ℕ)
    → monotonic ≤ t
    → t < monotonic + seconds * second
    → (0 < ceil_seconds (monotonic + seconds * second) t)
      × (ceil_seconds (monotonic + seconds * second) t ≤ seconds)
unfolding ceil_seconds
seconds_left monotonic t seconds le lt = (omega arith, omega arith)

-- Once the source has answered that its limit is reached, no fetch of the next seconds it announced
-- asks it: each changes nothing and tells the seconds that are left, at least one and no more than
-- announced.
pub rate_limit_rests :
    (w : Weather) (started monotonic now : ℕ) (variant : Variant) (codes : List String)
    (message : String) (seconds t t' now' : ℕ) (variant' : Variant) (codes' : List String)
    (answer : Result (List WeatherCity))
    → source_failing w started ≡ false
    → monotonic ≤ t
    → t < monotonic + seconds * second
    → let after =
        (fetch_and_store w started monotonic now variant codes
          (raise (provider_rate_limited message seconds))).0 in
      let left = ceil_seconds (monotonic + seconds * second) t in
      (fetch_and_store after t t' now' variant' codes' answer
        ≡ (after, raise (provider_rate_limited message left)))
      × (0 < left)
      × (left ≤ seconds)
unfolding fetch_and_store
rate_limit_rests w started monotonic now variant codes message seconds t t' now' variant' codes'
      answer idle le lt =
    let (pos, most) = seconds_left monotonic t seconds le lt in
    (
      rw (asked w started monotonic now variant codes (provider_rate_limited message seconds) idle)
          (told (note_failure w monotonic (provider_rate_limited message seconds)) _
            (limit_left w monotonic t seconds message lt)),
      pos,
      most,
    )
  where
    told :
        (x : Weather) (e : DomainError)
        → rate_limit_cooldown x t ≡ some e
        → fetch_and_store x t t' now' variant' codes' answer ≡ (x, raise e)
    told x e h = rw (h, fetch_and_store)

tripped :
    (w : Weather) (monotonic t : ℕ) (message : String) (details : ProviderDetails)
    → t < monotonic + w.cooldown.seconds * second
    → source_failing (note_failure w monotonic (provider message details)) t ≡ true
unfolding source_failing note_failure trip active
tripped w monotonic t message details lt = ground (arith, lt→ltb _ _ lt)

-- Once the source has failed otherwise, no fetch asks it until its cooldown ends: each changes
-- nothing and fails.
pub failure_rests :
    (w : Weather) (started monotonic now : ℕ) (variant : Variant) (codes : List String)
    (message : String) (details : ProviderDetails) (t t' now' : ℕ) (variant' : Variant)
    (codes' : List String) (answer : Result (List WeatherCity))
    → source_failing w started ≡ false
    → t < monotonic + w.cooldown.seconds * second
    → let after =
        (fetch_and_store w started monotonic now variant codes
          (raise (provider message details))).0 in
      ((fetch_and_store after t t' now' variant' codes' answer).0 ≡ after)
      × (is_ok (fetch_and_store after t t' now' variant' codes' answer).1 ≡ false)
failure_rests w started monotonic now variant codes message details t t' now' variant' codes' answer
      idle lt =
    rw (asked w started monotonic now variant codes (provider message details) idle) (
      resting (note_failure w monotonic (provider message details)) t t' now' variant' codes' answer
        (tripped w monotonic t message details lt))
