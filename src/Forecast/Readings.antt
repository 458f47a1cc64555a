-- ===== src/Forecast/Readings.antt =====
-- What a fetch returns, and what it keeps of the readings.
use brasil_lens_backend.Common.{
  ℕ, ap, subst, suc, ◌+◌, ◌*◌, ◌≤◌, ◌<◌, ◌≡◌, ◌∙◌, sym, refl, true, false, none, some, String,
  string_eq, List, [], ◌∷◌, ◌==◌, ==_iff, nat_eq, all_of, lookup, Distinct, length, if◌then◌else◌,
  arith, All,
}
use brasil_lens_backend.Errors.{ok, is_ok}
use brasil_lens_backend.Cache
use brasil_lens_backend.Cache.{TtlCache, second}
use brasil_lens_backend.Cache.Reads.{lookup-set_room}
use brasil_lens_backend.Cache.Bounds.{step, step_config, write}
use brasil_lens_backend.Cache.Room.{IsReady, peek, IsReady-set, IsReady-le}
use brasil_lens_backend.Forecast.{
  Weather, WeatherCity, WeatherReading, Variant, current, forecast, Key, key, reading_key_eq,
  Readings, within, is_fresh, max_data_age, fetch_and_store, save, stored_entries, fetched_entries,
  source_failing,
}
use brasil_lens_backend.Forecast.Cooldown.{fetch_and_store_iff, idle_limit, idle_source}

fetched_fresh :
    (now freshness : ℕ) (codes : List String) (cities : List WeatherCity)
    → all_of (λ city. within city now max_data_age) cities ≡ true
    → length codes ≡ length cities
    → All (λ e. is_fresh e.1 now freshness ≡ true) (fetched_entries now codes cities)
      × (length (fetched_entries now codes cities) ≡ length codes)
unfolding fetched_entries is_fresh within
fetched_fresh now freshness [] cities h e = (tt, refl)
fetched_fresh now freshness (code ∷ codes) [] h e = ground (arith, e)
fetched_fresh now freshness (code ∷ codes) (city ∷ cities) h e =
    let (rest, len) =
      fetched_fresh now freshness codes cities (ground (arith, h)) (omega (arith, e)) in
    ((ground (arith, h), rest), omega (arith, len))

lookup-stored_entries :
    (variant : Variant) (now : ℕ) (code : String) (codes : List String) (cities : List WeatherCity)
    → lookup (key variant code) (stored_entries variant now codes cities)
      ≡ lookup code (fetched_entries now codes cities)
unfolding stored_entries fetched_entries lookup
lookup-stored_entries variant now code [] cities = refl
lookup-stored_entries variant now code (c ∷ codes) [] = refl
lookup-stored_entries current now code (c ∷ codes) (city ∷ cities) =
    ground (arith, lookup-stored_entries current now code codes cities)
lookup-stored_entries forecast now code (c ∷ codes) (city ∷ cities) =
    ground (arith, lookup-stored_entries forecast now code codes cities)

stored_none :
    (variant v : Variant) (now : ℕ) (code : String) (codes : List String)
    (cities : List WeatherCity)
    → lookup code (fetched_entries now codes cities) ≡ none
    → lookup (key v code) (stored_entries variant now codes cities) ≡ none
unfolding stored_entries fetched_entries lookup
stored_none variant v now code [] cities h = refl
stored_none variant v now code (c ∷ codes) [] h = refl
stored_none current v now code (c ∷ codes) (city ∷ cities) h =
    ground (arith, stored_none current v now code codes cities)
stored_none forecast v now code (c ∷ codes) (city ∷ cities) h =
    ground (arith, stored_none forecast v now code codes cities)

Distinct-stored_entries :
    (variant : Variant) (now : ℕ) (codes : List String) (cities : List WeatherCity)
    → Distinct (fetched_entries now codes cities)
    → Distinct (stored_entries variant now codes cities)
unfolding stored_entries fetched_entries lookup
Distinct-stored_entries variant now [] cities d = tt
Distinct-stored_entries variant now (c ∷ codes) [] d = tt
Distinct-stored_entries current now (c ∷ codes) (city ∷ cities) d = (
  stored_none current current now c codes cities d.0,
  Distinct-stored_entries current now codes cities d.1,
)
Distinct-stored_entries forecast now (c ∷ codes) (city ∷ cities) d = (
  stored_none forecast forecast now c codes cities d.0,
  (
    stored_none forecast current now c codes cities d.0,
    Distinct-stored_entries forecast now codes cities d.1,
  ),
)

peek-set_default :
    (n : ℕ) (c : Readings) (m t : ℕ) (k j : Key) (r : WeatherReading)
    → IsReady (suc n) c
    → 0 < c.ttl
    → t ≤ m + c.ttl * second
    → peek (Cache.set c m k r none) t j ≡ (if k == j then some r else peek c t j)
peek-set_default n c m t k j r ready pos le =
    ground (arith, ready.room, lookup-set_room c m k j r none ready.valid.distinct ready.on pos)

-- What is saved is found until the time to live has passed, and the rest is as it was.
peek-save :
    (c : Readings) (m t : ℕ) (es : List (Key × WeatherReading)) (j : Key)
    → IsReady (length es) c
    → 0 < c.ttl
    → t ≤ m + c.ttl * second
    → Distinct es
    → peek (save c m es) t j ≡ (elim (lookup j es) [ none ↦ peek c t j | some r ↦ some r ])
unfolding save lookup step
peek-save c m t [] j ready pos le d = refl
peek-save c m t ((k, r) ∷ es) j ready pos le d =
    let ttl : (Cache.set c m k r none).ttl ≡ c.ttl = (step_config c (write m k r none)).0 in
    ground (
      arith,
      peek-set_default (length es) c m t k j r ready pos le,
      peek-save (Cache.set c m k r none) m t es j (IsReady-set (length es) c m k r none ready)
          (omega (arith, ttl)) (rw ttl le) d.1,
      d.0,
      ==_iff k j,
    )

length-stored_entries :
    (variant : Variant) (now : ℕ) (codes : List String) (cities : List WeatherCity)
    → length (stored_entries variant now codes cities) ≤ 2 * length codes
unfolding stored_entries
length-stored_entries variant now [] cities = omega arith
length-stored_entries variant now (c ∷ codes) [] = omega arith
length-stored_entries current now (c ∷ codes) (city ∷ cities) =
    omega (arith, length-stored_entries current now codes cities)
length-stored_entries forecast now (c ∷ codes) (city ∷ cities) =
    omega (arith, length-stored_entries forecast now codes cities)

ok_injective : {A : Type 0} {a b : A} → ok a ≡ ok b → a ≡ b
ok_injective h = cc h

module _ (w : Weather) (started monotonic now : ℕ) (variant : Variant) (codes : List String)
    (cities : List WeatherCity) where
  succeeded :
      is_ok (fetch_and_store w started monotonic now variant codes (ok cities)).1 ≡ true
      → fetch_and_store w started monotonic now variant codes (ok cities) ≡ (
        record w { readings = save w.readings monotonic (stored_entries variant now codes cities) },
        ok (fetched_entries now codes cities),
      )
        × (all_of (λ city. within city now max_data_age) cities ≡ true)
        × (length codes ≡ length cities)
  unfolding fetch_and_store
  succeeded h =
      let e = fetch_and_store_iff w started monotonic now variant codes (ok cities) in
      let idle : source_failing w started ≡ false = ground (arith, e, h) in
      let recent : all_of (λ city. within city now max_data_age) cities ≡ true =
        ground (arith, e, h) in
      let len : (length codes == length cities) ≡ true = ground (arith, e, h) in
      (
        rw (idle_limit w started idle, idle_source w started idle, recent, len, fetch_and_store),
        recent,
        ground (arith, len),
      )

  succeeded_of :
      (rs : List (String × WeatherReading))
      → (fetch_and_store w started monotonic now variant codes (ok cities)).1 ≡ ok rs
      → rs ≡ fetched_entries now codes cities
  succeeded_of rs h = ok_injective (sym h ∙ ap (λ x. x.1) (succeeded (rw h)).0)

  -- A fetch that succeeds gives a reading for each point, each of them fresh at that instant,
  -- however fresh a reading is asked for.
  pub fetch_and_store-fresh :
      (freshness : ℕ) (rs : List (String × WeatherReading))
      → (fetch_and_store w started monotonic now variant codes (ok cities)).1 ≡ ok rs
      → All (λ e. is_fresh e.1 now freshness ≡ true) rs × (length rs ≡ length codes)
  fetch_and_store-fresh freshness rs h =
      let (state, recent, len) = succeeded (rw h) in
      rw (succeeded_of rs h) (fetched_fresh now freshness codes cities recent len)

  -- What a fetch gives is found in the readings from then on, until their time to live has passed,
  -- where they have room for it and no point is asked for twice.
  pub fetch_and_store-peek :
      (t : ℕ) (code : String) (r : WeatherReading) (rs : List (String × WeatherReading))
      → (fetch_and_store w started monotonic now variant codes (ok cities)).1 ≡ ok rs
      → IsReady (2 * length codes) w.readings
      → 0 < w.readings.ttl
      → Distinct rs
      → lookup code rs ≡ some r
      → t ≤ monotonic + w.readings.ttl * second
      → peek
          (fetch_and_store w started monotonic now variant codes (ok cities)).0.readings
          t
          (key variant code)
        ≡ some r
  fetch_and_store-peek t code r rs h ready pos d found le =
      let (state, recent, len) = succeeded (rw h) in
      let same = succeeded_of rs h in
      rw state (
        peek-save w.readings monotonic t (stored_entries variant now codes cities)
          (key variant code)
          (IsReady-le _ (2 * length codes) w.readings
            (length-stored_entries variant now codes cities) ready)
          pos le (Distinct-stored_entries variant now codes cities (subst Distinct same d))
        ∙ rw (lookup-stored_entries variant now code codes cities, sym same, found))
