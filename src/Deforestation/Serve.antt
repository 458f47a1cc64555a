-- ===== src/Deforestation/Serve.antt =====
-- app/services/deforestation_alerts.py, `get_alerts`: the alerts from the caches or from the source, and the
-- rest after a failure. What the shared cache and the source answer are arguments, and the seconds for
-- which the result goes to the shared cache are returned.
use brasil_lens_backend.Common.{
  Arithmetic, ℕ, Bool, true, false, Option, none, some, List, nat_eq, list_eq, pair_eq, or_default,
  if◌then◌else◌,
}
use brasil_lens_backend.Errors.{Result, ok, raise, is_provider_error}
use brasil_lens_backend.Cache
use brasil_lens_backend.Cache.{TtlCache}
use brasil_lens_backend.Deforestation.{
  Text, Alert, Area, DeforestationAlerts, aggregate, window_days, partial_ttl, unavailable,
}

-- "day:14:version"
abbrev pub AlertsKey : Type 0
AlertsKey = ℕ × ℕ

module _ (A : Type 0) where
  pub record AlertsService : Type 0 where
    pub cache : TtlCache AlertsKey (DeforestationAlerts A)
    pub failures : TtlCache AlertsKey Bool

  -- The clock, the shared cache, the source with the biomes that answered, and the territories.
  pub record Sources : Type 0 where
    pub monotonic : ℕ
    pub now : ℕ
    pub day : ℕ
    pub version : ℕ
    pub shared : Option (DeforestationAlerts A)
    pub fetched : Result (List (Alert A) × List Text)
    pub areas : List (Area A)
    pub states : List (Area A)

module _ {A : Type 0} (r : Arithmetic A) (normalize : Text → Text) where
  abbrev ttl_of : DeforestationAlerts A → Option ℕ
  ttl_of result = if result.partial then some partial_ttl else none

  -- The source is asked.
  unfoldable pub fetch :
      AlertsService A
      → Sources A
      → AlertsKey
      → AlertsService A × Result (DeforestationAlerts A) × Option ℕ
  fetch s w key = elim w.fetched [
    | raise e ↦ (
      (if is_provider_error e
          then record s { failures = Cache.set s.failures w.monotonic key true none }
          else s),
      raise e,
      none,
    )
    | ok (alerts, answered) ↦
        let result : DeforestationAlerts A =
          aggregate r normalize alerts w.areas w.states w.now window_days answered in
        (
          record s { cache = Cache.set s.cache w.monotonic key result (ttl_of result) },
          ok result,
          some (or_default (ttl_of result) 7200),
        )
  ]

  unfoldable pub get_alerts :
      AlertsService A → Sources A → AlertsService A × Result (DeforestationAlerts A) × Option ℕ
  unfolding fetch
  get_alerts s w =
      let key : AlertsKey = (w.day, w.version) in
      let (cache, cached) = Cache.get s.cache w.monotonic key in
      let s' : AlertsService A = record s { cache = cache } in
      elim cached [
        | some alerts ↦ (s', ok alerts, none)
        | none ↦ elim w.shared [
          | some alerts ↦ (
            record s' { cache = Cache.set cache w.monotonic key alerts (some 30) },
            ok alerts,
            none,
          )
          | none ↦
              let (failures, failing) = Cache.get s'.failures w.monotonic key in
              let s'' : AlertsService A = record s' { failures = failures } in
              if or_default failing false then (s'', raise unavailable, none) else fetch s'' w key
        ]
      ]
