-- ===== src/Hydrography/Serve.antt =====
-- app/services/hydrography.py, `get_hydrography`: the response of an area, from the caches, from the
-- source, or from the snapshot of the major rivers while the source rests. What the shared cache and
-- the source answer are arguments, and whether the response goes to the shared cache is returned.
use brasil_lens_backend.Common.{
  Arithmetic, ℕ, Bool, true, false, not, ◌&&◌, ◌||◌, Option, none, some, List, [], ◌∷◌, ◌++◌, HasEq,
  nat_eq, option_eq, pair_eq, or_default, is_some, keep, length, if◌then◌else◌,
}
use brasil_lens_backend.Cache
use brasil_lens_backend.Cache.{TtlCache}
use brasil_lens_backend.Forecast.{SourceCooldown, active, trip}
use brasil_lens_backend.Hydrography.{Box, HydroFeature, hydro_detail}
use brasil_lens_backend.Hydrography.Shapes.{visible_river}

pub data HydroStatus : Type 0 where
  ok_status : HydroStatus
  partial : HydroStatus

abbrev pub hydro_cache_ttl_seconds : ℕ
hydro_cache_ttl_seconds = 86_400

abbrev pub partial_cache_seconds : ℕ
partial_cache_seconds = 60

-- The collection, which the code keeps as JSON, with its status.
pub record HydroResponse (A : Type 0) : Type 0 where
  pub status : HydroStatus
  pub river_count : ℕ
  pub water_body_count : ℕ
  pub bbox : Box A
  pub features : List (HydroFeature A)

module _ (A : Type 0) where
  -- f"{drainage}:{area}"
  abbrev pub AreaKey : Type 0
  AreaKey = A × (A × (A × (A × A)))

  pub record Service : Type 0 where
    pub cache : TtlCache AreaKey (HydroResponse A)
    pub ana_cooldown : SourceCooldown

  -- What a request meets outside: the clock, the shared cache, and the bodies and rivers that the
  -- source gives, `none` where `_or_none` caught an error.
  pub record Surroundings : Type 0 where
    pub now : ℕ
    pub stored : Option (HydroResponse A)
    pub water_bodies : Option (List (HydroFeature A))
    pub rivers : Option (List (HydroFeature A))
    pub fetched_at : ℕ

module _ {A : Type 0} (r : Arithmetic A) where
  -- BRAZIL_BBOX
  abbrev pub brazil_bbox : Box A
  brazil_bbox = (
    r.negate (r.literal 7399 2),
    r.negate (r.literal 3375 2),
    r.negate (r.literal 2884 2),
    r.literal 527 2,
  )

  abbrev pub area_of : A → Option (Box A) → Box A
  area_of zoom none = brazil_bbox
  area_of zoom (some box) = if r.at_least zoom (r.literal 6 0) then box else brazil_bbox

  abbrev pub key_of : A → Box A → AreaKey A
  key_of drainage (west, south, east, north) = (drainage, (west, (south, (east, north))))

  unfoldable pub snapshot_of : A → List (HydroFeature A) → List (HydroFeature A)
  snapshot_of drainage major_rivers =
      keep (λ river. r.at_least (or_default river.drainage_area_km2 r.zero) drainage) major_rivers

  unfoldable pub visible_rivers : Box A → A → List (HydroFeature A) → List (HydroFeature A)
  visible_rivers area tolerance [] = []
  visible_rivers area tolerance (river ∷ rivers) =
      let rest = visible_rivers area tolerance rivers in
      elim (visible_river r river area tolerance) [ none ↦ rest | some part ↦ part ∷ rest ]

  -- The bodies and the rivers of a request: nothing is fetched while the source rests, and rivers
  -- are fetched from zoom 6 on.
  unfoldable pub fetched :
      A
      → List (HydroFeature A)
      → Bool
      → Surroundings A
      → Option (List (HydroFeature A)) × Option (List (HydroFeature A))
  fetched zoom snapshot resting w =
      if resting
      then (none, some snapshot)
      else (w.water_bodies, (if r.at_least zoom (r.literal 6 0) then w.rivers else some snapshot))

  unfoldable pub assemble :
      Box A
      → A
      → List (HydroFeature A)
      → Option (List (HydroFeature A)) × Option (List (HydroFeature A))
      → HydroResponse A
  unfolding visible_rivers
  assemble area tolerance snapshot (bodies, rivers) =
      let visible : List (HydroFeature A) =
        visible_rivers area tolerance (or_default rivers snapshot) in
      record {
        status = if is_some bodies && is_some rivers then ok_status else partial;
        river_count = length visible;
        water_body_count = length (or_default bodies []);
        bbox = area;
        features = visible ++ or_default bodies [];
      }

  abbrev pub is_partial : HydroResponse A → Bool
  is_partial response = elim response.status [ ok_status ↦ false | partial ↦ true ]

  module _ ⦃e : HasEq A⦄ where
    -- From the snapshot and the source, where both caches have nothing: the service that is left, the
    -- response, and whether it is written to the shared cache.
    unfoldable pub respond :
        Service A
        → List (HydroFeature A)
        → Surroundings A
        → A
        → Box A
        → Service A × HydroResponse A × Bool
    unfolding fetched assemble snapshot_of hydro_detail
    respond s major_rivers w zoom area =
        let (drainage, minimum, tolerance) = hydro_detail r zoom in
        let snapshot : List (HydroFeature A) = snapshot_of drainage major_rivers in
        let resting : Bool = active s.ana_cooldown w.now in
        let sources : Option (List (HydroFeature A)) × Option (List (HydroFeature A)) =
          fetched zoom snapshot resting w in
        let response : HydroResponse A = assemble area tolerance snapshot sources in
        let failed : Bool = not (is_some sources.0) || not (is_some sources.1) in
        (
          record {
            cache =
                Cache.set s.cache w.fetched_at (key_of drainage area) response
                  (if is_partial response then some partial_cache_seconds else none);
            ana_cooldown =
                if not resting && failed then trip s.ana_cooldown w.fetched_at else s.ana_cooldown;
          },
          response,
          not (is_partial response),
        )

    unfoldable pub get_hydrography :
        Service A
        → List (HydroFeature A)
        → Surroundings A
        → A
        → Option (Box A)
        → Service A × HydroResponse A × Bool
    unfolding respond hydro_detail
    get_hydrography s major_rivers w zoom bbox =
        let (drainage, minimum, tolerance) = hydro_detail r zoom in
        let area : Box A = area_of zoom bbox in
        let (cache, hit) = Cache.get s.cache w.now (key_of drainage area) in
        let s' : Service A = record s { cache = cache } in
        elim hit [
          | some response ↦ (s', response, false)
          | none ↦ elim w.stored [
            | some stored ↦ (
              record s' { cache = Cache.set cache w.now (key_of drainage area) stored (some 30) },
              stored,
              false,
            )
            | none ↦ respond s' major_rivers w zoom area
          ]
        ]
