-- ===== src/MapProjection/Scopes.antt =====
-- Which projections are refused.
use brasil_lens_backend.Common.{
  Arithmetic, ℕ, ◌≡◌, Bool, true, false, not, ◌&&◌, ◌||◌, Option, none, some, String, string_eq,
  nat_eq, option_eq, pair_eq, is_some, arith,
}
use brasil_lens_backend.Errors.{is_ok}
use brasil_lens_backend.Cache
use brasil_lens_backend.Cache.{TtlCache}
use brasil_lens_backend.Notifications.Dispatch.{
  TerritoryLevel, country, region, state, municipality,
}
use brasil_lens_backend.MapProjection.{
  Repository, MapFeatureCollection, resolve_parent, get_map_json,
}
use brasil_lens_backend.MapProjection.Levels.{
  level_eq, GeometryLod, lod_eq, given, ProjectionKey, projection_key, validate_scope,
}

-- A country has no parent, a municipality has one, and the others may.
abbrev pub is_scope : TerritoryLevel → Option String → Bool
is_scope country parent_code = not (is_some (given parent_code))
is_scope region parent_code = true
is_scope state parent_code = true
is_scope municipality parent_code = is_some (given parent_code)

-- The level of which a territory can be the parent of one of a level.
abbrev pub is_parent_level : TerritoryLevel → TerritoryLevel → Bool
is_parent_level region country = true
is_parent_level state region = true
is_parent_level municipality state = true
is_parent_level _ _ = false

module _ {A : Type 0} where
  -- The parent that is asked for, if any, is there and of the level above.
  abbrev pub has_parent : Repository A → TerritoryLevel → Option String → Bool
  has_parent repo level parent_code = elim (given parent_code) [
    | none ↦ true
    | some code ↦ elim (repo.get_identity_by_code code) [
      | none ↦ false
      | some (id, parent_level) ↦ is_parent_level level parent_level
    ]
  ]

  module _ (r : Arithmetic A) where
    -- A projection is given exactly where its scope is right and either a cache has it or the parent
    -- that is asked for is there and of the level above; what is built is shared, and only that.
    pub get_map_json_iff :
        (cache : TtlCache ProjectionKey (MapFeatureCollection A)) (repo : Repository A)
        (shared : ProjectionKey → Option (MapFeatureCollection A)) (now : ℕ)
        (level : TerritoryLevel) (parent_code : Option String) (lod : Option GeometryLod)
        (version : ℕ)
        → let key = projection_key level parent_code lod version in
          let known = is_some (Cache.get cache now key).1 || is_some (shared key) in
          let answer = get_map_json r cache repo shared now level parent_code lod version in
          (is_ok answer.1
            ≡ (is_scope level parent_code && (known || has_parent repo level parent_code)))
          × (answer.2
              ≡ (is_scope level parent_code && not known && has_parent repo level parent_code))
    unfolding get_map_json validate_scope resolve_parent projection_key
    get_map_json_iff cache repo shared now country parent_code lod version = ground arith
    get_map_json_iff cache repo shared now region parent_code lod version = ground arith
    get_map_json_iff cache repo shared now state parent_code lod version = ground arith
    get_map_json_iff cache repo shared now municipality parent_code lod version = ground arith
