-- ===== src/MapProjection.antt =====
-- app/services/map.py: the projections of the territories for the map. The answers of the database and
-- of the shared cache are arguments; a geometry is a text.
pub mod Levels
pub mod Scopes
use brasil_lens_backend.MapProjection.Levels.{
  level_beq, level_beq_iff, level_eq, GeometryLod, lod_beq, lod_beq_iff, lod_eq, default_lod,
  requires_parent, expected_parent_level, given, parent_required, parent_unexpected,
  wrong_parent_level, validate_scope, ProjectionKey, projection_key, canonical, overview, detail,
}
use brasil_lens_backend.Common.{
  Arithmetic, ℕ, ◌≡◌, ◌↔◌, refl, Bool, true, false, not, ◌&&◌, ◌||◌, Option, none, some, String,
  string_eq, List, [], ◌∷◌, ◌++◌, ◌==◌, ==_iff, HasEq, nat_eq, option_eq, pair_eq, length, map,
  is_some, or_default, if◌then◌else◌, arith,
}
use Prim.Native.String.{◌++◌ as ◌+++◌}
use brasil_lens_backend.Errors.{
  Result, ok, raise, DomainError, invalid_parameter, territory_not_found,
}
use brasil_lens_backend.Cache
use brasil_lens_backend.Cache.{TtlCache}
use brasil_lens_backend.Notifications.Dispatch.{
  TerritoryLevel, country, region, state, municipality,
}

module _ (A : Type 0) where
  pub record MapFeatureRow : Type 0 where
    pub ibge_code : String
    pub name : String
    pub level : TerritoryLevel
    pub abbreviation : Option String
    pub parent_ibge_code : Option String
    pub parent_name : Option String
    pub geometry_json : String
    pub west : Option A
    pub south : Option A
    pub east : Option A
    pub north : Option A

  pub record MapFeature : Type 0 where
    pub id : String
    pub ibge_code : String
    pub name : String
    pub level : TerritoryLevel
    pub abbreviation : Option String
    pub parent_code : Option String
    pub parent_name : Option String
    pub geometry : String

  -- With its scope.
  pub record MapFeatureCollection : Type 0 where
    pub level : TerritoryLevel
    pub parent : Option String
    pub lod : GeometryLod
    pub count : ℕ
    pub bbox : Option (A × (A × (A × A)))
    pub features : List MapFeature
    pub parent_feature : Option MapFeature

  -- The queries, by their arguments.
  pub record Repository : Type 0 where
    pub get_identity_by_code : String → Option (ℕ × TerritoryLevel)
    pub fetch_map_projection : TerritoryLevel → GeometryLod → Option ℕ → List MapFeatureRow
    pub fetch_single_feature : String → GeometryLod → Option MapFeatureRow

module _ {A : Type 0} where
  unfoldable pub resolve_parent : Repository A → TerritoryLevel → Option String → Result (Option ℕ)
  resolve_parent repo level parent_code = elim (given parent_code) [
    | none ↦ ok none
    | some code ↦ elim (repo.get_identity_by_code code) [
      | none ↦ raise (territory_not_found code)
      | some (parent_id, parent_level) ↦ elim (expected_parent_level level) [
        | none ↦ ok (some parent_id)
        | some expected ↦
            if parent_level == expected then ok (some parent_id) else raise wrong_parent_level
      ]
    ]
  ]

  abbrev pub present : (MapFeatureRow A → Option A) → List (MapFeatureRow A) → List A
  present side [] = []
  present side (row ∷ rows) = elim (side row) [
    | none ↦ present side rows
    | some x ↦ x ∷ present side rows
  ]

module _ {A : Type 0} (r : Arithmetic A) where
  -- min and max of a list, the first of equals; `none` of an empty one
  abbrev pub least : List A → Option A
  least [] = none
  least (x ∷ xs) = some (least_from x xs)
    where
      least_from : A → List A → A
      least_from x [] = x
      least_from x (y ∷ ys) = least_from (if r.below y x then y else x) ys

  abbrev pub greatest : List A → Option A
  greatest [] = none
  greatest (x ∷ xs) = some (greatest_from x xs)
    where
      greatest_from : A → List A → A
      greatest_from x [] = x
      greatest_from x (y ∷ ys) = greatest_from (if r.below x y then y else x) ys

  unfoldable pub scope_bbox : List (MapFeatureRow A) → Option (A × (A × (A × A)))
  scope_bbox features = elim (least (present (λ f. f.west) features)) [
    | none ↦ none
    | some w ↦ elim (least (present (λ f. f.south) features)) [
      | none ↦ none
      | some s ↦ elim (greatest (present (λ f. f.east) features)) [
        | none ↦ none
        | some e ↦ elim (greatest (present (λ f. f.north) features)) [
          | none ↦ none
          | some n ↦ some (w, (s, (e, n)))
        ]
      ]
    ]
  ]

  unfoldable pub to_feature : String → MapFeatureRow A → MapFeature A
  to_feature id row = record {
    id = id;
    ibge_code = row.ibge_code;
    name = row.name;
    level = row.level;
    abbreviation = row.abbreviation;
    parent_code = row.parent_ibge_code;
    parent_name = row.parent_name;
    geometry = row.geometry_json;
  }

  unfoldable pub parent_feature_of : Repository A → Option String → Option (MapFeature A)
  unfolding to_feature
  parent_feature_of repo parent_code = elim (given parent_code) [
    | none ↦ none
    | some code ↦ elim (repo.fetch_single_feature code detail) [
      | none ↦ none
      | some row ↦ some (to_feature (row.ibge_code +++ ":detail") row)
    ]
  ]

  -- The response, from the database.
  unfoldable pub projection :
      Repository A
      → TerritoryLevel
      → Option String
      → GeometryLod
      → Option ℕ
      → MapFeatureCollection A
  unfolding scope_bbox to_feature parent_feature_of
  projection repo level parent_code lod parent_id =
      let rows : List (MapFeatureRow A) = repo.fetch_map_projection level lod parent_id in
      record {
        level = level;
        parent = parent_code;
        lod = lod;
        count = length rows;
        bbox = scope_bbox rows;
        features = map (λ row. to_feature row.ibge_code row) rows;
        parent_feature = parent_feature_of repo parent_code;
      }

  -- The cache that is left, the response, and whether it is written to the shared cache; `shared` is
  -- what that answers.
  unfoldable pub get_map_json :
      TtlCache ProjectionKey (MapFeatureCollection A)
      → Repository A
      → (ProjectionKey → Option (MapFeatureCollection A))
      → ℕ
      → TerritoryLevel
      → Option String
      → Option GeometryLod
      → ℕ
      → TtlCache ProjectionKey (MapFeatureCollection A) × Result (MapFeatureCollection A) × Bool
  unfolding validate_scope projection_key resolve_parent projection
  get_map_json cache repo shared now level parent_code lod version =
      elim (validate_scope level parent_code) [
        | raise e ↦ (cache, raise e, false)
        | ok _ ↦
            let effective_lod = or_default lod (default_lod level) in
            let key : ProjectionKey =
              projection_key level parent_code (some effective_lod) version in
            let (cache', cached) = Cache.get cache now key in
            elim cached [
              | some body ↦ (cache', ok body, false)
              | none ↦ elim (shared key) [
                | some body ↦ (Cache.set cache' now key body none, ok body, false)
                | none ↦ elim (resolve_parent repo level parent_code) [
                  | raise e ↦ (cache', raise e, false)
                  | ok parent_id ↦
                      let body : MapFeatureCollection A =
                        projection repo level parent_code effective_lod parent_id in
                      (Cache.set cache' now key body none, ok body, true)
                ]
              ]
            ]
      ]

abbrev pub version_cache_seconds : ℕ
version_cache_seconds = 60

-- `data_version` of app/repositories/map_projection.py; the only key is "version", and the query's
-- answer an argument.
unfoldable pub data_version : TtlCache String ℕ → ℕ → ℕ → TtlCache String ℕ × ℕ
data_version versions now fetched =
    let (versions', cached) = Cache.get versions now "version" in
    elim cached [
      | some v ↦ (versions', v)
      | none ↦ (Cache.set versions' now "version" fetched none, fetched)
    ]

module _ {A : Type 0} (r : Arithmetic A) where
  -- The whole of `get_map_json`: a request that names no version takes the one of the data, after its
  -- scope is checked. `fetched` is what the database would give for it.
  unfoldable pub get_current_map_json :
      TtlCache ProjectionKey (MapFeatureCollection A)
      → TtlCache String ℕ
      → Repository A
      → (ProjectionKey → Option (MapFeatureCollection A))
      → ℕ
      → TerritoryLevel
      → Option String
      → Option GeometryLod
      → Option ℕ
      → ℕ
      → (TtlCache ProjectionKey (MapFeatureCollection A) × TtlCache String ℕ)
        × Result (MapFeatureCollection A)
        × Bool
  unfolding validate_scope get_map_json data_version
  get_current_map_json cache versions repo shared now level parent_code lod version fetched =
      elim (validate_scope level parent_code) [
        | raise e ↦ ((cache, versions), raise e, false)
        | ok _ ↦
            let (versions', current) = elim version as (λ v. TtlCache String ℕ × ℕ) [
              | some v ↦ (versions, v)
              | none ↦ data_version versions now fetched
            ] in
            let (cache', result, is_new) =
              get_map_json r cache repo shared now level parent_code lod current in
            ((cache', versions'), result, is_new)
      ]

-- The projections and the version, emptied.
module _ {A : Type 0} where
  unfoldable pub clear_cache :
      TtlCache ProjectionKey (MapFeatureCollection A)
      → TtlCache String ℕ
      → TtlCache ProjectionKey (MapFeatureCollection A) × TtlCache String ℕ
  clear_cache cache versions = (Cache.clear cache, Cache.clear versions)
