-- ===== src/Transport.antt =====
-- app/services/transport.py over app/repositories/transport.py: the network of a layer for the map. The
-- answers of the database are a record of functions; a geometry is a text.
pub mod Layers
pub mod Guards
use brasil_lens_backend.Transport.Layers.{
  TransportLayer, layer_beq, layer_beq_iff, layer_eq, TransportDetail, detail_beq, detail_beq_iff,
  detail_eq, SourceKey, LayerInfo, layers, min_zoom_of, is_line_layer, max_tile_zoom,
  network_cache_seconds, too_far, no_area, too_wide, no_detail, outside_grid, road_federal,
  road_state, road_local, rail, waterway, port, overview, regional, local, street, dnit, ibge,
}
use brasil_lens_backend.Common.{
  Arithmetic, ℕ, zero, suc, ◌+◌, ◌*◌, ◌≤◌, ◌<◌, ◌^◌, ◌≡◌, ◌↔◌, refl, Bool, true, false, not, ◌&&◌,
  ◌||◌, Option, none, some, String, string_eq, List, [], ◌∷◌, ◌++◌, ◌==◌, ==_iff, HasEq, nat_eq,
  option_eq, pair_eq, lookup, or_default, ltb, leb, map, find_first, if◌then◌else◌, arith,
}
use brasil_lens_backend.Errors.{
  Result, ok, raise, DomainError, internal, invalid_parameter, territory_not_found,
}
use brasil_lens_backend.Elections.Numbers.{ℤ, pos, negsuc}
use brasil_lens_backend.Cache
use brasil_lens_backend.Cache.{TtlCache}

pub record Detail (A : Type 0) : Type 0 where
  pub name : TransportDetail
  pub min_zoom : A
  pub tolerance : A
  pub digits : ℕ
  pub max_span : A

pub record TransportFeature : Type 0 where
  pub id : String
  pub layer : TransportLayer
  pub name : Option String
  pub attributes : List (String × String)
  pub geometry : String

pub record TransportNetwork : Type 0 where
  pub layer : TransportLayer
  pub detail : TransportDetail
  pub version : ℕ
  pub features : List TransportFeature

-- A row of transport_features.
pub record PointRow : Type 0 where
  pub id : String
  pub name : Option String
  pub attributes : List (String × String)
  pub geometry : String

module _ (A : Type 0) where
  abbrev pub BBox : Type 0
  BBox = A × (A × (A × A))

  -- The queries of the repository.
  pub record Repository : Type 0 where
    pub fetch_version : ℕ
    pub fetch_points : TransportLayer → List PointRow
    pub fetch_lines : TransportLayer → BBox → A → ℕ → Option String
    pub fetch_overview : TransportLayer → ℕ → Option String
    pub fetch_territory : String → Option (ℕ × (String × String))
    pub fetch_totals : ℕ → List (TransportLayer × A)
    pub fetch_tile : ℤ → ℤ → ℤ → Option String
    pub identify : TransportLayer → A → A → A → Option PointRow

  pub record TransportTotal : Type 0 where
    pub layer : TransportLayer
    pub value : Option A

  pub record TransportSummary : Type 0 where
    pub code : String
    pub name : String
    pub totals : List TransportTotal

  abbrev pub NetworkKey : Type 0
  NetworkKey = (TransportLayer × TransportDetail) × (Option BBox × ℕ)

  -- _cache and _version_cache, whose only key is "version".
  pub record Caches : Type 0 where
    pub networks : TtlCache NetworkKey TransportNetwork
    pub versions : TtlCache String ℕ

module _ {A : Type 0} where
  unfoldable pub clear_cache : Caches A → Caches A
  clear_cache c = record { networks = Cache.clear c.networks; versions = Cache.clear c.versions }

module _ {A : Type 0} (r : Arithmetic A) where
  -- DETAILS
  abbrev pub details : List (Detail A)
  details =
      record {
        name = overview;
        min_zoom = r.literal 0 0;
        tolerance = r.literal 0 0;
        digits = 2;
        max_span = r.literal 360 0;
      }
      ∷ record {
        name = regional;
        min_zoom = r.literal 6 0;
        tolerance = r.literal 5 3;
        digits = 3;
        max_span = r.literal 36 0;
      }
      ∷ record {
        name = local;
        min_zoom = r.literal 8 0;
        tolerance = r.literal 1 3;
        digits = 4;
        max_span = r.literal 12 0;
      }
      ∷ record {
        name = street;
        min_zoom = r.literal 10 0;
        tolerance = r.literal 2 4;
        digits = 5;
        max_span = r.literal 4 0;
      }
      ∷ []

  abbrev last_reached : A → Option (Detail A) → List (Detail A) → Option (Detail A)
  last_reached zoom found [] = found
  last_reached zoom found (d ∷ ds) =
      last_reached zoom (if r.at_least zoom d.min_zoom then some d else found) ds

  -- next(… for detail in reversed(DETAILS) if zoom >= detail.min_zoom)
  unfoldable pub detail_for : A → Option (Detail A)
  detail_for zoom = last_reached zoom none details

  -- The area of a request: refused, or none where the network does not depend on it.
  unfoldable pub area_for : TransportLayer → Detail A → Option (BBox A) → Result (Option (BBox A))
  area_for layer detail bbox =
      if is_line_layer layer && not (detail.name == overview)
      then elim bbox [
        | none ↦ raise no_area
        | some (west, (south, (east, north))) ↦
            if r.below detail.max_span (r.minus east west)
              || r.below detail.max_span (r.minus north south)
            then raise too_wide
            else ok (some (west, (south, (east, north))))
      ]
      else ok none

  unfoldable pub version : Caches A → Repository A → ℕ → Caches A × ℕ
  version c repo now =
      let (versions, cached) = Cache.get c.versions now "version" in
      elim cached [
        | some v ↦ (record c { versions = versions }, v)
        | none ↦ (
          record c { versions = Cache.set versions now "version" repo.fetch_version none },
          repo.fetch_version,
        )
      ]

  abbrev point_feature : TransportLayer → PointRow → TransportFeature
  point_feature layer row = record {
    id = row.id;
    layer = layer;
    name = row.name;
    attributes = row.attributes;
    geometry = row.geometry;
  }

  abbrev pub layer_name : TransportLayer → String
  layer_name road_federal = "road_federal"
  layer_name road_state = "road_state"
  layer_name road_local = "road_local"
  layer_name rail = "rail"
  layer_name waterway = "waterway"
  layer_name port = "port"

  abbrev line_feature : TransportLayer → Option String → List TransportFeature
  line_feature layer none = []
  line_feature layer (some geometry) =
      record {
        id = layer_name layer;
        layer = layer;
        name = none;
        attributes = [];
        geometry = geometry;
      }
      ∷ []

  unfoldable pub features_of :
      Repository A → TransportLayer → Detail A → Option (BBox A) → List TransportFeature
  features_of repo layer detail bbox =
      if not (is_line_layer layer)
      then map (point_feature layer) (repo.fetch_points layer)
      else line_feature layer (elim bbox [
        | some box ↦ repo.fetch_lines layer box detail.tolerance detail.digits
        | none ↦ repo.fetch_overview layer detail.digits
      ])

  abbrev pub shown_detail : TransportLayer → Detail A → TransportDetail
  shown_detail layer detail = if is_line_layer layer then detail.name else overview

  module _ ⦃e : HasEq A⦄ where
    -- From the version on.
    unfoldable pub network :
        Caches A
        → Repository A
        → ℕ
        → TransportLayer
        → Detail A
        → Option (BBox A)
        → Caches A × TransportNetwork
    unfolding version features_of
    network c repo now layer detail bbox =
        let (c', v) = version c repo now in
        let key : NetworkKey A = ((layer, shown_detail layer detail), (bbox, v)) in
        let (networks, cached) = Cache.get c'.networks now key in
        elim cached [
          | some body ↦ (record c' { networks = networks }, body)
          | none ↦
              let body : TransportNetwork = record {
                layer = layer;
                detail = shown_detail layer detail;
                version = v;
                features = features_of repo layer detail bbox;
              } in
              (record c' { networks = Cache.set networks now key body none }, body)
        ]

    unfoldable pub get_network :
        Caches A
        → Repository A
        → ℕ
        → TransportLayer
        → A
        → Option (BBox A)
        → Caches A × Result TransportNetwork
    unfolding detail_for area_for network min_zoom_of
    get_network c repo now layer zoom bbox =
        if r.below zoom (r.literal (min_zoom_of layer) 0)
        then (c, raise too_far)
        else elim (detail_for zoom) [
          | none ↦ (c, raise no_detail)
          | some detail ↦ elim (area_for layer detail bbox) [
            | raise e ↦ (c, raise e)
            | ok area ↦ let (c', body) = network c repo now layer detail area in (c', ok body)
          ]
        ]

  -- max(tolerance, 1e-4) and min(…, 0.05)
  abbrev pub clamp : A → A
  clamp tolerance =
      let low : A = if r.below tolerance (r.literal 1 4) then r.literal 1 4 else tolerance in
      if r.below (r.literal 5 2) low then r.literal 5 2 else low

  unfoldable pub identify : Repository A → TransportLayer → A → A → A → Option PointRow
  identify repo layer longitude latitude tolerance =
      repo.identify layer longitude latitude (clamp tolerance)

  unfoldable pub get_summary :
      Caches A → Repository A → ℕ → String → Caches A × Result (TransportSummary A)
  unfolding version
  get_summary c repo now code = elim (repo.fetch_territory code) [
    | none ↦ (c, raise (territory_not_found code))
    | some (id, (ibge_code, name)) ↦
        let (c', v) = version c repo now in
        (
          c',
          ok (record {
            code = ibge_code;
            name = name;
            totals =
                map
                  (λ info. record {
                    layer = info.key;
                    value =
                        if ltb 0 v
                        then some
                            (or_default (lookup info.key (repo.fetch_totals id)) (r.literal 0 0))
                        else none;
                  })
                  layers;
          }),
        )
  ]

-- 0 <= n < bound
abbrev pub is_below : ℤ → ℕ → Bool
is_below (pos n) bound = ltb n bound
is_below (negsuc n) bound = false

abbrev pub in_grid : ℤ → ℤ → ℤ → Bool
in_grid (pos zoom) x y = leb zoom max_tile_zoom && is_below x (2 ^ zoom) && is_below y (2 ^ zoom)
in_grid (negsuc zoom) x y = false

module _ {A : Type 0} where
  unfoldable pub get_tile : Repository A → ℤ → ℤ → ℤ → Result (Option String)
  get_tile repo zoom x y =
      if in_grid zoom x y then ok (repo.fetch_tile zoom x y) else raise outside_grid
