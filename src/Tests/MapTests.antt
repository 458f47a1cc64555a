-- ===== src/Tests/MapTests.antt =====
-- app/services/transport.py and app/services/map.py at concrete inputs.
use brasil_lens_backend.Common.{
  ℕ, ◌≡◌, refl, true, false, not, ◌&&◌, ◌||◌, ◌==◌, nat_eq, option_eq, pair_eq, string_eq, none,
  some, [], is_some, if◌then◌else◌,
}
use brasil_lens_backend.Tests.Thousandths.{thousandths}
use brasil_lens_backend.Errors.{is_ok, raise}
use brasil_lens_backend.Cache
use brasil_lens_backend.Cache.{TtlCache}
use brasil_lens_backend.Elections.Numbers.{pos}
use brasil_lens_backend.Notifications.Dispatch.{TerritoryLevel}
use brasil_lens_backend.Transport
use brasil_lens_backend.Transport.{BBox, Caches, Detail, details, detail_for, get_network, get_tile}
use brasil_lens_backend.Transport.Layers.{
  road_local, rail, layer_eq, detail_eq, overview, min_zoom_of, outside_grid,
}
use brasil_lens_backend.Transport.Guards.{admits, get_network_iff, get_network_area_free}
use brasil_lens_backend.MapProjection
use brasil_lens_backend.MapProjection.{MapFeatureCollection, get_map_json}
use brasil_lens_backend.MapProjection.Levels.{level_eq, lod_eq, ProjectionKey, projection_key}
use brasil_lens_backend.MapProjection.Scopes.{is_scope, has_parent, get_map_json_iff}

abbrev database : Transport.Repository ℕ
database = record {
  fetch_version = 7;
  fetch_points = λ layer. [];
  fetch_lines = λ layer box tolerance digits. some "lines";
  fetch_overview = λ layer digits. some "overview";
  fetch_territory = λ code. none;
  fetch_totals = λ id. [];
  fetch_tile = λ zoom x y. some "tile";
  identify = λ layer longitude latitude tolerance. none;
}

abbrev caches : Caches ℕ
caches = record { networks = Cache.init 86400 256; versions = Cache.init 60 1 }

abbrev box : BBox ℕ
box = (1000, (2000, (3000, 9000)))

-- At zoom 10 an area may be 4 degrees tall, and this one is 7.
get_network_iff_example :
    (is_ok (get_network thousandths caches database 5 road_local 10000 (some box)).1
      ≡ (true && admits thousandths road_local (detail_for thousandths 10000) (some box)))
    × (is_ok (get_network thousandths caches database 5 road_local 10000 (some box)).1 ≡ false
        → (get_network thousandths caches database 5 road_local 10000 (some box)).0 ≡ caches)
unfolding min_zoom_of
get_network_iff_example = get_network_iff thousandths caches database 5 road_local 10000 (some box)

abbrev whole : Detail ℕ
whole = record { name = overview; min_zoom = 0; tolerance = 0; digits = 2; max_span = 360000 }

get_network_area_free_example :
    get_network thousandths caches database 5 rail 4000 (some box)
    ≡ get_network thousandths caches database 5 rail 4000 none
unfolding detail_for
get_network_area_free_example =
    get_network_area_free thousandths caches database 5 rail 4000 whole (some box) none refl refl

beyond_the_grid : get_tile database (pos 1) (pos 2) (pos 0) ≡ raise outside_grid
unfolding get_tile
beyond_the_grid = refl

abbrev territories : MapProjection.Repository ℕ
territories = record {
  get_identity_by_code = λ code. if code == "24" then some (3, TerritoryLevel.state) else none;
  fetch_map_projection = λ level lod parent_id. [];
  fetch_single_feature = λ code lod. none;
}

abbrev projections : TtlCache ProjectionKey (MapFeatureCollection ℕ)
projections = Cache.init 300 100

get_map_json_iff_example :
    let key = projection_key TerritoryLevel.municipality (some "24") none 8 in
    let known = is_some (Cache.get projections 5 key).1 || false in
    let answer =
      get_map_json thousandths projections territories
        (λ key. none)
        5
        TerritoryLevel.municipality
        (some "24")
        none
        8 in
    (is_ok answer.1 ≡ (
      is_scope TerritoryLevel.municipality (some "24")
      && (known || has_parent territories TerritoryLevel.municipality (some "24"))))
    × (answer.2 ≡ (
        is_scope TerritoryLevel.municipality (some "24")
        && not known
        && has_parent territories TerritoryLevel.municipality (some "24")))
get_map_json_iff_example =
    get_map_json_iff thousandths projections territories (λ key. none) 5 TerritoryLevel.municipality
      (some "24") none 8
