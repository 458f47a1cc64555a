-- ===== src/MapProjection/Levels.antt =====
-- app/services/map.py and app/models/territory.py: levels, their parents and details, and the scopes that
-- are valid.
use brasil_lens_backend.Common.{
  ℕ, ◌≡◌, ◌↔◌, Bool, true, false, not, ◌&&◌, Option, none, some, String, string_eq, ◌==◌, HasEq,
  nat_eq, option_eq, pair_eq, is_some, or_default, if◌then◌else◌, arith,
}
use brasil_lens_backend.Errors.{Result, ok, raise, DomainError, invalid_parameter}
use brasil_lens_backend.Notifications.Dispatch.{
  TerritoryLevel, country, region, state, municipality,
}

abbrev pub level_beq : TerritoryLevel → TerritoryLevel → Bool
level_beq country country = true
level_beq region region = true
level_beq state state = true
level_beq municipality municipality = true
level_beq _ _ = false

pub level_beq_iff : (a b : TerritoryLevel) → (level_beq a b ≡ true) ↔ (a ≡ b)
level_beq_iff country b = ground arith
level_beq_iff region b = ground arith
level_beq_iff state b = ground arith
level_beq_iff municipality b = ground arith

instance abbrev pub level_eq : HasEq TerritoryLevel
level_eq = record { same_iff = level_beq_iff; same = level_beq }

pub data GeometryLod : Type 0 where
  canonical : GeometryLod
  overview : GeometryLod
  detail : GeometryLod

abbrev pub lod_beq : GeometryLod → GeometryLod → Bool
lod_beq canonical canonical = true
lod_beq overview overview = true
lod_beq detail detail = true
lod_beq _ _ = false

pub lod_beq_iff : (a b : GeometryLod) → (lod_beq a b ≡ true) ↔ (a ≡ b)
lod_beq_iff canonical b = ground arith
lod_beq_iff overview b = ground arith
lod_beq_iff detail b = ground arith

instance abbrev pub lod_eq : HasEq GeometryLod
lod_eq = record { same_iff = lod_beq_iff; same = lod_beq }

-- _DEFAULT_LOD
abbrev pub default_lod : TerritoryLevel → GeometryLod
default_lod country = overview
default_lod region = overview
default_lod state = detail
default_lod municipality = detail

-- level in REQUIRES_PARENT
abbrev pub requires_parent : TerritoryLevel → Bool
requires_parent municipality = true
requires_parent _ = false

abbrev pub expected_parent_level : TerritoryLevel → Option TerritoryLevel
expected_parent_level country = none
expected_parent_level region = some country
expected_parent_level state = some region
expected_parent_level municipality = some state

-- A code that is there and not empty.
abbrev pub given : Option String → Option String
given none = none
given (some code) = if code == "" then none else some code

abbrev pub parent_required : DomainError
parent_required = invalid_parameter "O nível territorial exige o parâmetro 'parent'." none

abbrev pub parent_unexpected : DomainError
parent_unexpected = invalid_parameter "O nível territorial não aceita o parâmetro 'parent'." none

abbrev pub wrong_parent_level : DomainError
wrong_parent_level = invalid_parameter "Território pai de outro nível." none

unfoldable pub validate_scope : TerritoryLevel → Option String → Result (Unit {0})
validate_scope level parent_code =
    if requires_parent level && not (is_some (given parent_code))
    then raise parent_required
    else if level == country && is_some (given parent_code)
    then raise parent_unexpected
    else ok tt

-- The key, "level:parent:lod:version".
abbrev pub ProjectionKey : Type 0
ProjectionKey = (TerritoryLevel × String) × (GeometryLod × ℕ)

unfoldable pub projection_key :
    TerritoryLevel → Option String → Option GeometryLod → ℕ → ProjectionKey
projection_key level parent_code lod version =
    ((level, or_default (given parent_code) "root"), (or_default lod (default_lod level), version))
