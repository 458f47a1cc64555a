-- ===== src/Hydrography.antt =====
-- app/services/hydrography.py: rivers and bodies of water for the map. Its floating-point
-- numbers are those of an `Arithmetic`. A point is its longitude and latitude.
pub mod Lines
pub mod Chains
pub mod Joined
pub mod Shapes
pub mod Simplified
pub mod Rivers
pub mod Serve
pub mod Outage
use brasil_lens_backend.Common.{Arithmetic, ℕ, Bool, Option, List, HasEq, if◌then◌else◌}

abbrev pub Text : Type 0
Text = List ℕ

pub data HydroCategory : Type 0 where
  river : HydroCategory
  water_body : HydroCategory

module _ (A : Type 0) where
  abbrev pub Point : Type 0
  Point = A × A

  abbrev pub Box : Type 0
  Box = A × A × A × A

  pub data Geometry : Type 0 where
    line_string : List Point → Geometry
    multi_line_string : List (List Point) → Geometry
    polygon : List (List Point) → Geometry
    multi_polygon : List (List (List Point)) → Geometry

  -- With its properties.
  pub record HydroFeature : Type 0 where
    pub id : Text
    pub name : Text
    pub category : HydroCategory
    pub drainage_area_km2 : Option A
    pub area_km2 : Option A
    pub dominion : Option Text
    pub management : Option Text
    pub body_type : Option Text
    pub segment_count : Option ℕ
    pub geometry : Geometry
    pub bbox : Option Box

module _ {A : Type 0} (r : Arithmetic A) where
  -- hydro_detail: the drainage, the area of a body, and the tolerance
  unfoldable pub hydro_detail : A → A × A × A
  hydro_detail zoom =
      if r.below zoom (r.literal 6 0)
      then (r.literal 200000 0, r.literal 250 0, r.literal 25 3)
      else if r.below zoom (r.literal 8 0)
      then (r.literal 10000 0, r.literal 25 0, r.literal 8 3)
      else if r.below zoom (r.literal 10 0)
      then (r.literal 2000 0, r.literal 2 0, r.literal 2 3)
      else (r.literal 100 0, r.literal 2 1, r.literal 5 4)

  -- max(a, b) and min(a, b): the first of equals
  abbrev pub larger : A → A → A
  larger a b = if r.below a b then b else a

  abbrev pub smaller : A → A → A
  smaller a b = if r.below b a then b else a
