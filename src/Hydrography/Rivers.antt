-- ===== src/Hydrography/Rivers.antt =====
-- app/services/hydrography.py, `_consolidate_river_segments` and the features of `_fetch_water_bodies`:
-- the segments of a river under its name, and the bodies of water that are large enough to be drawn.
use brasil_lens_backend.Common.{
  Arithmetic, ℕ, ◌+◌, Bool, true, false, not, ◌&&◌, ◌||◌, Option, none, some, List, [], ◌∷◌, ◌++◌,
  ◌==◌, HasEq, nat_eq, list_eq, pair_eq, lookup, set_item, or_default, map, leb, if◌then◌else◌,
}
use brasil_lens_backend.Errors.{Result, ok, raise}
use brasil_lens_backend.Elections.Numbers.{strip}
use brasil_lens_backend.Hydrography.{
  Text, Point, Geometry, line_string, multi_line_string, polygon, multi_polygon, HydroFeature,
  river, water_body,
}
use brasil_lens_backend.Hydrography.Lines.{merge_lines}
use brasil_lens_backend.Hydrography.Shapes.{visible_rings}

-- str.lower on a character of latin-1
abbrev lower_character : ℕ → ℕ
lower_character c =
    if (leb 65 c && leb c 90) || (leb 192 c && leb c 222 && not (c == 215)) then c + 32 else c

-- The replacements of `slug`.
abbrev plain_character : ℕ → ℕ
plain_character c =
    if c == b' '
    then b'-'
    else if c == 227 || c == 225
    then b'a'
    else if c == 233
    then b'e'
    else if c == 237
    then b'i'
    else if c == 243
    then b'o'
    else if c == 250
    then b'u'
    else if c == 231
    then b'c'
    else c

abbrev pub slug : Text → Text
slug name = map (λ c. plain_character (lower_character c)) name

-- Curso d'água sem nome
abbrev pub unnamed : Text
unnamed =
    b'C' ∷ b'u' ∷ b'r' ∷ b's' ∷ b'o' ∷ b' ' ∷ b'd' ∷ 39 ∷ 225 ∷ b'g' ∷ b'u' ∷ b'a' ∷ b' ' ∷ b's'
    ∷ b'e' ∷ b'm' ∷ b' ' ∷ b'n' ∷ b'o' ∷ b'm' ∷ b'e' ∷ []

abbrev river_prefix : Text
river_prefix = b'r' ∷ b'i' ∷ b'v' ∷ b'e' ∷ b'r' ∷ b':' ∷ []

abbrev pub or_unnamed : Text → Text
or_unnamed [] = unnamed
or_unnamed (c ∷ cs) = c ∷ cs

-- A text that is there and not empty.
abbrev given : Option Text → Option Text → Option Text
given none old = old
given (some []) old = old
given (some (c ∷ cs)) old = some (c ∷ cs)

module _ (A : Type 0) where
  -- A feature of the source; `none` is null or a missing property.
  pub record RawFeature : Type 0 where
    pub geometry : Option (Geometry A)
    pub noriocomp : Option Text
    pub nuareamont : Option A
    pub dedominial : Option Text
    pub orgao_gest : Option Text

  -- An entry of `grouped`, under its name.
  pub record Group : Type 0 where
    pub max_area : A
    pub dominion : Option Text
    pub management : Option Text
    pub lines : List (List (Point A))
    pub segment_count : ℕ

module _ {A : Type 0} where
  -- not geom or not geom.get("coordinates")
  abbrev pub is_empty : Geometry A → Bool
  is_empty (line_string []) = true
  is_empty (multi_line_string []) = true
  is_empty (polygon []) = true
  is_empty (multi_polygon []) = true
  is_empty _ = false

  abbrev pub added_lines : Geometry A → List (List (Point A))
  added_lines (line_string line) = line ∷ []
  added_lines (multi_line_string lines) = lines
  added_lines _ = []

module _ {A : Type 0} (r : Arithmetic A) where
  -- A segment counted into the entry of its river.
  unfoldable pub add_to_group : Group A → RawFeature A → Geometry A → Group A
  add_to_group entry feat geom =
      let area : A = or_default feat.nuareamont r.zero in
      let counted : Group A = record entry {
        segment_count = entry.segment_count + 1;
        lines = entry.lines ++ added_lines geom;
      } in
      if r.below entry.max_area area
      then record counted {
        max_area = area;
        dominion = given feat.dedominial entry.dominion;
        management = given feat.orgao_gest entry.management;
      }
      else counted

  unfoldable pub add_segment_of : List (Text × Group A) → RawFeature A → List (Text × Group A)
  unfolding add_to_group
  add_segment_of grouped feat = elim feat.geometry [
    | none ↦ grouped
    | some geom ↦ elim (is_empty geom) [
      | true ↦ grouped
      | false ↦
          let name : Text = or_unnamed (strip (or_default feat.noriocomp [])) in
          let fresh : Group A = record {
            max_area = or_default feat.nuareamont r.zero;
            dominion = feat.dedominial;
            management = feat.orgao_gest;
            lines = [];
            segment_count = 0;
          } in
          set_item name (add_to_group (or_default (lookup name grouped) fresh) feat geom) grouped
    ]
  ]

  unfoldable pub group_segments :
      List (Text × Group A) → List (RawFeature A) → List (Text × Group A)
  unfolding add_segment_of
  group_segments grouped [] = grouped
  group_segments grouped (feat ∷ feats) = group_segments (add_segment_of grouped feat) feats

  abbrev drainage : HydroFeature A → A
  drainage f = or_default f.drainage_area_km2 r.zero

  -- A place in a list whose areas fall; it comes before its equals, which came after it.
  unfoldable pub insert_river : HydroFeature A → List (HydroFeature A) → List (HydroFeature A)
  insert_river f [] = f ∷ []
  insert_river f (g ∷ gs) =
      let rest = insert_river f gs in
      if r.below (drainage f) (drainage g) then g ∷ rest else f ∷ g ∷ gs

  -- results.sort(key=…, reverse=True)
  unfoldable pub sort_rivers : List (HydroFeature A) → List (HydroFeature A)
  unfolding insert_river
  sort_rivers [] = []
  sort_rivers (f ∷ fs) = insert_river f (sort_rivers fs)

  module _ ⦃e : HasEq A⦄ where
    unfoldable pub river_feature : Text × Group A → HydroFeature A
    river_feature (name, entry) = record {
      id = river_prefix ++ slug name;
      name = name;
      category = river;
      drainage_area_km2 = some (r.round 1 entry.max_area);
      area_km2 = none;
      dominion = entry.dominion;
      management = entry.management;
      body_type = none;
      segment_count = some entry.segment_count;
      geometry = multi_line_string (merge_lines entry.lines);
      bbox = none;
    }

    unfoldable pub consolidate_river_segments : List (RawFeature A) → List (HydroFeature A)
    unfolding group_segments river_feature sort_rivers
    consolidate_river_segments raw_features =
        sort_rivers (map river_feature (group_segments [] raw_features))

-- A body of water of the source.
pub record RawBody (A : Type 0) : Type 0 where
  pub geometry : Option (Geometry A)
  pub gid : Text
  pub nmoriginal : Option Text
  pub detipomass : Option Text
  pub dedominial : Option Text
  pub nuareakm2 : Option A

abbrev body_prefix : Text
body_prefix = b'w' ∷ b'a' ∷ b't' ∷ b'e' ∷ b'r' ∷ b'_' ∷ b'b' ∷ b'o' ∷ b'd' ∷ b'y' ∷ b':' ∷ []

-- Corpo d’água
abbrev pub unnamed_body : Text
unnamed_body = b'C' ∷ b'o' ∷ b'r' ∷ b'p' ∷ b'o' ∷ b' ' ∷ b'd' ∷ 8217 ∷ 225 ∷ b'g' ∷ b'u' ∷ b'a' ∷ []

abbrev or_unnamed_body : Text → Text
or_unnamed_body [] = unnamed_body
or_unnamed_body (c ∷ cs) = c ∷ cs

module _ {A : Type 0} (r : Arithmetic A) where
  unfoldable pub body_feature : RawBody A → Geometry A → HydroFeature A
  body_feature item geometry = record {
    id = body_prefix ++ item.gid;
    name = or_unnamed_body (strip (or_default item.nmoriginal []));
    category = water_body;
    drainage_area_km2 = none;
    area_km2 = item.nuareakm2;
    dominion = item.dedominial;
    management = none;
    body_type = item.detipomass;
    segment_count = none;
    geometry = geometry;
    bbox = none;
  }

  -- The loop over the bodies, whose rings are at least (4 * tolerance) ** 2 large.
  unfoldable pub water_bodies : A → List (RawBody A) → Result (List (HydroFeature A))
  unfolding body_feature
  water_bodies tolerance [] = ok []
  water_bodies tolerance (item ∷ items) = elim item.geometry [
    | none ↦ water_bodies tolerance items
    | some geometry ↦
        let side : A = r.times (r.literal 4 0) tolerance in
        elim (visible_rings r geometry (r.times side side)) [
          | raise e ↦ raise e
          | ok none ↦ water_bodies tolerance items
          | ok (some visible) ↦ elim (water_bodies tolerance items) [
            | raise e ↦ raise e
            | ok rest ↦ ok (body_feature item visible ∷ rest)
          ]
        ]
  ]
