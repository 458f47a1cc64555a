-- ===== src/Hydrography/Shapes.antt =====
-- app/services/hydrography.py: `_simplify_line`, `_clip_line`, `_visible_river` and `_visible_rings`.
use brasil_lens_backend.Common.{
  Arithmetic, ℕ, zero, suc, ◌+◌, ◌-◌, ◌*◌, Bool, true, false, ◌&&◌, Option, none, some, List, [],
  ◌∷◌, ◌++◌, nat_eq, length, take, drop, keep, map, ltb, if◌then◌else◌,
}
use brasil_lens_backend.Errors.{Result, ok, raise, DomainError, internal}
use brasil_lens_backend.Hydrography.{
  Point, Box, Geometry, line_string, multi_line_string, polygon, multi_polygon, HydroFeature,
  larger, smaller,
}
use brasil_lens_backend.Hydrography.Lines.{is_used}

abbrev pub no_rings : DomainError
no_rings = internal "ValueError: not enough values to unpack"

module _ {A : Type 0} (r : Arithmetic A) where
  -- points[i], for an index in range
  abbrev pub nth : List (Point A) → ℕ → Point A
  nth [] i = (r.zero, r.zero)
  nth (p ∷ ps) zero = p
  nth (p ∷ ps) (suc i) = nth ps i

  -- The square of the distance of a point from a segment.
  unfoldable pub distance : Point A → Point A → Point A → A
  distance (ax, ay) (bx, by) (x, y) =
      let dx : A = r.minus bx ax in
      let dy : A = r.minus by ay in
      let denom : A = r.plus (r.times dx dx) (r.times dy dy) in
      let t : A =
        if r.equal denom r.zero
        then r.zero
        else larger r r.zero (
            smaller r r.one
              (r.divide (r.plus (r.times (r.minus x ax) dx) (r.times (r.minus y ay) dy)) denom)) in
      let across : A = r.minus (r.minus x ax) (r.times t dx) in
      let along : A = r.minus (r.minus y ay) (r.times t dy) in
      r.plus (r.times across across) (r.times along along)

  -- The loop over the points between, which keeps the farthest beyond the tolerance.
  unfoldable pub farthest : Point A → Point A → A → Option ℕ → ℕ → List (Point A) → Option ℕ
  unfolding distance
  farthest a b greatest split i [] = split
  farthest a b greatest split i (p ∷ ps) = elim (r.below greatest (distance a b p)) [
    | true ↦ farthest a b (distance a b p) (some i) (i + 1) ps
    | false ↦ farthest a b greatest split (i + 1) ps
  ]

  unfoldable pub split_of : List (Point A) → A → ℕ → ℕ → Option ℕ
  unfolding farthest
  split_of points tolerance start end =
      farthest (nth points start) (nth points end) (r.times tolerance tolerance) none (start + 1)
        (take (end - start - 1) (drop (start + 1) points))

  -- The loop over the stack, whose top is first: what is left of it, and the indices that are kept.
  unfoldable pub simplify_loop :
      ℕ → List (Point A) → A → List (ℕ × ℕ) → List ℕ → List (ℕ × ℕ) × List ℕ
  unfolding split_of
  simplify_loop zero points tolerance stack kept = (stack, kept)
  simplify_loop (suc fuel) points tolerance [] kept = ([], kept)
  simplify_loop (suc fuel) points tolerance ((start, end) ∷ stack) kept =
      elim (split_of points tolerance start end) [
        | none ↦ simplify_loop fuel points tolerance stack kept
        | some split ↦
            simplify_loop fuel points tolerance ((split, end) ∷ (start, split) ∷ stack)
              (split ∷ kept)
      ]

  -- points[i] for i in sorted(keep), from an index on
  unfoldable pub select : ℕ → List ℕ → List (Point A) → List (Point A)
  select i kept [] = []
  select i kept (p ∷ ps) =
      let rest = select (i + 1) kept ps in if is_used kept i then p ∷ rest else rest

  abbrev pub rounded : Point A → Point A
  rounded (x, y) = (r.round 4 x, r.round 4 y)

  unfoldable pub simplify_line : List (Point A) → A → List (Point A)
  unfolding simplify_loop select
  simplify_line points tolerance =
      if ltb (length points) 3
      then points
      else let last = length points - 1 in
        let kept =
          (simplify_loop (2 * length points) points tolerance ((0, last) ∷ []) (0 ∷ last ∷ [])).1 in
        map rounded (select 0 kept points)

  -- A step of the loop over the sides: the part of the segment that is left, none when it breaks.
  unfoldable pub clip_side : Option (A × A) → A → A → Option (A × A)
  clip_side none p q = none
  clip_side (some (low, high)) p q =
      if r.equal p r.zero
      then (if r.below q r.zero then none else some (low, high))
      else if r.below p r.zero
      then some (larger r low (r.divide q p), high)
      else some (low, smaller r high (r.divide q p))

  abbrev pub same_point : Point A → Point A → Bool
  same_point (x, y) (u, v) = r.equal x u && r.equal y v

  -- A segment goes on with the last line where that ends at its beginning.
  unfoldable pub add_segment : List (List (Point A)) → Point A → Point A → List (List (Point A))
  add_segment [] begin end = (begin ∷ end ∷ []) ∷ []
  add_segment (line ∷ []) begin end =
      if same_point (nth line (length line - 1)) begin
      then (line ++ end ∷ []) ∷ []
      else line ∷ (begin ∷ end ∷ []) ∷ []
  add_segment (line ∷ next ∷ lines) begin end = line ∷ add_segment (next ∷ lines) begin end

  unfoldable pub clip_segment :
      Box A → List (List (Point A)) → Point A → Point A → List (List (Point A))
  unfolding clip_side add_segment
  clip_segment (west, south, east, north) lines (x, y) (u, v) =
      let dx : A = r.minus u x in
      let dy : A = r.minus v y in
      let left =
        clip_side
          (clip_side
            (clip_side (clip_side (some (r.zero, r.one)) (r.negate dx) (r.minus x west)) dx
              (r.minus east x))
            (r.negate dy) (r.minus y south))
          dy (r.minus north y) in
      elim left [
        | none ↦ lines
        | some (low, high) ↦
            if r.below high low
            then lines
            else add_segment lines (r.plus x (r.times low dx), r.plus y (r.times low dy))
                (r.plus x (r.times high dx), r.plus y (r.times high dy))
      ]

  unfoldable pub clip_each : Box A → List (List (Point A)) → List (Point A) → List (List (Point A))
  unfolding clip_segment
  clip_each box lines [] = lines
  clip_each box lines (a ∷ []) = lines
  clip_each box lines (a ∷ b ∷ ps) = clip_each box (clip_segment box lines a b) (b ∷ ps)

  unfoldable pub clip_line : List (Point A) → Box A → List (List (Point A))
  unfolding clip_each
  clip_line points box = clip_each box [] points

  unfoldable pub clip_lines : Box A → A → List (List (Point A)) → List (List (Point A))
  unfolding clip_line simplify_line
  clip_lines box tolerance [] = []
  clip_lines box tolerance (line ∷ lines) =
      clip_line (simplify_line line tolerance) box ++ clip_lines box tolerance lines

  -- The lines of a river; it has no polygons.
  abbrev pub lines_of : Geometry A → List (List (Point A))
  lines_of (multi_line_string lines) = lines
  lines_of (line_string line) = line ∷ []
  lines_of (polygon rings) = rings
  lines_of (multi_polygon polygons) = []

  unfoldable pub visible_river : HydroFeature A → Box A → A → Option (HydroFeature A)
  unfolding clip_lines
  visible_river feature box tolerance =
      elim (clip_lines box tolerance (lines_of feature.geometry)) [
        | [] ↦ none
        | line ∷ lines ↦
            some (record feature { geometry = multi_line_string (line ∷ lines); bbox = none })
      ]

  unfoldable pub cross_sum : A → List (Point A) → A
  cross_sum total [] = total
  cross_sum total (a ∷ []) = total
  cross_sum total ((ax, ay) ∷ (bx, by) ∷ ps) =
      cross_sum (r.plus total (r.minus (r.times ax by) (r.times bx ay))) ((bx, by) ∷ ps)

  unfoldable pub ring_area : List (Point A) → A
  unfolding cross_sum
  ring_area ring = r.divide (r.absolute (cross_sum r.zero ring)) (r.literal 2 0)

  -- The polygons with their holes, where both are large enough.
  unfoldable pub keep_rings :
      A → List (List (List (Point A))) → Result (List (List (List (Point A))))
  unfolding ring_area
  keep_rings min_area [] = ok []
  keep_rings min_area ([] ∷ polygons) = raise no_rings
  keep_rings min_area ((outer ∷ holes) ∷ polygons) = elim (keep_rings min_area polygons) [
    | raise e ↦ raise e
    | ok rest ↦
        if r.at_least (ring_area outer) min_area
        then ok ((outer ∷ keep (λ hole. r.at_least (ring_area hole) min_area) holes) ∷ rest)
        else ok rest
  ]

  -- The polygons of a body of water; it has no lines.
  abbrev pub polygons_of : Geometry A → List (List (List (Point A)))
  polygons_of (polygon rings) = rings ∷ []
  polygons_of (multi_polygon polygons) = polygons
  polygons_of (line_string line) = []
  polygons_of (multi_line_string lines) = lines ∷ []

  unfoldable pub visible_rings : Geometry A → A → Result (Option (Geometry A))
  unfolding keep_rings
  visible_rings geometry min_area = elim (keep_rings min_area (polygons_of geometry)) [
    | raise e ↦ raise e
    | ok [] ↦ ok none
    | ok (one ∷ []) ↦ ok (some (polygon one))
    | ok (one ∷ two ∷ more) ↦ ok (some (multi_polygon (one ∷ two ∷ more)))
  ]
