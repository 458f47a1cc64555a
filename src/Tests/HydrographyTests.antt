-- ===== src/Tests/HydrographyTests.antt =====
-- app/services/hydrography.py at concrete inputs, on thousandths in place of floating-point numbers.
use brasil_lens_backend.Common.{
  ℕ, ◌-◌, ◌*◌, ◌≡◌, refl, not, ◌&&◌, ◌||◌, nat_eq, option_eq, pair_eq, List, [], ◌∷◌, none, some,
  is_some, leb, length, lookup, arith,
}
use brasil_lens_backend.Tests.Thousandths.{thousandths}
use brasil_lens_backend.Cache
use brasil_lens_backend.Forecast.{active}
use brasil_lens_backend.Hydrography.{Point, multi_line_string, HydroFeature, river}
use brasil_lens_backend.Hydrography.Lines.{merge_lines, extend, following, last_point, first_point}
use brasil_lens_backend.Hydrography.Chains.{extend-following}
use brasil_lens_backend.Hydrography.Joined.{all_edges, all_edges-merge_lines}
use brasil_lens_backend.Hydrography.Shapes.{simplify_line, simplify_loop}
use brasil_lens_backend.Hydrography.Simplified.{rounded_end, simplify_loop_lem, simplify_line-ends}
use brasil_lens_backend.Hydrography.Serve.{Service, Surroundings, is_partial, respond, brazil_bbox}
use brasil_lens_backend.Hydrography.Outage.{respond_complete}

-- The second piece begins where the third ends, and the first where the second does.
abbrev pieces : List (List ℕ)
pieces = (5 ∷ 6 ∷ []) ∷ (3 ∷ 4 ∷ 5 ∷ []) ∷ [] ∷ (1 ∷ 3 ∷ []) ∷ (9 ∷ 8 ∷ []) ∷ []

merged_pieces : merge_lines pieces ≡ (1 ∷ 3 ∷ 4 ∷ 5 ∷ 6 ∷ []) ∷ (9 ∷ 8 ∷ []) ∷ []
unfolding merge_lines
merged_pieces = refl

all_edges-merge_lines_example : all_edges 3 4 (merge_lines pieces) ≡ all_edges 3 4 pieces
all_edges-merge_lines_example = all_edges-merge_lines 3 4 pieces

abbrev two_pieces : List (ℕ × List ℕ)
two_pieces = (0, 1 ∷ 2 ∷ []) ∷ (1, 2 ∷ 3 ∷ []) ∷ []

extend-following_example :
    following two_pieces
      (extend 2 two_pieces (0 ∷ []) (1 ∷ 2 ∷ [])).0
      (last_point (extend 2 two_pieces (0 ∷ []) (1 ∷ 2 ∷ [])).1)
    ≡ none
unfolding lookup
extend-following_example =
    extend-following 2 two_pieces (0 ∷ []) (1 ∷ 2 ∷ []) (refl, (refl, tt)) (omega arith)

abbrev bend : List (Point ℕ)
bend = (0, 0) ∷ (1000, 5000) ∷ (2000, 0) ∷ (3000, 0) ∷ []

simplify_loop_lem_example :
    (simplify_loop thousandths (2 * length bend) bend 100 ((0, length bend - 1) ∷ []) []).0 ≡ []
simplify_loop_lem_example = simplify_loop_lem thousandths bend 100 [] (omega arith)

simplify_line-ends_example :
    (first_point (simplify_line thousandths bend 100) ≡ rounded_end thousandths (some (0, 0)))
    × (last_point (simplify_line thousandths bend 100) ≡ rounded_end thousandths (last_point bend))
simplify_line-ends_example = simplify_line-ends thousandths bend 100 (omega arith)

abbrev amazon : HydroFeature ℕ
amazon = record {
  id = [];
  name = [];
  category = river;
  drainage_area_km2 = some 7000000000;
  area_km2 = none;
  dominion = none;
  management = none;
  body_type = none;
  segment_count = none;
  geometry = multi_line_string (bend ∷ []);
  bbox = none;
}

abbrev idle : Service ℕ
idle = record { cache = Cache.init 86400 128; ana_cooldown = record { seconds = 60; until = 0 } }

abbrev failing : Surroundings ℕ
failing = record { now = 5; stored = none; water_bodies = some []; rivers = none; fetched_at = 9 }

-- A later request, when the source would answer again.
abbrev later_request : Surroundings ℕ
later_request = record {
  now = 59_000_000;
  stored = none;
  water_bodies = some [];
  rivers = some (amazon ∷ []);
  fetched_at = 59_000_001;
}

respond_complete_example :
    let answer = respond thousandths idle (amazon ∷ []) failing 7000 (brazil_bbox thousandths) in
    (is_partial thousandths answer.1 ≡ not answer.2)
    × (answer.2 ≡ (
        not (active idle.ana_cooldown failing.now)
        && is_some failing.water_bodies
        && (not (leb 6000 7000) || is_some failing.rivers)))
respond_complete_example =
    respond_complete thousandths idle (amazon ∷ []) failing 7000 (brazil_bbox thousandths)
