-- ===== src/Elections/Sums.antt =====
-- The sums of `aggregate` over the municipalities of a state.
use brasil_lens_backend.Common.{
  ℕ, ◌+◌, ◌≡◌, refl, Bool, true, false, ◌&&◌, none, List, [], ◌∷◌, ◌++◌, ◌==◌, ==_iff, nat_eq,
  option_eq, list_eq, pair_eq, lookup, lookup-set_item, lookup-append, length, or_default,
  if◌then◌else◌, arith, All,
}
use brasil_lens_backend.Elections.Numbers.{integer_eq}
use brasil_lens_backend.Elections.Offices.{Text, office_eq, Place, place_eq}
use brasil_lens_backend.Elections.Load.{count, br}
use brasil_lens_backend.Elections.Aggregate.{
  is_municipality_code, with_code, state_part, country_part, grouped, sum_table,
}

-- The votes under a key in the rows of the municipalities that pass and whose code is sent to the place's.
abbrev pub sum_under : (Place → Bool) → (Text → Text) → Place → Text → List ((Place × Text) × ℕ) → ℕ
sum_under passes f q key [] = 0
sum_under passes f q key (((p, k), n) ∷ rows) =
    (if is_municipality_code p.code && passes p && with_code f p == q && k == key then n else 0)
    + sum_under passes f q key rows

lookup-count :
    (i j : Place × Text) (n : ℕ) (table : List ((Place × Text) × ℕ))
    → or_default (lookup j (count i n table)) 0
      ≡ or_default (lookup j table) 0 + (if i == j then n else 0)
lookup-count i j n table = ground (
  arith,
  ==_iff i j,
  lookup-set_item i j n table,
  lookup-set_item i j (or_default (lookup i table) 0 + n) table,
)

grouped-sum_under :
    (passes : Place → Bool) (f : Text → Text) (q : Place) (key : Text)
    (rows : List ((Place × Text) × ℕ))
    → or_default (lookup (q, key) (grouped passes f rows)) 0 ≡ sum_under passes f q key rows
unfolding grouped lookup
grouped-sum_under passes f q key [] = omega arith
grouped-sum_under passes f q key (((p, k), n) ∷ rows) = ground (
  arith,
  lookup-count (with_code f p, k) (q, key) n (grouped passes f rows),
  grouped-sum_under passes f q key rows,
)

-- The sum of the country has no row of another code.
sum_under-country :
    (passes : Place → Bool) (q : Place) (key : Text) (rows : List ((Place × Text) × ℕ))
    → (q.code == br) ≡ false
    → sum_under passes country_part q key rows ≡ 0
sum_under-country passes q key [] h = refl
sum_under-country passes q key (((p, k), n) ∷ rows) h = ground (
  arith,
  h,
  ==_iff (with_code country_part p) q,
  ==_iff q.code br,
  sum_under-country passes q key rows h,
)

lookup_municipal :
    (q : Place) (key : Text) (rows : List ((Place × Text) × ℕ))
    → is_municipality_code q.code ≡ false
    → All (λ row. is_municipality_code (row.0.0.code) ≡ true) rows
    → lookup (q, key) rows ≡ none
unfolding lookup
lookup_municipal q key [] h m = refl
lookup_municipal q key (((p, k), n) ∷ rows) h m =
    ground (arith, h, m.0, ==_iff p q, lookup_municipal q key rows h m.1)

-- On a table of municipalities, a state's votes for a candidate or a party are the sum of those of the
-- municipalities whose code begins with the state's, over the offices that pass.
pub sum_table-state :
    (state country : Place → Bool) (table : List ((Place × Text) × ℕ)) (q : Place) (key : Text)
    → All (λ row. is_municipality_code (row.0.0.code) ≡ true) table
    → length q.code ≡ 2
    → (q.code == br) ≡ false
    → or_default (lookup (q, key) (sum_table state country table)) 0
      ≡ sum_under state state_part q key table
unfolding sum_table
sum_table-state state country table q key m l h = ground (
  arith,
  l,
  lookup_municipal q key table (ground (arith, l)) m,
  lookup-append (q, key) table (grouped state state_part table),
  lookup-append (q, key) (table ++ grouped state state_part table)
      (grouped country country_part (table ++ grouped state state_part table)),
  grouped-sum_under state state_part q key table,
  grouped-sum_under country country_part q key (table ++ grouped state state_part table),
  sum_under-country country q key (table ++ grouped state state_part table) h,
)
