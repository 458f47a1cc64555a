-- ===== src/Elections/Aggregate.antt =====
-- app/providers/tse.py, `aggregate`: the rounds that are kept, the sums of the states and of the
-- country, and the two rows of each place with the most votes. The rows that are inserted have keys of
-- their own, since a stage holds the codes of municipalities alone before this runs, once.
use brasil_lens_backend.Common.{
  ℕ, ◌+◌, Bool, true, false, not, ◌&&◌, ◌||◌, Option, none, some, List, [], ◌∷◌, ◌++◌, ◌==◌, nat_eq,
  option_eq, list_eq, pair_eq, lookup, set_item, length, take, keep, ltb, if◌then◌else◌,
}
use brasil_lens_backend.Elections.Numbers.{ℤ, pos, integer_eq}
use brasil_lens_backend.Elections.{Totals, ElectionStage}
use brasil_lens_backend.Elections.Offices.{
  Text, Office, office_eq, president, Place, place_eq, is_municipal,
}
use brasil_lens_backend.Elections.Load.{plus_totals, count, br}

-- round IN (1, 2)
abbrev pub is_kept_round : ℤ → Bool
is_kept_round r = r == pos 1 || r == pos 2

-- SUM over a group, which passes over NULL, and is NULL where nothing is left
unfoldable pub sum_total_votes : Office → ℤ → List (Place × Totals) → Option ℕ
sum_total_votes office turn [] = none
sum_total_votes office turn ((p, t) ∷ rows) =
    let rest = sum_total_votes office turn rows in
    if p.office == office && p.election_round == turn
    then elim t.total_votes [
      | none ↦ rest
      | some n ↦ elim rest [ none ↦ some n | some m ↦ some (n + m) ]
    ]
    else rest

abbrev pub is_empty_turn : List (Place × Totals) → Place → Bool
is_empty_turn totals p = sum_total_votes p.office p.election_round totals == some 0

-- The two DELETEs from `totals`.
unfoldable pub delete_empty : List (Place × Totals) → List (Place × Totals)
unfolding sum_total_votes
delete_empty totals =
    let kept = keep (λ row. is_kept_round (row.0.election_round)) totals in
    keep (λ row. not (is_empty_turn kept row.0)) kept

abbrev pub is_municipality_code : Text → Bool
is_municipality_code code = length code == 7

abbrev pub with_code : (Text → Text) → Place → Place
with_code f p = record p { code = f p.code }

abbrev pub state_part : Text → Text
state_part = take 2

abbrev pub country_part : Text → Text
country_part _ = br

-- INSERT INTO … SELECT …, SUM(votes) … GROUP BY: the groups of the rows that pass, with their sums
unfoldable pub grouped :
    (Place → Bool) → (Text → Text) → List ((Place × Text) × ℕ) → List ((Place × Text) × ℕ)
grouped passes f [] = []
grouped passes f (((p, key), n) ∷ rows) =
    let rest = grouped passes f rows in
    if is_municipality_code p.code && passes p then count (with_code f p, key) n rest else rest

abbrev pub state_votes_pass : Place → Bool
state_votes_pass p = not (is_municipal p.office)

abbrev pub country_votes_pass : Place → Bool
country_votes_pass p = p.office == president

abbrev pub every_place : Place → Bool
every_place _ = true

-- The INSERTs of the loop over (table, key).
unfoldable pub sum_table :
    (Place → Bool) → (Place → Bool) → List ((Place × Text) × ℕ) → List ((Place × Text) × ℕ)
unfolding grouped
sum_table state country table =
    let with_states = table ++ grouped state state_part table in
    with_states ++ grouped country country_part with_states

-- `CASE WHEN COUNT(c) = COUNT(*) THEN SUM(c) END` for each column
unfoldable pub grouped_totals : (Text → Text) → List (Place × Totals) → List (Place × Totals)
grouped_totals f [] = []
grouped_totals f ((p, t) ∷ rows) =
    let rest = grouped_totals f rows in
    if is_municipality_code p.code
    then elim (lookup (with_code f p) rest) [
      | none ↦ set_item (with_code f p) t rest
      | some u ↦ set_item (with_code f p) (plus_totals t u) rest
    ]
    else rest

unfoldable pub sum_totals : List (Place × Totals) → List (Place × Totals)
unfolding grouped_totals
sum_totals totals =
    let with_states = totals ++ grouped_totals state_part totals in
    with_states ++ grouped_totals country_part with_states

abbrev pub text_ltb : Text → Text → Bool
text_ltb [] [] = false
text_ltb [] (d ∷ ds) = true
text_ltb (c ∷ cs) [] = false
text_ltb (c ∷ cs) (d ∷ ds) = ltb c d || (c == d && text_ltb cs ds)

-- ORDER BY votes DESC, key
abbrev pub outranks : Text × ℕ → Text × ℕ → Bool
outranks (k, m) (j, n) = ltb n m || (m == n && text_ltb k j)

-- The first two of a partition, in order.
unfoldable pub insert_top : Text × ℕ → List (Text × ℕ) → List (Text × ℕ)
insert_top row [] = row ∷ []
insert_top row (a ∷ []) = if outranks row a then row ∷ a ∷ [] else a ∷ row ∷ []
insert_top row (a ∷ b ∷ rest) =
    if outranks row a then row ∷ a ∷ [] else if outranks row b then a ∷ row ∷ [] else a ∷ b ∷ []

-- top_votes and top_parties: WHERE rank <= 2 of the partition of a place
unfoldable pub top_of : List ((Place × Text) × ℕ) → Place → List (Text × ℕ)
unfolding insert_top
top_of [] place = []
top_of (((p, key), n) ∷ rows) place =
    let rest = top_of rows place in if p == place then insert_top (key, n) rest else rest

unfoldable pub aggregate : ElectionStage → ElectionStage
unfolding delete_empty sum_table sum_totals
aggregate s = record s {
  db = record (s.db) {
    counts = record {
      votes = sum_table state_votes_pass country_votes_pass s.db.counts.votes;
      parties = sum_table every_place every_place s.db.counts.parties;
      totals = sum_totals (delete_empty s.db.counts.totals);
    };
  };
}
