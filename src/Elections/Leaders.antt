-- ===== src/Elections/Leaders.antt =====
-- The leaders of a place, as `aggregate` ranks them and `result_rows` reads them.
use brasil_lens_backend.Common.{
  ℕ, ◌≡◌, refl, Bool, true, false, ◌&&◌, ◌||◌, none, some, List, [], ◌∷◌, ◌==◌, ==_iff, nat_eq,
  list_eq, map, leb, ltb, if◌then◌else◌, arith, All, All-map,
}
use brasil_lens_backend.Elections.{Totals, Database}
use brasil_lens_backend.Elections.Offices.{Text, Place, place_eq}
use brasil_lens_backend.Elections.Aggregate.{insert_top, top_of}
use brasil_lens_backend.Elections.Results.{leader, result_row}
use brasil_lens_backend.Elections.Representation.{Leader, is_tie}

abbrev in_order : List (Text × ℕ) → Bool
in_order ((a, m) ∷ (b, l) ∷ rest) = leb l m
in_order _ = true

-- The row is the first of the two, or has no more votes than the second.
abbrev is_ranked : List (Text × ℕ) → Text × ℕ → Bool
is_ranked [] row = false
is_ranked ((a, m) ∷ []) (k, n) = k == a && n == m
is_ranked ((a, m) ∷ (b, l) ∷ rest) (k, n) = (k == a && n == m) || leb n l

insert_top-in_order :
    (row : Text × ℕ) (tops : List (Text × ℕ))
    → in_order tops ≡ true
    → in_order (insert_top row tops) ≡ true
unfolding insert_top
insert_top-in_order (k, n) [] h = refl
insert_top-in_order (k, n) ((a, m) ∷ []) h = ground (arith, h)
insert_top-in_order (k, n) ((a, m) ∷ (b, l) ∷ rest) h = ground (arith, h)

insert_top-is_ranked_new :
    (row : Text × ℕ) (tops : List (Text × ℕ))
    → in_order tops ≡ true
    → is_ranked (insert_top row tops) row ≡ true
unfolding insert_top
insert_top-is_ranked_new (k, n) [] h = ground (arith, ==_iff k k)
insert_top-is_ranked_new (k, n) ((a, m) ∷ []) h = ground (arith, h, ==_iff k k)
insert_top-is_ranked_new (k, n) ((a, m) ∷ (b, l) ∷ rest) h = ground (arith, h, ==_iff k k)

insert_top-is_ranked :
    (row old : Text × ℕ) (tops : List (Text × ℕ))
    → in_order tops ≡ true
    → is_ranked tops old ≡ true
    → is_ranked (insert_top row tops) old ≡ true
unfolding insert_top
insert_top-is_ranked (k, n) (j, i) [] h r = ground (arith, r)
insert_top-is_ranked (k, n) (j, i) ((a, m) ∷ []) h r = ground (arith, h, r)
insert_top-is_ranked (k, n) (j, i) ((a, m) ∷ (b, l) ∷ rest) h r = ground (arith, h, r)

abbrev Ranked : List ((Place × Text) × ℕ) → List (Text × ℕ) → Place → Type 0
Ranked rows tops place =
    All (λ row. row.0.0 == place ≡ true → is_ranked tops (row.0.1, row.1) ≡ true) rows

Ranked-insert_top :
    (rows : List ((Place × Text) × ℕ)) (place : Place) (row : Text × ℕ) (tops : List (Text × ℕ))
    → in_order tops ≡ true
    → Ranked rows tops place
    → Ranked rows (insert_top row tops) place
Ranked-insert_top [] place row tops h r = tt
Ranked-insert_top (((p, k), n) ∷ rows) place row tops h r = (
  λ e. insert_top-is_ranked row (k, n) tops h (r.0 e),
  Ranked-insert_top rows place row tops h r.1,
)

top_step :
    (b : Bool) (rows : List ((Place × Text) × ℕ)) (place : Place) (row : Text × ℕ)
    (tops : List (Text × ℕ))
    → in_order tops ≡ true
    → Ranked rows tops place
    → (in_order (if b then insert_top row tops else tops) ≡ true)
      × (b ≡ true → is_ranked (if b then insert_top row tops else tops) row ≡ true)
      × Ranked rows (if b then insert_top row tops else tops) place
top_step true rows place row tops o r = (
  insert_top-in_order row tops o,
  λ e. insert_top-is_ranked_new row tops o,
  Ranked-insert_top rows place row tops o r,
)
top_step false rows place row tops o r = (o, λ e. ground (arith, e), r)

top_of-Ranked :
    (rows : List ((Place × Text) × ℕ)) (place : Place)
    → (in_order (top_of rows place) ≡ true) × Ranked rows (top_of rows place) place
unfolding top_of
top_of-Ranked [] place = (refl, tt)
top_of-Ranked (((p, k), n) ∷ rows) place =
    let (o, r) = top_of-Ranked rows place in
    let (o', new, old) = top_step (p == place) rows place (k, n) (top_of rows place) o r in
    (o', (new, old))

-- Nobody has more votes than the first of the leaders, and as many only that one, unless there is a tie.
abbrev pub is_beaten : Bool → List Leader → Text × ℕ → Bool
is_beaten tie [] row = false
is_beaten tie (first ∷ rest) (k, n) = elim first.votes [
  | none ↦ false
  | some m ↦ leb n m && (tie || k == first.id || ltb n m)
]

is_ranked-is_beaten :
    (tops : List (Text × ℕ)) (row : Text × ℕ)
    → in_order tops ≡ true
    → is_ranked tops row ≡ true
    → is_beaten (is_tie tops) (map leader tops) row ≡ true
is_ranked-is_beaten [] row o r = ground (arith, r)
is_ranked-is_beaten ((a, m) ∷ []) (k, n) o r = ground (arith, o, r)
is_ranked-is_beaten ((a, m) ∷ (b, l) ∷ rest) (k, n) o r = ground (arith, o, r)

-- In the row of results of a place, each candidate with votes there has no more than the first of the
-- leaders, and fewer unless it is that candidate or the row reports a tie.
pub result_row-is_beaten :
    (db : Database) (row : Place × Totals)
    → All
        (λ v.
          v.0.0 == row.0 ≡ true
          → is_beaten
              ((result_row db row).summary.candidate_tie)
              ((result_row db row).summary.leaders)
              (v.0.1, v.1)
            ≡ true)
        db.counts.votes
unfolding result_row
result_row-is_beaten db row =
    let (o, ranked) = top_of-Ranked db.counts.votes row.0 in
    All-map _ _ db.counts.votes
      (λ v r e. is_ranked-is_beaten (top_of db.counts.votes row.0) (v.0.1, v.1) o (r e)) ranked
