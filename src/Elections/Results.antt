-- ===== src/Elections/Results.antt =====
-- app/providers/tse.py, `result_rows`, `representation_rows`, `candidate_rows` and `metadata`: what
-- is read of the stage. A generator is the list of what it yields; the rows of a table come in the
-- order in which they were inserted.
use brasil_lens_backend.Elections.Representation.{
  Leader, is_tie, first_key, first_votes, RepresentationRow, representation_rows,
}
use brasil_lens_backend.Common.{
  ℕ, Bool, false, ◌||◌, Option, some, List, [], ◌∷◌, ◌==◌, nat_eq, option_eq, list_eq, pair_eq,
  keep, any_of, map, is_some, if◌then◌else◌,
}
use brasil_lens_backend.Elections.Numbers.{ℤ, pos, integer_eq, integer_ltb}
use brasil_lens_backend.Elections.{Totals, Candidate, Excluded, Database, ElectionStage}
use brasil_lens_backend.Elections.Offices.{
  Text, Office, office_eq, president, governor, senator, federal_deputy, state_deputy, mayor,
  councillor, Place, place_eq,
}
use brasil_lens_backend.Elections.Aggregate.{top_of}

pub record ResultSummary : Type 0 where
  pub totals : Totals
  pub leaders : List Leader
  pub party : Option Text
  pub party_votes : Option ℕ
  pub candidate_tie : Bool
  pub party_tie : Bool

pub record ResultRow : Type 0 where
  pub office : Office
  pub election_round : ℤ
  pub territory_code : Text
  pub summary : ResultSummary

abbrev pub leader : Text × ℕ → Leader
leader (id, n) = record { id = id; votes = some n }

unfoldable pub result_row : Database → Place × Totals → ResultRow
result_row db (place, totals) =
    let leaders = top_of db.counts.votes place in
    let parties = top_of db.counts.parties place in
    record {
      office = place.office;
      election_round = place.election_round;
      territory_code = place.code;
      summary = record {
        totals = totals;
        leaders = map leader leaders;
        party = first_key parties;
        party_votes = first_votes parties;
        candidate_tie = is_tie leaders;
        party_tie = is_tie parties;
      };
    }

unfoldable pub result_rows : ElectionStage → List ResultRow × List RepresentationRow
unfolding result_row representation_rows
result_rows s = (map (result_row s.db) s.db.counts.totals, representation_rows s)

-- id IN (SELECT id FROM top_votes)
unfoldable pub is_top : List ((Place × Text) × ℕ) → List ((Place × Text) × ℕ) → Text → Bool
is_top votes [] id = false
is_top votes (((place, key), n) ∷ rows) id =
    any_of (λ row. row.0 == id) (top_of votes place) || is_top votes rows id

unfoldable pub candidate_rows : ElectionStage → List (Text × Candidate)
unfolding is_top
candidate_rows s =
    keep (λ row. is_some (row.1.elected) || is_top s.db.counts.votes s.db.counts.votes row.0)
      s.db.candidates

-- SELECT DISTINCT round … WHERE office = ? ORDER BY round
unfoldable pub insert_round : ℤ → List ℤ → List ℤ
insert_round r [] = r ∷ []
insert_round r (a ∷ rounds) =
    let rest = insert_round r rounds in
    if r == a then a ∷ rounds else if integer_ltb r a then r ∷ a ∷ rounds else a ∷ rest

unfoldable pub rounds_of : Office → List (Place × Totals) → List ℤ
unfolding insert_round
rounds_of office [] = []
rounds_of office ((p, t) ∷ rows) =
    let rest = rounds_of office rows in
    if p.office == office then insert_round p.election_round rest else rest

-- The offices in the order of their names.
abbrev pub ordered_offices : List Office
ordered_offices =
    councillor ∷ federal_deputy ∷ governor ∷ mayor ∷ president ∷ senator ∷ state_deputy ∷ []

pub data Coverage : Type 0 where
  partial : Coverage
  full : Coverage

pub record Metadata : Type 0 where
  pub year : ℤ
  pub status : Coverage
  pub updated_at : Option ℕ
  pub contests : List (Office × List ℤ)
  pub excluded : Excluded

unfoldable pub metadata : ElectionStage → Metadata
unfolding rounds_of
metadata s = record {
  year = s.reader.year;
  status = if s.reader.year == pos 2026 then partial else full;
  updated_at = s.reader.updated_at;
  contests =
      map (λ office. (office, rounds_of office s.db.counts.totals))
        (keep (λ office. any_of (λ row. row.0.office == office) s.db.counts.totals)
          ordered_offices);
  excluded = s.reader.excluded;
}
