-- ===== src/Elections/Representation.antt =====
-- app/providers/tse.py, `representation_rows`: who represents each territory, by party.
use brasil_lens_backend.Common.{
  ℕ, ◌+◌, Bool, false, not, ◌&&◌, Option, none, some, List, [], ◌∷◌, ◌++◌, ◌==◌, nat_eq, option_eq,
  list_eq, pair_eq, lookup, set_item, length, take, keep, leb, is_some, if◌then◌else◌,
}
use brasil_lens_backend.Elections.Numbers.{integer_eq}
use brasil_lens_backend.Elections.{Candidate, CandidateData, ElectionStage}
use brasil_lens_backend.Elections.Offices.{
  Text, Office, office_eq, president, place_eq, is_municipal,
}
use brasil_lens_backend.Elections.Load.{br, starts_with}
use brasil_lens_backend.Elections.Aggregate.{text_ltb, is_municipality_code}

-- An entry of `leaders`; the votes of a representative are None.
pub record Leader : Type 0 where
  pub id : Text
  pub votes : Option ℕ

-- len(rows) > 1 and rows[0][1] == rows[1][1]
abbrev pub is_tie : List (Text × ℕ) → Bool
is_tie ((a, m) ∷ (b, n) ∷ rows) = m == n
is_tie _ = false

abbrev pub first_key : List (Text × ℕ) → Option Text
first_key [] = none
first_key ((k, n) ∷ rows) = some k

abbrev pub first_votes : List (Text × ℕ) → Option ℕ
first_votes [] = none
first_votes ((k, n) ∷ rows) = some n

-- by_scope[k].append(c) of a defaultdict(list)
unfoldable pub append_under :
    Office × Text
    → CandidateData
    → List ((Office × Text) × List CandidateData)
    → List ((Office × Text) × List CandidateData)
append_under k c by_scope = elim (lookup k by_scope) [
  | none ↦ set_item k (c ∷ []) by_scope
  | some cs ↦ set_item k (cs ++ c ∷ []) by_scope
]

unfoldable pub add_elected :
    List ((Office × Text) × List CandidateData)
    → Candidate
    → List ((Office × Text) × List CandidateData)
add_elected by_scope c =
    let own = append_under (c.office, c.scope) c.data_json by_scope in
    let country = if c.scope == br then own else append_under (c.office, br) c.data_json own in
    if length c.scope == 7
    then append_under (c.office, take 2 c.scope) c.data_json country
    else country

unfoldable pub group_elected :
    List ((Office × Text) × List CandidateData)
    → List (Text × Candidate)
    → List ((Office × Text) × List CandidateData)
unfolding add_elected
group_elected by_scope [] = by_scope
group_elected by_scope ((id, c) ∷ rows) =
    group_elected (if is_some c.elected then add_elected by_scope c else by_scope) rows

-- Counter(party of each candidate)
unfoldable pub party_counts : List (Text × ℕ) → List CandidateData → List (Text × ℕ)
party_counts counts [] = counts
party_counts counts (c ∷ cs) = elim (lookup c.party counts) [
  | none ↦ party_counts (set_item c.party 1 counts) cs
  | some n ↦ party_counts (set_item c.party (n + 1) counts) cs
]

-- The first two of `most_common`: most first, and first seen first among equals.
unfoldable pub top_counts : List (Text × ℕ) → List (Text × ℕ)
top_counts [] = []
top_counts ((k, n) ∷ rows) = elim (top_counts rows) [
  | [] ↦ (k, n) ∷ []
  | (a, m) ∷ rest ↦ if leb m n then (k, n) ∷ (a, m) ∷ [] else elim rest [
    | [] ↦ (a, m) ∷ (k, n) ∷ []
    | (b, l) ∷ _ ↦ if leb l n then (a, m) ∷ (k, n) ∷ [] else (a, m) ∷ (b, l) ∷ []
  ]
]

pub record Representation : Type 0 where
  pub representatives : ℕ
  pub party : Option Text
  pub party_seats : Option ℕ
  pub party_tie : Bool
  pub leaders : List Leader

abbrev sole_leader : List CandidateData → List Leader
sole_leader (c ∷ []) = record { id = c.id; votes = none } ∷ []
sole_leader _ = []

unfoldable pub representation : List CandidateData → Representation
unfolding party_counts top_counts
representation candidates =
    let counts = top_counts (party_counts [] candidates) in
    record {
      representatives = length candidates;
      party = first_key counts;
      party_seats = first_votes counts;
      party_tie = is_tie counts;
      leaders = sole_leader candidates;
    }

unfoldable pub insert_text : Text → List Text → List Text
insert_text t [] = t ∷ []
insert_text t (u ∷ us) =
    let rest = insert_text t us in if text_ltb u t then u ∷ rest else t ∷ u ∷ us

-- sorted(texts)
unfoldable pub sort_texts : List Text → List Text
unfolding insert_text
sort_texts [] = []
sort_texts (t ∷ ts) = insert_text t (sort_texts ts)

unfoldable pub codes_of : List Text → Office → Text → List Text
unfolding sort_texts
codes_of territories office scope =
    if is_municipal office
    then scope ∷ []
    else scope
      ∷ (keep
            (λ code.
              is_municipality_code code
              && (if office == president then scope == br else starts_with scope code))
            (sort_texts territories)
          ++ (if office == president
              then keep (λ code. length code == 2 && not (code == br)) (sort_texts territories)
              else []))

pub record RepresentationRow : Type 0 where
  pub office : Office
  pub territory_code : Text
  pub summary : Representation

unfoldable pub spread_rows : Office → Representation → List Text → List RepresentationRow
spread_rows office summary [] = []
spread_rows office summary (code ∷ codes) =
    record { office = office; territory_code = code; summary = summary }
    ∷ spread_rows office summary codes

unfoldable pub scope_rows :
    List Text → List ((Office × Text) × List CandidateData) → List RepresentationRow
unfolding spread_rows representation codes_of
scope_rows territories [] = []
scope_rows territories (((office, scope), candidates) ∷ rest) =
    spread_rows office (representation candidates) (codes_of territories office scope)
    ++ scope_rows territories rest

-- Their round is 0.
unfoldable pub representation_rows : ElectionStage → List RepresentationRow
unfolding group_elected scope_rows
representation_rows s = scope_rows s.reader.territories (group_elected [] s.db.candidates)
