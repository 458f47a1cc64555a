-- ===== src/Elections.antt =====
-- app/providers/tse.py, `ElectionStage`: the votes of an election, staged in tables of a database of
-- its own. Texts are lists of codes; a table is a list of rows under their primary key, and the
-- columns of a file's row are a record.
pub mod Offices
pub mod Numbers
pub mod Digits
pub mod Load
pub mod Batches
pub mod Tallies
pub mod Documents
pub mod Live
pub mod Totalled
pub mod Aggregate
pub mod Sums
pub mod Leaders
pub mod Representation
pub mod Results
use brasil_lens_backend.Elections.Offices.{
  Text, Office, office_beq, office_beq_iff, office_eq, offices, is_municipal, Place, place_beq,
  place_beq_iff, place_eq, president, governor, senator, federal_deputy, state_deputy, mayor,
  councillor,
}
use brasil_lens_backend.Common.{
  ℕ, ◌+◌, ◌≡◌, ◌↔◌, refl, Bool, true, false, not, ◌&&◌, ◌||◌, Option, none, some, List, [], ◌∷◌,
  ◌++◌, ◌==◌, ==_iff, HasEq, nat_eq, list_eq, any_of, lookup, set_item, ltb, is_some, if◌then◌else◌,
  arith,
}
use brasil_lens_backend.Errors.{Result, ok, raise, DomainError, internal}
use brasil_lens_backend.Elections.Numbers.{ℤ, pos, negsuc, integer_eq, to_int}

-- TOTAL_FIELDS; `none` is NULL
pub record Totals : Type 0 where
  pub eligible : Option ℕ
  pub turnout : Option ℕ
  pub abstention : Option ℕ
  pub total_votes : Option ℕ
  pub valid_votes : Option ℕ
  pub blank_votes : Option ℕ
  pub null_votes : Option ℕ

-- The columns that are read of the three families of files.
pub record Row : Type 0 where
  pub ano_eleicao : Text
  pub cd_tipo_eleicao : Text
  pub sg_uf : Text
  pub cd_cargo : Text
  pub cd_municipio : Text
  pub nr_turno : Text
  pub dt_geracao : Text
  pub hh_geracao : Text
  pub qt_aptos : Text
  pub qt_comparecimento : Text
  pub qt_abstencoes : Text
  pub qt_votos : Text
  pub qt_total_votos_validos : Text
  pub qt_votos_brancos : Text
  pub qt_total_votos_nulos : Text
  pub qt_votos_nominais_validos : Text
  pub qt_total_votos_leg_validos : Text
  pub sg_partido : Text
  pub nr_partido : Text
  pub sq_candidato : Text
  pub nm_urna_candidato : Text
  pub nr_candidato : Text
  pub ds_sit_tot_turno : Text

-- The JSON of a candidate.
pub record CandidateData : Type 0 where
  pub id : Text
  pub name : Text
  pub number : Text
  pub party : Text
  pub party_number : Text
  pub status : Text

pub record Candidate : Type 0 where
  pub office : Office
  pub scope : Text
  pub elected : Option ℤ
  pub data_json : CandidateData

pub record Excluded : Type 0 where
  pub other_election : ℕ
  pub outside_geography : ℕ

-- What `self` holds beside its database; `updated_at` and the stamps count seconds.
pub record Reader : Type 0 where
  pub year : ℤ
  pub territories : List Text
  pub crosswalk : List (ℤ × Text)
  pub updated_at : Option ℕ
  pub processed : ℕ
  pub timestamps : List (Text × ℕ)
  pub excluded : Excluded

-- The tables of numbers: votes and parties under a place and an id or a party, totals under a place.
pub record Counts : Type 0 where
  pub votes : List ((Place × Text) × ℕ)
  pub parties : List ((Place × Text) × ℕ)
  pub totals : List (Place × Totals)

pub record Database : Type 0 where
  pub candidates : List (Text × Candidate)
  pub counts : Counts

pub record ElectionStage : Type 0 where
  pub reader : Reader
  pub db : Database

abbrev pub empty_stage : ℤ → List Text → ElectionStage
empty_stage year territories = record {
  reader = record {
    year = year;
    territories = territories;
    crosswalk = [];
    updated_at = none;
    processed = 0;
    timestamps = [];
    excluded = record { other_election = 0; outside_geography = 0 };
  };
  db = record { candidates = []; counts = record { votes = []; parties = []; totals = [] } };
}

abbrev pub no_territory : DomainError
no_territory = internal "ValueError: Município do TSE sem correspondência na malha IBGE"

abbrev pub not_a_number : DomainError
not_a_number = internal "ValueError: invalid literal for int()"

-- int(text), with its ValueError
abbrev pub int : Text → Result ℤ
int t = elim (to_int t) [ none ↦ raise not_a_number | some n ↦ ok n ]

-- The row counts for this year's ordinary elections.
abbrev pub is_ordinary : Reader → ℤ → Row → Bool
is_ordinary s year row = year == s.year && row.cd_tipo_eleicao == b'2' ∷ []

abbrev pub is_abroad : Row → Bool
is_abroad row = row.sg_uf == b'Z' ∷ b'Z' ∷ [] || row.sg_uf == b'V' ∷ b'T' ∷ []

abbrev pub later : Option ℕ → ℕ → Option ℕ
later none t = some t
later (some u) t = if ltb u t then some t else some u

module _ (strptime : Text → Result ℕ) where
  -- The memo of the stamps, and the latest of them.
  unfoldable pub note_stamp : Reader → Text → Reader × Result (Unit {0})
  note_stamp s stamp = elim (lookup stamp s.timestamps) [
    | some generated ↦ (record s { updated_at = later s.updated_at generated }, ok tt)
    | none ↦ elim (strptime stamp) [
      | raise e ↦ (s, raise e)
      | ok generated ↦ (
        record s {
          timestamps = set_item stamp generated s.timestamps;
          updated_at = later s.updated_at generated;
        },
        ok tt,
      )
    ]
  ]

  -- The last part of `dimensions`, for an office and a municipality's number.
  unfoldable pub dimensions_of : Reader → Row → Office → ℤ → Reader × Result (Option Place)
  unfolding note_stamp
  dimensions_of s row office municipality = elim (lookup municipality s.crosswalk) [
    | none ↦ (s, raise no_territory)
    | some code ↦
        if not (any_of (λ t. t == code) s.territories)
        then (s, raise no_territory)
        else let (s', noted) = note_stamp s (row.dt_geracao ++ 32 ∷ row.hh_geracao) in
          elim noted [
            | raise e ↦ (s', raise e)
            | ok _ ↦ elim (int row.nr_turno) [
              | raise e ↦ (s', raise e)
              | ok turn ↦
                  (s', ok (some (record { office = office; election_round = turn; code = code })))
            ]
          ]
  ]

  unfoldable pub dimensions : Reader → Row → Reader × Result (Option Place)
  unfolding dimensions_of
  dimensions stage row =
      let s : Reader = record stage { processed = stage.processed + 1 } in
      elim (int row.ano_eleicao) [
        | raise e ↦ (s, raise e)
        | ok year ↦
            if not (is_ordinary s year row)
            then (
              record s {
                excluded = record (s.excluded) { other_election = s.excluded.other_election + 1 };
              },
              ok none,
            )
            else if is_abroad row
            then (
              record s {
                excluded = record (s.excluded) {
                  outside_geography = s.excluded.outside_geography + 1;
                };
              },
              ok none,
            )
            else elim (int row.cd_cargo) [
              | raise e ↦ (s, raise e)
              | ok charge ↦ elim (lookup charge offices) [
                | none ↦ (s, ok none)
                | some office ↦ elim (int row.cd_municipio) [
                  | raise e ↦ (s, raise e)
                  | ok municipality ↦ dimensions_of s row office municipality
                ]
              ]
            ]
      ]
