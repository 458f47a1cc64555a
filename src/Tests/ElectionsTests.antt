-- ===== src/Tests/ElectionsTests.antt =====
-- app/providers/tse.py at concrete inputs: a municipality with two candidates for mayor.
use brasil_lens_backend.Common.{
  ℕ, ◌≡◌, refl, true, string_eq, nat_eq, option_eq, list_eq, pair_eq, List, [], ◌∷◌, none, some,
  ◌==◌, lookup, set_item, or_default, map, All,
}
use brasil_lens_backend.Errors.{Result, ok}
use brasil_lens_backend.Elections.Numbers.{pos, negsuc, integer_eq, number, to_int, decimal, upper}
use brasil_lens_backend.Elections.{
  Totals, Row, Candidate, CandidateData, Database, ElectionStage, dimensions, empty_stage,
}
use brasil_lens_backend.Elections.Offices.{Text, mayor, Place, place_eq}
use brasil_lens_backend.Elections.Load.{
  votacao_candidato_munzona, Entry, votes_entry, execute_many, merge_row, merge_saved, load_rows,
  load_each, load_row, entry_of, flush, execute,
}
use brasil_lens_backend.Elections.Batches.{count_each, load_rows-count_each}
use brasil_lens_backend.Elections.Tallies.{merge_saved-merge_row}
use brasil_lens_backend.Elections.Live.{Families, live_party, party_families, valid_word}
use brasil_lens_backend.Elections.Documents.{Party}
use brasil_lens_backend.Elections.Totalled.{nominal_votes, live_party-nominal_votes}
use brasil_lens_backend.Elections.Aggregate.{every_place, state_part, sum_table}
use brasil_lens_backend.Elections.Sums.{sum_under, sum_table-state}
use brasil_lens_backend.Elections.Results.{result_row}
use brasil_lens_backend.Elections.Leaders.{is_beaten, result_row-is_beaten}

abbrev one_stamp : Text → Result ℕ
one_stamp t = ok 7

abbrev elected_word : Text
elected_word = b'E' ∷ b'L' ∷ b'E' ∷ b'I' ∷ b'T' ∷ b'O' ∷ []

abbrev vote_row : ℕ → ℕ → Text → Row
vote_row id votes status = record {
  ano_eleicao = decimal (pos 2024);
  cd_tipo_eleicao = b'2' ∷ [];
  sg_uf = b'R' ∷ b'N' ∷ [];
  cd_cargo = decimal (pos 11);
  cd_municipio = decimal (pos 17612);
  nr_turno = decimal (pos 1);
  dt_geracao = [];
  hh_geracao = [];
  qt_aptos = [];
  qt_comparecimento = [];
  qt_abstencoes = [];
  qt_votos = [];
  qt_total_votos_validos = [];
  qt_votos_brancos = [];
  qt_total_votos_nulos = [];
  qt_votos_nominais_validos = decimal (pos votes);
  qt_total_votos_leg_validos = [];
  sg_partido = b'P' ∷ [];
  nr_partido = decimal (pos 10);
  sq_candidato = decimal (pos id);
  nm_urna_candidato = b'A' ∷ [];
  nr_candidato = decimal (pos 10);
  ds_sit_tot_turno = status;
}

abbrev natal : Text
natal = decimal (pos 2408102)

abbrev start : ElectionStage
start =
    let s : ElectionStage = empty_stage (pos 2024) (natal ∷ []) in
    record s { reader = record (s.reader) { crosswalk = (pos 17612, natal) ∷ [] } }

abbrev source : List Row
source = vote_row 5 20 elected_word ∷ vote_row 6 30 [] ∷ vote_row 5 15 [] ∷ []

abbrev in_natal : Place
in_natal = record { office = mayor; election_round = pos 1; code = natal }

-- The zones of a municipality add up, and the batches of one row change nothing.
votes_of_natal :
    (load_rows one_stamp 1 votacao_candidato_munzona start source).0.db.counts.votes
    ≡ ((in_natal, decimal (pos 5)), 35) ∷ ((in_natal, decimal (pos 6)), 30) ∷ []
unfolding load_rows load_each load_row dimensions to_int decimal lookup entry_of flush set_item
    execute_many execute
votes_of_natal = refl

negative_votes : to_int (b' ' ∷ b'-' ∷ b'1' ∷ b'2' ∷ []) ≡ some (negsuc 11)
unfolding to_int
negative_votes = refl

load_rows-count_each_example :
    ((load_rows one_stamp 1 votacao_candidato_munzona start source).1
      ≡ (count_each one_stamp votacao_candidato_munzona start.reader start.db.counts source).2)
    × ((load_rows one_stamp 1 votacao_candidato_munzona start source).0.reader
        ≡ (count_each one_stamp votacao_candidato_munzona start.reader start.db.counts source).0)
    × ((load_rows one_stamp 1 votacao_candidato_munzona start source).1 ≡ ok tt
        → (load_rows one_stamp 1 votacao_candidato_munzona start source).0.db.counts
          ≡ (count_each one_stamp votacao_candidato_munzona start.reader start.db.counts source).1)
load_rows-count_each_example =
    load_rows-count_each one_stamp 1 votacao_candidato_munzona start source

abbrev entries : List Entry
entries =
    votes_entry in_natal (decimal (pos 5)) 20
    ∷ votes_entry in_natal (decimal (pos 6)) 30
    ∷ votes_entry in_natal (decimal (pos 5)) 15
    ∷ []

abbrev data_of : Text → CandidateData
data_of status = record {
  id = decimal (pos 5);
  name = b'A' ∷ [];
  number = decimal (pos 10);
  party = b'P' ∷ [];
  party_number = decimal (pos 10);
  status = status;
}

abbrev elected_first : Candidate
elected_first = record {
  office = mayor;
  scope = natal;
  elected = some (pos 1);
  data_json = data_of elected_word;
}

merge_saved-merge_row_example :
    merge_saved none
      (data_of [])
      (merge_row (some elected_first) none (data_of [])).0
      (merge_row (some elected_first) none (data_of [])).1
    ≡ merge_saved
        (merge_saved none (data_of []) (some (pos 1)) (data_of elected_word)).0
        (merge_saved none (data_of []) (some (pos 1)) (data_of elected_word)).1
        none
        (data_of [])
merge_saved-merge_row_example =
    merge_saved-merge_row none (data_of []) elected_first none (data_of []) tt (0, refl) tt refl

abbrev in_state : Place
in_state = record { office = mayor; election_round = pos 1; code = decimal (pos 24) }

abbrev table : List ((Place × Text) × ℕ)
table = ((in_natal, decimal (pos 5)), 35) ∷ ((in_natal, decimal (pos 6)), 30) ∷ []

sum_table-state_example :
    or_default (lookup (in_state, decimal (pos 5)) (sum_table every_place every_place table)) 0
    ≡ sum_under every_place state_part in_state (decimal (pos 5)) table
unfolding decimal
sum_table-state_example =
    sum_table-state every_place every_place table in_state (decimal (pos 5)) (refl, (refl, tt)) refl
      refl

abbrev no_totals : Totals
no_totals = record {
  eligible = none;
  turnout = none;
  abstention = none;
  total_votes = some 65;
  valid_votes = none;
  blank_votes = none;
  null_votes = none;
}

abbrev counted : Database
counted = record {
  candidates = [];
  counts = record { votes = table; parties = []; totals = (in_natal, no_totals) ∷ [] };
}

result_row-is_beaten_example :
    All
      (λ v.
        v.0.0 == in_natal ≡ true
        → is_beaten
            ((result_row counted (in_natal, no_totals)).summary.candidate_tie)
            ((result_row counted (in_natal, no_totals)).summary.leaders)
            (v.0.1, v.1)
          ≡ true)
      counted.counts.votes
result_row-is_beaten_example = result_row-is_beaten counted (in_natal, no_totals)

abbrev party : Party
party = record {
  sg = b'P' ∷ [];
  n = decimal (pos 10);
  cand =
      record {
        dvt = valid_word;
        vap = decimal (pos 35);
        sqcand = decimal (pos 5);
        nmu = b'A' ∷ [];
        n = decimal (pos 10);
        st = [];
      }
      ∷ record {
        dvt = b'N' ∷ b'u' ∷ b'l' ∷ b'o' ∷ [];
        vap = decimal (pos 9);
        sqcand = decimal (pos 7);
        nmu = b'B' ∷ [];
        n = decimal (pos 11);
        st = [];
      }
      ∷ [];
}

abbrev live_families : Families
live_families =
    party_families (vote_row 0 0 []) party (pos 35)
      (record (vote_row 5 35 []) { nr_candidato = decimal (pos 10) } ∷ [])

live_party-nominal_votes_example :
    map (λ row. number row.qt_votos_nominais_validos) live_families.parties
    ≡ some (nominal_votes live_families.candidates) ∷ []
unfolding live_party to_int decimal upper number
live_party-nominal_votes_example =
    live_party-nominal_votes (vote_row 0 0 []) party live_families refl (refl, tt)
