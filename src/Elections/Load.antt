-- ===== src/Elections/Load.antt =====
-- app/providers/tse.py, `load_rows` and `save_candidates`: the rows of a file are counted into the
-- tables in batches, and the candidates that they name are merged in memory between two batches.
use brasil_lens_backend.Common.{
  ℕ, ◌+◌, Bool, false, not, Option, none, some, List, [], ◌∷◌, ◌++◌, ◌==◌, nat_eq, list_eq, pair_eq,
  lookup, set_item, length, take, ltb, leb, is_some, if◌then◌else◌,
}
use brasil_lens_backend.Errors.{Result, ok, raise}
use brasil_lens_backend.Elections.Numbers.{ℤ, pos, integer_eq, number, max_integer}
use brasil_lens_backend.Elections.{
  Totals, Row, Candidate, CandidateData, Reader, Counts, Database, ElectionStage, dimensions,
}
use brasil_lens_backend.Elections.Offices.{
  Text, Office, office_eq, president, Place, place_eq, is_municipal,
}

pub data Family : Type 0 where
  detalhe_votacao_munzona : Family
  votacao_partido_munzona : Family
  votacao_candidato_munzona : Family

-- A tuple of a batch, for the table of its family.
pub data Entry : Type 0 where
  totals_entry : Place → Totals → Entry
  parties_entry : Place → Text → ℕ → Entry
  votes_entry : Place → Text → ℕ → Entry

-- `CASE WHEN c IS NULL OR excluded.c IS NULL THEN NULL ELSE c + excluded.c END`
abbrev pub plus : Option ℕ → Option ℕ → Option ℕ
plus (some a) (some b) = some (a + b)
plus _ _ = none

abbrev pub plus_totals : Totals → Totals → Totals
plus_totals a b = record {
  eligible = plus a.eligible b.eligible;
  turnout = plus a.turnout b.turnout;
  abstention = plus a.abstention b.abstention;
  total_votes = plus a.total_votes b.total_votes;
  valid_votes = plus a.valid_votes b.valid_votes;
  blank_votes = plus a.blank_votes b.blank_votes;
  null_votes = plus a.null_votes b.null_votes;
}

-- INSERT … ON CONFLICT … DO UPDATE SET votes = votes + excluded.votes
abbrev pub count : Place × Text → ℕ → List ((Place × Text) × ℕ) → List ((Place × Text) × ℕ)
count key n table = elim (lookup key table) [
  | none ↦ set_item key n table
  | some m ↦ set_item key (m + n) table
]

unfoldable pub execute : Counts → Entry → Counts
execute c (totals_entry place t) = record c {
  totals = elim (lookup place c.totals) [
    | none ↦ set_item place t c.totals
    | some u ↦ set_item place (plus_totals u t) c.totals
  ];
}
execute c (parties_entry place party n) = record c { parties = count (place, party) n c.parties }
execute c (votes_entry place id n) = record c { votes = count (place, id) n c.votes }

-- self.db.executemany(sql, batch)
unfoldable pub execute_many : Counts → List Entry → Counts
execute_many c [] = c
execute_many c (e ∷ es) = execute_many (execute c e) es

-- status.startswith("ELEITO")
abbrev pub starts_with : Text → Text → Bool
starts_with prefix t = take (length prefix) t == prefix

abbrev pub is_elected : Text → Bool
is_elected = starts_with (b'E' ∷ b'L' ∷ b'E' ∷ b'I' ∷ b'T' ∷ b'O' ∷ [])

abbrev pub br : Text
br = b'B' ∷ b'R' ∷ []

abbrev pub scope_of : Office → Text → Text
scope_of office code =
    if office == president then br else if is_municipal office then code else take 2 code

-- Python's truth of a round
abbrev pub truthy : Option ℤ → Bool
truthy none = false
truthy (some r) = not (r == pos 0)

abbrev pub or_zero : Option ℤ → ℤ
or_zero none = pos 0
or_zero (some r) = r

-- What a row says of its candidate, over what the dict holds.
unfoldable pub merge_row : Option Candidate → Option ℤ → CandidateData → Option ℤ × CandidateData
merge_row none elected data_json = (elected, data_json)
merge_row (some previous) elected data_json =
    if truthy previous.elected
    then (
      some (max_integer (or_zero elected) (or_zero previous.elected)),
      (if is_elected data_json.status then data_json else previous.data_json),
    )
    else (elected, data_json)

-- The `ON CONFLICT` of `save_candidates`: MAX of a NULL is NULL.
unfoldable pub merge_saved :
    Option ℤ → CandidateData → Option ℤ → CandidateData → Option ℤ × CandidateData
merge_saved none saved new data_json = (new, data_json)
merge_saved (some e) saved none data_json = (some e, saved)
merge_saved (some e) saved (some new) data_json = (some (max_integer e new), data_json)

unfoldable pub save_candidate : List (Text × Candidate) → Text → Candidate → List (Text × Candidate)
unfolding merge_saved
save_candidate table id c = elim (lookup id table) [
  | none ↦ set_item id c table
  | some old ↦
      let (elected, data_json) = merge_saved old.elected old.data_json c.elected c.data_json in
      set_item id (record old { elected = elected; data_json = data_json }) table
]

unfoldable pub save_candidates :
    List (Text × Candidate) → List (Text × Candidate) → List (Text × Candidate)
unfolding save_candidate
save_candidates table [] = table
save_candidates table ((id, c) ∷ rest) = save_candidates (save_candidate table id c) rest

-- The variables of the loop.
pub record Loading : Type 0 where
  pub reader : Reader
  pub db : Database
  pub candidates : List (Text × Candidate)
  pub batch : List Entry

abbrev positive : Option ℕ → (ℕ → Entry) → List Entry
positive none f = []
positive (some n) f = if ltb 0 n then f n ∷ [] else []

-- What a row adds to the batch; `none` where the loop goes on to the next row at once.
unfoldable pub entry_of : Family → Row → Place → Option (List Entry)
unfolding number
entry_of detalhe_votacao_munzona row place = some (
    totals_entry place (record {
      eligible = number row.qt_aptos;
      turnout = number row.qt_comparecimento;
      abstention = number row.qt_abstencoes;
      total_votes = number row.qt_votos;
      valid_votes = number row.qt_total_votos_validos;
      blank_votes = number row.qt_votos_brancos;
      null_votes = number row.qt_total_votos_nulos;
    })
    ∷ [])
entry_of votacao_partido_munzona row place = some (
    positive (plus (number row.qt_votos_nominais_validos) (number row.qt_total_votos_leg_validos))
      (parties_entry place row.sg_partido))
entry_of votacao_candidato_munzona row place =
    if is_some (number row.sq_candidato)
    then some (positive (number row.qt_votos_nominais_validos) (votes_entry place row.sq_candidato))
    else none

unfoldable pub note_candidate :
    Family → List (Text × Candidate) → Row → Place → List (Text × Candidate)
unfolding merge_row
note_candidate votacao_candidato_munzona candidates row place =
    let status : Text = row.ds_sit_tot_turno in
    let (elected, data_json) =
      merge_row (lookup row.sq_candidato candidates)
        (if is_elected status then some place.election_round else none)
        (record {
          id = row.sq_candidato;
          name = row.nm_urna_candidato;
          number = row.nr_candidato;
          party = row.sg_partido;
          party_number = row.nr_partido;
          status = status;
        }) in
    set_item row.sq_candidato
      (record {
        office = place.office;
        scope = scope_of place.office place.code;
        elected = elected;
        data_json = data_json;
      })
      candidates
note_candidate _ candidates row place = candidates

-- self.db.executemany(sql, batch), batch.clear() and self.save_candidates(candidates)
unfoldable pub flush : Loading → Loading
flush st = record {
  reader = st.reader;
  db = record {
    candidates = save_candidates st.db.candidates st.candidates;
    counts = execute_many st.db.counts st.batch;
  };
  candidates = [];
  batch = [];
}

module _ (strptime : Text → Result ℕ) (batch_limit : ℕ) where
  -- The body of the loop.
  unfoldable pub load_row : Family → Loading → Row → Loading × Result (Unit {0})
  load_row family st row =
      let (reader, read) = dimensions strptime st.reader row in
      elim read [
        | raise e ↦ (record st { reader = reader }, raise e)
        | ok none ↦ (record st { reader = reader }, ok tt)
        | ok (some place) ↦ elim (entry_of family row place) [
          | none ↦ (record st { reader = reader }, ok tt)
          | some entries ↦
              let st' : Loading = record {
                reader = reader;
                db = st.db;
                candidates = note_candidate family st.candidates row place;
                batch = st.batch ++ entries;
              } in
              ((if leb batch_limit (length st'.batch) then flush st' else st'), ok tt)
        ]
      ]

  unfoldable pub load_each : Family → Loading → List Row → Loading × Result (Unit {0})
  load_each family st [] = (st, ok tt)
  load_each family st (row ∷ rows) =
      let (st', done) = load_row family st row in
      elim done [ raise e ↦ (st', raise e) | ok _ ↦ load_each family st' rows ]

  unfoldable pub load_rows : Family → ElectionStage → List Row → ElectionStage × Result (Unit {0})
  load_rows family s source =
      let (st, done) =
        load_each family (record { reader = s.reader; db = s.db; candidates = []; batch = [] })
          source in
      elim done [
        | raise e ↦ (record { reader = st.reader; db = st.db }, raise e)
        | ok _ ↦ (record { reader = (flush st).reader; db = (flush st).db }, ok tt)
      ]
