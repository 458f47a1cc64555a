-- ===== src/Elections/Live.antt =====
-- app/providers/tse.py, `live_rows` and `load_live`: the documents of the live results, as rows of the
-- families of files, for the contests that the files have no votes of.
use brasil_lens_backend.Elections.Documents.{Person, Party, Contest, Document}
use brasil_lens_backend.Common.{
  ℕ, ◌-◌, Bool, true, false, ◌&&◌, Option, none, some, List, [], ◌∷◌, ◌++◌, ◌==◌, nat_eq, option_eq,
  list_eq, pair_eq, lookup, length, drop, any_of, ltb, if◌then◌else◌,
}
use brasil_lens_backend.Errors.{Result, ok, raise, DomainError, internal}
use brasil_lens_backend.Elections.Numbers.{ℤ, pos, integer_eq, add, decimal, upper}
use brasil_lens_backend.Elections.{Totals, Row, ElectionStage, int}
use brasil_lens_backend.Elections.Offices.{Text, Office, office_eq, offices, Place}
use brasil_lens_backend.Elections.Load.{
  Family, detalhe_votacao_munzona, votacao_partido_munzona, votacao_candidato_munzona, load_rows,
  starts_with,
}

-- The dict of the three families.
pub record Families : Type 0 where
  pub details : List Row
  pub parties : List Row
  pub candidates : List Row

abbrev pub incomplete : DomainError
incomplete = internal "ValueError: Totalização incompleta na divulgação do TSE"

-- document["dt"][-4:]
abbrev last_four : Text → Text
last_four t = drop (length t - 4) t

-- "Válido", with á as its code
abbrev pub valid_word : Text
valid_word = b'V' ∷ 225 ∷ b'l' ∷ b'i' ∷ b'd' ∷ b'o' ∷ []

-- `base` and `common`; the columns that a family has not got are empty, and are not read of it.
unfoldable pub common_row : Text → Document → Contest → Row
common_row state document contest = record {
  ano_eleicao = last_four document.dt;
  cd_tipo_eleicao = b'2' ∷ [];
  sg_uf = upper state;
  cd_cargo = contest.cd;
  cd_municipio = document.cdabr;
  nr_turno = document.t;
  dt_geracao = document.dg;
  hh_geracao = document.hg;
  qt_aptos = [];
  qt_comparecimento = [];
  qt_abstencoes = [];
  qt_votos = [];
  qt_total_votos_validos = [];
  qt_votos_brancos = [];
  qt_total_votos_nulos = [];
  qt_votos_nominais_validos = [];
  qt_total_votos_leg_validos = [];
  sg_partido = [];
  nr_partido = [];
  sq_candidato = [];
  nm_urna_candidato = [];
  nr_candidato = [];
  ds_sit_tot_turno = [];
}

unfoldable pub detail_row : Document → Row → Row
detail_row document common = record common {
  qt_aptos = document.e.te;
  qt_comparecimento = document.e.c;
  qt_abstencoes = document.e.a;
  qt_votos = document.v.tv;
  qt_total_votos_validos = document.v.vv;
  qt_votos_brancos = document.v.vb;
  qt_total_votos_nulos = document.v.tvn;
}

unfoldable pub person_row : Party → Person → Row → Row
person_row party person common = record common {
  sq_candidato = person.sqcand;
  nm_urna_candidato = person.nmu;
  nr_candidato = person.n;
  sg_partido = party.sg;
  nr_partido = party.n;
  ds_sit_tot_turno = upper person.st;
  qt_votos_nominais_validos = person.vap;
}

abbrev pub with_row : Row → Result (ℤ × List Row) → Result (ℤ × List Row)
with_row row (raise e) = raise e
with_row row (ok (total, rows)) = ok (total, row ∷ rows)

-- The loop over `party["cand"]`: `valid`, and the rows of the candidates.
unfoldable pub live_people : Row → Party → ℤ → List Person → Result (ℤ × List Row)
unfolding person_row
live_people common party valid [] = ok (valid, [])
live_people common party valid (person ∷ people) = elim (starts_with valid_word person.dvt) [
  | false ↦ live_people common party valid people
  | true ↦ elim (int person.vap) [
    | raise e ↦ raise e
    | ok votes ↦
        with_row (person_row party person common)
          (live_people common party (add valid votes) people)
  ]
]

abbrev pub party_families : Row → Party → ℤ → List Row → Families
party_families common party valid rows = record {
  details = [];
  parties =
      record common {
        sg_partido = party.sg;
        qt_votos_nominais_validos = decimal valid;
        qt_total_votos_leg_validos = b'0' ∷ [];
      }
      ∷ [];
  candidates = rows;
}

unfoldable pub live_party : Row → Party → Result Families
unfolding live_people
live_party common party = elim (live_people common party (pos 0) party.cand) [
  | raise e ↦ raise e
  | ok (valid, rows) ↦ ok (party_families common party valid rows)
]

abbrev no_rows : Families
no_rows = record { details = []; parties = []; candidates = [] }

-- `families[family] += items`
abbrev pub join : Families → Families → Families
join a b = record {
  details = a.details ++ b.details;
  parties = a.parties ++ b.parties;
  candidates = a.candidates ++ b.candidates;
}

abbrev then_join : Result Families → Result Families → Result Families
then_join (raise e) rest = raise e
then_join (ok a) (raise e) = raise e
then_join (ok a) (ok b) = ok (join a b)

unfoldable pub live_parties : Row → List Party → Result Families
unfolding live_party
live_parties common [] = ok no_rows
live_parties common (party ∷ parties) =
    then_join (live_party common party) (live_parties common parties)

unfoldable pub live_groups : Row → List (List Party) → Result Families
unfolding live_parties
live_groups common [] = ok no_rows
live_groups common (group ∷ groups) =
    then_join (live_parties common group) (live_groups common groups)

unfoldable pub live_contests : Text → Document → List Contest → Result Families
unfolding live_groups common_row detail_row
live_contests state document [] = ok no_rows
live_contests state document (contest ∷ contests) =
    let common = common_row state document contest in
    then_join
      (then_join (ok (record no_rows { details = detail_row document common ∷ [] }))
        (live_groups common contest.agr))
      (live_contests state document contests)

unfoldable pub live_rows : Text → Document → Result Families
unfolding live_contests
live_rows state document =
    if document.tf == b's' ∷ []
    then live_contests state document document.carg
    else raise incomplete

-- SELECT office, round FROM totals GROUP BY office, round HAVING SUM(totalVotes) > 0; a sum of
-- numbers that are not negative is positive where one of them is.
unfoldable pub is_published : List (Place × Totals) → Option Office → ℤ → Bool
is_published totals none turn = false
is_published totals (some office) turn =
    any_of
      (λ row.
        row.0.office == office
        && row.0.election_round == turn
        && elim row.1.total_votes [ none ↦ false | some n ↦ ltb 0 n ])
      totals

-- The items whose contest is not published.
unfoldable pub unpublished : List (Place × Totals) → List Row → Result (List Row)
unfolding is_published
unpublished totals [] = ok []
unpublished totals (item ∷ items) = elim (int item.cd_cargo) [
  | raise e ↦ raise e
  | ok charge ↦ elim (int item.nr_turno) [
    | raise e ↦ raise e
    | ok turn ↦ elim (unpublished totals items) [
      | raise e ↦ raise e
      | ok rest ↦
          ok (if is_published totals (lookup charge offices) turn then rest else item ∷ rest)
    ]
  ]
]

unfoldable pub unpublished_families : List (Place × Totals) → Families → Result Families
unfolding unpublished
unpublished_families totals f = elim (unpublished totals f.details) [
  | raise e ↦ raise e
  | ok details ↦ elim (unpublished totals f.candidates) [
    | raise e ↦ raise e
    | ok candidates ↦ elim (unpublished totals f.parties) [
      | raise e ↦ raise e
      | ok parties ↦ ok (record { details = details; parties = parties; candidates = candidates })
    ]
  ]
]

unfoldable pub gather : List (Place × Totals) → List (Text × Document) → Result Families
unfolding live_rows unpublished_families
gather totals [] = ok no_rows
gather totals ((state, document) ∷ documents) = elim (live_rows state document) [
  | raise e ↦ raise e
  | ok families ↦ then_join (unpublished_families totals families) (gather totals documents)
]

module _ (strptime : Text → Result ℕ) (batch_limit : ℕ) where
  -- load_rows of a family after another, while none raises
  unfoldable pub load_next :
      Family → List Row → ElectionStage × Result (Unit {0}) → ElectionStage × Result (Unit {0})
  load_next family source (s, raise e) = (s, raise e)
  load_next family source (s, ok _) = load_rows strptime batch_limit family s source

  unfoldable pub load_live : ElectionStage → List (Text × Document) → ElectionStage × Result Bool
  unfolding gather load_next
  load_live s documents = elim (gather s.db.counts.totals documents) [
    | raise e ↦ (s, raise e)
    | ok families ↦ elim families.details [
      | [] ↦ (s, ok false)
      | _ ∷ _ ↦
          let (s', done) = load_next votacao_candidato_munzona families.candidates (
            load_next votacao_partido_munzona families.parties
              (load_rows strptime batch_limit detalhe_votacao_munzona s families.details)) in
          elim done [ raise e ↦ (s', raise e) | ok _ ↦ (s', ok true) ]
    ]
  ]
