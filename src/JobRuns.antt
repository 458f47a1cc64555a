-- ===== src/JobRuns.antt =====
-- app/jobs/_runner.py: the run of an import job, from its row to its report. The table of runs is a list;
-- what the job itself writes is of a type that is a parameter, and the job is what it left. The run's own
-- row is taken to have been added and committed.
pub mod Closed
use brasil_lens_backend.Common.{
  ℕ, ◌+◌, ◌≡◌, refl, Bool, true, false, not, ◌&&◌, Option, none, some, String, string_eq, List, [],
  ◌∷◌, ◌++◌, ◌==◌, nat_eq, set_item, map, is_some, any_of, leb, if◌then◌else◌, arith,
}
use brasil_lens_backend.Errors.{Result, ok, raise, DomainError, internal}

pub data IngestionStatus : Type 0 where
  running : IngestionStatus
  succeeded : IngestionStatus
  partial : IngestionStatus
  failed_status : IngestionStatus

-- A value of `details`.
pub data RunDetail : Type 0 where
  text : String → RunDetail
  failures_of : List (String × String) → RunDetail

-- A failure is a scope with its error.
pub record RunReport : Type 0 where
  pub processed : ℕ
  pub written : ℕ
  pub failed : ℕ
  pub details : List (String × RunDetail)
  pub failures : List (String × String)

pub record IngestionRun : Type 0 where
  pub id : ℕ
  pub job : String
  pub source : String
  pub dataset_code : Option String
  pub status : IngestionStatus
  pub finished_at : Option ℕ
  pub records_processed : ℕ
  pub records_written : ℕ
  pub records_failed : ℕ
  pub error : Option String
  pub details : Option (List (String × RunDetail))

abbrev pub empty_report : RunReport
empty_report = record { processed = 0; written = 0; failed = 0; details = []; failures = [] }

unfoldable pub record_failure : RunReport → String → String → RunReport
record_failure report scope error = record report {
  failures = report.failures ++ (scope, error) ∷ [];
}

abbrev is_empty {ℓ} : {A : Type ℓ} → List A → Bool
is_empty [] = true
is_empty (x ∷ xs) = false

unfoldable pub report_status : RunReport → IngestionStatus
report_status report =
    if is_empty report.failures
    then succeeded
    else if report.written == 0 && leb report.processed report.failed
    then failed_status
    else partial

abbrev pub no_run : DomainError
no_run = internal "NoResultFound"

abbrev pub opened_run : ℕ → String → String → Option String → IngestionRun
opened_run id job source dataset_code = record {
  id = id;
  job = job;
  source = source;
  dataset_code = dataset_code;
  status = running;
  finished_at = none;
  records_processed = 0;
  records_written = 0;
  records_failed = 0;
  error = none;
  details = none;
}

unfoldable pub start_run :
    List IngestionRun → ℕ → String → String → Option String → List IngestionRun
start_run runs id job source dataset_code = runs ++ opened_run id job source dataset_code ∷ []

-- details or None
abbrev or_none : List (String × RunDetail) → Option (List (String × RunDetail))
or_none [] = none
or_none (d ∷ ds) = some (d ∷ ds)

abbrev pub run_details : RunReport → Option (List (String × RunDetail))
run_details report = or_none (
    if is_empty report.failures
    then report.details
    else set_item "failures" (failures_of report.failures) report.details)

-- `FAILED if error`: an error is a text that is not empty
abbrev pub is_error : Option String → Bool
is_error none = false
is_error (some error) = not (error == "")

unfoldable pub finished : IngestionRun → ℕ → RunReport → Option String → IngestionRun
unfolding report_status
finished run now report error = record run {
  status = if is_error error then failed_status else report_status report;
  finished_at = some now;
  records_processed = report.processed;
  records_written = report.written;
  records_failed = report.failed;
  error = error;
  details = run_details report;
}

-- The session's error where the database does not carry out what finish_run asks of it.
abbrev pub not_saved : DomainError
not_saved = internal "SQLAlchemyError"

-- finish_run without a status of its own, which no job gives. Whether the database carries it out, its
-- commit included, is an argument.
unfoldable pub finish_run :
    Bool → List IngestionRun → ℕ → ℕ → RunReport → Option String → Result (List IngestionRun)
unfolding finished
finish_run is_saved runs run_id now report error =
    if any_of (λ run. run.id == run_id) runs
    then if is_saved
      then ok (map (λ run. if run.id == run_id then finished run now report error else run) runs)
      else raise not_saved
    else raise no_run

-- How the block of a job ends: it returns, it raises an Exception (the text that is kept of it), or a
-- BaseException that is no Exception goes through it, such as CancelledError or KeyboardInterrupt.
pub data Ending : Type 0 where
  returned : Ending
  raised : String → Ending
  interrupted : Ending

-- What a job left: the data that it had committed, the data with what it had not, its report, and how
-- it ended.
pub record Left (D : Type 0) : Type 0 where
  pub committed : D
  pub pending : D
  pub report : RunReport
  pub ending : Ending

module _ {D : Type 0} where
  -- The runs, the data, and whether an exception goes on. A session that is left without a commit
  -- loses what it had not committed.
  unfoldable pub job_session :
      List IngestionRun
      → ℕ
      → String
      → String
      → Option String
      → Left D
      → Bool
      → ℕ
      → List IngestionRun × D × Bool
  unfolding start_run finish_run
  job_session runs id job source dataset_code left is_saved now =
      let started : List IngestionRun = start_run runs id job source dataset_code in
      elim left.ending [
        | interrupted ↦ (started, left.committed, true)
        | raised error ↦ elim (finish_run is_saved started id now left.report (some error)) [
          | raise e ↦ (started, left.committed, true)
          | ok runs' ↦ (runs', left.committed, true)
        ]
        | returned ↦ elim (finish_run is_saved started id now left.report none) [
          | raise e ↦ (started, left.committed, true)
          | ok runs' ↦ (runs', left.pending, false)
        ]
      ]
