-- ===== src/JobRuns/Closed.antt =====
-- What becomes of a job's run and of its data, by the way the job ends and whether its report is saved.
use brasil_lens_backend.Common.{
  ℕ, Bool, true, false, Option, some, String, not, ◌||◌, none, nat_eq, if◌then◌else◌,
}
use brasil_lens_backend.JobRuns.{
  IngestionStatus, running, IngestionRun, RunReport, Ending, returned, raised, interrupted,
  finished,
}

abbrev pub is_running : IngestionStatus → Bool
is_running running = true
is_running _ = false

-- The error that is kept of an ending, where the job's session is there to keep one.
abbrev pub error_of : Ending → Option String
error_of (raised error) = some error
error_of _ = none

abbrev pub is_interrupted : Ending → Bool
is_interrupted interrupted = true
is_interrupted _ = false

abbrev pub is_returned : Ending → Bool
is_returned returned = true
is_returned _ = false

-- The run of a job that is over: finished where the job ended by itself and its report was saved, and
-- as it was opened otherwise.
abbrev pub run_after : IngestionRun → RunReport → Ending → Bool → ℕ → IngestionRun
run_after run report ending is_saved now =
    if is_interrupted ending || not is_saved then run else finished run now report (error_of ending)
