-- ===== src/Tests/JobRunsTests.antt =====
-- app/jobs/_runner.py at concrete inputs: a job that raises after some of its work.
use brasil_lens_backend.Common.{ℕ, ◌≡◌, refl, true, none, List, [], ◌∷◌, ◌++◌}
use brasil_lens_backend.JobRuns.{
  IngestionRun, raised, interrupted, Left, start_run, finish_run, empty_report, opened_run,
  job_session,
}

abbrev earlier : List IngestionRun
earlier = opened_run 3 "import_transport" "dnit" none ∷ []

abbrev left : Left ℕ
left = record {
  committed = 10;
  pending = 12;
  report = empty_report;
  ending = raised "ValueError: x";
}

-- A cancelled job leaves its run as it was opened, and what it had committed.
cancelled_job :
    job_session earlier 4 "import_weather" "inmet" none
      (record left { ending = interrupted })
      true
      50
    ≡ (earlier ++ opened_run 4 "import_weather" "inmet" none ∷ [], 10, true)
unfolding job_session start_run finish_run
cancelled_job = refl
