-- ===== src/Tests/Jobs.antt =====
-- The runs of go/cron at concrete inputs.
use metap.Prelude.{true, none, some, List, [], ◌∷◌, all, ◌≡◌, ◌<◌, ◌⊎◌, refl, arith}
use metap.Prelude.Int.{pos, negsuc}
use metap.Cron.Runs.{
  run_failed, CronJobRun, CronJobDuePayload, RunEnv, backoff_delay, finish_run_with_retry,
}
use metap.Cron.Runs.Retries.{is_within, closed, with_retry, finish_run_with_retry_lem}

abbrev at_noon : RunEnv
at_noon = record { now = 1000; new_id = "run2"; updates = true; inserts = true }

abbrev due : CronJobDuePayload
due = record {
  run_id = "run1";
  job_id = "job";
  tenant_id = "acme";
  attempt = 1;
  max_attempts = 3;
  retry_backoff_seconds = 30;
}

abbrev first_run : CronJobRun
first_run = record {
  id = "run1";
  tenant_id = "acme";
  job_id = "job";
  status = "enqueued";
  attempt = 1;
  scheduled_for = pos 0;
  started_at = some 10;
  finished_at = none;
  error = none;
  response_summary = none;
}

abbrev first_runs : List CronJobRun
first_runs = first_run ∷ []

finish_run_with_retry_lem_example :
    (all
        (is_within "job" 3)
        (finish_run_with_retry at_noon due run_failed (some "timeout") none first_runs).1
      ≡ true)
    × (((finish_run_with_retry at_noon due run_failed (some "timeout") none first_runs).1
          ≡ first_runs)
        ⊎ (((finish_run_with_retry at_noon due run_failed (some "timeout") none first_runs).1
              ≡ closed at_noon due run_failed (some "timeout") none first_runs)
            ⊎ ((run_failed ≡ run_failed)
                × (1 < 3)
                × ((finish_run_with_retry at_noon due run_failed (some "timeout") none first_runs).1
                    ≡ with_retry at_noon due run_failed (some "timeout") none first_runs))))
finish_run_with_retry_lem_example =
    finish_run_with_retry_lem at_noon due run_failed (some "timeout") none first_runs (omega arith)
      refl

-- The thirtieth attempt with the default backoff of 30 seconds: the delay is negative.
backoff_wraps : backoff_delay 30 30 ≡ negsuc 2340616713709551615
unfolding backoff_delay
backoff_wraps = refl
