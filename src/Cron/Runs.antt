-- ===== src/Cron/Runs.antt =====
-- go/cron/run_lifecycle.go, and the status of a run in model.go. A time is a number of nanoseconds, a
-- time.Duration an int64.
pub mod Retries
use metap.Prelude.{
  ℕ, suc, ◌+◌, ◌-◌, ◌*◌, ◌%◌, ◌^◌, Bool, true, false, Option, none, some, List, [], ◌∷◌, ◌++◌, map,
  String, ◌==◌, not, ltb, leb, ◌||◌, if◌then◌else◌,
}
use metap.Prelude.Int.{ℤ, pos, negsuc}
use metap.Json.{Json}

pub data RunStatus : Type 0 where
  run_enqueued run_success run_failed run_waiting : RunStatus

unfoldable pub status_name : RunStatus → String
status_name run_enqueued = "enqueued"
status_name run_success = "success"
status_name run_failed = "failed"
status_name run_waiting = "waiting"

unfoldable pub parse_run_status : String → Option RunStatus
parse_run_status s =
    if s == "enqueued"
    then some run_enqueued
    else if s == "success"
    then some run_success
    else if s == "failed"
    then some run_failed
    else if s == "waiting"
    then some run_waiting
    else none

pub record CronJobRun : Type 0 where
  pub id : String
  pub tenant_id : String
  pub job_id : String
  pub status : String
  pub attempt : ℕ
  pub scheduled_for : ℤ
  pub started_at : Option ℕ
  pub finished_at : Option ℕ
  pub error : Option String
  pub response_summary : Option Json

-- What the lifecycle reads of the payload of a due job.
pub record CronJobDuePayload : Type 0 where
  pub run_id : String
  pub job_id : String
  pub tenant_id : String
  pub attempt : ℕ
  pub max_attempts : ℕ
  pub retry_backoff_seconds : ℕ

-- The clock, the new identifier, and whether the UPDATE and the INSERT succeed.
pub record RunEnv : Type 0 where
  pub now : ℕ
  pub new_id : String
  pub updates : Bool
  pub inserts : Bool

-- The value of an int64 whose bits are those of the number.
abbrev pub to_int64 : ℕ → ℤ
to_int64 n =
    if ltb (n % 18446744073709551616) 9223372036854775808
    then pos (n % 18446744073709551616)
    else negsuc (18446744073709551615 - n % 18446744073709551616)

abbrev pub exponent : ℕ → ℕ
exponent attempt = if ltb 30 (attempt - 1) then 30 else attempt - 1

-- An int32 that is not negative, shifted by 30 at most, stays below 2 ^ 61; the product with a second
-- in nanoseconds wraps around.
unfoldable pub backoff_delay : ℕ → ℕ → ℤ
backoff_delay retry_backoff_seconds attempt =
    to_int64 (retry_backoff_seconds * 2 ^ exponent attempt * 1000000000)

-- Time.Add
abbrev pub later : ℕ → ℤ → ℤ
later t (pos d) = pos (t + d)
later t (negsuc d) = if leb (suc d) t then pos (t - suc d) else negsuc (suc d - t - 1)

-- SELECT status FROM cron_job_runs WHERE id
unfoldable pub run_status_of : String → List CronJobRun → Option RunStatus
unfolding parse_run_status
run_status_of run_id [] = none
run_status_of run_id (r ∷ rs) =
    let rest = run_status_of run_id rs in if r.id == run_id then parse_run_status r.status else rest

abbrev pub started : ℕ → String → CronJobRun → CronJobRun
started now run_id r = if r.id == run_id then record r { started_at = some now } else r

unfoldable pub start_run : RunEnv → String → List CronJobRun → Bool × List CronJobRun
start_run e run_id runs =
    if e.updates then (true, map (started e.now run_id) runs) else (false, runs)

abbrev pub finished : ℕ → String → RunStatus → Option String → Option Json → CronJobRun → CronJobRun
finished now run_id status message summary r =
    if r.id == run_id
    then (record r {
      status = status_name status;
      error = message;
      response_summary = summary;
      finished_at = some now;
    })
    else r

-- The result is false for an error.
unfoldable pub finish_run :
    RunEnv
    → String
    → RunStatus
    → Option String
    → Option Json
    → List CronJobRun
    → Bool × List CronJobRun
finish_run e run_id status message summary runs =
    if e.updates
    then (true, map (finished e.now run_id status message summary) runs)
    else (false, runs)

abbrev pub is_failure : RunStatus → Bool
is_failure run_failed = true
is_failure _ = false

abbrev pub retry_of : RunEnv → CronJobDuePayload → CronJobRun
retry_of e p = record {
  id = e.new_id;
  tenant_id = p.tenant_id;
  job_id = p.job_id;
  status = status_name run_enqueued;
  attempt = p.attempt + 1;
  scheduled_for = later e.now (backoff_delay p.retry_backoff_seconds p.attempt);
  started_at = none;
  finished_at = none;
  error = none;
  response_summary = none;
}

-- The two statements are no transaction: a failed INSERT leaves the run finished.
unfoldable pub finish_run_with_retry :
    RunEnv
    → CronJobDuePayload
    → RunStatus
    → Option String
    → Option Json
    → List CronJobRun
    → Bool × List CronJobRun
unfolding finish_run backoff_delay
finish_run_with_retry e p status message summary runs =
    let done = finish_run e p.run_id status message summary runs in
    if not done.0
    then done
    else if not (is_failure status) || leb p.max_attempts p.attempt
    then (true, done.1)
    else if e.inserts
    then (true, done.1 ++ retry_of e p ∷ [])
    else (false, done.1)
