-- ===== src/Cron/Runs/Retries.antt =====
-- The attempts and the delays of the retries of go/cron/run_lifecycle.go.
use metap.Prelude.{
  if◌then◌else◌, none, some, ◌∙◌, zero, suc, ℕ, ◌+◌, ◌*◌, ◌^◌, ◌<◌, Bool, true, not, Option, List,
  [], ◌∷◌, ◌++◌, map, all, String, ◌==◌, ◌&&◌, ◌||◌, leb, ◌≡◌, refl, ap, ◌⊎◌, inl, inr, Bool-cases,
  arith,
}
use metap.Prelude.Int.{pos}
use metap.Json.{Json}
use metap.Cron.Runs.{
  run_enqueued, run_success, run_failed, run_waiting, status_name, RunStatus, CronJobRun,
  CronJobDuePayload, RunEnv, to_int64, exponent, backoff_delay, later, finished, finish_run,
  is_failure, retry_of, finish_run_with_retry,
}

to_int64_small : (n : ℕ) → n < 9223372036854775808 → to_int64 n ≡ pos n
to_int64_small n h = ground arith

-- How often the backoff is doubled when an attempt has failed: once for each attempt after the first,
-- thirty times at most.
abbrev pub doublings : ℕ → ℕ
doublings zero = 0
doublings (suc n) = if leb n 30 then n else 30

exponent-doublings : (attempt : ℕ) → exponent attempt ≡ doublings attempt
exponent-doublings zero = refl
exponent-doublings (suc n) = ground arith

failure : (status : RunStatus) → is_failure status ≡ true → status ≡ run_failed
failure run_enqueued h = cc
failure run_success h = cc
failure run_failed h = refl
failure run_waiting h = cc

-- A run of the job has no more attempts than the job allows.
abbrev pub is_within : String → ℕ → CronJobRun → Bool
is_within job_id max_attempts r = not (r.job_id == job_id) || leb r.attempt max_attempts

all-finished :
    (job_id run_id : String) (max now : ℕ) (status : RunStatus) (message : Option String)
    (summary : Option Json) (runs : List CronJobRun)
    → all (is_within job_id max) (map (finished now run_id status message summary) runs)
      ≡ all (is_within job_id max) runs
all-finished job_id run_id max now status message summary [] = refl
all-finished job_id run_id max now status message summary (r ∷ rs) =
    ground (arith, all-finished job_id run_id max now status message summary rs)

all-snoc :
    (p : CronJobRun → Bool) (runs : List CronJobRun) (r : CronJobRun)
    → all p (runs ++ r ∷ []) ≡ (all p runs && p r)
all-snoc p [] r = ground arith
all-snoc p (x ∷ runs) r = ground (arith, all-snoc p runs r)

module _ (e : RunEnv) (p : CronJobDuePayload) (status : RunStatus) (message : Option String)
    (summary : Option Json) (runs : List CronJobRun) where
  -- The rows with the end of the run in them.
  abbrev pub closed : List CronJobRun
  closed =
      map
        (λ (r : CronJobRun).
          if r.id == p.run_id
          then (record r {
            status = status_name status;
            error = message;
            response_summary = summary;
            finished_at = some e.now;
          })
          else r)
        runs

  -- The retry of the run: the next attempt, after the backoff doubled once for each attempt after the
  -- first, in exact arithmetic.
  abbrev pub with_retry : List CronJobRun
  with_retry =
      closed
      ++ record {
        id = e.new_id;
        tenant_id = p.tenant_id;
        job_id = p.job_id;
        status = "enqueued";
        attempt = suc p.attempt;
        scheduled_for =
            pos (e.now + p.retry_backoff_seconds * 2 ^ doublings p.attempt * 1000000000);
        started_at = none;
        finished_at = none;
        error = none;
        response_summary = none;
      }
        ∷ []

  delayed :
      p.retry_backoff_seconds * 2 ^ doublings p.attempt * 1000000000 < 9223372036854775808
      → closed ++ retry_of e p ∷ [] ≡ with_retry
  unfolding backoff_delay status_name
  delayed h =
      let same : exponent p.attempt ≡ doublings p.attempt = exponent-doublings p.attempt in
      let next : p.attempt + 1 ≡ suc p.attempt = omega arith in
      let exact : backoff_delay p.retry_backoff_seconds p.attempt
          ≡ pos (p.retry_backoff_seconds * 2 ^ doublings p.attempt * 1000000000) =
        ap (λ n. to_int64 (p.retry_backoff_seconds * 2 ^ n * 1000000000)) same
        ∙ to_int64_small (p.retry_backoff_seconds * 2 ^ doublings p.attempt * 1000000000) h in
      ap (λ d. closed ++ record (retry_of e p) { scheduled_for = later e.now d } ∷ []) exact
      ∙ ap
          (λ n.
            closed
            ++ record (retry_of e p) {
              attempt = n;
              scheduled_for =
                  pos (e.now + p.retry_backoff_seconds * 2 ^ doublings p.attempt * 1000000000);
            }
              ∷ [])
          next

  -- When the delay fits an int64 of nanoseconds, the end of a run leaves one of three: the rows as
  -- they were, the rows with the run closed, or, after a failure with attempts left, also one retry,
  -- which waits for the backoff doubled with each attempt, up to 30 times. No run of the job gets
  -- beyond the attempts that the job allows.
  pub finish_run_with_retry_lem :
      p.retry_backoff_seconds * 2 ^ doublings p.attempt * 1000000000 < 9223372036854775808
      → all (is_within p.job_id p.max_attempts) runs ≡ true
      → (all
            (is_within p.job_id p.max_attempts)
            (finish_run_with_retry e p status message summary runs).1
          ≡ true)
        × (((finish_run_with_retry e p status message summary runs).1 ≡ runs)
            ⊎ (((finish_run_with_retry e p status message summary runs).1 ≡ closed)
                ⊎ ((status ≡ run_failed)
                    × (p.attempt < p.max_attempts)
                    × ((finish_run_with_retry e p status message summary runs).1 ≡ with_retry))))
  unfolding finish_run_with_retry finish_run status_name
  finish_run_with_retry_lem fits bounded =
      let closed_bounded =
        all-finished p.job_id p.run_id p.max_attempts e.now status message summary runs in
      elim (Bool-cases e.updates) [
        | inr down ↦ (ground (arith, down), inl (ground (arith, down)))
        | inl up ↦ elim (Bool-cases (not (is_failure status) || leb p.max_attempts p.attempt)) [
          | inl over ↦
              (ground (arith, up, over, closed_bounded), inr (inl (ground (arith, up, over))))
          | inr again ↦ elim (Bool-cases e.inserts) [
            | inr refused ↦ (
              ground (arith, up, again, refused, closed_bounded),
              inr (inl (ground (arith, up, again, refused))),
            )
            | inl inserted ↦ (
              rw (up, again, inserted)
                  (ground (
                    arith,
                    again,
                    closed_bounded,
                    all-snoc (is_within p.job_id p.max_attempts) closed (retry_of e p),
                  )),
              inr (
                  inr (
                    failure status (ground (arith, again)),
                    ground (arith, again),
                    rw (up, again, inserted) (delayed fits),
                  )),
            )
          ]
        ]
      ]
