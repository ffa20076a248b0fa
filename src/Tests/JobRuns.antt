-- ===== src/Tests/JobRuns.antt =====
-- The lock of the jobs on concrete rows.
use sky_trax_project.Prelude.{ℕ, true, false, none, some, [], ◌∷◌, ◌≡◌, refl, Dict, lookup, insert}
use sky_trax_project.Jobs.{
  ScheduledJob, new_job, finished_job, started_job, acquire_job_lock, with_lock, release_job_lock,
  is_held, JobOutcome, raises,
}
use sky_trax_project.Jobs.Lock.{Releases, with_lock-Releases, Blocks, dead_job-Blocks}

abbrev jobs : Dict ScheduledJob
jobs = ("nlp:enrich", record new_job { run_count = 4 }) ∷ []

abbrev failing : JobOutcome ℕ
failing = raises "no model"

with_lock-Releases_example :
    Releases "nlp:enrich" 90 failing
      (started_job 10 120 (record new_job { run_count = 4 }))
      (with_lock "nlp:enrich" 120 10 90 failing (λ rows. rows) jobs)
unfolding lookup insert
with_lock-Releases_example =
    with_lock-Releases "nlp:enrich" 120 10 90 failing (λ rows. rows) jobs
      (started_job 10 120 (record new_job { run_count = 4 })) refl refl

dead_job-Blocks_example :
    ((acquire_job_lock "nlp:enrich" 120 10 jobs).0 ≡ some true)
    × Blocks ℕ "nlp:enrich" (acquire_job_lock "nlp:enrich" 120 10 jobs).1
unfolding lookup
dead_job-Blocks_example = dead_job-Blocks ℕ "nlp:enrich" 120 10 jobs refl

-- The first run fails and counts; a second one may start.
failed_once :
    (with_lock "nlp:enrich" 120 10 90 failing (λ rows. rows) jobs).1
    ≡ (
      "nlp:enrich",
      record {
        status = "failed";
        last_started_at = some (record { at = 10; aware = false });
        last_finished_at = some (record { at = 90; aware = false });
        last_error = some "no model";
        overlap_lock_until = none;
        run_count = 5;
      },
    )
      ∷ []
unfolding with_lock acquire_job_lock release_job_lock is_held started_job finished_job lookup insert
failed_once = refl
