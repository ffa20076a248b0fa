-- ===== src/Jobs.antt =====
-- worker/job_lock.py and `_with_lock` of worker/jobs.py: the lock in `scheduled_jobs` that keeps a job
-- from running twice at once. Instants are counted in seconds.
pub mod Lock
pub mod Refresh
use sky_trax_project.Prelude.{
  ℕ, suc, ◌+◌, ◌*◌, String, Bool, true, false, Option, none, some, ltb, if◌then◌else◌, or_default,
  Dict, lookup, insert,
}

-- A `datetime`, with a timezone or without one.
pub record Instant : Type 0 where
  pub at : ℕ
  pub aware : Bool

-- A row of `scheduled_jobs`, as a session loads it.
pub record ScheduledJob : Type 0 where
  pub status : String
  pub last_started_at : Option Instant
  pub last_finished_at : Option Instant
  pub last_error : Option String
  pub overlap_lock_until : Option Instant
  pub run_count : ℕ

-- The columns are `DateTime()`: what is read back has no timezone.
abbrev pub as_stored : Instant → Instant
as_stored t = record t { aware = false }

-- `datetime.now(timezone.utc)`
abbrev pub utc : ℕ → Instant
utc now = record { at = now; aware = true }

-- Python's `a > b`: no answer, a `TypeError`, where only one of them has a timezone.
abbrev pub same_kind : Bool → Bool → Bool
same_kind true b = b
same_kind false true = false
same_kind false false = true

unfoldable pub is_after : Instant → Instant → Option Bool
is_after a b = if same_kind a.aware b.aware then some (ltb b.at a.at) else none

-- `job.overlap_lock_until and job.overlap_lock_until > now`
unfoldable pub is_held : Option Instant → Instant → Option Bool
unfolding is_after
is_held none now = some false
is_held (some until) now = is_after until now

abbrev pub new_job : ScheduledJob
new_job = record {
  status = "idle";
  last_started_at = none;
  last_finished_at = none;
  last_error = none;
  overlap_lock_until = none;
  run_count = 0;
}

abbrev pub job_of : String → Dict ScheduledJob → ScheduledJob
job_of name jobs = or_default (lookup name jobs) new_job

unfoldable pub started_job : ℕ → ℕ → ScheduledJob → ScheduledJob
started_job now lock_minutes job = record job {
  status = "running";
  last_started_at = some (as_stored (utc now));
  overlap_lock_until = some (as_stored (utc (now + 60 * lock_minutes)));
}

-- `acquire_job_lock`: its answer, none where it raises, and the rows. Only its commit writes.
abbrev pub acquired :
    String → ℕ → ℕ → Dict ScheduledJob → Option Bool → Option Bool × Dict ScheduledJob
acquired name now lock_minutes jobs none = (none, jobs)
acquired name now lock_minutes jobs (some true) = (some false, jobs)
acquired name now lock_minutes jobs (some false) =
    (some true, insert name (started_job now lock_minutes (job_of name jobs)) jobs)

unfoldable pub acquire_job_lock :
    String → ℕ → ℕ → Dict ScheduledJob → Option Bool × Dict ScheduledJob
acquire_job_lock name lock_minutes now jobs =
    acquired name now lock_minutes jobs (is_held (job_of name jobs).overlap_lock_until (utc now))

unfoldable pub finished_job : Bool → Option String → ℕ → ScheduledJob → ScheduledJob
finished_job success error now job = record job {
  status = if success then "success" else "failed";
  last_finished_at = some (as_stored (utc now));
  last_error = error;
  overlap_lock_until = none;
  run_count = suc job.run_count;
}

-- `release_job_lock`
abbrev pub release_row :
    String → Bool → Option String → ℕ → Dict ScheduledJob → Option ScheduledJob → Dict ScheduledJob
release_row name success error now jobs none = jobs
release_row name success error now jobs (some job) =
    insert name (finished_job success error now job) jobs

unfoldable pub release_job_lock :
    String → Bool → Option String → ℕ → Dict ScheduledJob → Dict ScheduledJob
release_job_lock name success error now jobs =
    release_row name success error now jobs (lookup name jobs)

-- What the job's function does: it returns, or raises an exception of this text.
pub data JobOutcome {ℓ} (R : Type ℓ) : Type ℓ where
  returns : R → JobOutcome R
  raises : String → JobOutcome R

-- What `_with_lock` does.
pub data JobEnd {ℓ} (R : Type ℓ) : Type ℓ where
  overlap : JobEnd R
  type_error : JobEnd R
  ends : JobOutcome R → JobEnd R

abbrev pub succeeded {ℓ} : {R : Type ℓ} → JobOutcome R → Bool
succeeded (returns _) = true
succeeded (raises _) = false

abbrev pub raised_error {ℓ} : {R : Type ℓ} → JobOutcome R → Option String
raised_error (returns _) = none
raised_error (raises error) = some error

-- `_with_lock`: `during` is what becomes of the rows while the function runs, until `later`.
abbrev pub run_with {ℓ} :
    {R : Type ℓ}
    → String
    → ℕ
    → JobOutcome R
    → (Dict ScheduledJob → Dict ScheduledJob)
    → Option Bool × Dict ScheduledJob
    → JobEnd R × Dict ScheduledJob
run_with name later outcome during (none, jobs) = (type_error, jobs)
run_with name later outcome during (some false, jobs) = (overlap, jobs)
run_with name later outcome during (some true, jobs) = (
  ends outcome,
  release_job_lock name (succeeded outcome) (raised_error outcome) later (during jobs),
)

unfoldable pub with_lock {ℓ} :
    {R : Type ℓ}
    → String
    → ℕ
    → ℕ
    → ℕ
    → JobOutcome R
    → (Dict ScheduledJob → Dict ScheduledJob)
    → Dict ScheduledJob
    → JobEnd R × Dict ScheduledJob
with_lock name lock_minutes now later outcome during jobs =
    run_with name later outcome during (acquire_job_lock name lock_minutes now jobs)
