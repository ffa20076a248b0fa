-- ===== src/Jobs/Lock.antt =====
-- A run gives its lock back; a lock that is left is never overcome.
use sky_trax_project.Prelude.{
  ℕ, ◌+◌, ◌*◌, String, true, false, none, some, ◌≡◌, refl, ap, ◌∙◌, or_default, Dict, lookup,
  insert, lookup-insert, eq_iff,
}
use sky_trax_project.Jobs.{
  Instant, ScheduledJob, utc, as_stored, is_after, is_held, job_of, new_job, started_job,
  acquire_job_lock, finished_job, release_job_lock, JobOutcome, JobEnd, type_error, ends, succeeded,
  raised_error, run_with, with_lock,
}

lookup-insert_same :
    (name : String) (job : ScheduledJob) (jobs : Dict ScheduledJob)
    → lookup name (insert name job jobs) ≡ some job
lookup-insert_same name job jobs =
    lookup-insert name name job jobs ∙ rw ((eq_iff name name).1 refl) refl

free_acquires :
    (name : String) (lock_minutes now : ℕ) (jobs : Dict ScheduledJob)
    → (job_of name jobs).overlap_lock_until ≡ none
    → acquire_job_lock name lock_minutes now jobs
      ≡ (some true, insert name (started_job now lock_minutes (job_of name jobs)) jobs)
unfolding acquire_job_lock is_held
free_acquires name lock_minutes now jobs free = rw free refl

-- What a job that finds its lock free leaves.
pub record Releases {ℓ} {R : Type ℓ} (name : String) (later : ℕ) (outcome : JobOutcome R)
    (job : ScheduledJob) (end : JobEnd R × Dict ScheduledJob) : Type ℓ where
  pub result : end.0 ≡ ends outcome
  pub row :
      lookup name end.1 ≡ some (finished_job (succeeded outcome) (raised_error outcome) later job)
  pub frees : (lock_minutes now : ℕ) → (acquire_job_lock name lock_minutes now end.1).0 ≡ some true

-- A job whose lock is free when it starts, and whose row is there when its function is over, ends as the function does, whether it returns or raises: its row then says success or failure with the error, has one more run and no lock, and the next request for the lock, at any time, succeeds.
pub with_lock-Releases {ℓ} :
    {R : Type ℓ} (name : String) (lock_minutes now later : ℕ) (outcome : JobOutcome R)
    (during : Dict ScheduledJob → Dict ScheduledJob) (jobs : Dict ScheduledJob) (job : ScheduledJob)
    → (job_of name jobs).overlap_lock_until ≡ none
    → lookup name (during (insert name (started_job now lock_minutes (job_of name jobs)) jobs))
      ≡ some job
    → Releases name later outcome job (with_lock name lock_minutes now later outcome during jobs)
unfolding with_lock release_job_lock finished_job
with_lock-Releases name lock_minutes now later outcome during jobs job free there =
    let left = during (insert name (started_job now lock_minutes (job_of name jobs)) jobs) in
    let over = finished_job (succeeded outcome) (raised_error outcome) later job in
    let row = lookup-insert_same name over left in
    rw (free_acquires name lock_minutes now jobs free, there)
      (record {
        result = refl;
        row = row;
        frees = λ minutes next.
            ap (λ a. a.0)
              (free_acquires name minutes next (insert name over left)
                (ap (λ found. (or_default found new_job).overlap_lock_until) row));
      })

-- A lock that is read back has no timezone, and asking whether it is over raises.
locked_raises :
    (name : String) (lock_minutes now : ℕ) (jobs : Dict ScheduledJob) (until : Instant)
    → (job_of name jobs).overlap_lock_until ≡ some until
    → until.aware ≡ false
    → acquire_job_lock name lock_minutes now jobs ≡ (none, jobs)
unfolding acquire_job_lock is_held is_after
locked_raises name lock_minutes now jobs until held naive = rw (held, naive) refl

-- What becomes of a job whose process dies with the lock.
pub record Blocks {ℓ} (R : Type ℓ) (name : String) (jobs : Dict ScheduledJob) : Type ℓ where
  pub refuses :
      (lock_minutes now later : ℕ) (outcome : JobOutcome R)
      (during : Dict ScheduledJob → Dict ScheduledJob)
      → with_lock name lock_minutes now later outcome during jobs ≡ (type_error, jobs)

-- A job whose lock is free acquires it, and if nothing releases the lock, then every later attempt to run the job, however long after the lock is over, raises a TypeError and changes nothing.
pub dead_job-Blocks {ℓ} :
    (R : Type ℓ) (name : String) (lock_minutes now : ℕ) (jobs : Dict ScheduledJob)
    → (job_of name jobs).overlap_lock_until ≡ none
    → ((acquire_job_lock name lock_minutes now jobs).0 ≡ some true)
      × Blocks R name (acquire_job_lock name lock_minutes now jobs).1
unfolding with_lock started_job
dead_job-Blocks R name lock_minutes now jobs free =
    let job = started_job now lock_minutes (job_of name jobs) in
    let held =
      ap (λ found. (or_default found new_job).overlap_lock_until)
        (lookup-insert_same name job jobs) in
    rw (free_acquires name lock_minutes now jobs free) (
      refl,
      record {
        refuses = λ minutes next later outcome during. ap (run_with name later outcome during) (
            locked_raises name minutes next (insert name job jobs)
              (as_stored (utc (now + 60 * lock_minutes))) held refl);
      },
    )
