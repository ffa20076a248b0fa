-- ===== src/Forecast/Depth.antt =====
-- How deep the fallback of the forecasting nests, and what it returns.
use Prim.Native.String.{◌++◌ as ◌&◌}
use sky_trax_project.Prelude.{
  ℕ, zero, suc, ◌+◌, ◌≤◌, ◌<◌, ◌≡◌, refl, String, Bool, true, false, Option, none, some, arith,
  if◌then◌else◌,
}
use sky_trax_project.Forecast.{
  persists, raises, Services, Run, Forecast, failed_forecast, settle_attempt, rescue, decorate,
  run_inprocess, fallback_safe,
}

module _ (services : Services) where
  -- From number `n` on, the safe service raises.
  abbrev pub AlwaysRaises : ℕ → Type 0
  AlwaysRaises n = (m : ℕ) → n ≤ m → (e : String) × (services.attempt m true ≡ raises e)

  -- A run returns the dictionary of a fallback that has failed too, with the given error and the
  -- number of the next attempt.
  pub record GivesUp (run : Run) (error : String) (next : ℕ) : Type 0 where
    pub returned : Forecast
    pub returns : run ≡ some (returned, next)
    pub failed : returned.mode ≡ some "failed"
    pub nothing_persisted : returned.persisted ≡ 0
    pub same_error : returned.error ≡ some error

  rescue-GivesUp :
      (reason : String) (crash : Bool) (child_error : Option String) (n next : ℕ) (run : Run)
      → GivesUp run services.stack_error next
      → GivesUp
          (rescue services reason crash child_error n run)
          (if crash then "native_crash:" & reason else services.stack_error)
          next
  unfolding rescue decorate
  rescue-GivesUp reason true child_error n next run h = record {
    returned = decorate reason true child_error h.returned;
    returns = rw h.returns refl;
    failed = h.failed;
    nothing_persisted = h.nothing_persisted;
    same_error = refl;
  }
  rescue-GivesUp reason false child_error n next run h = record {
    returned = decorate reason false child_error h.returned;
    returns = rw h.returns refl;
    failed = h.failed;
    nothing_persisted = h.nothing_persisted;
    same_error = h.same_error;
  }

  exhausted-GivesUp :
      (reason : String) (n next : ℕ)
      → n ≡ next
      → GivesUp (rescue services reason false none n none) services.stack_error next
  unfolding rescue
  exhausted-GivesUp reason n next e = record {
    returned = failed_forecast services.stack_error reason false;
    returns = rw e refl;
    failed = refl;
    nothing_persisted = refl;
    same_error = refl;
  }

  run-GivesUp :
      (depth n next : ℕ)
      → AlwaysRaises n
      → n + suc depth ≡ next
      → GivesUp (run_inprocess (suc depth) services true n) services.stack_error next
  unfolding run_inprocess settle_attempt
  run-GivesUp zero n next broken e =
      let (reason, h) = broken n (omega arith) in
      rw h (exhausted-GivesUp reason (n + 1) next (omega (arith, e)))
  run-GivesUp (suc depth) n next broken e =
      let (reason, h) = broken n (omega arith) in
      let rest =
        run-GivesUp depth (n + 1) next (λ m above. broken m (omega arith)) (omega (arith, e)) in
      rw h (rescue-GivesUp reason false none (n + 1) next _ rest)

  -- While the safe service keeps raising, and at least one call may nest, the fallback makes as many attempts as calls may nest, and
  -- then returns that the forecasting has failed and persisted nothing. Its error is not what the
  -- service raised: it is Python's RecursionError, and after a crash of the child the fallback's own
  -- reason.
  pub failing_fallback_exhausts_stack :
      (depth n : ℕ) (reason : String) (crash : Bool) (child_error : Option String)
      → AlwaysRaises n
      → 0 < depth
      → GivesUp
          (fallback_safe depth services reason crash child_error n)
          (if crash then "native_crash:" & reason else services.stack_error)
          (n + depth)
  unfolding fallback_safe
  failing_fallback_exhausts_stack zero n reason crash child_error broken some_depth =
      absurd (omega arith)
  failing_fallback_exhausts_stack (suc depth) n reason crash child_error broken some_depth =
      rescue-GivesUp reason crash child_error n (n + suc depth) _
        (run-GivesUp depth n (n + suc depth) broken refl)

  -- The safe service raises `k` times from number `n` on, and then succeeds.
  abbrev pub RaisesFor : ℕ → ℕ → Type 0
  RaisesFor zero n = (p : ℕ) × (services.attempt n true ≡ persists p)
  RaisesFor (suc k) n = ((e : String) × (services.attempt n true ≡ raises e)) × RaisesFor k (n + 1)

  -- A run's result is a forecast of the safe service in the process.
  abbrev pub IsSafeRun : Run → Type 0
  IsSafeRun none = ⊥
  IsSafeRun (some (r, n)) = (r.isolation ≡ some "inprocess") × (r.safe_mode ≡ some true)

  rescue-IsSafeRun :
      (reason : String) (crash : Bool) (child_error : Option String) (n : ℕ) (r : Run)
      → IsSafeRun r
      → IsSafeRun (rescue services reason crash child_error n r)
  unfolding rescue decorate
  rescue-IsSafeRun reason crash child_error n none h = absurd h
  rescue-IsSafeRun reason crash child_error n (some (r, m)) h = h

  run_recovers :
      (k depth n : ℕ) → k < depth → RaisesFor k n → IsSafeRun (run_inprocess depth services true n)
  unfolding run_inprocess
  run_recovers k zero n deep h = absurd (omega arith)
  run_recovers zero (suc depth) n deep (p, h) = rw h (refl, refl)
  run_recovers (suc k) (suc depth) n deep ((e, h), later) =
      rw h
        (rescue-IsSafeRun e false none (n + 1) _ (run_recovers k depth (n + 1) (omega arith) later))

  -- It carries the reason and the crash flag of a fallback.
  abbrev pub IsLabelled : String → Bool → Run → Type 0
  IsLabelled reason crash none = ⊥
  IsLabelled reason crash (some (r, n)) =
      (r.fallback_reason ≡ some reason) × (r.native_crash ≡ some crash)

  rescue-IsLabelled :
      (reason : String) (crash : Bool) (child_error : Option String) (n : ℕ) (r : Run)
      → IsSafeRun r
      → IsLabelled reason crash (rescue services reason crash child_error n r)
  unfolding rescue decorate
  rescue-IsLabelled reason crash child_error n none h = absurd h
  rescue-IsLabelled reason crash child_error n (some (r, m)) h = (refl, refl)

  -- A fallback whose safe service succeeds after `k` failures returns that result, in safe mode and
  -- with the reason and the crash flag of the fallback itself, if more than `k` calls may nest.
  pub fallback_recovers :
      (k depth n : ℕ) (reason : String) (crash : Bool) (child_error : Option String)
      → k < depth
      → RaisesFor k n
      → IsSafeRun (fallback_safe depth services reason crash child_error n)
        × IsLabelled reason crash (fallback_safe depth services reason crash child_error n)
  unfolding fallback_safe
  fallback_recovers k depth n reason crash child_error deep h =
      let safe = run_recovers k depth n deep h in
      (
        rescue-IsSafeRun reason crash child_error n _ safe,
        rescue-IsLabelled reason crash child_error n _ safe,
      )
