-- ===== src/Lifecycle/Interleaving.antt =====
-- Many clients in `accept_refresh` at once: each call is cut into its Redis commands, which take
-- turns in any order with the workers' transitions, and operations may end in between. What else may
-- happen is said by an `Environment`: that the dispatch lock, whose time-to-live is
-- DISPATCH_LOCK_TTL_S, expires, that Redis goes out of reach and comes back, and that a worker's
-- transition makes an operation active where none was.
pub mod Expiry
use sky_trax_project.Prelude.{
  ℕ, Bool, true, false, ◌≡◌, ◌==◌, if◌then◌else◌, String, arith, is_some, inl, inr, Bool-cases,
}
use sky_trax_project.Store.{Stored, Operation, Redis}
use sky_trax_project.Lifecycle.{
  get_active_operation, try_acquire_dispatch_lock, release_dispatch_lock, create_queued, is_truthy,
  transition,
}

-- What may happen beside the clients' own commands.
pub record Environment : Type 0 where
  pub expiring : Bool
  pub outages : Bool
  pub reviving : Bool

-- Where a client stands: before the lock, behind it, behind the check that found no active
-- operation, before the release, and at the end with or without its operation.
pub data Phase : Type 0 where
  idle holding unopposed : Phase
  leaving ended : Bool → Phase

abbrev pub in_section : Phase → Bool
in_section holding = true
in_section unopposed = true
in_section (leaving _) = true
in_section _ = false

pub record System : Type 0 where
  pub store : Redis
  pub phase : ℕ → Phase

abbrev pub update : (ℕ → Phase) → ℕ → Phase → ℕ → Phase
update f c p d = if d == c then p else f d

-- `if active:` on the answer of `get_active_operation`
abbrev pub active : Redis → Bool
active r = is_truthy (get_active_operation r)

-- One Redis command of a client, or what happens in between: the stored operation ends or is gone, a
-- worker or a dispatcher writes a transition, Redis goes out of reach or comes back, and the lock
-- expires. A transition that makes an operation active where none was needs `reviving`.
pub data Step (env : Environment) (s : System) : System → Type 0 where
  acquire :
      (c : ℕ)
      → s.phase c ≡ idle
      → (try_acquire_dispatch_lock s.store).0 ≡ true
      → Step env s (record s {
        store = (try_acquire_dispatch_lock s.store).1;
        phase = update s.phase c holding;
      })
  bounce :
      (c : ℕ)
      → s.phase c ≡ idle
      → (try_acquire_dispatch_lock s.store).0 ≡ false
      → Step env s (record s { phase = update s.phase c (ended false) })
  find_active :
      (c : ℕ)
      → s.phase c ≡ holding
      → active s.store ≡ true
      → Step env s (record s { phase = update s.phase c (leaving false) })
  find_none :
      (c : ℕ)
      → s.phase c ≡ holding
      → active s.store ≡ false
      → Step env s (record s { phase = update s.phase c unopposed })
  create :
      (c : ℕ) (op trigger kind now : String)
      → s.phase c ≡ unopposed
      → Step env s (record s {
        store = (create_queued op trigger kind now s.store).1;
        phase = update s.phase c (leaving (is_some (create_queued op trigger kind now s.store).0));
      })
  release :
      (c : ℕ) (done : Bool)
      → s.phase c ≡ leaving done
      → Step env s (record s {
        store = release_dispatch_lock s.store;
        phase = update s.phase c (ended done);
      })
  operation_ends :
      (v : Stored Operation)
      → active (record s.store { operation = v; up = true }) ≡ false
      → Step env s (record s { store = record s.store { operation = v } })
  worker_moves :
      (op new now : String) (extra : Operation → Operation)
      → (active s.store ≡ false
          → active (transition op new extra now s.store) ≡ true
          → env.reviving ≡ true)
      → Step env s (record s { store = transition op new extra now s.store })
  redis_turns :
      (b : Bool) → env.outages ≡ true → Step env s (record s { store = record s.store { up = b } })
  lock_expires :
      env.expiring ≡ true
      → Step env s (record s { store = record s.store { dispatch_lock = false } })

pub data Reach (env : Environment) (s : System) : System → Type 0 where
  here : Reach env s s
  next : {t u : System} → Reach env s t → Step env t u → Reach env s u

abbrev pub begin : Redis → System
begin r = record { store = r; phase = λ _. idle }

-- Redis stays in reach, and the lock is there as long as its holder works.
pub record IsQuiet (env : Environment) : Type 0 where
  pub lasting : env.expiring ≡ false
  pub reachable : env.outages ≡ false

-- One client at most is between the lock and its release, and where it goes on to create its
-- operation no other is active, unless a worker made it so.
record IsExclusive (env : Environment) (s : System) : Type 0 where
  reached : s.store.up ≡ true
  held : (c : ℕ) → in_section (s.phase c) ≡ true → s.store.dispatch_lock ≡ true
  alone : (c d : ℕ) → in_section (s.phase c) ≡ true → in_section (s.phase d) ≡ true → c ≡ d
  unopposed_free : env.reviving ≡ false → (c : ℕ) → s.phase c ≡ unopposed → active s.store ≡ false

transition-same :
    (op new now : String) (extra : Operation → Operation) (r : Redis)
    → ((transition op new extra now r).up ≡ r.up)
      × ((transition op new extra now r).dispatch_lock ≡ r.dispatch_lock)
unfolding transition
transition-same op new now extra r = (ground arith, ground arith)

Step-IsExclusive :
    {env : Environment} {s t : System}
    → IsQuiet env
    → IsExclusive env s
    → Step env s t
    → IsExclusive env t
unfolding try_acquire_dispatch_lock create_queued release_dispatch_lock get_active_operation
Step-IsExclusive {s} q i (acquire c p e) = record {
  reached = ground (arith, i.reached);
  held = λ d. ground (arith, i.reached);
  alone = λ d e'. ground (arith, i.reached, i.held d, i.held e');
  unopposed_free = λ n d. ground (arith, i.reached, i.held d, i.unopposed_free n d);
}
Step-IsExclusive {s} q i (bounce c p e) = record {
  reached = i.reached;
  held = λ d. ground (arith, i.held d);
  alone = λ d e'. ground (arith, i.alone d e');
  unopposed_free = λ n d. ground (arith, i.unopposed_free n d);
}
Step-IsExclusive {s} q i (find_active c p e) = record {
  reached = i.reached;
  held = λ d. ground (arith, i.held d, i.held c);
  alone = λ d e'. ground (arith, i.alone d e', i.alone c e', i.alone d c);
  unopposed_free = λ n d. ground (arith, i.unopposed_free n d);
}
Step-IsExclusive {s} q i (find_none c p e) = record {
  reached = i.reached;
  held = λ d. ground (arith, i.held d, i.held c);
  alone = λ d e'. ground (arith, i.alone d e', i.alone c e', i.alone d c);
  unopposed_free = λ n d. ground (arith, i.unopposed_free n d);
}
Step-IsExclusive {s} q i (create c op trigger kind now p) = record {
  reached = ground (arith, i.reached);
  held = λ d. ground (arith, i.reached, i.held d, i.held c);
  alone = λ d e'. ground (arith, i.alone d e', i.alone c e', i.alone d c);
  unopposed_free = λ n d. ground (arith, i.alone c d);
}
Step-IsExclusive {s} q i (release c done p) = record {
  reached = ground (arith, i.reached);
  held = λ d. ground (arith, i.reached, i.alone c d);
  alone = λ d e'. ground (arith, i.alone d e');
  unopposed_free = λ n d. ground (arith, i.reached, i.unopposed_free n d);
}
Step-IsExclusive {s} q i (operation_ends v e) = record {
  reached = i.reached;
  held = i.held;
  alone = i.alone;
  unopposed_free = λ n d _. rw i.reached e;
}
Step-IsExclusive {env} {s} q i (worker_moves op new now extra bound) =
    let (same_up, same_lock) = transition-same op new now extra s.store in
    record {
      reached = rw same_up i.reached;
      held = λ d inside. rw same_lock (i.held d inside);
      alone = i.alone;
      unopposed_free = λ n d p. moved n (i.unopposed_free n d p);
    }
  where
    moved :
        env.reviving ≡ false
        → active s.store ≡ false
        → active (transition op new extra now s.store) ≡ false
    moved n none_before = elim (Bool-cases (active (transition op new extra now s.store))) [
      | inl revived ↦ absurd (ground (arith, bound none_before revived))
      | inr free ↦ free
    ]
Step-IsExclusive q i (redis_turns b e) = absurd (ground (arith, q.reachable))
Step-IsExclusive q i (lock_expires e) = absurd (ground (arith, q.lasting))

begin-IsExclusive : {env : Environment} (r : Redis) → r.up ≡ true → IsExclusive env (begin r)
begin-IsExclusive r up = record {
  reached = up;
  held = λ c. ground arith;
  alone = λ c d. ground arith;
  unopposed_free = λ n c. ground arith;
}

Reach-IsExclusive :
    {env : Environment} {s t : System}
    → IsQuiet env
    → IsExclusive env s
    → Reach env s t
    → IsExclusive env t
Reach-IsExclusive q h here = h
Reach-IsExclusive q h (next r st) = Step-IsExclusive q (Reach-IsExclusive q h r) st

-- From any store in reach, with all clients still before the lock: as long as Redis stays in reach
-- and the lock does not expire in use, any interleaving of any
-- number of clients with the transitions of any workers keeps one client at most between taking the
-- lock and giving it back; and where no transition makes an operation active while none was, a
-- client that is about to create its operation overwrites no active one.
pub accept_exclusive :
    (env : Environment) (r : Redis) (s : System)
    → IsQuiet env
    → r.up ≡ true
    → Reach env (begin r) s
    → ((c d : ℕ) → in_section (s.phase c) ≡ true → in_section (s.phase d) ≡ true → c ≡ d)
      × (env.reviving ≡ false → (c : ℕ) → s.phase c ≡ unopposed → active s.store ≡ false)
accept_exclusive env r s quiet up run =
    let i = Reach-IsExclusive quiet (begin-IsExclusive r up) run in (i.alone, i.unopposed_free)
