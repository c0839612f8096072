-- ===== src/Sched/Engine/History.antt =====
-- Every history of a pipe keeps the invariant: no reference is lost, no task is lost or reordered.
use lima_backport_sprd7730se.Prelude.{
  ℕ, ◌≡◌, refl, Bool, true, false, ◌||◌, Option, none, some, List, [], ◌∷◌, if◌then◌else◌, arith,
  ap, sym, All, inl, inr, Bool-cases, ltb,
}
use mathlib.Core.Path.{subst}
use lima_backport_sprd7730se.Fence.{Fences, ◌>>=◌}
use lima_backport_sprd7730se.Sched.Task.{Task}
use lima_backport_sprd7730se.Sched.Pipe.{
  Config, Pipe, pipe_init, run_work, timeout_work, pipe_task_done,
}
use lima_backport_sprd7730se.Sched.Engine.{
  Event, submits, runs, completes, times_out, interrupts, faults, others, step, steps, Allowed,
  SameDirectory,
}
use lima_backport_sprd7730se.Sched.Engine.Invariant.{
  Inv, Mapped, with_tasks, run_loop-with_tasks, done_work-with_tasks,
}
use lima_backport_sprd7730se.Sched.Engine.Submits.{submit-Inv}

-- The invariant does not read these fields.
Inv-flags :
    (p : Pipe) (e d t : Bool)
    → Inv p
    → Inv (record p { error = e; done_pending = d; timeout_pending = t })
Inv-flags p e d t v = record {
  core = record {
    holds = v.core.holds;
    order = v.core.order;
    flights = v.core.flights;
    blame = v.core.blame;
    answered = v.core.answered;
  };
  mapped = v.mapped;
  runs_task = v.runs_task;
  awake = v.awake;
}

timeout_work-with_tasks :
    (p : Pipe) (cur : Option Task) (queue : List Task)
    → Inv (with_tasks p cur queue)
    → (q : Pipe) × (timeout_work (record (with_tasks p cur queue) { timeout_pending = false }) ≡ q)
      × Inv q
unfolding timeout_work
timeout_work-with_tasks p none queue v = (
  record (with_tasks p none queue) { timeout_pending = false },
  refl,
  Inv-flags (with_tasks p none queue) p.error p.done_pending false v,
)
timeout_work-with_tasks p (some t) queue v = (
  record (with_tasks p (some t) queue) {
    timeout_pending = false;
    error = true;
    done_pending = true;
  },
  refl,
  Inv-flags (with_tasks p (some t) queue) true true false v,
)

pipe_task_done-Inv :
    (c : Config) (e : Bool) (p : Pipe)
    → Inv p
    → (q : Pipe) × (some (pipe_task_done c (record p { error = e })) ≡ some q) × Inv q
unfolding pipe_task_done
pipe_task_done-Inv c e p v = (
  pipe_task_done c (record p { error = e }),
  refl,
  Inv-flags p e true (if ltb 0 c.sched_timeout_ms then false else p.timeout_pending) v,
)

Mapped-directory :
    (current : Option ℕ) (pd pd' : ℕ → ℕ) (mmu : List ℕ)
    → SameDirectory current pd pd'
    → Mapped pd current mmu
    → Mapped pd' current mmu
Mapped-directory none pd pd' mmu e m = tt
Mapped-directory (some v) pd pd' mmu e m = subst (λ x. All (λ m. m ≡ x) mmu) (sym e) m

-- From a pipe that satisfies the invariant, every event that the callers and the kernel may cause is
-- carried out: no freed object is touched, no count falls below 0; and the invariant holds again.
pub step-Inv :
    (c : Config) (e : Event) (p : Pipe)
    → Allowed e p
    → Inv p
    → (q : Pipe) × (step c e p ≡ some q) × Inv q
unfolding step run_work
step-Inv c (submits t) p h v = submit-Inv t p h v
step-Inv c (runs now) p h v = elim (Bool-cases p.run_pending) [
  | inl e ↦ let (q, e', w) = run_loop-with_tasks c now p p.current_task p.queue v in (q, rw e e', w)
  | inr e ↦ (p, rw e refl, v)
]
step-Inv c (completes now) p h v = elim (Bool-cases p.done_pending) [
  | inl e ↦ let (q, e', w) = done_work-with_tasks now p p.current_task p.queue v in (q, rw e e', w)
  | inr e ↦ (p, rw e refl, v)
]
step-Inv c times_out p h v = elim (Bool-cases p.timeout_pending) [
  | inl e ↦
      let (q, e', w) = timeout_work-with_tasks p p.current_task p.queue v in
      (q, rw e (ap some e'), w)
  | inr e ↦ (p, rw e refl, v)
]
step-Inv c (interrupts failed) p h v = pipe_task_done-Inv c (failed || p.error) p v
step-Inv c faults p h v = pipe_task_done-Inv c true p v
step-Inv c (others s pd) p h v = (
  record p { store = s; pd = pd },
  refl,
  record {
    core = record {
      holds = h.0;
      order = v.core.order;
      flights = v.core.flights;
      blame = v.core.blame;
      answered = v.core.answered;
    };
    mapped = Mapped-directory p.current_vm p.pd pd p.mmu h.1 v.mapped;
    runs_task = v.runs_task;
    awake = v.awake;
  },
)

-- A property of the result, if there is one.
abbrev pub After : (Pipe → Type 0) → Option Pipe → Type 0
After P none = Unit
After P (some q) = P q

-- Each event of a history is allowed where it happens.
unfoldable pub AllowedAll : Config → List Event → Pipe → Type 0
AllowedAll c [] p = Unit
AllowedAll c (e ∷ es) p = Allowed e p × After (AllowedAll c es) (step c e p)

pub steps-Inv :
    (c : Config) (es : List Event) (p : Pipe)
    → AllowedAll c es p
    → Inv p
    → (q : Pipe) × (steps c es p ≡ some q) × Inv q
unfolding steps AllowedAll
steps-Inv c [] p h v = (p, refl, v)
steps-Inv c (e ∷ es) p h v =
    let (q, e', w) = step-Inv c e p h.0 v in
    let (r, e'', x) = steps-Inv c es q (subst (After (AllowedAll c es)) e' h.1) w in
    (r, rw (e', steps) e'', x)

pub pipe_init-Inv :
    (store : Fences) (mmu : List ℕ) → (p : Pipe) × (pipe_init true store mmu ≡ some p) × Inv p
unfolding pipe_init
pipe_init-Inv store mmu = (
  record {
    store = store;
    queue = [];
    current_task = none;
    current_vm = none;
    mmu = mmu;
    pd = λ _. 0;
    running = none;
    error = false;
    in_flight = λ _. 0;
    guilty = λ _. 0;
    run_pending = false;
    done_pending = false;
    timeout_pending = false;
    submitted = [];
    finished = [];
    answered = [];
  },
  refl,
  record {
    core = record {
      holds = λ a. omega arith;
      order = refl;
      flights = λ c. refl;
      blame = λ c. refl;
      answered = tt;
    };
    mapped = tt;
    runs_task = tt;
    awake = tt;
  },
)

-- From a new pipe, any history of submits, works, interrupts and outside changes in which each event
-- is allowed where it happens is carried out to its end, with no use of a freed object and no
-- count below 0. A submit names objects that exist and a new fence; nobody drops a reference that a pending
-- task owns; and no space with another directory appears at the address that the pipe has noted as the
-- current one. A submit is one step, and every wait for a dependency returns. The pipe it ends
-- with satisfies `Inv`: the tasks that finished and then those pending are the submitted ones in
-- order, each pending task still has all its references, the counters in_flight and guilty are the number
-- of pending and of failed tasks of each context, the MMUs use the directory of the space noted last,
-- which is that of the running task, and a waiting queue has the run work pending unless a task is
-- running.
pub history-Inv :
    (c : Config) (es : List Event) (store : Fences) (mmu : List ℕ)
    → After (AllowedAll c es) (pipe_init true store mmu)
    → (q : Pipe) × ((pipe_init true store mmu >>= steps c es) ≡ some q) × Inv q
history-Inv c es store mmu h =
    let (p, e, v) = pipe_init-Inv store mmu in
    let (q, e', w) = steps-Inv c es p (subst (After (AllowedAll c es)) e h) v in (q, rw e e', w)
