-- ===== src/Sched/Engine/Invariant.antt =====
-- The invariant of a pipe, and that the two works preserve it.
use lima_backport_sprd7730se.Prelude.{
  ℕ, ◌+◌, ◌≤◌, ◌≡◌, refl, Bool, true, false, Option, none, some, List, [], ◌∷◌, map, ◌==◌,
  if◌then◌else◌, arith, ap, inl, inr, Bool-cases, All, ==_iff,
}
use mathlib.Core.Path.{subst}
use lima_backport_sprd7730se.Errno.{Result-cases}
use lima_backport_sprd7730se.Fence.{Fences, Waiting, wait_timeout}
use lima_backport_sprd7730se.Fence.Waits.{wait_timeout-refcount}
use lima_backport_sprd7730se.Sched.Task.{Task}
use lima_backport_sprd7730se.Sched.Pipe.{
  Config, Pipe, run_loop, done_work, start_task, check_task, wait_deps, max_schedule_timeout,
  same_vm,
}
use lima_backport_sprd7730se.Sched.Engine.{pending}
use lima_backport_sprd7730se.Sched.Engine.Core.{Core, finished_pipe, finish_task-Core}

-- The hardware side, of the fields that it reads. Every MMU uses the directory of the space that the
-- pipe noted.
abbrev pub Mapped : (ℕ → ℕ) → Option ℕ → List ℕ → Type 0
Mapped pd none mmu = Unit
Mapped pd (some v) mmu = All (λ m. m ≡ pd v) mmu

-- The current task is the one that the hardware was given, and it runs in its own space.
abbrev pub Runs : Option Task → Option ℕ → Option Task → Type 0
Runs none vm running = Unit
Runs (some t) vm running = (vm ≡ some t.vm) × (running ≡ some t)

-- A queue that is not empty is going to be looked at.
abbrev pub Awake : Option Task → List Task → Bool → Type 0
Awake (some t) queue run_pending = Unit
Awake none [] run_pending = Unit
Awake none (t ∷ ts) run_pending = run_pending ≡ true

pub record Inv (p : Pipe) : Type 0 where
  pub core : Core p (pending p)
  pub mapped : Mapped p.pd p.current_vm p.mmu
  pub runs_task : Runs p.current_task p.current_vm p.running
  pub awake : Awake p.current_task p.queue p.run_pending

wait_deps-refcount :
    (w : Waiting) (k : ℕ) (fs : List ℕ) (s : Fences) → (wait_deps w k fs s).1.refcount ≡ s.refcount
unfolding wait_deps
wait_deps-refcount w k [] s = refl
wait_deps-refcount w k (f ∷ fs) s = ground (
  arith,
  wait_deps-refcount w (k + 1) fs (wait_timeout w k f false max_schedule_timeout s).1,
  wait_timeout-refcount w k f false max_schedule_timeout s,
)

pub check_task-refcount :
    (c : Config) (t : Task) (s : Fences) (a : ℕ) → (check_task c t s).1.refcount a ≡ s.refcount a
unfolding check_task
check_task-refcount c t s a = ap (λ (r : ℕ → ℕ). r a) (wait_deps-refcount c.waiting 0 t.deps s)

-- A core depends on few fields.
Core-store :
    (p : Pipe) (s : Fences) (q : List Task) (cur : Option Task) (ts : List Task)
    → ((a : ℕ) → p.store.refcount a ≤ s.refcount a)
    → Core p ts
    → Core (record p { store = s; queue = q; current_task = cur }) ts
Core-store p s q cur ts h i = record {
  holds = λ a. omega (arith, h a, i.holds a);
  order = i.order;
  flights = i.flights;
  blame = i.blame;
  answered = i.answered;
}

All-switched : (dir : ℕ) (mmu : List ℕ) → All (λ m. m ≡ dir) (map (λ _. dir) mmu)
All-switched dir [] = tt
All-switched dir (m ∷ mmu) = (refl, All-switched dir mmu)

switched-Mapped :
    (pd : ℕ → ℕ) (old : Option ℕ) (vm : ℕ) (mmu : List ℕ)
    → Mapped pd old mmu
    → Mapped pd (some vm) (if same_vm old vm then mmu else map (λ _. pd vm) mmu)
switched-Mapped pd none vm mmu h = All-switched (pd vm) mmu
switched-Mapped pd (some v) vm mmu h = elim (Bool-cases (v == vm)) [
  | inl e ↦ rw e (subst (λ x. All (λ m. m ≡ pd x) mmu) ((==_iff v vm).0 e) h)
  | inr e ↦ rw e (All-switched (pd vm) mmu)
]

-- The pipe with a task taken from the queue.
abbrev taken : Pipe → Fences → Task → List Task → Pipe
taken p s t ts = record p { store = s; queue = ts; current_task = some t }

start_task-Inv :
    (c : Config) (t : Task) (ts : List Task) (p : Pipe) (s : Fences)
    → Mapped p.pd p.current_vm p.mmu
    → Core (taken p s t ts) (t ∷ ts)
    → Inv (start_task c t (taken p s t ts))
unfolding start_task
start_task-Inv c t ts p s m i = record {
  core = record {
    holds = i.holds;
    order = i.order;
    flights = i.flights;
    blame = i.blame;
    answered = i.answered;
  };
  mapped = switched-Mapped p.pd p.current_vm t.vm p.mmu m;
  runs_task = (refl, refl);
  awake = tt;
}

-- With no current task the loop ends with the queue empty or with a task that the hardware runs.
run_loop-Inv :
    (c : Config) (now : ℕ) (ts : List Task) (p : Pipe)
    → Mapped p.pd p.current_vm p.mmu
    → Core p ts
    → (q : Pipe) × (run_loop c now ts (record p { current_task = none }) ≡ some q) × Inv q
unfolding run_loop
run_loop-Inv c now [] p m i = (
  record p { queue = []; current_task = none },
  refl,
  record {
    core = Core-store p p.store [] none [] (λ a. omega arith) i;
    mapped = m;
    runs_task = tt;
    awake = tt;
  },
)
run_loop-Inv c now (t ∷ ts) p m i =
    let s = (check_task c t p.store).1 in
    let begun : Core (taken p s t ts) (t ∷ ts) =
      Core-store p s ts (some t) (t ∷ ts) (λ a. omega (arith, check_task-refcount c t p.store a))
        i in
    elim (Result-cases (check_task c t p.store).0) [
      | inl (u, e) ↦ (
        start_task c t (taken p s t ts),
        rw (e, run_loop) refl,
        start_task-Inv c t ts p s m begun,
      )
      | inr (x, e) ↦
          let (s', e', i') = finish_task-Core t true now (taken p s t ts) ts begun in
          let (q, e'', v) = run_loop-Inv c now ts (finished_pipe (taken p s t ts) t true s') m i' in
          (q, rw (e, run_loop) (rw e' e''), v)
    ]

pub Awake-when_run : (queue : List Task) → Awake none queue true
Awake-when_run [] = tt
Awake-when_run (t ∷ ts) = refl

-- The pipe with these two fields; every pipe is of this form.
abbrev pub with_tasks : Pipe → Option Task → List Task → Pipe
with_tasks p cur queue = record p { current_task = cur; queue = queue }

pub run_loop-with_tasks :
    (c : Config) (now : ℕ) (p : Pipe) (cur : Option Task) (queue : List Task)
    → Inv (with_tasks p cur queue)
    → (q : Pipe) × (run_loop c now queue (record (with_tasks p cur queue) { run_pending = false })
        ≡ some q)
      × Inv q
unfolding run_loop
run_loop-with_tasks c now p none queue v =
    run_loop-Inv c now queue (record (with_tasks p none queue) { run_pending = false }) v.mapped
      (record {
        holds = v.core.holds;
        order = v.core.order;
        flights = v.core.flights;
        blame = v.core.blame;
        answered = v.core.answered;
      })
run_loop-with_tasks c now p (some t) [] v = (
  record (with_tasks p (some t) []) { run_pending = false },
  refl,
  record {
    core = record {
      holds = v.core.holds;
      order = v.core.order;
      flights = v.core.flights;
      blame = v.core.blame;
      answered = v.core.answered;
    };
    mapped = v.mapped;
    runs_task = v.runs_task;
    awake = tt;
  },
)
run_loop-with_tasks c now p (some t) (u ∷ us) v = (
  record (with_tasks p (some t) (u ∷ us)) { run_pending = false },
  refl,
  record {
    core = record {
      holds = v.core.holds;
      order = v.core.order;
      flights = v.core.flights;
      blame = v.core.blame;
      answered = v.core.answered;
    };
    mapped = v.mapped;
    runs_task = v.runs_task;
    awake = tt;
  },
)

pub done_work-with_tasks :
    (now : ℕ) (p : Pipe) (cur : Option Task) (queue : List Task)
    → Inv (with_tasks p cur queue)
    → (q : Pipe) × (done_work now (record (with_tasks p cur queue) { done_pending = false })
        ≡ some q)
      × Inv q
unfolding done_work
done_work-with_tasks now p none queue v = (
  record (with_tasks p none queue) { done_pending = false },
  refl,
  record {
    core = record {
      holds = v.core.holds;
      order = v.core.order;
      flights = v.core.flights;
      blame = v.core.blame;
      answered = v.core.answered;
    };
    mapped = v.mapped;
    runs_task = tt;
    awake = v.awake;
  },
)
done_work-with_tasks now p (some t) queue v =
    let begun = record (with_tasks p (some t) queue) { done_pending = false } in
    let (s, e, i) = finish_task-Core t p.error now begun queue (record {
      holds = v.core.holds;
      order = v.core.order;
      flights = v.core.flights;
      blame = v.core.blame;
      answered = v.core.answered;
    }) in
    (
      record (finished_pipe begun t p.error s) {
        current_task = none;
        error = false;
        run_pending = true;
      },
      rw e refl,
      record {
        core = record {
          holds = i.holds;
          order = i.order;
          flights = i.flights;
          blame = i.blame;
          answered = i.answered;
        };
        mapped = v.mapped;
        runs_task = tt;
        awake = Awake-when_run queue;
      },
    )
