-- ===== src/Sched/Pipe.antt =====
-- The state of a pipe and the operations on it: lima_sched.c.
use lima_backport_sprd7730se.Prelude.{
  ℕ, ◌+◌, ◌-◌, ◌^◌, Bool, true, false, Option, none, some, List, [], ◌∷◌, ◌++◌, map, ◌==◌, ltb,
  if◌then◌else◌, update,
}
use lima_backport_sprd7730se.Errno.{eio, Result, ok, err, nonneg, neg}
use lima_backport_sprd7730se.Fence.{
  Fences, Status, ◌>>=◌, get, signal, signal_error, Waiting, wait_timeout,
}
use lima_backport_sprd7730se.Sched.Task.{Task, task_fini}

-- What the rest of the driver and the kernel supply: the module parameter, the pipe's
-- `task_validate`, and how a wait for a fence goes.
pub record Config : Type 0 where
  pub sched_timeout_ms : ℕ
  pub task_validate : (ℕ → ℕ) → Result (Unit {0})
  pub waiting : Waiting

-- `struct lima_sched_pipe` with the counters of its contexts. `mmu` holds, for each MMU of the pipe,
-- the address of the directory that it uses, and `pd` tells the directory of the space at each
-- address. `running` is the task that the hardware was last given.
-- `run_pending`, `done_pending` and `timeout_pending` say which works are queued.
-- `submitted` and `finished` record the history: the tasks in the order of their submission, and in
-- the order of their completion with whether each failed; `answered` records the fence of each
-- finished task with the status that it had after the last step of the completion.
pub record Pipe : Type 0 where
  pub store : Fences
  pub queue : List Task
  pub current_task : Option Task
  pub current_vm : Option ℕ
  pub mmu : List ℕ
  pub pd : ℕ → ℕ
  pub running : Option Task
  pub error : Bool
  pub in_flight : ℕ → ℕ
  pub guilty : ℕ → ℕ
  pub run_pending : Bool
  pub done_pending : Bool
  pub timeout_pending : Bool
  pub submitted : List Task
  pub finished : List (Task × Bool)
  pub answered : List (ℕ × Status)

-- lima_sched_pipe_init, with the MMUs that lima_device.c puts on the pipe; `none` if the workqueue
-- cannot be allocated. No space has a directory yet.
unfoldable pub pipe_init : Bool → Fences → List ℕ → Option Pipe
pipe_init allocated store mmu =
    if allocated
    then some (record {
      store = store;
      queue = [];
      current_task = none;
      current_vm = none;
      mmu = mmu;
      pd = λ _. 0;
      running = none;
      error = false;
      in_flight = λ _. 0;
      guilty = λ _. 0;
      run_pending = false;
      done_pending = false;
      timeout_pending = false;
      submitted = [];
      finished = [];
      answered = [];
    })
    else none

-- lima_sched_context_queue_task: the returned fence has a reference of its own.
unfoldable pub queue_task : Task → Pipe → Option (ℕ × Pipe)
queue_task t p = get t.fence p.store >>= λ s. some (
  t.fence,
  record p {
    store = s;
    in_flight = update p.in_flight t.context (p.in_flight t.context + 1);
    queue = p.queue ++ t ∷ [];
    run_pending = true;
    submitted = p.submitted ++ t ∷ [];
  },
)

abbrev pub signal_result : Task → Bool → ℕ → Fences → Fences
signal_result t failed now s =
    if failed then (signal_error t.fence (neg eio) now s).1 else (signal t.fence now s).1

abbrev pub count_guilty : Bool → ℕ → (ℕ → ℕ) → ℕ → ℕ
count_guilty failed c g = if failed then update g c (g c + 1) else g

-- A count of tasks in flight never falls below 0: `none` where it would.
unfoldable pub finish_task : Task → Bool → ℕ → Pipe → Option Pipe
finish_task t failed now p =
    if p.in_flight t.context == 0
    then none
    else (task_fini t (signal_result t failed now p.store) >>= λ s. some (record p {
      store = s;
      guilty = count_guilty failed t.context p.guilty;
      in_flight = update p.in_flight t.context (p.in_flight t.context - 1);
      finished = p.finished ++ (t, failed) ∷ [];
      answered = p.answered ++ (t.fence, s.status t.fence) ∷ [];
    }))

abbrev pub max_schedule_timeout : ℕ
max_schedule_timeout = 2 ^ 31 - 1

-- Wait for each dependency in turn; the first error ends it. The waits have no time limit in the code;
-- here they return.
unfoldable pub wait_deps : Waiting → ℕ → List ℕ → Fences → Result (Unit {0}) × Fences
wait_deps w k [] s = (ok tt, s)
wait_deps w k (f ∷ fs) s = elim (wait_timeout w k f false max_schedule_timeout s).0 [
  | neg e ↦ (err e, (wait_timeout w k f false max_schedule_timeout s).1)
  | nonneg n ↦ wait_deps w (k + 1) fs (wait_timeout w k f false max_schedule_timeout s).1
]

-- The check of the frame is made if no dependency failed.
unfoldable pub check_task : Config → Task → Fences → Result (Unit {0}) × Fences
unfolding wait_deps
check_task c t s = (
  elim (wait_deps c.waiting 0 t.deps s).0 [ err e ↦ err e | ok u ↦ c.task_validate t.frame ],
  (wait_deps c.waiting 0 t.deps s).1,
)

abbrev pub same_vm : Option ℕ → ℕ → Bool
same_vm none vm = false
same_vm (some v) vm = v == vm

-- Switch the MMUs if the address space changed, arm the timeout, and start the hardware.
unfoldable pub start_task : Config → Task → Pipe → Pipe
start_task c t p = record p {
  mmu = if same_vm p.current_vm t.vm then p.mmu else map (λ _. p.pd t.vm) p.mmu;
  current_vm = some t.vm;
  timeout_pending = if ltb 0 c.sched_timeout_ms then true else p.timeout_pending;
  running = some t;
}

-- The loop of `lima_sched_run_work` with the queue as it stands when the work runs. A task that
-- fails its check is finished with an error, and the next one is tried.
unfoldable pub run_loop : Config → ℕ → List Task → Pipe → Option Pipe
run_loop c now [] p = some (record p { queue = [] })
run_loop c now (t ∷ ts) p = elim p.current_task [
  | some _ ↦ some (record p { queue = t ∷ ts })
  | none ↦ elim (check_task c t p.store).0 [
    | ok u ↦ some (
        start_task c t
          (record p { store = (check_task c t p.store).1; queue = ts; current_task = some t }))
    | err e ↦
        finish_task t true now
          (record p { store = (check_task c t p.store).1; queue = ts; current_task = some t })
        >>= λ q. run_loop c now ts (record q { current_task = none })
  ]
]

unfoldable pub run_work : Config → ℕ → Pipe → Option Pipe
unfolding run_loop
run_work c now p = run_loop c now p.queue p

-- `task_error` resets the hardware, which has no part in the state of the pipe.
unfoldable pub done_work : ℕ → Pipe → Option Pipe
done_work now p = elim p.current_task [
  | none ↦ some p
  | some t ↦ finish_task t p.error now p >>= λ q.
      some (record q { current_task = none; error = false; run_pending = true })
]

unfoldable pub timeout_work : Pipe → Pipe
timeout_work p = elim p.current_task [
  | none ↦ p
  | some t ↦ record p { error = true; done_pending = true }
]

unfoldable pub pipe_task_done : Config → Pipe → Pipe
pipe_task_done c p = record p {
  timeout_pending = if ltb 0 c.sched_timeout_ms then false else p.timeout_pending;
  done_pending = true;
}
