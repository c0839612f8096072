-- ===== src/Examples/Engine.antt =====
-- One task from submit to completion on a pipe with one MMU.
use lima_backport_sprd7730se.Prelude.{
  Option, ◌≡◌, refl, true, false, some, none, map, ◌++◌, List, [], ◌∷◌, ◌==◌, if◌then◌else◌, arith,
}
use lima_backport_sprd7730se.Errno.{ok, nonneg}
use lima_backport_sprd7730se.Fence.{Fences, create, get, put, signal, unsignaled, ◌>>=◌}
use lima_backport_sprd7730se.Sched.Task.{Task, task_fini}
use lima_backport_sprd7730se.Sched.Fini.{Rounds, context_fini, context_fini-drain}
use lima_backport_sprd7730se.Sched.Pipe.{
  Config, Pipe, pipe_init, queue_task, run_work, check_task, pipe_task_done, done_work, start_task,
  finish_task,
}
use lima_backport_sprd7730se.Fence.Refs.{get_all, put_all}
use lima_backport_sprd7730se.Sched.Engine.{
  Event, others, submits, runs, completes, interrupts, steps, step,
}
use lima_backport_sprd7730se.Sched.Engine.Invariant.{Inv}
use lima_backport_sprd7730se.Sched.Engine.History.{history-Inv, AllowedAll}
use lima_backport_sprd7730se.Sched.Engine.Core.{task_of, Answered}
use lima_backport_sprd7730se.Sched.Engine.Drain.{hangs, rounds}
use lima_backport_sprd7730se.Sched.Engine.Answers.{history-answers}
use lima_backport_sprd7730se.Sched.Engine.Released.{history-released}

-- Every object but the one at 9 has a reference.
abbrev store : Fences
store = record {
  refcount = λ a. if a == 9 then 0 else 1;
  status = λ _. unsignaled;
  timestamp_ns = λ _. 0;
}

abbrev config : Config
config = record {
  sched_timeout_ms = 500;
  task_validate = λ _. ok tt;
  waiting = λ k intr t f st. (nonneg t, st);
}

abbrev task : Task
task = record {
  context = 0;
  ctx = some 1;
  vm = 2;
  frame = λ _. 0;
  deps = [];
  bos = 3 ∷ 4 ∷ [];
  fence = 9;
}

abbrev events : List Event
events = submits task ∷ runs 0 ∷ interrupts false ∷ completes 1 ∷ []

history-Inv_example :
    (q : Pipe) × ((pipe_init true store (0 ∷ []) >>= steps config events) ≡ some q) × Inv q
unfolding pipe_init AllowedAll step get_all get queue_task create run_work check_task pipe_task_done
    done_work start_task finish_task task_fini put_all put signal
history-Inv_example =
    history-Inv config events store (0 ∷ [])
      (((λ a h. ground (arith, h)), refl), (tt, (tt, (tt, tt))))

-- The hardware never answers this task.
history-answers_example :
    (q : Pipe) × ((pipe_init true store (0 ∷ [])
        >>= steps config (submits task ∷ [] ++ rounds ((1, hangs, 2) ∷ [])))
      ≡ some q)
    × (q.current_task ≡ none)
    × (q.queue ≡ [])
    × (map task_of q.finished ≡ task ∷ [])
    × Answered q.finished q.answered
unfolding pipe_init AllowedAll step get_all get queue_task create run_work
history-answers_example =
    history-answers config (submits task ∷ []) ((1, hangs, 2) ∷ []) store (0 ∷ []) (omega arith)
      (omega arith) (((λ a h. ground (arith, h)), refl), tt)

abbrev idle_pipe : Pipe
idle_pipe = record {
  store = store;
  queue = [];
  current_task = none;
  current_vm = none;
  mmu = 0 ∷ [];
  pd = λ _. 0;
  running = none;
  error = false;
  in_flight = λ _. 0;
  guilty = λ _. 0;
  run_pending = false;
  done_pending = false;
  timeout_pending = false;
  submitted = [];
  finished = [];
  answered = [];
}

-- The tasks of this context are not done in time, but soon after.
context_fini-drain_example :
    context_fini 4
      (record { in_flight = λ _. 2; late = λ k. k == 2 })
      (record { in_flight = λ k. if k == 1 then 0 else 2; late = λ k. k == 3 })
      0
      idle_pipe
    ≡ some (record idle_pipe { error = true; done_pending = true }, false)
context_fini-drain_example =
    context_fini-drain 4 2 3 0 (record { in_flight = λ _. 2; late = λ k. k == 2 })
      (record { in_flight = λ k. if k == 1 then 0 else 2; late = λ k. k == 3 }) idle_pipe
      (omega arith) (omega arith) (refl, (refl, refl)) (refl, (refl, (refl, refl)))

-- After the task is done, the file drops the last reference of the context.
abbrev closing : List Event
closing =
    submits task
    ∷ runs 0
    ∷ interrupts false
    ∷ completes 1
    ∷ others (record store { refcount = λ a. if a == 1 then 0 else 1 })
        (λ a. if a == 2 then 0 else 4096)
    ∷ []

abbrev final : Option Pipe → Pipe
final none = idle_pipe
final (some p) = p

abbrev closed : Pipe
closed = final (pipe_init true store (0 ∷ []) >>= steps config closing)

abbrev still : Rounds
still = record { in_flight = λ _. 0; late = λ _. false }

history-released_example :
    context_fini 1 still still (closed.in_flight 0) closed ≡ some (closed, false)
unfolding pipe_init AllowedAll step steps get_all get queue_task create run_work check_task
    pipe_task_done done_work start_task finish_task task_fini put_all put signal
history-released_example =
    history-released config closing store (0 ∷ []) closed 1 0 1 still still
      (((λ a h. ground (arith, h)), refl), (tt, (tt, (tt, (((λ a. omega arith), refl), tt))))) refl
      ((λ e. refl), tt) refl (omega arith) refl refl
