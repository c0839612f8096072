-- ===== src/Sched/Engine.antt =====
-- The engine of a pipe as a machine: what callers, interrupts and the workqueue can do to it.
pub mod Core
pub mod Invariant
pub mod Submits
pub mod History
pub mod Grows
pub mod Fifo
pub mod Watch
pub mod Drain
pub mod Answers
pub mod Released
pub mod Balance
use lima_backport_sprd7730se.Prelude.{
  ℕ, ◌≡◌, ◌≤◌, Bool, true, false, ◌||◌, Option, none, some, List, [], ◌∷◌, ◌++◌, if◌then◌else◌,
  count, option_list,
}
use lima_backport_sprd7730se.Fence.{Fences, ◌>>=◌, create}
use lima_backport_sprd7730se.Fence.Refs.{get_all, Live}
use lima_backport_sprd7730se.Sched.Task.{Task, owned}
use lima_backport_sprd7730se.Sched.Pipe.{
  Config, Pipe, queue_task, run_work, done_work, timeout_work, pipe_task_done,
}

-- The references that a submit takes on objects that exist; the fence is new.
abbrev pub borrowed : Task → List ℕ
borrowed t = t.deps ++ (t.bos ++ (option_list t.ctx ++ t.vm ∷ []))

-- What lima_gem_submit does to the pipe: take the references, create the fence, queue the task. The
-- reference that comes with the returned fence stays with the caller.
unfoldable pub submit : Task → Pipe → Option Pipe
submit t p = get_all (borrowed t) p.store >>= λ s.
    queue_task t (record p { store = (create (some t.fence) s).1 }) >>= λ r. some r.1

-- `interrupts failed` is an interrupt that ends the task, with or without an error, `faults` an error
-- interrupt of an MMU. `others` stands for what the rest of the kernel does to the counted objects and to the
-- directories of the address spaces.
pub data Event : Type 0 where
  submits : Task → Event
  runs : ℕ → Event
  completes : ℕ → Event
  times_out : Event
  interrupts : Bool → Event
  faults : Event
  others : Fences → (ℕ → ℕ) → Event

-- A work runs if it is queued, and leaves the queue.
unfoldable pub step : Config → Event → Pipe → Option Pipe
unfolding submit
step c (submits t) p = submit t p
step c (runs now) p =
    if p.run_pending then run_work c now (record p { run_pending = false }) else some p
step c (completes now) p =
    if p.done_pending then done_work now (record p { done_pending = false }) else some p
step c times_out p =
    if p.timeout_pending then some (timeout_work (record p { timeout_pending = false })) else some p
step c (interrupts failed) p = some (pipe_task_done c (record p { error = failed || p.error }))
step c faults p = some (pipe_task_done c (record p { error = true }))
step c (others s pd) p = some (record p { store = s; pd = pd })

unfoldable pub steps : Config → List Event → Pipe → Option Pipe
unfolding step
steps c [] p = some p
steps c (e ∷ es) p = step c e p >>= steps c es

-- The tasks that are not finished, in order.
abbrev pub pending : Pipe → List Task
pending p = option_list p.current_task ++ p.queue

abbrev pub owned_all : List Task → List ℕ
owned_all [] = []
owned_all (t ∷ ts) = owned t ++ owned_all ts

-- The space noted by the pipe has the same directory.
abbrev pub SameDirectory : Option ℕ → (ℕ → ℕ) → (ℕ → ℕ) → Type 0
SameDirectory none pd pd' = Unit
SameDirectory (some v) pd pd' = pd' v ≡ pd v

-- What the callers and the rest of the kernel keep to: a submit names objects that are allocated and
-- a fence that is not; nobody drops a reference that a pending task owns; and no space with another
-- directory appears at the address that the pipe has noted as the current one, which the driver itself
-- does not ensure once the tasks of that space are finished.
abbrev pub Allowed : Event → Pipe → Type 0
Allowed (submits t) p = Live (borrowed t) p.store × (p.store.refcount t.fence ≡ 0)
Allowed (runs now) p = Unit
Allowed (completes now) p = Unit
Allowed times_out p = Unit
Allowed (interrupts failed) p = Unit
Allowed faults p = Unit
Allowed (others s pd) p =
    ((a : ℕ) → count a (owned_all (pending p)) ≤ s.refcount a) × SameDirectory p.current_vm p.pd pd
