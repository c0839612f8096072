-- ===== src/Sched/Engine/Balance.antt =====
-- What the works and interrupts of a pipe do to the counts: just the references of the tasks that end.
use lima_backport_sprd7730se.Prelude.{
  ℕ, ◌+◌, ◌≡◌, refl, sym, ap, Bool, true, false, Bool-cases, inl, inr, Option, none, some, some_inj,
  List, [], ◌∷◌, ◌==◌, arith, count, count-append, option_list,
}
use lima_backport_sprd7730se.Errno.{Result-cases}
use lima_backport_sprd7730se.Fence.{Fences, put}
use lima_backport_sprd7730se.Fence.Refs.{put_all}
use lima_backport_sprd7730se.Sched.Task.{Task, owned, task_fini}
use lima_backport_sprd7730se.Sched.Pipe.{
  Config, Pipe, finish_task, signal_result, run_loop, run_work, done_work, timeout_work,
  pipe_task_done, check_task, start_task,
}
use lima_backport_sprd7730se.Sched.Engine.{Event, step, pending, owned_all}
use lima_backport_sprd7730se.Sched.Engine.Core.{count-owned, signal_result-refcount}
use lima_backport_sprd7730se.Sched.Engine.Invariant.{with_tasks, check_task-refcount}
use lima_backport_sprd7730se.Sched.Engine.Grows.{>>=-eq-some}

put-count :
    (o : Option ℕ) (s t : Fences) (a : ℕ)
    → put o s ≡ some t
    → t.refcount a + count a (option_list o) ≡ s.refcount a
unfolding put
put-count none s t a e = rw (← some_inj e) (omega arith)
put-count (some f) s t a e = elim (Bool-cases (s.refcount f == 0)) [
  | inl z ↦ let k = rw (z) at e in cc
  | inr z ↦ let k = some_inj (rw (z) at e) in rw (← k) (ground (arith, z))
]

put_all-count :
    (fs : List ℕ) (s t : Fences) (a : ℕ)
    → put_all fs s ≡ some t
    → t.refcount a + count a fs ≡ s.refcount a
unfolding put_all
put_all-count [] s t a e = rw (← some_inj e) (omega arith)
put_all-count (f ∷ fs) s t a e =
    let (u, k, l) = >>=-eq-some (put (some f) s) (put_all fs) t e in
    omega (arith, put-count (some f) s u a k, put_all-count fs u t a l)

task_fini-count :
    (x : Task) (s t : Fences) (a : ℕ)
    → task_fini x s ≡ some t
    → t.refcount a + count a (owned x) ≡ s.refcount a
unfolding task_fini
task_fini-count x s t a e =
    let (s1, k1, e1) = >>=-eq-some (put_all x.deps s) _ t e in
    let (s2, k2, e2) = >>=-eq-some (put_all x.bos s1) _ t e1 in
    let (s3, k3, e3) = >>=-eq-some (put x.ctx s2) _ t e2 in
    let (s4, k4, e4) = >>=-eq-some (put (some x.vm) s3) _ t e3 in
    omega (
      arith,
      put_all-count x.deps s s1 a k1,
      put_all-count x.bos s1 s2 a k2,
      put-count x.ctx s2 s3 a k3,
      put-count (some x.vm) s3 s4 a k4,
      put-count (some x.fence) s4 t a e4,
      count-owned a x,
    )

-- A task that ends gives back its references; the queue and the current task are the caller's.
finish_task-count :
    (x : Task) (failed : Bool) (now : ℕ) (p q : Pipe) (a : ℕ)
    → finish_task x failed now p ≡ some q
    → (q.store.refcount a + count a (owned x) ≡ p.store.refcount a) × (q.queue ≡ p.queue)
unfolding finish_task
finish_task-count x failed now p q a e = elim (Bool-cases (p.in_flight x.context == 0)) [
  | inl z ↦ let k = rw (z) at e in cc
  | inr z ↦
      let (s, k, l) =
        >>=-eq-some (task_fini x (signal_result x failed now p.store)) _ q (rw (z) at e) in
      let keep = ap (λ (r : ℕ → ℕ). r a) (signal_result-refcount x failed now p.store) in
      (
        rw (← some_inj l)
            (omega (arith, task_fini-count x (signal_result x failed now p.store) s a k, keep)),
        ap (λ (r : Pipe). r.queue) (sym (some_inj l)),
      )
]

-- The counts fall by the references of the tasks that are no longer pending.
abbrev pub Balanced : ℕ → Pipe → Pipe → Type 0
Balanced a p q =
    q.store.refcount a + count a (owned_all (pending p))
    ≡ p.store.refcount a + count a (owned_all (pending q))

idle-Balanced :
    (c : Config) (now : ℕ) (ts : List Task) (p q : Pipe) (a : ℕ)
    → run_loop c now ts (record p { current_task = none }) ≡ some q
    → q.store.refcount a + count a (owned_all ts)
      ≡ p.store.refcount a + count a (owned_all (pending q))
unfolding run_loop start_task
idle-Balanced c now [] p q a e = rw (← some_inj e) refl
idle-Balanced c now (t ∷ ts) p q a e =
    let keep = check_task-refcount c t p.store a in
    elim (Result-cases (check_task c t p.store).0) [
      | inl (u, k) ↦ let e' = some_inj (rw (k, run_loop) at e) in rw (← e') (omega (arith, keep))
      | inr (x, k) ↦
          let begun : Pipe = record p {
            store = (check_task c t p.store).1;
            queue = ts;
            current_task = some t;
          } in
          let (q1, e1, e2) =
            >>=-eq-some (finish_task t true now begun) _ q (rw (k, run_loop) at e) in
          let (gone, same) = finish_task-count t true now begun q1 a e1 in
          let rest = idle-Balanced c now ts q1 q a e2 in
          omega (arith, keep, gone, rest, count-append a (owned t) (owned_all ts))
    ]

run_loop-Balanced :
    (c : Config) (now : ℕ) (p : Pipe) (cur : Option Task) (queue : List Task) (q : Pipe) (a : ℕ)
    → run_loop c now queue (record (with_tasks p cur queue) { run_pending = false }) ≡ some q
    → Balanced a (with_tasks p cur queue) q
unfolding run_loop
run_loop-Balanced c now p none queue q a e =
    idle-Balanced c now queue (record (with_tasks p none queue) { run_pending = false }) q a e
run_loop-Balanced c now p (some t) [] q a e = rw (← some_inj e) refl
run_loop-Balanced c now p (some t) (u ∷ us) q a e = rw (← some_inj e) refl

done_work-Balanced :
    (now : ℕ) (p : Pipe) (cur : Option Task) (queue : List Task) (q : Pipe) (a : ℕ)
    → done_work now (record (with_tasks p cur queue) { done_pending = false }) ≡ some q
    → Balanced a (with_tasks p cur queue) q
unfolding done_work
done_work-Balanced now p none queue q a e = rw (← some_inj e) refl
done_work-Balanced now p (some t) queue q a e =
    let begun : Pipe = record (with_tasks p (some t) queue) { done_pending = false } in
    let (q1, e1, e2) = >>=-eq-some (finish_task t p.error now begun) _ q e in
    let (gone, same) = finish_task-count t p.error now begun q1 a e1 in
    rw (← some_inj e2, same) (omega (arith, gone, count-append a (owned t) (owned_all queue)))

timeout_work-Balanced :
    (p : Pipe) (cur : Option Task) (queue : List Task) (a : ℕ)
    → Balanced a
        (with_tasks p cur queue)
        (timeout_work (record (with_tasks p cur queue) { timeout_pending = false }))
unfolding timeout_work
timeout_work-Balanced p none queue a = refl
timeout_work-Balanced p (some t) queue a = refl

-- A work of the pipe, an interrupt or a fault, as an event.
pub data Work : Type 0 where
  runs completes : ℕ → Work
  times_out faults : Work
  interrupts : Bool → Work

abbrev pub event_of : Work → Event
event_of (runs now) = Event.runs now
event_of (completes now) = Event.completes now
event_of times_out = Event.times_out
event_of faults = Event.faults
event_of (interrupts failed) = Event.interrupts failed

pub step-Balanced :
    (c : Config) (w : Work) (p q : Pipe) (a : ℕ) → step c (event_of w) p ≡ some q → Balanced a p q
unfolding step run_work pipe_task_done
step-Balanced c (runs now) p q a e = elim (Bool-cases p.run_pending) [
  | inl r ↦ run_loop-Balanced c now p p.current_task p.queue q a (rw (r) at e)
  | inr r ↦ let e' = some_inj (rw (r) at e) in rw (← e') refl
]
step-Balanced c (completes now) p q a e = elim (Bool-cases p.done_pending) [
  | inl r ↦ done_work-Balanced now p p.current_task p.queue q a (rw (r) at e)
  | inr r ↦ let e' = some_inj (rw (r) at e) in rw (← e') refl
]
step-Balanced c times_out p q a e = elim (Bool-cases p.timeout_pending) [
  | inl r ↦
      let e' = some_inj (rw (r) at e) in
      rw (← e') (timeout_work-Balanced p p.current_task p.queue a)
  | inr r ↦ let e' = some_inj (rw (r) at e) in rw (← e') refl
]
step-Balanced c faults p q a e = rw (← some_inj e) refl
step-Balanced c (interrupts failed) p q a e = rw (← some_inj e) refl
