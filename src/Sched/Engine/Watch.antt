-- ===== src/Sched/Engine/Watch.antt =====
-- Somebody watches a task that runs: its timeout is armed, or its done work is queued.
use lima_backport_sprd7730se.Prelude.{
  some_inj, ℕ, ◌≡◌, ◌<◌, refl, sym, Bool, true, false, ◌||◌, Option, none, some, List, [], ◌∷◌,
  lt→ltb, arith, inl, inr, Bool-cases,
}
use lima_backport_sprd7730se.Errno.{Result-cases}
use lima_backport_sprd7730se.Sched.Task.{Task}
use lima_backport_sprd7730se.Sched.Pipe.{
  Config, Pipe, queue_task, finish_task, run_loop, run_work, done_work, timeout_work,
  pipe_task_done, start_task, check_task,
}
use lima_backport_sprd7730se.Sched.Engine.{
  Event, submits, runs, completes, times_out, interrupts, faults, others, submit, step,
}
use lima_backport_sprd7730se.Sched.Engine.Grows.{>>=-eq-some}

abbrev pub Watched : Option Task → Bool → Bool → Type 0
Watched none timeout done = Unit
Watched (some t) timeout done = (timeout || done) ≡ true

abbrev pub IsWatched : Pipe → Type 0
IsWatched p = Watched p.current_task p.timeout_pending p.done_pending

Watched-done : (cur : Option Task) (timeout : Bool) → Watched cur timeout true
Watched-done none timeout = tt
Watched-done (some t) true = refl
Watched-done (some t) false = refl

run_loop-Watched :
    (c : Config) (now : ℕ) (ts : List Task) (cur : Option Task) (p q : Pipe)
    → 0 < c.sched_timeout_ms
    → Watched cur p.timeout_pending p.done_pending
    → run_loop c now ts (record p { current_task = cur }) ≡ some q
    → IsWatched q
unfolding run_loop start_task
run_loop-Watched c now [] cur p q l w h = rw (sym (some_inj h)) w
run_loop-Watched c now (t ∷ ts) (some u) p q l w h = rw (sym (some_inj h)) w
run_loop-Watched c now (t ∷ ts) none p q l w h = elim (Result-cases (check_task c t p.store).0) [
  | inl (u, e) ↦
      let h' = rw (e, run_loop) at h in rw (sym (some_inj h'), lt→ltb 0 c.sched_timeout_ms l) refl
  | inr (x, e) ↦
      let h' = rw (e, run_loop) at h in
      let begun = record p {
        store = (check_task c t p.store).1;
        queue = ts;
        current_task = some t;
      } in
      let (p1, f, g) =
        >>=-eq-some (finish_task t true now begun)
          (λ r. run_loop c now ts (record r { current_task = none })) q h' in
      run_loop-Watched c now ts none p1 q l tt g
]

submit-Watched :
    (t : Task) (p q : Pipe)
    → submit t p ≡ some q
    → (q.current_task ≡ p.current_task)
      × (q.timeout_pending ≡ p.timeout_pending)
      × (q.done_pending ≡ p.done_pending)
unfolding submit queue_task
submit-Watched t p q h = ground arith

done_work-Watched :
    (now : ℕ) (cur : Option Task) (p q : Pipe)
    → done_work now (record p { current_task = cur; done_pending = false }) ≡ some q
    → q.current_task ≡ none
unfolding done_work
done_work-Watched now none p q h = rw (sym (some_inj h)) refl
done_work-Watched now (some t) p q h =
    let (p1, f, g) =
      >>=-eq-some
        (finish_task t p.error now (record p { current_task = some t; done_pending = false }))
        (λ r. some (record r { current_task = none; error = false; run_pending = true })) q h in
    rw (sym (some_inj g)) refl

timeout_work-Watched :
    (cur : Option Task) (p : Pipe)
    → IsWatched (timeout_work (record p { current_task = cur; timeout_pending = false }))
unfolding timeout_work
timeout_work-Watched none p = tt
timeout_work-Watched (some t) p = refl

pub step-IsWatched :
    (c : Config) (e : Event) (p q : Pipe)
    → 0 < c.sched_timeout_ms
    → IsWatched p
    → step c e p ≡ some q
    → IsWatched q
unfolding step run_work pipe_task_done
step-IsWatched c (submits t) p q l w h = let k = submit-Watched t p q h in rw (k.0, k.1, k.2) w
step-IsWatched c (runs now) p q l w h = elim (Bool-cases p.run_pending) [
  | inl e ↦
      run_loop-Watched c now p.queue p.current_task (record p { run_pending = false }) q l w
        (simp (e) at h)
  | inr e ↦ rw (sym (some_inj (simp (e) at h))) w
]
step-IsWatched c (completes now) p q l w h = elim (Bool-cases p.done_pending) [
  | inl e ↦ rw (done_work-Watched now p.current_task p q (simp (e) at h)) tt
  | inr e ↦ rw (sym (some_inj (simp (e) at h))) w
]
step-IsWatched c times_out p q l w h = elim (Bool-cases p.timeout_pending) [
  | inl e ↦ rw (sym (some_inj (simp (e) at h))) (timeout_work-Watched p.current_task p)
  | inr e ↦ rw (sym (some_inj (simp (e) at h))) w
]
step-IsWatched c (interrupts failed) p q l w h =
    rw (sym (some_inj h)) (Watched-done p.current_task _)
step-IsWatched c faults p q l w h = rw (sym (some_inj h)) (Watched-done p.current_task _)
step-IsWatched c (others s pd) p q l w h = rw (sym (some_inj h)) w
