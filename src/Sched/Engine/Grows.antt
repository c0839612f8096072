-- ===== src/Sched/Engine/Grows.antt =====
-- What each event adds to the history of a pipe: the tasks submitted and those finished.
use lima_backport_sprd7730se.Prelude.{
  some_inj, ℕ, ◌≡◌, refl, ap, sym, ◌∙◌, Bool, true, false, Option, none, some, List, [], ◌∷◌, ◌++◌,
  arith, inl, inr, Bool-cases,
}
use mathlib.Core.List.{append_assoc, append-nil}
use lima_backport_sprd7730se.Errno.{Result-cases}
use lima_backport_sprd7730se.Fence.{◌>>=◌}
use lima_backport_sprd7730se.Sched.Task.{Task}
use lima_backport_sprd7730se.Sched.Pipe.{
  Config, Pipe, queue_task, finish_task, run_loop, run_work, done_work, timeout_work,
  pipe_task_done, start_task, check_task,
}
use lima_backport_sprd7730se.Sched.Engine.Invariant.{Awake}
use lima_backport_sprd7730se.Sched.Engine.{
  Event, submits, runs, completes, times_out, interrupts, faults, others, submit, step,
}

pub >>=-eq-some {ℓ κ} :
    {A : Type ℓ} {B : Type κ} (m : Option A) (f : A → Option B) (b : B)
    → (m >>= f) ≡ some b
    → (a : A) × (m ≡ some a) × (f a ≡ some b)
>>=-eq-some none f b h = cc
>>=-eq-some (some a) f b h = (a, refl, h)

-- `q` follows `p`: so many more tasks were submitted and finished.
pub record Grows (p q : Pipe) (ts : List Task) (done : List (Task × Bool)) : Type 0 where
  pub submitted : q.submitted ≡ p.submitted ++ ts
  pub finished : q.finished ≡ p.finished ++ done

finish_task-Grows :
    (t : Task) (failed : Bool) (now : ℕ) (p q : Pipe)
    → finish_task t failed now p ≡ some q
    → (q.submitted ≡ p.submitted)
      × (q.finished ≡ p.finished ++ (t, failed) ∷ [])
      × (q.queue ≡ p.queue)
unfolding finish_task
finish_task-Grows t failed now p q h = ground arith

-- A current task, or an empty queue.
abbrev pub Settled : Option Task → List Task → Type 0
Settled (some t) queue = Unit
Settled none queue = queue ≡ []

Awake-Settled :
    (cur : Option Task) (queue : List Task) (b : Bool)
    → b ≡ false
    → Awake cur queue b
    → Settled cur queue
Awake-Settled (some t) queue b e a = tt
Awake-Settled none [] b e a = refl
Awake-Settled none (t ∷ ts) b e a = cc

Settled-nil : (cur : Option Task) → Settled cur []
Settled-nil none = refl
Settled-nil (some t) = tt

pub record Ran (p q : Pipe) : Type 0 where
  pub submitted : q.submitted ≡ p.submitted
  pub fresh : List (Task × Bool)
  pub finished : q.finished ≡ p.finished ++ fresh
  pub settled : Settled q.current_task q.queue

run_loop-Ran :
    (c : Config) (now : ℕ) (ts : List Task) (cur : Option Task) (p q : Pipe)
    → run_loop c now ts (record p { current_task = cur }) ≡ some q
    → Ran p q
unfolding run_loop start_task
run_loop-Ran c now [] cur p q h = rw (sym (some_inj h)) (record {
  submitted = refl;
  fresh = [];
  finished = sym (append-nil _);
  settled = Settled-nil cur;
})
run_loop-Ran c now (t ∷ ts) (some u) p q h =
    rw (sym (some_inj h))
      (record { submitted = refl; fresh = []; finished = sym (append-nil _); settled = tt })
run_loop-Ran c now (t ∷ ts) none p q h = elim (Result-cases (check_task c t p.store).0) [
  | inl (u, e) ↦
      let h' = rw (e, run_loop) at h in
      rw (sym (some_inj h'))
        (record { submitted = refl; fresh = []; finished = sym (append-nil _); settled = tt })
  | inr (x, e) ↦
      let h' = rw (e, run_loop) at h in
      let begun = record p {
        store = (check_task c t p.store).1;
        queue = ts;
        current_task = some t;
      } in
      let (p1, f, g) =
        >>=-eq-some (finish_task t true now begun)
          (λ r. run_loop c now ts (record r { current_task = none })) q h' in
      let k = finish_task-Grows t true now begun p1 f in
      let r = run_loop-Ran c now ts none p1 q g in
      record {
        submitted = r.submitted ∙ k.0;
        fresh = (t, true) ∷ r.fresh;
        finished =
            r.finished
            ∙ ap (λ (l : List (Task × Bool)). l ++ r.fresh) k.1
            ∙ append_assoc p.finished ((t, true) ∷ []) r.fresh;
        settled = r.settled;
      }
]

-- The tasks that an event submits.
abbrev pub submitted_by : Event → List Task
submitted_by (submits t) = t ∷ []
submitted_by (runs now) = []
submitted_by (completes now) = []
submitted_by times_out = []
submitted_by (interrupts failed) = []
submitted_by faults = []
submitted_by (others s pd) = []

-- The tasks that a history submits.
abbrev pub submitted_in : List Event → List Task
submitted_in [] = []
submitted_in (e ∷ es) = submitted_by e ++ submitted_in es

same-Grows : (p q : Pipe) → q.submitted ≡ p.submitted → q.finished ≡ p.finished → Grows p q [] []
same-Grows p q h k = record {
  submitted = h ∙ sym (append-nil _);
  finished = k ∙ sym (append-nil _);
}

submit-history :
    (t : Task) (p q : Pipe)
    → submit t p ≡ some q
    → (q.submitted ≡ p.submitted ++ t ∷ []) × (q.finished ≡ p.finished)
unfolding submit queue_task
submit-history t p q h = ground arith

-- What the done work finishes.
abbrev pub ended : Option Task → Bool → List (Task × Bool)
ended none failed = []
ended (some t) failed = (t, failed) ∷ []

done_work-Grows :
    (now : ℕ) (cur : Option Task) (p q : Pipe)
    → done_work now (record p { current_task = cur; done_pending = false }) ≡ some q
    → Grows p q [] (ended cur p.error)
unfolding done_work
done_work-Grows now none p q h =
    rw (sym (some_inj h))
      (same-Grows p (record p { current_task = none; done_pending = false }) refl refl)
done_work-Grows now (some t) p q h =
    let (p1, f, g) =
      >>=-eq-some
        (finish_task t p.error now (record p { current_task = some t; done_pending = false }))
        (λ r. some (record r { current_task = none; error = false; run_pending = true })) q h in
    let k =
      finish_task-Grows t p.error now (record p { current_task = some t; done_pending = false }) p1
        f in
    rw (sym (some_inj g)) (record { submitted = k.0 ∙ sym (append-nil _); finished = k.1 })

-- The run work leaves a task running or the queue empty, if it has to look at a queue that waits.
pub runs-Ran :
    (c : Config) (now : ℕ) (p q : Pipe)
    → Awake p.current_task p.queue p.run_pending
    → step c (runs now) p ≡ some q
    → Ran p q
unfolding step run_work
runs-Ran c now p q a h = elim (Bool-cases p.run_pending) [
  | inl e ↦
      let r =
        run_loop-Ran c now p.queue p.current_task (record p { run_pending = false }) q
          (simp (e) at h) in
      record {
        submitted = r.submitted;
        fresh = r.fresh;
        finished = r.finished;
        settled = r.settled;
      }
  | inr e ↦
      let same : p ≡ q = some_inj (simp (e) at h) in
      rw (sym same) (record {
        submitted = refl;
        fresh = [];
        finished = sym (append-nil _);
        settled = Awake-Settled p.current_task p.queue p.run_pending e a;
      })
]

pub completes-Grows :
    (c : Config) (now : ℕ) (p q : Pipe)
    → p.done_pending ≡ true
    → step c (completes now) p ≡ some q
    → Grows p q [] (ended p.current_task p.error)
unfolding step
completes-Grows c now p q e h = done_work-Grows now p.current_task p q (simp (e) at h)

times_out-history :
    (c : Config) (p q : Pipe)
    → step c times_out p ≡ some q
    → (q.submitted ≡ p.submitted) × (q.finished ≡ p.finished)
unfolding step timeout_work
times_out-history c p q h = ground arith

-- Every event adds the tasks that it submits, and may finish some.
pub step-Grows :
    (c : Config) (e : Event) (p q : Pipe)
    → step c e p ≡ some q
    → (done : List (Task × Bool)) × Grows p q (submitted_by e) done
unfolding step run_work timeout_work pipe_task_done
step-Grows c (submits t) p q h =
    let k = submit-history t p q h in
    ([], record { submitted = k.0; finished = k.1 ∙ sym (append-nil _) })
step-Grows c (runs now) p q h = elim (Bool-cases p.run_pending) [
  | inl e ↦
      let r =
        run_loop-Ran c now p.queue p.current_task (record p { run_pending = false }) q
          (simp (e) at h) in
      (r.fresh, record { submitted = r.submitted ∙ sym (append-nil _); finished = r.finished })
  | inr e ↦ ([], rw (sym (some_inj (simp (e) at h))) (same-Grows p p refl refl))
]
step-Grows c (completes now) p q h = elim (Bool-cases p.done_pending) [
  | inl e ↦ (ended p.current_task p.error, done_work-Grows now p.current_task p q (simp (e) at h))
  | inr e ↦ ([], rw (sym (some_inj (simp (e) at h))) (same-Grows p p refl refl))
]
step-Grows c times_out p q h = let k = times_out-history c p q h in ([], same-Grows p q k.0 k.1)
step-Grows c (interrupts failed) p q h = ([], rw (sym (some_inj h)) (same-Grows p _ refl refl))
step-Grows c faults p q h = ([], rw (sym (some_inj h)) (same-Grows p _ refl refl))
step-Grows c (others s pd) p q h = ([], rw (sym (some_inj h)) (same-Grows p _ refl refl))
