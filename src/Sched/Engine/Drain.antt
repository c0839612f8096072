-- ===== src/Sched/Engine/Drain.antt =====
-- The workqueue drains a pipe: every task is answered, also when the hardware never answers.
use lima_backport_sprd7730se.Prelude.{
  some_inj, ℕ, suc, ◌+◌, ◌-◌, ◌≤◌, ◌<◌, ◌≡◌, refl, ap, sym, ◌∙◌, ◌⊎◌, inl, inr, Bool, true, false,
  Option-cases, Option, none, some, List, [], ◌∷◌, ◌++◌, map, length, length-append, Bool-cases,
  option_list, arith,
}
use mathlib.Core.List.{append-nil}
use mathlib.Core.Path.{subst}
use lima_backport_sprd7730se.Fence.{◌>>=◌}
use lima_backport_sprd7730se.Sched.Task.{Task}
use lima_backport_sprd7730se.Sched.Pipe.{Config, Pipe, pipe_task_done, timeout_work}
use lima_backport_sprd7730se.Sched.Engine.{
  Event, runs, completes, times_out, interrupts, step, steps, pending, Allowed,
}
use lima_backport_sprd7730se.Sched.Engine.Core.{task_of}
use lima_backport_sprd7730se.Sched.Engine.Invariant.{Inv}
use lima_backport_sprd7730se.Sched.Engine.History.{step-Inv}
use lima_backport_sprd7730se.Sched.Engine.Grows.{
  Grows, Settled, ended, step-Grows, runs-Ran, completes-Grows,
}
use lima_backport_sprd7730se.Sched.Engine.Watch.{Watched, IsWatched, step-IsWatched}

-- How the hardware answers a task: with an interrupt, or not at all, so that the timeout ends it.
pub data Answer : Type 0 where
  irq : Bool → Answer
  hangs : Answer

abbrev pub answer_event : Answer → Event
answer_event (irq failed) = interrupts failed
answer_event hangs = times_out

-- The run work, the answer of the hardware and the done work, at their times.
abbrev pub round : ℕ × Answer × ℕ → List Event
round (n, a, m) = runs n ∷ answer_event a ∷ completes m ∷ []

abbrev pub rounds : List (ℕ × Answer × ℕ) → List Event
rounds [] = []
rounds (r ∷ rs) = round r ++ rounds rs

-- What is known of a pipe between two events.
pub record Ready (p : Pipe) : Type 0 where
  pub inv : Inv p
  pub watched : IsWatched p

pub step-Ready :
    (c : Config) (e : Event) (p : Pipe)
    → 0 < c.sched_timeout_ms
    → Allowed e p
    → Ready p
    → (q : Pipe) × (step c e p ≡ some q) × Ready q
step-Ready c e p l a r =
    let (q, e', v) = step-Inv c e p a r.inv in
    (q, e', record { inv = v; watched = step-IsWatched c e p q l r.watched e' })

length-task_of : (l : List (Task × Bool)) → length (map task_of l) ≡ length l
length-task_of [] = refl
length-task_of (x ∷ l) = ap suc (length-task_of l)

-- The tasks submitted are those finished and those pending.
pub lengths : (p : Pipe) → Inv p → length p.submitted ≡ length p.finished + length (pending p)
lengths p v =
    ap (λ (l : List Task). length l) v.core.order
    ∙ omega (arith, length-append (map task_of p.finished) (pending p), length-task_of p.finished)

-- An answer leaves the tasks where they are, and the done work is queued if a task runs.
record Answered (p q : Pipe) : Type 0 where
  submitted : q.submitted ≡ p.submitted
  finished : q.finished ≡ p.finished
  current : q.current_task ≡ p.current_task
  queue : q.queue ≡ p.queue
  due : (q.current_task ≡ none) ⊎ (q.done_pending ≡ true)

timeout_work-Answered :
    (cur : Option Task) (p : Pipe)
    → Answered
        (record p { current_task = cur })
        (timeout_work (record p { current_task = cur; timeout_pending = false }))
unfolding timeout_work
timeout_work-Answered none p = record {
  submitted = refl;
  finished = refl;
  current = refl;
  queue = refl;
  due = inl refl;
}
timeout_work-Answered (some t) p = record {
  submitted = refl;
  finished = refl;
  current = refl;
  queue = refl;
  due = inr refl;
}

unwatched :
    (cur : Option Task) (done : Bool) → Watched cur false done → (cur ≡ none) ⊎ (done ≡ true)
unwatched none done w = inl refl
unwatched (some t) done w = inr w

answer-Answered :
    (c : Config) (a : Answer) (p q : Pipe)
    → IsWatched p
    → step c (answer_event a) p ≡ some q
    → Answered p q
unfolding step pipe_task_done
answer-Answered c (irq failed) p q w h =
    rw (sym (some_inj h))
      (record { submitted = refl; finished = refl; current = refl; queue = refl; due = inr refl })
answer-Answered c hangs p q w h = elim (Bool-cases p.timeout_pending) [
  | inl e ↦ rw (sym (some_inj (simp (e) at h))) (timeout_work-Answered p.current_task p)
  | inr e ↦ rw (sym (some_inj (simp (e) at h))) (record {
    submitted = refl;
    finished = refl;
    current = refl;
    queue = refl;
    due =
        unwatched p.current_task p.done_pending
          (subst (λ b. Watched p.current_task b p.done_pending) e w);
  })
]

-- A settled pipe has nothing to do, or its task ends.
Settled-ends :
    (cur : Option Task) (queue : List Task) (failed : Bool)
    → Settled cur queue
    → (length (option_list cur ++ queue) ≡ 0) ⊎ (length (ended cur failed) ≡ 1)
Settled-ends none queue failed e = inl (ap (λ (l : List Task). length l) e)
Settled-ends (some t) queue failed s = inr refl

-- What is left after a round: the same submitted tasks, one fewer that waits.
record Round (p q : Pipe) : Type 0 where
  submitted : q.submitted ≡ p.submitted
  fewer : length (pending q) ≤ length (pending p) - 1
  ready : Ready q

-- Without a submit, the tasks that finish are those that no longer wait.
Grows-pending :
    (p q : Pipe) (done : List (Task × Bool))
    → Inv p
    → Inv q
    → Grows p q [] done
    → (q.submitted ≡ p.submitted) × (length (pending q) + length done ≡ length (pending p))
Grows-pending p q done v w g =
    let same : q.submitted ≡ p.submitted = g.submitted ∙ append-nil p.submitted in
    (
      same,
      omega (
        arith,
        lengths p v,
        lengths q w,
        ap (λ (l : List Task). length l) same,
        ap (λ (l : List (Task × Bool)). length l) g.finished,
        length-append p.finished done,
      ),
    )

Settled-empty :
    (cur : Option Task) (queue : List Task)
    → Settled cur queue
    → cur ≡ none
    → length (option_list cur ++ queue) ≡ 0
Settled-empty none queue s e = ap (λ (l : List Task). length l) s
Settled-empty (some t) queue s e = cc

completes-fewer :
    (c : Config) (m : ℕ) (p q : Pipe)
    → Inv p
    → Inv q
    → Settled p.current_task p.queue
    → (p.current_task ≡ none) ⊎ (p.done_pending ≡ true)
    → step c (completes m) p ≡ some q
    → (q.submitted ≡ p.submitted) × (length (pending q) ≤ length (pending p) - 1)
completes-fewer c m p q v w s (inl e) h =
    let (done, g) = step-Grows c (completes m) p q h in
    let k = Grows-pending p q done v w g in
    (k.0, omega (arith, k.1, Settled-empty p.current_task p.queue s e))
completes-fewer c m p q v w s (inr d) h =
    let k = Grows-pending p q (ended p.current_task p.error) v w (completes-Grows c m p q d h) in
    (
      k.0,
      elim (Settled-ends p.current_task p.queue p.error s) [
        | inl e ↦ omega (arith, k.1, e)
        | inr e ↦ omega (arith, k.1, e)
      ],
    )

answer-Allowed : (a : Answer) (p : Pipe) → Allowed (answer_event a) p
answer-Allowed (irq failed) p = tt
answer-Allowed hangs p = tt

round-Round :
    (c : Config) (r : ℕ × Answer × ℕ) (p : Pipe)
    → 0 < c.sched_timeout_ms
    → Ready p
    → (q : Pipe) × (steps c (round r) p ≡ some q) × Round p q
unfolding steps
round-Round c (n, a, m) p l r =
    let (p1, e1, r1) = step-Ready c (runs n) p l tt r in
    let (p2, e2, r2) = step-Ready c (answer_event a) p1 l (answer-Allowed a p1) r1 in
    let (q, e3, r3) = step-Ready c (completes m) p2 l tt r2 in
    let ran = runs-Ran c n p p1 r.inv.awake e1 in
    let ans = answer-Answered c a p1 p2 r1.watched e2 in
    let k1 = Grows-pending p p1 ran.fresh r.inv r1.inv (record {
      submitted = ran.submitted ∙ sym (append-nil p.submitted);
      finished = ran.finished;
    }) in
    let s : Settled p2.current_task p2.queue = rw (ans.current, ans.queue) ran.settled in
    let k3 = completes-fewer c m p2 q r2.inv r3.inv s ans.due e3 in
    let same : pending p2 ≡ pending p1 = rw (ans.current, ans.queue) refl in
    (
      q,
      rw (e1, e2, e3) refl,
      record {
        submitted = k3.0 ∙ ans.submitted ∙ ran.submitted;
        fewer = omega (arith, k1.1, k3.1, ap (λ (t : List Task). length t) same);
        ready = r3;
      },
    )

pub steps-append :
    (c : Config) (xs ys : List Event) (p : Pipe)
    → steps c (xs ++ ys) p ≡ (steps c xs p >>= steps c ys)
unfolding steps
steps-append c [] ys p = refl
steps-append c (e ∷ xs) ys p = elim (Option-cases (step c e p)) [
  | inl h ↦ rw h refl
  | inr (q, h) ↦ rw h (steps-append c xs ys q)
]

pub rounds-Ready :
    (c : Config) (rs : List (ℕ × Answer × ℕ)) (p : Pipe)
    → 0 < c.sched_timeout_ms
    → Ready p
    → (q : Pipe) × (steps c (rounds rs) p ≡ some q)
      × (q.submitted ≡ p.submitted)
      × (length (pending q) ≤ length (pending p) - length rs)
      × Ready q
unfolding steps
rounds-Ready c [] p l r = (p, refl, refl, omega arith, r)
rounds-Ready c (t ∷ rs) p l r =
    let (p1, e1, k) = round-Round c t p l r in
    let (q, e2, same, le, r') = rounds-Ready c rs p1 l k.ready in
    (
      q,
      rw (steps-append c (round t) (rounds rs) p, e1) e2,
      same ∙ k.submitted,
      omega (arith, le, k.fewer),
      r',
    )
