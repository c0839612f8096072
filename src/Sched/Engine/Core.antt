-- ===== src/Sched/Engine/Core.antt =====
-- The invariant that ties a pipe to its list of pending tasks, and what finishing one does to it.
use lima_backport_sprd7730se.Prelude.{
  ℕ, ◌+◌, ◌-◌, ◌≤◌, ◌≡◌, refl, Bool, true, false, some, List, [], ◌∷◌, ◌++◌, map, ◌==◌,
  if◌then◌else◌, update, arith, count, count-append, option_list, ap, ◌∙◌,
}
use lima_backport_sprd7730se.Fence.{Fences, Status, is_unsignaled, do_signal, signal, signal_error}
use lima_backport_sprd7730se.Fence.Refs.{Holds, Released, put_all-Released, put-Released}
use lima_backport_sprd7730se.Sched.Task.{Task, owned, task_fini}
use lima_backport_sprd7730se.Sched.Pipe.{Pipe, finish_task, signal_result, count_guilty}
use lima_backport_sprd7730se.Sched.Engine.{owned_all, borrowed}

-- How many tasks of a list belong to a context, and how many of a history failed.
abbrev pub tally : ℕ → List Task → ℕ
tally c [] = 0
tally c (t ∷ ts) = (if t.context == c then 1 else 0) + tally c ts

abbrev pub failures : ℕ → List (Task × Bool) → ℕ
failures c [] = 0
failures c ((t, failed) ∷ ts) =
    (if failed then (if t.context == c then 1 else 0) else 0) + failures c ts

abbrev pub task_of : Task × Bool → Task
task_of (t, failed) = t

-- Each of these tasks had its fence signaled when it was finished.
abbrev pub Answered : List (Task × Bool) → List (ℕ × Status) → Type 0
Answered [] [] = Unit
Answered [] (a ∷ answers) = ⊥
Answered (d ∷ done) [] = ⊥
Answered ((t, failed) ∷ done) ((f, status) ∷ answers) =
    (f ≡ t.fence) × (is_unsignaled status ≡ false) × Answered done answers

Answered-next :
    (done : List (Task × Bool)) (answers : List (ℕ × Status)) (t : Task) (failed : Bool)
    (status : Status)
    → Answered done answers
    → is_unsignaled status ≡ false
    → Answered (done ++ (t, failed) ∷ []) (answers ++ (t.fence, status) ∷ [])
Answered-next [] [] t failed status h e = (refl, e, tt)
Answered-next [] (a ∷ answers) t failed status h e = absurd h
Answered-next (d ∷ done) [] t failed status h e = absurd h
Answered-next ((u, b) ∷ done) ((f, s) ∷ answers) t failed status (k, l, h) e =
    (k, l, Answered-next done answers t failed status h e)

signal_result-signaled :
    (t : Task) (failed : Bool) (now : ℕ) (s : Fences)
    → is_unsignaled ((signal_result t failed now s).status t.fence) ≡ false
unfolding signal signal_error do_signal
signal_result-signaled t true now s = ground arith
signal_result-signaled t false now s = ground arith

pub record Core (p : Pipe) (ts : List Task) : Type 0 where
  -- Every reference of a pending task is there.
  pub holds : (a : ℕ) → count a (owned_all ts) ≤ p.store.refcount a
  -- First in, first out: nothing is lost, doubled or reordered.
  pub order : p.submitted ≡ map task_of p.finished ++ ts
  pub flights : (c : ℕ) → p.in_flight c ≡ tally c ts
  pub blame : (c : ℕ) → p.guilty c ≡ failures c p.finished
  pub answered : Answered p.finished p.answered

-- Where a task's references lie in its list.
pub count-owned :
    (a : ℕ) (t : Task)
    → count a (owned t)
      ≡ count a t.deps
        + count a t.bos
        + count a (option_list t.ctx)
        + count a (t.vm ∷ [])
        + count a (t.fence ∷ [])
count-owned a t = omega (
  arith,
  count-append a t.deps (t.bos ++ (option_list t.ctx ++ t.vm ∷ t.fence ∷ [])),
  count-append a t.bos (option_list t.ctx ++ t.vm ∷ t.fence ∷ []),
  count-append a (option_list t.ctx) (t.vm ∷ t.fence ∷ []),
)

pub count-borrowed :
    (a : ℕ) (t : Task) → count a (borrowed t) + count a (t.fence ∷ []) ≡ count a (owned t)
count-borrowed a t = omega (
  arith,
  count-owned a t,
  count-append a t.deps (t.bos ++ (option_list t.ctx ++ t.vm ∷ [])),
  count-append a t.bos (option_list t.ctx ++ t.vm ∷ []),
  count-append a (option_list t.ctx) (t.vm ∷ []),
)

-- A task that owns its references gives back each of them once, and frees nothing twice.
pub task_fini-Released :
    (t : Task) (s : Fences)
    → Holds (owned t) s
    → (s' : Fences) × (task_fini t s ≡ some s') × Released (owned t) s s'
unfolding task_fini
task_fini-Released t s h =
    let (s1, e1, r1) = put_all-Released t.deps s (λ a. omega (arith, h a, count-owned a t)) in
    let (s2, e2, r2) =
      put_all-Released t.bos s1 (λ a. omega (arith, h a, count-owned a t, r1.refs a)) in
    let (s3, e3, r3) =
      put-Released t.ctx s2 (λ a. omega (arith, h a, count-owned a t, r1.refs a, r2.refs a)) in
    let (s4, e4, r4) =
      put-Released (some t.vm) s3
        (λ a. omega (arith, h a, count-owned a t, r1.refs a, r2.refs a, r3.refs a)) in
    let (s5, e5, r5) =
      put-Released (some t.fence) s4
        (λ a. omega (arith, h a, count-owned a t, r1.refs a, r2.refs a, r3.refs a, r4.refs a)) in
    (
      s5,
      rw (e1, e2, e3, e4) e5,
      record {
        refs = λ a.
            omega (arith, count-owned a t, r1.refs a, r2.refs a, r3.refs a, r4.refs a, r5.refs a);
        status = r5.status ∙ r4.status ∙ r3.status ∙ r2.status ∙ r1.status;
      },
    )

pub signal_result-refcount :
    (t : Task) (failed : Bool) (now : ℕ) (s : Fences)
    → (signal_result t failed now s).refcount ≡ s.refcount
unfolding signal signal_error
signal_result-refcount t true now s = ground arith
signal_result-refcount t false now s = ground arith

-- The pipe after `finish_task`, the store being `s`.
abbrev pub finished_pipe : Pipe → Task → Bool → Fences → Pipe
finished_pipe p t failed s = record p {
  store = s;
  guilty = count_guilty failed t.context p.guilty;
  in_flight = update p.in_flight t.context (p.in_flight t.context - 1);
  finished = p.finished ++ (t, failed) ∷ [];
  answered = p.answered ++ (t.fence, s.status t.fence) ∷ [];
}

failures-append :
    (c : ℕ) (xs ys : List (Task × Bool)) → failures c (xs ++ ys) ≡ failures c xs + failures c ys
failures-append c [] ys = omega arith
failures-append c ((t, b) ∷ xs) ys = omega (arith, failures-append c xs ys)

order_next :
    (done : List (Task × Bool)) (t : Task) (failed : Bool) (ts : List Task)
    → map task_of done ++ t ∷ ts ≡ map task_of (done ++ (t, failed) ∷ []) ++ ts
order_next [] t failed ts = refl
order_next (d ∷ done) t failed ts =
    ap (λ (l : List Task). task_of d ∷ l) (order_next done t failed ts)

pub finish_task-Core :
    (t : Task) (failed : Bool) (now : ℕ) (p : Pipe) (ts : List Task)
    → Core p (t ∷ ts)
    → (s : Fences) × (finish_task t failed now p ≡ some (finished_pipe p t failed s))
      × Core (finished_pipe p t failed s) ts
unfolding finish_task
finish_task-Core t failed now p ts i =
    let s0 = signal_result t failed now p.store in
    let keep : (a : ℕ) → s0.refcount a ≡ p.store.refcount a =
      λ a. ap (λ (r : ℕ → ℕ). r a) (signal_result-refcount t failed now p.store) in
    let split = λ (a : ℕ). count-append a (owned t) (owned_all ts) in
    let (s, e, r) = task_fini-Released t s0 (λ a. omega (arith, i.holds a, keep a, split a)) in
    let some_left : (p.in_flight t.context == 0) ≡ false = ground (arith, i.flights t.context) in
    (
      s,
      rw (some_left, e) refl,
      record {
        holds = λ a. omega (arith, i.holds a, keep a, split a, r.refs a);
        order = i.order ∙ order_next p.finished t failed ts;
        flights = λ c. ground (arith, i.flights c, i.flights t.context);
        blame = λ c. ground (arith, i.blame c, failures-append c p.finished ((t, failed) ∷ []));
        answered = Answered-next p.finished p.answered t failed (s.status t.fence) i.answered (
            ap (λ (f : ℕ → Status). is_unsignaled (f t.fence)) r.status
            ∙ signal_result-signaled t failed now p.store);
      },
    )

pub count-owned_all-append :
    (a : ℕ) (xs ys : List Task)
    → count a (owned_all (xs ++ ys)) ≡ count a (owned_all xs) + count a (owned_all ys)
count-owned_all-append a [] ys = omega arith
count-owned_all-append a (x ∷ xs) ys = omega (
  arith,
  count-append a (owned x) (owned_all (xs ++ ys)),
  count-append a (owned x) (owned_all xs),
  count-owned_all-append a xs ys,
)

pub tally-append : (c : ℕ) (xs ys : List Task) → tally c (xs ++ ys) ≡ tally c xs + tally c ys
tally-append c [] ys = omega arith
tally-append c (x ∷ xs) ys = omega (arith, tally-append c xs ys)
