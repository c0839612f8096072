-- ===== src/Sched/Engine/Submits.antt =====
-- A submit keeps the invariant of the pipe.
use lima_backport_sprd7730se.Prelude.{
  ℕ, ◌+◌, ◌≤◌, ◌≡◌, refl, true, Option, none, some, List, [], ◌∷◌, ◌++◌, map, update, arith, count,
  count-append, ap, ◌∙◌, option_list,
}
use mathlib.Core.List.{append_assoc}
use lima_backport_sprd7730se.Fence.{Fences, create}
use lima_backport_sprd7730se.Fence.Refs.{Taken, get_all-Taken, get-some}
use lima_backport_sprd7730se.Sched.Task.{Task, owned}
use lima_backport_sprd7730se.Sched.Pipe.{Pipe, queue_task}
use lima_backport_sprd7730se.Sched.Engine.{submits, submit, pending, borrowed, owned_all, Allowed}
use lima_backport_sprd7730se.Sched.Engine.Core.{
  task_of, count-borrowed, count-owned_all-append, tally-append,
}
use lima_backport_sprd7730se.Sched.Engine.Invariant.{Inv, Awake, Awake-when_run}

-- The store after a submit: the borrowed objects have one reference more, the fence has two.
abbrev submitted_store : Task → Fences → Fences
submitted_store t s =
    let u = (create (some t.fence) s).1 in
    record u { refcount = update u.refcount t.fence (u.refcount t.fence + 1) }

submit-store :
    (t : Task) (p : Pipe) (s : Fences) (ts : List Task)
    → Allowed (submits t) p
    → Taken (borrowed t) p.store s
    → ((a : ℕ) → count a (owned_all ts) ≤ p.store.refcount a)
    → (a : ℕ) → count a (owned_all (ts ++ t ∷ [])) ≤ (submitted_store t s).refcount a
unfolding create
submit-store t p s ts h x holds a = ground (
  arith,
  holds a,
  h.0 a,
  x.refs a,
  h.1,
  count-owned_all-append a ts (t ∷ []),
  count-borrowed a t,
  count-append a (owned t) [],
)

create-live : (f : ℕ) (s : Fences) → 1 ≤ (create (some f) s).1.refcount f
unfolding create
create-live f s = ground arith

Awake-any : (cur : Option Task) (queue : List Task) → Awake cur queue true
Awake-any none queue = Awake-when_run queue
Awake-any (some t) queue = tt

-- A pipe with one more task at the end of its queue.
abbrev pub queued : Task → Pipe → Fences → Pipe
queued t p s = record p {
  store = s;
  in_flight = update p.in_flight t.context (p.in_flight t.context + 1);
  queue = p.queue ++ t ∷ [];
  run_pending = true;
  submitted = p.submitted ++ t ∷ [];
}

-- The invariant needs only that the store has the references of the new task as well.
pub queued-Inv :
    (t : Task) (p : Pipe) (s : Fences)
    → ((a : ℕ) → count a (owned_all (pending p ++ t ∷ [])) ≤ s.refcount a)
    → Inv p
    → Inv (queued t p s)
queued-Inv t p s holds v =
    let ts = pending p in
    let joined = append_assoc (option_list p.current_task) p.queue (t ∷ []) in
    record {
      core = record {
        holds = λ a. rw (← joined) (holds a);
        order =
            ap (λ (l : List Task). l ++ t ∷ []) v.core.order
            ∙ append_assoc (map task_of p.finished) ts (t ∷ [])
            ∙ ap (◌++◌ (map task_of p.finished)) joined;
        flights = λ c. rw (← joined) (ground (arith, v.core.flights c, tally-append c ts (t ∷ [])));
        blame = v.core.blame;
        answered = v.core.answered;
      };
      mapped = v.mapped;
      runs_task = v.runs_task;
      awake = Awake-any p.current_task (p.queue ++ t ∷ []);
    }

pub submit-Inv :
    (t : Task) (p : Pipe)
    → Allowed (submits t) p
    → Inv p
    → (q : Pipe) × (submit t p ≡ some q) × Inv q
unfolding submit queue_task
submit-Inv t p h v =
    let (s, e, x) = get_all-Taken (borrowed t) p.store h.0 in
    let u = (create (some t.fence) s).1 in
    (
      queued t p (submitted_store t s),
      rw (e, get-some t.fence u (create-live t.fence s)) refl,
      queued-Inv t p (submitted_store t s) (submit-store t p s (pending p) h x v.core.holds) v,
    )
