-- ===== src/Gem/Begin.antt =====
-- What lima_sched_task_init does to the counts.
use lima_backport_sprd7730se.Prelude.{
  ℕ, ◌+◌, ◌≤◌, ◌≡◌, refl, none, some, List, [], ◌∷◌, arith, count, update,
}
use lima_backport_sprd7730se.Errno.{enomem, ok, err}
use lima_backport_sprd7730se.Fence.{Fences, >>=-some, create}
use lima_backport_sprd7730se.Fence.Refs.{get-some, put-Released}
use lima_backport_sprd7730se.Sched.Task.{Task, task_init}
use lima_backport_sprd7730se.Gem.{Submit}

-- The task as lima_sched_task_init leaves it.
abbrev pub new_task : Submit → List ℕ → ℕ → Task
new_task sub lbos f = record {
  context = sub.context;
  ctx = none;
  vm = sub.vm;
  frame = sub.frame;
  deps = [];
  bos = lbos;
  fence = f;
}

-- The store once the task has the address space and its fence.
abbrev pub started : Submit → ℕ → Fences → Fences
started sub f s =
    (create (some f) (record s { refcount = update s.refcount sub.vm (s.refcount sub.vm + 1) })).1

pub task_init-some :
    (sub : Submit) (lbos : List ℕ) (f : ℕ) (s : Fences)
    → 1 ≤ s.refcount sub.vm
    → task_init (some f) sub.context lbos sub.vm sub.frame s
      ≡ some (ok (new_task sub lbos f), started sub f s)
unfolding task_init create
task_init-some sub lbos f s h = >>=-some _ (get-some sub.vm s h) refl

-- Without a fence the address space has its references of before.
pub task_init-none :
    (sub : Submit) (lbos : List ℕ) (s : Fences)
    → 1 ≤ s.refcount sub.vm
    → (t : Fences) × (task_init none sub.context lbos sub.vm sub.frame s ≡ some (err enomem, t))
      × ((q : ℕ) → t.refcount q ≡ s.refcount q)
unfolding task_init create
task_init-none sub lbos s h =
    let s2 : Fences = record s { refcount = update s.refcount sub.vm (s.refcount sub.vm + 1) } in
    let (t, k, r) = put-Released (some sub.vm) s2 (λ q. ground arith) in
    (t, >>=-some _ (get-some sub.vm s h) (>>=-some _ k refl), λ q. ground (arith, r.refs q))

pub started-refs :
    (sub : Submit) (lbos : List ℕ) (f : ℕ) (s0 s : Fences)
    → ((q : ℕ) → s.refcount q ≡ s0.refcount q + count q lbos)
    → 1 ≤ s0.refcount sub.vm
    → s0.refcount f ≡ 0
    → count f lbos ≡ 0
    → (q : ℕ)
    → (started sub f s).refcount q
      ≡ s0.refcount q + count q lbos + count q (sub.vm ∷ []) + count q (f ∷ [])
unfolding create
started-refs sub lbos f s0 s h vm new apart q = ground (arith, h q, h f, new, apart, vm)
