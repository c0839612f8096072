-- ===== src/Gem/Submits.antt =====
-- lima_gem_submit as a whole: the buffers, their reservation objects and the pipe together.
use lima_backport_sprd7730se.Prelude.{
  ℕ, ◌+◌, ◌≤◌, ◌≡◌, refl, ap, ◌∙◌, inl, inr, Bool-cases, Option, some, Option-cases, List, [], ◌∷◌,
  ◌++◌, map, All, if_true, if_false, arith, count,
}
use mathlib.Core.Path.{subst}
use lima_backport_sprd7730se.Errno.{Errno, enomem, einval, Result, ok, err}
use lima_backport_sprd7730se.Fence.{Fences, >>=-some}
use lima_backport_sprd7730se.Sched.Task.{Task, task_init}
use lima_backport_sprd7730se.Sched.Engine.Core.{count-owned, task_fini-Released}
use lima_backport_sprd7730se.Gem.{
  SubmitBo, Submit, Answers, Buffers, DepsResult, after_deps, after_init, after_collect, with_store,
  submit_bos, queue_submit, explicit_sync, gem_submit,
}
use lima_backport_sprd7730se.Gem.Collect.{put_down-Released}
use lima_backport_sprd7730se.Gem.Deps.{HasAll, Grown, all_held, add_deps-Grown}
use lima_backport_sprd7730se.Gem.Publish.{Exclusive}
use lima_backport_sprd7730se.Gem.Start.{Collected, collect-Collected}
use lima_backport_sprd7730se.Gem.System.{
  System, Known, Fresh, Known-HeldLive, Known-once, Known-apart, System-with_store,
}
use lima_backport_sprd7730se.Gem.Queued.{queue_submit-Queued}
use lima_backport_sprd7730se.Gem.Begin.{
  new_task, started, task_init-some, task_init-none, started-refs,
}

-- What a submit leaves, by its result: the task is the last of the queue, has the context's reference,
-- waits for every fence of its buffers, and its fence is the exclusive one of each; or the pipe and the
-- objects are as before but for the counts.
abbrev pub Ends :
    List ℕ → List ℕ → Answers → Submit → Buffers → Result (Unit {0}) × Buffers → Type 0
Ends objs own a sub b (ok u, b') =
    System objs own b'
    × ((t : Task) × (b'.pipe.queue ≡ b.pipe.queue ++ t ∷ [])
        × (t.ctx ≡ some sub.ctx)
        × (t.context ≡ sub.context)
        × (t.vm ≡ sub.vm)
        × (map some t.bos ≡ map (λ (c : SubmitBo). a.find c.handle) sub.bos)
        × ((f : ℕ) → count f (all_held b.resv t.bos) ≤ count f t.deps)
        × Exclusive t.fence t.bos b'.resv)
Ends objs own a sub b (err e, b') =
    System objs (sub.ctx ∷ own) b' × ((s : Fences) × (b' ≡ with_store s b))

kept-Ends :
    (objs own : List ℕ) (a : Answers) (sub : Submit) (b : Buffers)
    → System objs (sub.ctx ∷ own) b
    → (e : Errno) (s : Fences) → ((q : ℕ) → b.pipe.store.refcount q ≤ s.refcount q)
    → Ends objs own a sub b (err e, with_store s b)
kept-Ends objs own a sub b v e s h = (
  System-with_store objs (sub.ctx ∷ own) (sub.ctx ∷ own) b s v
      (λ q. omega (arith, h q, v.covers q)),
  (s, refl),
)

module _ (objs own : List ℕ) (a : Answers) (sub : Submit) (b : Buffers) (lbos : List ℕ)
    (v : System objs (sub.ctx ∷ own) b) (known : All (Known objs b.pipe.store) lbos)
    (named : map some lbos ≡ map (λ (c : SubmitBo). a.find c.handle) sub.bos) where
  after_deps-Ends :
      (s1 : Fences) (f : ℕ) (deps : List ℕ) (r : Result (Unit {0})) (s : Fences)
      → ((q : ℕ)
          → s.refcount q
            ≡ b.pipe.store.refcount q
              + count q lbos
              + count q (sub.vm ∷ [])
              + count q (f ∷ [])
              + count q deps)
      → HasAll r (all_held b.resv lbos) deps
      → (x : Result (Unit {0}) × Buffers) × (after_deps sub lbos
            (with_store s1 b)
            (r, (record (new_task sub lbos f) { deps = deps }, s))
          ≡ some x)
        × Ends objs own a sub b x
  unfolding queue_submit
  after_deps-Ends s1 f deps (ok u) s h all =
      let t = record (new_task sub lbos f) { deps = deps } in
      let t' = record t { ctx = some sub.ctx } in
      let (x, e, (same, y, last, p)) =
        queue_submit-Queued objs own sub b t s v.inv (Known-once objs b.pipe.store lbos known)
          (λ q. omega (arith, h q, v.covers q, count-owned q t')) in
      (
        (ok tt, x.1),
        e ∙ ap (λ k. some (k, x.1)) same,
        (y, (t', last, refl, refl, refl, named, all, p)),
      )
  after_deps-Ends s1 f deps (err e) s h all =
      let t = record (new_task sub lbos f) { deps = deps } in
      let (s', k, x) = task_fini-Released t s (λ q. omega (arith, h q, count-owned q t)) in
      (
        (err e, with_store s' b),
        >>=-some _ k refl,
        kept-Ends objs own a sub b v e s' (λ q. omega (arith, h q, x.refs q, count-owned q t)),
      )

  after_add_deps-Ends :
      (s1 : Fences) (f : ℕ) (g : ℕ → ℕ) (y : DepsResult)
      → ((q : ℕ)
          → g q ≡ b.pipe.store.refcount q + count q lbos + count q (sub.vm ∷ []) + count q (f ∷ []))
      → Grown g (new_task sub lbos f) (all_held b.resv lbos) y
      → (x : Result (Unit {0}) × Buffers) × (after_deps sub lbos (with_store s1 b) y ≡ some x)
        × Ends objs own a sub b x
  after_add_deps-Ends s1 f g (r, (t, s)) h (deps, same, c, all) =
      let (x, e, d) = after_deps-Ends s1 f deps r s (λ q. omega (arith, h q, c q)) all in
      (x, ap (λ (q : Task). after_deps sub lbos (with_store s1 b) (r, (q, s))) same ∙ e, d)

  -- The buffers found have a reference each.
  submit_bos-Ends :
      (s1 : Fences)
      → ((q : ℕ) → s1.refcount q ≡ b.pipe.store.refcount q + count q lbos)
      → 1 ≤ b.pipe.store.refcount sub.vm
      → Fresh a.fresh b.pipe.store
      → (x : Result (Unit {0}) × Buffers) × (submit_bos a sub lbos (with_store s1 b) ≡ some x)
        × Ends objs own a sub b x
  unfolding submit_bos
  submit_bos-Ends s1 h vm fresh =
      let one : 1 ≤ s1.refcount sub.vm = omega (arith, h sub.vm, vm) in
      let init = λ (o : Option ℕ). task_init o sub.context lbos sub.vm sub.frame s1 in
      elim (Option-cases a.fresh) [
        | inl e ↦
            let (s3, k3, r3) = task_init-none sub lbos s1 one in
            let (s4, k4, r4) = put_down-Released lbos s3 (λ q. omega (arith, r3 q, h q)) in
            (
              (err enomem, with_store s4 b),
              >>=-some (after_init a sub lbos (with_store s1 b)) (ap init e ∙ k3)
                  (>>=-some _ k4 refl),
              kept-Ends objs own a sub b v enomem s4 (λ q. omega (arith, r3 q, r4.refs q, h q)),
            )
        | inr (f, e) ↦
            let new : b.pipe.store.refcount f ≡ 0 = subst (λ o. Fresh o b.pipe.store) e fresh in
            let s3 = started sub f s1 in
            let refs =
              started-refs sub lbos f b.pipe.store s1 h vm new
                (Known-apart objs b.pipe.store lbos f known new) in
            let (y, k, w) =
              add_deps-Grown s3.refcount a b.resv 0 lbos (new_task sub lbos f) s3
                (Known-HeldLive objs b.pipe.store s3.refcount b.resv lbos
                  (λ q. omega (arith, v.covers q)) (λ q m. omega (arith, refs q, m)) known)
                (λ q. omega arith) in
            let (x, k', d) = after_add_deps-Ends s1 f s3.refcount y refs w in
            (
              x,
              >>=-some (after_init a sub lbos (with_store s1 b))
                  (ap init e ∙ task_init-some sub lbos f s1 one) (>>=-some _ k k'),
              d,
            )
      ]

after_collect-Ends :
    (objs own : List ℕ) (a : Answers) (sub : Submit) (b : Buffers)
    → System objs (sub.ctx ∷ own) b
    → 1 ≤ b.pipe.store.refcount sub.vm
    → Fresh a.fresh b.pipe.store
    → (y : Result (List ℕ) × Fences)
    → Collected (Known objs b.pipe.store) a.find sub.bos b.pipe.store y
    → (x : Result (Unit {0}) × Buffers) × (after_collect a sub b y ≡ some x)
      × Ends objs own a sub b x
after_collect-Ends objs own a sub b v vm fresh (err e, s) h =
    ((err e, with_store s b), refl, kept-Ends objs own a sub b v e s h)
after_collect-Ends objs own a sub b v vm fresh (ok lbos, s) (known, refs, named) =
    submit_bos-Ends objs own a sub b lbos v known named s refs vm fresh

-- In a system in which the caller has a reference of the context and others have those in `own`, if every
-- handle that names a buffer names one that is allocated and listed once, the address space is allocated
-- and the slab answers with an unused address or none: a submit returns, whatever else fails. After a
-- success the system is again well formed for the references in `own`, the reference of the context being
-- the task's; one task more stands last in the queue, with the caller's context and address space and the
-- buffers that the handles name; every fence that these buffers held is among its dependencies; and its
-- fence is the exclusive fence of each of them. After an error the system is well formed with the
-- reference still the caller's, and nothing has changed but the store.
pub gem_submit-System :
    (objs own : List ℕ) (a : Answers) (sub : Submit) (b : Buffers)
    → System objs (sub.ctx ∷ own) b
    → ((h x : ℕ) → a.find h ≡ some x → Known objs b.pipe.store x)
    → 1 ≤ b.pipe.store.refcount sub.vm
    → Fresh a.fresh b.pipe.store
    → (x : Result (Unit {0}) × Buffers) × (gem_submit a sub b ≡ some x) × Ends objs own a sub b x
unfolding gem_submit
gem_submit-System objs own a sub b v known vm fresh =
    let kept = λ (e : Errno). kept-Ends objs own a sub b v e b.pipe.store (λ q. omega arith) in
    elim (Bool-cases (explicit_sync sub)) [
      | inl e ↦ ((err einval, b), if_true _ _ e, kept einval)
      | inr e ↦ elim (Bool-cases a.lbos_allocated) [
        | inl f ↦
            let (y, k, c) =
              collect-Collected (Known objs b.pipe.store) a sub.bos b.pipe.store
                (λ h x m. (known h x m).0) known in
            let (x, k', d) = after_collect-Ends objs own a sub b v vm fresh y c in
            (x, if_false _ _ e ∙ (if_true _ _ f ∙ >>=-some _ k k'), d)
        | inr f ↦ ((err enomem, b), if_false _ _ e ∙ if_false _ _ f, kept enomem)
      ]
    ]
