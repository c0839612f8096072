-- ===== src/Gem/Queued.antt =====
-- The end of lima_gem_submit: the task is queued and its fence published.
use lima_backport_sprd7730se.Prelude.{
  ℕ, ◌+◌, ◌≤◌, ◌≡◌, refl, sym, some, List, [], ◌∷◌, ◌++◌, All, arith, count, count-append,
  option_list, update,
}
use mathlib.Core.List.{append_assoc}
use lima_backport_sprd7730se.Errno.{Result, ok}
use lima_backport_sprd7730se.Fence.{Fences, >>=-some}
use lima_backport_sprd7730se.Fence.Refs.{get-some, put-Released}
use lima_backport_sprd7730se.Sched.Task.{Task, owned}
use lima_backport_sprd7730se.Sched.Pipe.{Pipe, queue_task}
use lima_backport_sprd7730se.Sched.Engine.{pending, owned_all}
use lima_backport_sprd7730se.Sched.Engine.Core.{count-owned, count-owned_all-append}
use lima_backport_sprd7730se.Sched.Engine.Invariant.{Inv}
use lima_backport_sprd7730se.Sched.Engine.Submits.{queued, queued-Inv}
use lima_backport_sprd7730se.Gem.{Submit, Buffers, queue_submit}
use lima_backport_sprd7730se.Gem.Publish.{in_resvs, Exclusive, publish-Covers, Published-Exclusive}
use lima_backport_sprd7730se.Gem.System.{task_refs, System}

-- What the store has when the dependencies are added: all that the task will own, besides the rest.
abbrev pub Ready : List ℕ → List ℕ → Submit → Buffers → Task → Fences → Type 0
Ready objs own sub b t s =
    (a : ℕ)
    → task_refs b.pipe a
        + in_resvs b.resv objs a
        + count a (owned (record t { ctx = some sub.ctx }))
        + count a own
      ≤ s.refcount a

pending-queued : (t : Task) (p : Pipe) (s : Fences) → pending (queued t p s) ≡ pending p ++ t ∷ []
pending-queued t p s = sym (append_assoc (option_list p.current_task) p.queue (t ∷ []))

-- The task is queued and its fence published.
abbrev pub Queued : List ℕ → List ℕ → Submit → Buffers → Task → Result (Unit {0}) × Buffers → Type 0
Queued objs own sub b t (r, b') =
    (r ≡ ok tt)
    × System objs own b'
    × (b'.pipe.queue ≡ b.pipe.queue ++ (record t { ctx = some sub.ctx }) ∷ [])
    × Exclusive t.fence t.bos b'.resv

pub queue_submit-Queued :
    (objs own : List ℕ) (sub : Submit) (b : Buffers) (t : Task) (s : Fences)
    → Inv b.pipe
    → All (λ x. count x objs ≡ 1) t.bos
    → Ready objs own sub b t s
    → (x : Result (Unit {0}) × Buffers) × (queue_submit sub t.bos t s b ≡ some x)
      × Queued objs own sub b t x
unfolding queue_submit queue_task
queue_submit-Queued objs own sub b t s v once h =
    let t' = record t { ctx = some sub.ctx } in
    let f = t.fence in
    let s1 : Fences = record s { refcount = update s.refcount f (s.refcount f + 1) } in
    let all = pending b.pipe ++ t' ∷ [] in
    let both' : (a : ℕ) → count a (owned_all all) ≡ task_refs b.pipe a + count a (owned t') = λ a.
      omega (
        arith,
        count-owned_all-append a (pending b.pipe) (t' ∷ []),
        count-append a (owned t') [],
      ) in
    let b1 : Buffers = record b { pipe = queued t' b.pipe s1 } in
    let one : 1 ≤ s.refcount f = ground (arith, h f, count-owned f t') in
    let (s2, resv, e2, c, p) =
      publish-Covers (λ a. count a (owned_all all)) f objs own t.bos b1 once
        (λ a. ground (arith, h a, both' a)) in
    let (s3, e3, r3) = put-Released (some f) s2 (λ a. omega (arith, c a)) in
    let b' : Buffers = record { pipe = queued t' b.pipe s3; resv = resv } in
    (
      (ok tt, b'),
      >>=-some _ (>>=-some _ (get-some f s one) refl) (>>=-some _ e2 (>>=-some _ e3 refl)),
      (
        refl,
        record {
          inv = queued-Inv t' b.pipe s3 (λ a. omega (arith, c a, r3.refs a)) v;
          covers = λ a. rw (pending-queued t' b.pipe s3) (omega (arith, c a, r3.refs a));
        },
        refl,
        Published-Exclusive f t.bos b.resv resv p,
      ),
    )
