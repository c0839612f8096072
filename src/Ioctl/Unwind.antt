-- ===== src/Ioctl/Unwind.antt =====
-- What an ioctl gives back when it is refused on the way.
use lima_backport_sprd7730se.Prelude.{
  ℕ, ◌+◌, ◌-◌, ◌≤◌, ◌≡◌, refl, ap, ◌∙◌, false, Option, some, ◌==◌, if◌then◌else◌, if_false, arith,
}
use lima_backport_sprd7730se.Errno.{Errno, Result, err}
use lima_backport_sprd7730se.Fence.{>>=-some}
use lima_backport_sprd7730se.Gem.{with_store}
use lima_backport_sprd7730se.Ctx.Balance.{put_result, ctx_put-some}
use lima_backport_sprd7730se.Ioctl.{File, store_of, ctxs_of, out_ctx, out_bos, out_task}

-- `g` is what `f` was: the counts, the fences, the pipe's queue, the reservation objects and what is
-- allocated.
pub record Unchanged (f g : File) : Type 0 where
  pub refs : (a : ℕ) → (store_of g).refcount a ≡ (store_of f).refcount a
  pub status : (store_of g).status ≡ (store_of f).status
  pub queue : g.bufs.pipe.queue ≡ f.bufs.pipe.queue
  pub resv : g.bufs.resv ≡ f.bufs.resv
  pub bufs : g.bufs ≡ with_store (store_of g) f.bufs
  pub vm : g.vm ≡ f.vm
  pub arrays : g.arrays ≡ f.arrays
  pub tasks : g.tasks ≡ f.tasks
  pub handles : g.ctxs.handles ≡ f.ctxs.handles
  pub released : g.ctxs.released ≡ f.ctxs.released

-- The file with one more reference of a context, n more arrays and k more tasks.
pub record Got (c n k : ℕ) (f g : File) : Type 0 where
  pub live : 1 ≤ (store_of f).refcount c
  pub refs : (a : ℕ) → (store_of g).refcount a ≡ (store_of f).refcount a + (if c == a then 1 else 0)
  pub status : (store_of g).status ≡ (store_of f).status
  pub queue : g.bufs.pipe.queue ≡ f.bufs.pipe.queue
  pub resv : g.bufs.resv ≡ f.bufs.resv
  pub bufs : g.bufs ≡ with_store (store_of g) f.bufs
  pub vm : g.vm ≡ f.vm
  pub arrays : g.arrays ≡ f.arrays + n
  pub tasks : g.tasks ≡ f.tasks + k
  pub handles : g.ctxs.handles ≡ f.ctxs.handles
  pub released : g.ctxs.released ≡ f.ctxs.released

pub Got-more :
    (c n k n' k' : ℕ) (f g : File)
    → Got c n k f g
    → (arrays tasks : ℕ) → arrays ≡ f.arrays + n'
    → tasks ≡ f.tasks + k'
    → Got c n' k' f (record g { arrays = arrays; tasks = tasks })
Got-more c n k n' k' f g x arrays tasks h i = record {
  live = x.live;
  refs = x.refs;
  status = x.status;
  queue = x.queue;
  resv = x.resv;
  bufs = x.bufs;
  vm = x.vm;
  arrays = h;
  tasks = i;
  handles = x.handles;
  released = x.released;
}

-- How a refused submit ends.
abbrev pub Refused : File → Errno → Option (Result (Unit {0}) × File) → Type 0
Refused f e o = (g : File) × (o ≡ some (err e, g)) × Unchanged f g

pub out_ctx-Refused :
    (e : Errno) (c : ℕ) (f g : File) → Got c 0 0 f g → Refused f e (out_ctx (err e) c g)
unfolding out_ctx
out_ctx-Refused e c f g x =
    let one : 1 ≤ (store_of g).refcount c = ground (arith, x.refs c) in
    let left : ((store_of g).refcount c - 1 == 0) ≡ false = ground (arith, x.refs c, x.live) in
    (
      _,
      >>=-some _ (ctx_put-some c (ctxs_of g) one) refl,
      record {
        refs = λ a. ground (arith, x.refs a, one);
        status = x.status;
        queue = x.queue;
        resv = x.resv;
        bufs = ap (λ b. with_store (put_result c (ctxs_of g)).store b) x.bufs;
        vm = x.vm;
        arrays = omega (arith, x.arrays);
        tasks = omega (arith, x.tasks);
        handles = x.handles;
        released = if_false _ _ left ∙ x.released;
      },
    )

pub out_bos-Refused :
    (e : Errno) (c : ℕ) (f g : File) → Got c 1 0 f g → Refused f e (out_bos (err e) c g)
unfolding out_bos
out_bos-Refused e c f g x =
    let some_left : (g.arrays == 0) ≡ false = ground (arith, x.arrays) in
    let (h, k, u) =
      out_ctx-Refused e c f (record g { arrays = g.arrays - 1 })
        (Got-more c 1 0 0 0 f g x (g.arrays - 1) g.tasks (omega (arith, x.arrays)) x.tasks) in
    (h, if_false _ _ some_left ∙ k, u)

pub out_task-Refused :
    (e : Errno) (c : ℕ) (f g : File) → Got c 1 1 f g → Refused f e (out_task (err e) c g)
unfolding out_task
out_task-Refused e c f g x =
    let some_left : (g.tasks == 0) ≡ false = ground (arith, x.tasks) in
    let (h, k, u) =
      out_bos-Refused e c f (record g { tasks = g.tasks - 1 })
        (Got-more c 1 1 1 0 f g x g.arrays (g.tasks - 1) x.arrays (omega (arith, x.tasks))) in
    (h, if_false _ _ some_left ∙ k, u)
