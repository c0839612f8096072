-- ===== src/Ioctl/Accept.antt =====
-- A submit that passes its checks: what is kept when lima_gem_submit returns.
use lima_backport_sprd7730se.Prelude.{
  ℕ, ◌+◌, ◌-◌, ◌≤◌, ◌≡◌, refl, ◌∙◌, false, Option, none, some, some_inj, Bool-cases, inl, inr, List,
  [], ◌∷◌, ◌++◌, ◌==◌, if◌then◌else◌, if_true, if_false, update, arith,
}
use lima_backport_sprd7730se.Errno.{Result, ok, err}
use lima_backport_sprd7730se.Fence.{◌>>=◌, >>=-some}
use lima_backport_sprd7730se.Fence.Refs.{get-some}
use lima_backport_sprd7730se.Ctx.{ctx_get, take_found, idr_find}
use lima_backport_sprd7730se.Ctx.Balance.{ctx_put-some}
use lima_backport_sprd7730se.Gem.{with_store, SubmitBo, Answers, Buffers, gem_submit}
use lima_backport_sprd7730se.Ioctl.{
  File, Args, User, store_of, ctxs_of, with_ctxs, submit_of, out_ctx, out_bos, out_task, with_task,
  with_ctx, ioctl_gem_submit,
}
use lima_backport_sprd7730se.Ioctl.Checks.{usable, first_failing, checks, all_pass, not_lem}
use lima_backport_sprd7730se.Ioctl.Refusal.{with_bos-some}

with_task-some :
    (a : Answers) (u : User) (args : Args) (c : ℕ) (bos : List SubmitBo) (frame : ℕ → ℕ) (g : File)
    → u.frame ≡ some frame
    → with_task a u args c bos g ≡ (
        gem_submit a (submit_of u args c bos frame g) g.bufs >>= λ r.
        out_task r.0 c (record g { bufs = r.1 }))
unfolding with_task
with_task-some a u args c bos frame g h = rw (h, with_task) refl

-- Whether the pipe took the task.
abbrev pub taken : Result (Unit {0}) → ℕ
taken (ok u) = 1
taken (err e) = 0

-- The file after a submit that left the buffers `b`: the array is gone, the task stays if the pipe
-- took it, and the reference of the context stays with the task or is put.
pub record Settled (f : File) (c : ℕ) (r : Result (Unit {0})) (b : Buffers) (g : File)
    : Type 0 where
  pub arrays : g.arrays ≡ f.arrays
  pub tasks : g.tasks ≡ f.tasks + taken r
  pub refs :
      (a : ℕ)
      → (store_of g).refcount a + (if c == a then 1 - taken r else 0) ≡ b.pipe.store.refcount a
  pub queue : g.bufs.pipe.queue ≡ b.pipe.queue
  pub resv : g.bufs.resv ≡ b.resv
  pub bufs : g.bufs ≡ with_store (store_of g) b
  pub handles : g.ctxs.handles ≡ f.ctxs.handles
  pub vm : g.vm ≡ f.vm

out_task-Settled :
    (r : Result (Unit {0})) (c : ℕ) (f g : File)
    → g.arrays ≡ f.arrays + 1
    → g.tasks ≡ f.tasks + 1
    → (g.ctxs.handles ≡ f.ctxs.handles) × (g.vm ≡ f.vm)
    → 1 ≤ (store_of g).refcount c
    → (h : File) × (out_task r c g ≡ some (r, h)) × Settled f c r g.bufs h
unfolding out_task out_bos out_ctx
out_task-Settled (ok u) c f g x y same one =
    let some_left : (g.arrays == 0) ≡ false = ground (arith, x) in
    (
      record g { arrays = g.arrays - 1 },
      if_false _ _ some_left,
      record {
        arrays = omega (arith, x);
        tasks = y;
        refs = λ a. ground arith;
        queue = refl;
        resv = refl;
        bufs = refl;
        handles = same.0;
        vm = same.1;
      },
    )
out_task-Settled (err e) c f g x y same one =
    let some_left : (g.arrays == 0) ≡ false = ground (arith, x) in
    let task_left : (g.tasks == 0) ≡ false = ground (arith, y) in
    (
      _,
      if_false _ _ task_left
          ∙ (if_false _ _ some_left ∙ >>=-some _ (ctx_put-some c (ctxs_of g) one) refl),
      record {
        arrays = omega (arith, x);
        tasks = omega (arith, y);
        refs = λ a. ground (arith, one);
        queue = refl;
        resv = refl;
        bufs = refl;
        handles = same.0;
        vm = same.1;
      },
    )

-- The state in which lima_gem_submit is called: the file with a reference of the context.
abbrev pub entered : ℕ → File → File
entered c f =
    with_ctxs
      (record f.ctxs {
        store = record (store_of f) {
          refcount = update (store_of f).refcount c ((store_of f).refcount c + 1);
        };
        held = f.ctxs.held ++ c ∷ [];
      })
      f

-- The lookup of a context that can be used.
found-usable :
    (a : Answers) (u : User) (args : Args) (o : Option ℕ) (c : ℕ) (f : File)
    → usable o f.ctxs ≡ some c
    → 1 ≤ (store_of f).refcount c
    → (take_found o (ctxs_of f) >>= λ r. with_ctx a u args r.0 (with_ctxs r.1 f))
      ≡ with_ctx a u args (some c) (entered c f)
found-usable a u args none c f h one = cc
found-usable a u args (some x) c f h one = elim (Bool-cases (f.ctxs.freed x)) [
  | inl fr ↦ let k = rw (fr) at h in cc
  | inr nf ↦
      let same : x ≡ c = some_inj (rw (nf) at h) in
      let nf' = rw (same) at nf in
      rw (same) (>>=-some _ (if_false _ _ nf' ∙ >>=-some _ (get-some c (store_of f) one) refl) refl)
]

-- A submit that passes all checks returns what lima_gem_submit returns for the found context, the
-- copied buffers and the copied frame; the array of the buffers is freed in any case, the task and the
-- reference of the context are kept just when lima_gem_submit succeeds, and all other counts, the queue
-- and the reservation objects are as lima_gem_submit leaves them. The context must be alive before
-- and after the call.
pub ioctl_gem_submit-gem_submit :
    (a : Answers) (u : User) (args : Args) (f : File) (c : ℕ) (bos : List SubmitBo) (frame : ℕ → ℕ)
    (r : Result (Unit {0}) × Buffers)
    → first_failing (checks u args f) ≡ none
    → usable (idr_find args.ctx f.ctxs.handles) f.ctxs ≡ some c
    → u.bos ≡ some bos
    → u.frame ≡ some frame
    → 1 ≤ (store_of f).refcount c
    → gem_submit a (submit_of u args c bos frame f) (entered c f).bufs ≡ some r
    → 1 ≤ r.1.pipe.store.refcount c
    → (g : File) × (ioctl_gem_submit a u args f ≡ some (r.0, g)) × Settled f c r.0 r.1 g
unfolding ioctl_gem_submit ctx_get with_ctx
ioctl_gem_submit-gem_submit a u args f c bos frame r h found bos_there frame_there one submitted
      after =
    let (b1, (b2, (b3, (b4, (b5, (b6, (b7, b8))))))) = all_pass (checks u args f) h in
    let g1 : File = record (entered c f) { arrays = f.arrays + 1 } in
    let g2 : File = record g1 { tasks = f.tasks + 1 } in
    let (g, e, s) =
      out_task-Settled r.0 c f (record g2 { bufs = r.1 }) refl refl (refl, refl) after in
    (
      g,
      if_false _ _ b1
          ∙ (if_false _ _ b2
              ∙ (if_false _ _ b3
                  ∙ (found-usable a u args (idr_find args.ctx f.ctxs.handles) c f found one
                      ∙ (if_true _ _ (not_lem u.bos_allocated b5)
                          ∙ (with_bos-some a u args c g1 bos bos_there
                              ∙ (if_true _ _ (not_lem u.task_allocated b7)
                                  ∙ (with_task-some a u args c bos frame g2 frame_there
                                      ∙ >>=-some _ submitted e))))))),
      s,
    )
