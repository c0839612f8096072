-- ===== src/Ioctl.antt =====
-- The ioctls: lima_drv.c of src-kernel/drivers/gpu/drm/lima.
pub mod Unwind
pub mod Checks
pub mod Refusal
pub mod Accept
pub mod Returns
pub mod Machine
pub mod Calls
pub mod Module
pub mod Session
pub mod Close
use lima_backport_sprd7730se.Prelude.{
  ℕ, ◌+◌, ◌-◌, Bool, true, false, not, ◌||◌, Option, none, some, List, [], ◌∷◌, ◌==◌, leb,
  if◌then◌else◌,
}
use lima_backport_sprd7730se.Errno.{einval, enomem, efault, Errno, Result, ok, err, Long}
use lima_backport_sprd7730se.Fence.{Fences, ◌>>=◌}
use lima_backport_sprd7730se.Ctx.{Ctxs, ctx_get, ctx_put, ctx_create, ctx_free}
use lima_backport_sprd7730se.Ctx.Balance.{drop_one}
use lima_backport_sprd7730se.Gem.{SubmitBo, Submit, Answers, Buffers, gem_submit}
use lima_backport_sprd7730se.Device.Ip.{Gpu, mali400, mali450}

-- What a file sees: its contexts and a pipe with the buffers, which share one store of counts, that of
-- the pipe; the arrays and the tasks of the pipe's slab that are allocated; and its address space. The
-- pipe is the one that the arguments of the submit name: the GP or the PP.
pub record File : Type 0 where
  pub ctxs : Ctxs
  pub bufs : Buffers
  pub arrays : ℕ
  pub tasks : ℕ
  pub vm : ℕ

-- `struct drm_lima_gem_submit` without the pointers.
pub record Args : Type 0 where
  pub pipe : ℕ
  pub nr_bos : ℕ
  pub flags : ℕ
  pub frame_size : ℕ
  pub ctx : ℕ
  pub in_sync0 : ℕ
  pub in_sync1 : ℕ
  pub out_sync : ℕ

-- The answers of the allocators and what is copied from the user, `none` where that faults; the
-- frame size of each pipe, and the context of each pipe in `struct lima_ctx`.
pub record User : Type 0 where
  pub bos_allocated : Bool
  pub bos : Option (List SubmitBo)
  pub task_allocated : Bool
  pub frame : Option (ℕ → ℕ)
  pub pipe_frame_size : ℕ → ℕ
  pub context_of : ℕ → ℕ → ℕ

abbrev pub store_of : File → Fences
store_of f = f.bufs.pipe.store

abbrev pub with_store : Fences → File → File
with_store s f = record f { bufs = record f.bufs { pipe = record f.bufs.pipe { store = s } } }

-- The contexts with the common store.
abbrev pub ctxs_of : File → Ctxs
ctxs_of f = record f.ctxs { store = store_of f }

abbrev pub with_ctxs : Ctxs → File → File
with_ctxs m f = record (with_store m.store f) { ctxs = m }

-- From `out_ctx` on.
unfoldable pub out_ctx : Result (Unit {0}) → ℕ → File → Option (Result (Unit {0}) × File)
out_ctx (ok u) c f = some (ok u, f)
out_ctx (err e) c f =
    ctx_put c (ctxs_of f) >>= λ m. some (err e, with_ctxs (record m { held = drop_one c m.held }) f)

-- From `out_bos` on.
unfoldable pub out_bos : Result (Unit {0}) → ℕ → File → Option (Result (Unit {0}) × File)
unfolding out_ctx
out_bos r c f = if f.arrays == 0 then none else out_ctx r c (record f { arrays = f.arrays - 1 })

-- From `out_task` on: the pipe owns the task after a success.
unfoldable pub out_task : Result (Unit {0}) → ℕ → File → Option (Result (Unit {0}) × File)
unfolding out_bos
out_task (ok u) c f = out_bos (ok u) c f
out_task (err e) c f =
    if f.tasks == 0 then none else out_bos (err e) c (record f { tasks = f.tasks - 1 })

abbrev pub submit_of : User → Args → ℕ → List SubmitBo → (ℕ → ℕ) → File → Submit
submit_of u args c bos frame f = record {
  ctx = c;
  context = u.context_of c args.pipe;
  vm = f.vm;
  bos = bos;
  flags = args.flags;
  in_sync0 = args.in_sync0;
  in_sync1 = args.in_sync1;
  out_sync = args.out_sync;
  frame = frame;
}

-- With a context, the buffers and a task.
unfoldable pub with_task :
    Answers → User → Args → ℕ → List SubmitBo → File → Option (Result (Unit {0}) × File)
unfolding out_task
with_task a u args c bos f = elim u.frame [
  | none ↦ out_task (err efault) c f
  | some frame ↦ gem_submit a (submit_of u args c bos frame f) f.bufs >>= λ r.
      out_task r.0 c (record f { bufs = r.1 })
]

-- With a context and the array for the buffers.
unfoldable pub with_bos : Answers → User → Args → ℕ → File → Option (Result (Unit {0}) × File)
unfolding with_task
with_bos a u args c f = elim u.bos [
  | none ↦ out_bos (err efault) c f
  | some bos ↦
      if u.task_allocated
      then with_task a u args c bos (record f { tasks = f.tasks + 1 })
      else out_bos (err enomem) c f
]

-- With what the lookup of the context gave.
unfoldable pub with_ctx :
    Answers → User → Args → Option ℕ → File → Option (Result (Unit {0}) × File)
unfolding with_bos
with_ctx a u args none f = some (err einval, f)
with_ctx a u args (some c) f =
    if u.bos_allocated
    then with_bos a u args c (record f { arrays = f.arrays + 1 })
    else out_ctx (err enomem) c f

-- lima_ioctl_gem_submit. LIMA_SUBMIT_FLAG_EXPLICIT_FENCE is 1, so that a flag outside of it makes
-- the flags 2 or more.
unfoldable pub ioctl_gem_submit : Answers → User → Args → File → Option (Result (Unit {0}) × File)
unfolding with_ctx
ioctl_gem_submit a u args f =
    if leb 2 args.pipe || args.nr_bos == 0
    then some (err einval, f)
    else if leb 2 args.flags
    then some (err einval, f)
    else if not (args.frame_size == u.pipe_frame_size args.pipe)
    then some (err einval, f)
    else (ctx_get args.ctx (ctxs_of f) >>= λ r. with_ctx a u args r.0 (with_ctxs r.1 f))
