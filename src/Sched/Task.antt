-- ===== src/Sched/Task.antt =====
-- Tasks and the references that they own: lima_sched_task_init, lima_sched_task_fini and
-- lima_sched_task_add_dep of lima_sched.c.
-- Buffers, contexts and address spaces are counted objects like fences, so they live in the same
-- store, by address. What a last reference frees besides the object is not part of this module.
use lima_backport_sprd7730se.Prelude.{
  ℕ, Bool, Option, none, some, List, [], ◌∷◌, ◌++◌, if◌then◌else◌, option_list,
}
use lima_backport_sprd7730se.Errno.{enomem, Result, ok, err}
use lima_backport_sprd7730se.Fence.{Fences, ◌>>=◌, create, get, put}
use lima_backport_sprd7730se.Fence.Refs.{put_all}

-- `struct lima_sched_task`, all pointers being addresses; `frame` is what the user submitted.
pub record Task : Type 0 where
  pub context : ℕ
  pub ctx : Option ℕ
  pub vm : ℕ
  pub frame : ℕ → ℕ
  pub deps : List ℕ
  pub bos : List ℕ
  pub fence : ℕ

-- `fresh` is the answer of the fence slab. On failure the address space is put again.
unfoldable pub task_init :
    Option ℕ → ℕ → List ℕ → ℕ → (ℕ → ℕ) → Fences → Option (Result Task × Fences)
task_init fresh context bos vm frame s = get vm s >>= λ t. elim (create fresh t).0 [
  | none ↦ put (some vm) (create fresh t).1 >>= λ u. some (err enomem, u)
  | some fence ↦ some (
    ok (record {
      context = context;
      ctx = none;
      vm = vm;
      frame = frame;
      deps = [];
      bos = bos;
      fence = fence;
    }),
    (create fresh t).1,
  )
]

-- The references that a task owns, in the order in which they are put.
abbrev pub owned : Task → List ℕ
owned t = t.deps ++ (t.bos ++ (option_list t.ctx ++ t.vm ∷ t.fence ∷ []))

unfoldable pub task_fini : Task → Fences → Option Fences
task_fini t s = put_all t.deps s >>= λ s1. put_all t.bos s1 >>= λ s2.
    put t.ctx s2 >>= λ s3. put (some t.vm) s3 >>= λ s4. put (some t.fence) s4

-- `allocated`: whether `krealloc` succeeds. The task takes over the caller's reference.
unfoldable pub task_add_dep : Bool → Task → ℕ → Result Task
task_add_dep allocated t fence =
    if allocated then ok (record t { deps = t.deps ++ fence ∷ [] }) else err enomem
