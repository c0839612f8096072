-- ===== src/Gem.antt =====
-- The buffer side of the driver: lima_gem_submit, lima_gem_add_deps and lima_gem_wait of lima_gem.c,
-- lima_timeout_abs_to_jiffies of lima_compat.h. Buffers are counted objects in the store of a pipe,
-- by address; drm_gem_object_lookup is the parameter `find`, and a lookup takes a reference.
pub mod Collect
pub mod Idle
pub mod Deps
pub mod Publish
pub mod Start
pub mod System
pub mod Queued
pub mod Begin
pub mod Submits
pub mod Follows
use lima_backport_sprd7730se.Prelude.{
  ℕ, ◌+◌, ◌-◌, ◌%◌, ◌^◌, Bool, true, false, not, ◌||◌, ◌&&◌, Option, none, some, List, [], ◌∷◌,
  ◌++◌, ◌==◌, leb, ltb, if◌then◌else◌, has_bits, update,
}
use lima_backport_sprd7730se.Errno.{
  einval, enoent, enomem, etime, Errno, Result, ok, err, nonneg, neg, Long,
}
use lima_backport_sprd7730se.Fence.{Fences, ◌>>=◌, get, put, Waiting}
use lima_backport_sprd7730se.Fence.Refs.{put_all}
use lima_backport_sprd7730se.Resv.{Resv, set_excl, get_fences, resv_wait_timeout}
use lima_backport_sprd7730se.Sched.Task.{Task, task_init, task_fini, task_add_dep}
use lima_backport_sprd7730se.Sched.Pipe.{Pipe, queue_task}

-- `struct drm_lima_gem_submit_bo`.
pub record SubmitBo : Type 0 where
  pub handle : ℕ
  pub flags : ℕ

-- `struct lima_submit`: `context` is the context of the pipe in `ctx`.
pub record Submit : Type 0 where
  pub ctx : ℕ
  pub context : ℕ
  pub vm : ℕ
  pub bos : List SubmitBo
  pub flags : ℕ
  pub in_sync0 : ℕ
  pub in_sync1 : ℕ
  pub out_sync : ℕ
  pub frame : ℕ → ℕ

-- The answers of the allocator, of lima_vm_bo_add for the k-th buffer, of the fence slab, and of
-- the allocations for the k-th buffer and its j-th fence.
pub record Answers : Type 0 where
  pub find : ℕ → Option ℕ
  pub lbos_allocated : Bool
  pub map : ℕ → Result (Unit {0})
  pub fresh : Option ℕ
  pub fences_allocated : ℕ → Bool
  pub dep_allocated : ℕ → ℕ → Bool

-- The first loop: the buffers found, the first first.
unfoldable pub look_up :
    (ℕ → Option ℕ)
    → List SubmitBo
    → List ℕ
    → Fences
    → Option (Result (Unit {0}) × (List ℕ × Fences))
look_up find [] found s = some (ok tt, (found, s))
look_up find (b ∷ bs) found s =
    if leb 4 b.flags then some (err einval, (found, s)) else elim (find b.handle) [
      | none ↦ some (err enoent, (found, s))
      | some x ↦ get x s >>= λ t. look_up find bs (found ++ x ∷ []) t
    ]

-- The second loop: the buffers mapped when it ends.
unfoldable pub map_all : (ℕ → Result (Unit {0})) → ℕ → List ℕ → List ℕ → Result (Unit {0}) × List ℕ
map_all map k [] mapped = (ok tt, mapped)
map_all map k (x ∷ xs) mapped = elim (map k) [
  | err e ↦ (err e, mapped)
  | ok u ↦ map_all map (k + 1) xs (mapped ++ x ∷ [])
]

-- `while (--i >= 0) drm_gem_object_put(...)`
unfoldable pub put_down : List ℕ → Fences → Option Fences
put_down [] s = some s
put_down (x ∷ xs) s = put_down xs s >>= put (some x)

-- `out_put` after an error of the second loop, and of the first.
abbrev after_map : List ℕ → Fences → Result (Unit {0}) × List ℕ → Option (Result (List ℕ) × Fences)
after_map found s (ok u, mapped) = some (ok found, s)
after_map found s (err e, mapped) = put_down mapped s >>= λ t. some (err e, t)

abbrev after_look_up :
    Answers → Result (Unit {0}) × (List ℕ × Fences) → Option (Result (List ℕ) × Fences)
after_look_up a (ok u, (found, s)) = after_map found s (map_all a.map 0 found [])
after_look_up a (err e, (found, s)) = put_down found s >>= λ t. some (err e, t)

-- Both loops, with what stands after `out_put`.
unfoldable pub collect : Answers → List SubmitBo → Fences → Option (Result (List ℕ) × Fences)
unfolding look_up map_all put_down
collect a bos s = look_up a.find bos [] s >>= after_look_up a

-- The inner loop of lima_gem_add_deps from the j-th fence on.
unfoldable pub add_each :
    (ℕ → Bool) → ℕ → List ℕ → Task → Fences → Option (Result (Unit {0}) × (Task × Fences))
unfolding task_add_dep
add_each allocated j [] t s = some (ok tt, (t, s))
add_each allocated j (f ∷ fs) t s = elim (task_add_dep (allocated j) t f) [
  | ok t' ↦ add_each allocated (j + 1) fs t' s
  | err e ↦ put (some f) s >>= λ s'. put_all fs s' >>= λ s''. some (err e, (t, s''))
]

-- What lima_gem_add_deps leaves: its result, the task and the store.
abbrev pub DepsResult : Type 0
DepsResult = Result (Unit {0}) × (Task × Fences)

-- After the fences of a buffer are added, and after they are got; `next` is the rest of the loop.
abbrev pub after_each : (Task → Fences → Option DepsResult) → DepsResult → Option DepsResult
after_each next (err e, y) = some (err e, y)
after_each next (ok u, (t, s)) = next t s

abbrev pub after_fences :
    (ℕ → Bool)
    → Task
    → (Task → Fences → Option DepsResult)
    → Result (List ℕ) × Fences
    → Option DepsResult
after_fences allocated t next (err e, s) = some (err e, (t, s))
after_fences allocated t next (ok fences, s) = add_each allocated 0 fences t s >>= after_each next

-- lima_gem_add_deps from the k-th buffer on.
unfoldable pub add_deps : Answers → (ℕ → Resv) → ℕ → List ℕ → Task → Fences → Option DepsResult
unfolding add_each
add_deps a resv k [] t s = some (ok tt, (t, s))
add_deps a resv k (x ∷ xs) t s =
    get_fences (a.fences_allocated k) (resv x) s
    >>= after_fences (a.dep_allocated k) t (add_deps a resv (k + 1) xs)

-- A pipe and the reservation objects of the buffers.
pub record Buffers : Type 0 where
  pub pipe : Pipe
  pub resv : ℕ → Resv

abbrev pub with_store : Fences → Buffers → Buffers
with_store s b = record b { pipe = record b.pipe { store = s } }

-- The task's fence becomes the exclusive fence of each buffer.
unfoldable pub publish : ℕ → List ℕ → Buffers → Option Buffers
publish fence [] b = some b
publish fence (x ∷ xs) b = get fence b.pipe.store >>= λ s. set_excl (b.resv x) fence s >>= λ r.
    publish fence xs (with_store r.1 (record b { resv = update b.resv x r.0 }))

-- What follows once the task has its dependencies. The context's reference goes to the task. Nothing
-- happens on the pipe between the queueing and the end of the loop that publishes the fence.
unfoldable pub queue_submit :
    Submit → List ℕ → Task → Fences → Buffers → Option (Result (Unit {0}) × Buffers)
unfolding publish
queue_submit sub lbos t s b =
    queue_task (record t { ctx = some sub.ctx }) (record b.pipe { store = s }) >>= λ q.
    publish q.0 lbos (record b { pipe = q.1 }) >>= λ c.
    put (some q.0) c.pipe.store >>= λ u. some (ok tt, with_store u c)

-- After lima_gem_add_deps, and after lima_sched_task_init.
abbrev pub after_deps :
    Submit → List ℕ → Buffers → DepsResult → Option (Result (Unit {0}) × Buffers)
after_deps sub lbos b (err e, (t, s)) = task_fini t s >>= λ s'. some (err e, with_store s' b)
after_deps sub lbos b (ok u, (t, s)) = queue_submit sub lbos t s b

abbrev pub after_init :
    Answers
    → Submit
    → List ℕ
    → Buffers
    → Result Task × Fences
    → Option (Result (Unit {0}) × Buffers)
after_init a sub lbos b (err e, s) = put_down lbos s >>= λ s'. some (err e, with_store s' b)
after_init a sub lbos b (ok t, s) = add_deps a b.resv 0 lbos t s >>= after_deps sub lbos b

-- From lima_sched_task_init on.
unfoldable pub submit_bos :
    Answers → Submit → List ℕ → Buffers → Option (Result (Unit {0}) × Buffers)
unfolding put_down add_deps queue_submit
submit_bos a sub lbos b =
    task_init a.fresh sub.context lbos sub.vm sub.frame b.pipe.store >>= after_init a sub lbos b

-- After the loops over the buffers.
abbrev pub after_collect :
    Answers → Submit → Buffers → Result (List ℕ) × Fences → Option (Result (Unit {0}) × Buffers)
after_collect a sub b (err e, s) = some (err e, with_store s b)
after_collect a sub b (ok lbos, s) = submit_bos a sub lbos (with_store s b)

abbrev pub explicit_sync : Submit → Bool
explicit_sync sub =
    has_bits sub.flags 1
    || (not (sub.in_sync0 == 0) || (not (sub.in_sync1 == 0) || not (sub.out_sync == 0)))

-- lima_gem_submit.
unfoldable pub gem_submit : Answers → Submit → Buffers → Option (Result (Unit {0}) × Buffers)
unfolding collect submit_bos
gem_submit a sub b =
    if explicit_sync sub
    then some (err einval, b)
    else if a.lbos_allocated
    then (collect a sub.bos b.pipe.store >>= after_collect a sub b)
    else some (err enomem, b)

-- lima_timeout_abs_to_jiffies, with the kernel's `nsecs_to_jiffies`: the difference is taken in 64
-- bits and tested as a signed number. The jiffies are cast to the 32-bit `long` of the CPU before 1 is
-- added; the result is the word, in two's complement.
abbrev pub ns_left : ℕ → ℕ → ℕ
ns_left abs_ns now = (abs_ns + (2 ^ 64 - now)) % 2 ^ 64

unfoldable pub timeout_abs_to_jiffies : (ℕ → ℕ) → ℕ → ℕ → ℕ
timeout_abs_to_jiffies nsecs_to_jiffies abs_ns now =
    if (ns_left abs_ns now == 0) || leb (2 ^ 63) (ns_left abs_ns now)
    then 0
    else (nsecs_to_jiffies (ns_left abs_ns now) % 2 ^ 32 + 1) % 2 ^ 32

-- The value that lima_gem_wait makes of that of lima_resv_wait_timeout.
abbrev pub wait_result : Long → Result (Unit {0})
wait_result (neg e) = err e
wait_result (nonneg n) = if n == 0 then err etime else ok tt

-- lima_gem_wait, with the timeout in jiffies, taken as not negative.
unfoldable pub gem_wait :
    Waiting
    → (ℕ → Option ℕ)
    → (ℕ → Resv)
    → Bool
    → ℕ
    → ℕ
    → ℕ
    → Fences
    → Option (Result (Unit {0}) × Fences)
gem_wait w find resv allocated handle op jiffies s =
    if leb 4 op then some (err einval, s) else elim (find handle) [
      | none ↦ some (err enoent, s)
      | some x ↦ get x s >>= λ t. resv_wait_timeout w allocated (resv x) true jiffies t >>= λ r.
          put (some x) r.1 >>= λ u. some (wait_result r.0, u)
    ]
