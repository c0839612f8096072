-- ===== src/Ioctl/Calls.antt =====
-- The ioctls besides the submit and the creation of a buffer: lima_ioctl_get_param, lima_ioctl_gem_info,
-- lima_ioctl_gem_wait, lima_ioctl_ctx_create and lima_ioctl_ctx_free of lima_drv.c, lima_gem_get_info of
-- lima_gem.c.
use lima_backport_sprd7730se.Prelude.{
  ℕ, ◌*◌, ◌%◌, ◌^◌, Bool, Option, none, some, ◌==◌, if◌then◌else◌,
}
use lima_backport_sprd7730se.Errno.{einval, enoent, Result, ok, err, Long}
use lima_backport_sprd7730se.Fence.{Fences, Waiting, get, put}
use lima_backport_sprd7730se.Resv.{Resv}
use lima_backport_sprd7730se.Vm.Tables.{Run, and_then, returns}
use lima_backport_sprd7730se.Vm.Bo.{Vm, Bo, get_va}
use lima_backport_sprd7730se.Device.Ip.{Gpu, mali400, mali450}
use lima_backport_sprd7730se.Ctx.{Ctxs, ctx_create, ctx_free}
use lima_backport_sprd7730se.Gem.{timeout_abs_to_jiffies, gem_wait}

-- DRM_LIMA_PARAM_GPU_ID_MALI400 and DRM_LIMA_PARAM_GPU_ID_MALI450.
abbrev pub gpu_id : Gpu → ℕ
gpu_id mali400 = 1
gpu_id mali450 = 2

-- What lima_device.c notes of the hardware.
pub record Params : Type 0 where
  pub id : Gpu
  pub num_pp : ℕ
  pub gp_version : ℕ
  pub pp_version : ℕ

-- lima_ioctl_get_param.
unfoldable pub ioctl_get_param : Params → ℕ → Result ℕ
ioctl_get_param d param =
    if param == 0
    then ok (gpu_id d.id)
    else if param == 1
    then ok d.num_pp
    else if param == 2
    then ok d.gp_version
    else if param == 3
    then ok d.pp_version
    else err einval

-- With the address in the space of the file: the offset is `map_list.hash.key << PAGE_SHIFT`.
abbrev pub with_va : ℕ → ℕ → Option Fences → Run (Option (Result (ℕ × ℕ) × Fences))
with_va key va none = returns none
with_va key va (some s) = returns (some (ok (va, key * 2 ^ 12 % 2 ^ 64), s))

-- With the buffer at `x`, which has a reference from the lookup.
abbrev pub with_object :
    (ℕ → Bo) → (ℕ → ℕ) → Vm → ℕ → Option Fences → Run (Option (Result (ℕ × ℕ) × Fences))
with_object bo_at key vm x none = returns none
with_object bo_at key vm x (some s) =
    and_then (get_va vm (bo_at x)) λ va. with_va (key x) va (put (some x) s)

-- lima_gem_get_info, which is lima_ioctl_gem_info: `key` is the mmap offset that the DRM core gave.
unfoldable pub gem_get_info :
    (ℕ → Option ℕ) → (ℕ → Bo) → (ℕ → ℕ) → Vm → ℕ → Fences → Run (Option (Result (ℕ × ℕ) × Fences))
unfolding get_va
gem_get_info lookup bo_at key vm handle s = elim (lookup handle) [
  | none ↦ returns (some (err enoent, s))
  | some x ↦ with_object bo_at key vm x (get x s)
]

-- lima_ioctl_gem_wait, with the clock at `now` and the kernel's `nsecs_to_jiffies`.
unfoldable pub ioctl_gem_wait :
    Waiting
    → (ℕ → Option ℕ)
    → (ℕ → Resv)
    → Bool
    → (ℕ → ℕ)
    → ℕ
    → ℕ
    → ℕ
    → ℕ
    → Fences
    → Option (Result (Unit {0}) × Fences)
unfolding gem_wait timeout_abs_to_jiffies
ioctl_gem_wait w lookup resv allocated nsecs_to_jiffies now handle op timeout_ns s =
    gem_wait w lookup resv allocated handle op
      (timeout_abs_to_jiffies nsecs_to_jiffies timeout_ns now) s

-- lima_ioctl_ctx_create, with the answers of lima_ctx_create.
unfoldable pub ioctl_ctx_create : Option ℕ → Bool → Long → ℕ → Ctxs → Result ℕ × Ctxs
unfolding ctx_create
ioctl_ctx_create fresh pre_get id pad m =
    if pad == 0 then ctx_create fresh pre_get id m else (err einval, m)

-- lima_ioctl_ctx_free.
unfoldable pub ioctl_ctx_free : ℕ → ℕ → Ctxs → Option (Result (Unit {0}) × Ctxs)
unfolding ctx_free
ioctl_ctx_free id pad m = if pad == 0 then ctx_free id m else some (err einval, m)
