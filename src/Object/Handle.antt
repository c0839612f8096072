-- ===== src/Object/Handle.antt =====
-- Handles of buffers and their pages: lima_gem_create_handle, lima_gem_free_object and lima_gem_fault of
-- lima_gem.c, lima_ioctl_gem_create of lima_drv.c.
-- A buffer is counted by the number of its references. drm_gem_handle_create, which takes one for the
-- handle, and drm_gem_create_mmap_offset are parameters.
use lima_backport_sprd7730se.Prelude.{
  ℕ, ◌-◌, ◌/◌, not, ◌||◌, Bool, Option, none, some, ◌==◌, leb, if◌then◌else◌,
}
use lima_backport_sprd7730se.Errno.{einval, enomem, Result, ok, err}
use lima_backport_sprd7730se.Fence.{◌>>=◌}
use lima_backport_sprd7730se.Object.{Mem, Buffer, Kernel}
use lima_backport_sprd7730se.Object.Create.{bo_create, bo_destroy}

-- `drm_gem_object_put` of an object with so many references; the last one is lima_gem_free_object.
unfoldable pub object_put : ℕ → Buffer → Mem → Option (ℕ × Mem)
object_put refs b m =
    if refs == 0
    then none
    else if refs == 1
    then (bo_destroy b m >>= λ q. some (0, q))
    else some (refs - 1, m)

-- The answers of the DRM core.
pub record Drm : Type 0 where
  pub handle_create : Result ℕ
  pub mmap_offset : Result (Unit {0})

-- With the handle and the buffer after a success, and the references that are left.
abbrev pub Handled : Type 0
Handled = Result (ℕ × Buffer) × (ℕ × Mem)

-- What follows drm_gem_handle_create, if that succeeded.
unfoldable pub with_handle : Drm → ℕ → Buffer → Mem → Option Handled
unfolding object_put
with_handle d handle b m = elim d.mmap_offset [
  | err e ↦ object_put 2 b m >>= λ r. object_put r.0 b r.1 >>= λ s. some (err e, s)
  | ok u ↦ object_put 2 b m >>= λ r. some (ok (handle, b), r)
]

-- What follows the creation of the buffer.
unfoldable pub after_create : Drm → Result Buffer × Mem → Option Handled
unfolding with_handle
after_create d (err e, m) = some (err e, (0, m))
after_create d (ok b, m) = elim d.handle_create [
  | err e ↦ object_put 1 b m >>= λ r. some (err e, r)
  | ok handle ↦ with_handle d handle b m
]

-- lima_gem_create_handle.
unfoldable pub create_handle : Kernel → Drm → ℕ → Mem → Option Handled
unfolding after_create
create_handle a d size m = bo_create a none size m >>= after_create d

-- lima_ioctl_gem_create.
unfoldable pub ioctl_gem_create : Kernel → Drm → ℕ → ℕ → ℕ → Mem → Option Handled
unfolding create_handle
ioctl_gem_create a d size flags pad m =
    if not (flags == 0) || not (pad == 0)
    then some (err einval, (0, m))
    else if size == 0
    then some (err einval, (0, m))
    else create_handle a d size m

-- What lima_gem_fault answers.
pub data Fault : Type 0 where
  sigbus oom nopage : Fault

-- The answer for the value of `vm_insert_page`.
abbrev pub inserted : Result (Unit {0}) → Fault
inserted (ok u) = nopage
inserted (err enomem) = oom
inserted (err e) = sigbus

-- lima_gem_fault at an address of a mapping that starts at `vm_start`: the page that is
-- inserted, if one is, and the answer. `has_pages` tells whether the buffer has an array of pages. The
-- number 0 is the null pointer, and `none` is the crash of vm_insert_page, which reads its page.
unfoldable pub gem_fault :
    (ℕ → Result (Unit {0})) → ℕ → ℕ → Bool → Buffer → Option (Option ℕ × Fault)
gem_fault insert_page vm_start address has_pages b =
    let page = b.arrays.pages ((address - vm_start) / 4096) in
    if not has_pages
    then some (none, sigbus)
    else if leb (b.size / 4096) ((address - vm_start) / 4096)
    then some (none, sigbus)
    else if page == 0
    then none
    else some (some page, inserted (insert_page page))
