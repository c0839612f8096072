-- ===== src/Ioctl/Session.antt =====
-- A file from its opening to its close: lima_drm_open and lima_drm_postclose of lima_drv.c.
use lima_backport_sprd7730se.Prelude.{
  ℕ, ◌+◌, ◌-◌, Bool, Option, none, some, List, ◌==◌, if◌then◌else◌,
}
use lima_backport_sprd7730se.Errno.{enomem, Result, ok, err}
use lima_backport_sprd7730se.Fence.{Fences, ◌>>=◌}
use lima_backport_sprd7730se.Vm.Tables.{Tables, Run, returns, and_then}
use lima_backport_sprd7730se.Vm.Create.{Heap, vm_create}
use lima_backport_sprd7730se.Vm.Release.{vm_put}
use lima_backport_sprd7730se.Ctx.{Ctxs, mgr_init, mgr_fini}

-- `struct lima_drm_priv` with the reference count of its space.
pub record Priv : Type 0 where
  pub vm : Tables
  pub vm_refs : ℕ
  pub ctxs : Ctxs

-- How many of these structs, spaces and directories are allocated.
pub record Memory : Type 0 where
  pub privs : ℕ
  pub heap : Heap

-- The answers of the allocators.
pub record Opening : Type 0 where
  pub priv_allocated : Bool
  pub vm_allocated : Bool
  pub directory : Option ℕ
  pub dlbu : Option ℕ
  pub table : ℕ → Option ℕ

-- What follows lima_vm_create.
abbrev pub after_vm : Fences → Memory → Option Tables × Heap → Run (Result Priv × Memory)
after_vm store m (none, h) = returns (err enomem, record { privs = m.privs + 1 - 1; heap = h })
after_vm store m (some vm, h) = returns (
  ok (record { vm = vm; vm_refs = 1; ctxs = mgr_init store }),
  record { privs = m.privs + 1; heap = h },
)

-- lima_drm_open.
unfoldable pub drm_open : ℕ → Opening → Fences → Memory → Run (Result Priv × Memory)
unfolding vm_create mgr_init
drm_open fuel o store m =
    if o.priv_allocated
    then and_then (vm_create fuel o.vm_allocated o.directory o.dlbu o.table m.heap)
        (after_vm store m)
    else returns (err enomem, m)

-- lima_drm_postclose: the contexts, the references of the space that are left, the memory that was
-- freed, and what is still allocated.
unfoldable pub drm_postclose : Priv → Memory → Option (Ctxs × (ℕ × (List ℕ × Memory)))
unfolding mgr_fini vm_put
drm_postclose p m = mgr_fini p.ctxs >>= λ c. vm_put p.vm_refs p.vm m.heap >>= λ r.
    if m.privs == 0
    then none
    else some (c, (r.0, (r.1.0, record { privs = m.privs - 1; heap = r.1.1 })))
