-- ===== src/Lib.antt =====
-- The lima driver for Mali-400/450 GPUs as backported to the 3.10 kernel of the SPRD 7730SE: a model of
-- src-kernel/drivers/gpu/drm/lima and what is proved of it.
--
-- The driver's parts. User programs submit tasks through ioctls (lima_drv.c, lima_gem.c). A submit finds
-- the buffers, maps them into the file's GPU address space (lima_vm.c), collects the fences it has to
-- wait for from the buffers' reservation objects (lima_compat.c) and queues the task on a pipe, the GP or
-- the PP (lima_sched.c). The pipe's ordered workqueue runs one task at a time: it waits for the
-- dependencies, switches the MMUs to the task's space and starts the cores (lima_gp.c, lima_pp.c); their
-- interrupts, an MMU fault or a timeout lead to the done work, which signals the task's fence and drops
-- its references. lima_device.c brings the hardware up and takes it down.
--
-- Which file models what. Paths are under src-kernel/drivers/gpu/drm/lima.
--   Errno, Prelude: error codes and results; shared names, tests, lists, bits.
--   Fence: dma_fence of lima_compat.c and lima_compat_fence.h, `create`, `get`, `put`, `signal`,
--     `signal_error`, `wait_timeout` for lima_fence_create, dma_fence_get and so on. A store holds the
--     counts of all counted objects (fences, buffers, contexts, spaces) by address; `none` is the use of a
--     freed object.
--   Resv: lima_resv_* of lima_compat.c.
--   Vm: Vm/Tables has lima_vm_map_page_table and lima_vm_unmap_page_table over a directory and block
--     tables of 32-bit words, Vm/Bo has lima_vm_bo_add, lima_vm_bo_del and lima_vm_get_va,
--     Vm/Create lima_vm_create, Vm/Release lima_vm_release.
--   Sched: Sched/Task and Sched/Pipe have the functions of lima_sched.c under their names without the
--     prefix; Sched/Engine is the machine of all the events of a pipe, Sched/Engine/Fifo the queue
--     that its users see.
--   Device: Device/Power is lima_platform_sprd.c, Device/Ip the table of blocks, Device/Parts the
--     parts of the initialisation, and Device/Init lima_device_init and lima_device_fini, an error label
--     being a function (`err_out0` to `err_out6`).
--   Core: Core/Regs the constants of lima_regs.h, Core/Gp lima_gp.c, Core/Pp and Core/PpTask
--     lima_pp.c with lima_dlbu.c and lima_bcast.c. A read of a register is an argument, the writes are a list.
--     Core/Bringup has the functions that initialise the blocks.
--   Ctx: lima_ctx.c, a table of handles over the store of counts.
--   Object: lima_object.c over counts of what the kernel has given out; Object/Handle has
--     lima_gem_create_handle, lima_gem_fault and the ioctl that creates a buffer, Object/Prime
--     lima_gem_prime.c.
--   Mmu: lima_mmu.c, lima_l2_cache.c in Mmu/Cache, lima_pmu.c in Mmu/Pmu; readl_poll_timeout of
--     lima_compat.h is `poll`, on fuel, for which the reads up to the deadline are enough.
--   Ioctl: lima_ioctl_gem_submit of lima_drv.c, with its error labels as functions; Ioctl/Calls the other
--     ioctls, Ioctl/Session opening and closing a file, Ioctl/Returns
--     takes the ioctl and all it uses together, Ioctl/Machine interleaves it with what happens on the pipe,
--     Ioctl/Module the driver's probe and module.
--   Gem: lima_gem_submit, lima_gem_add_deps, lima_gem_wait, lima_timeout_abs_to_jiffies. Gem/Submits
--     takes the buffers, their objects and the pipe together.
--   Examples: the theorems at concrete inputs.
--
-- Parameters. The kernel's waits, allocators, drm_mm, clocks, regulators and the hardware's answers are
-- arguments. `WaitLaws` (Fence/Waits) says that a wait keeps completed fences completed and wakes up for a
-- completed fence; `NodeLaws` (Vm/Bo/Add) says that drm_mm gives free, aligned nodes inside its range.
--
-- Numbers. u32 and u64 values wrap where the code lets them (`% 2 ^ 32`, `% 2 ^ 64`). The loops of lima_vm.c
-- and the triple read of the power domain run on fuel; more rounds than pages, and one round more than
-- it takes until three reads agree, are enough.
--
-- Not modelled: what only prints, the writes to the power registers, whose macros are not in the repository,
-- and the registration with the DRM core, a parameter. lima_sched_pipe_fini is one call of the kernel. The
-- works of a pipe are single steps, since its workqueue is ordered; a submit is a single step as well, so the
-- interleaving of a submit's last loop with the completion of its task is not covered. A wait for a
-- dependency, which has no time limit in the code, returns in the model. Ioctl/Machine is the machine of one
-- pipe, and its histories submit to that pipe alone. The mask of the processors that are done is a
-- function of their number, which agrees with the code's word for the frames that lima_pp_task_validate
-- accepts. The copy of
-- the driver under authored and the one of Linux under reference are left aside.
pub mod Prelude
pub mod Errno
pub mod Fence
pub mod Resv
pub mod Vm
pub mod Sched
pub mod Device
pub mod Core
pub mod Gem
pub mod Examples
pub mod Object
pub mod Ctx
pub mod Ioctl
pub mod Mmu
