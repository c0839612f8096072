-- ===== src/Core.antt =====
-- The cores that run tasks: lima_gp.c, lima_pp.c and their registers of
-- src-kernel/drivers/gpu/drm/lima. A read of a register is an argument, the writes are a list of
-- registers and values in order.
pub mod Regs
pub mod Gp
pub mod Pp
pub mod PpTask
pub mod Start
pub mod Bringup
pub mod Count
pub mod Irqs
