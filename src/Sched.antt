-- ===== src/Sched.antt =====
-- The FIFO engine of one pipe: lima_sched.c and lima_sched.h of src-kernel/drivers/gpu/drm/lima.
-- `run_work`, `done_work` and `timeout_work` run one at a time on the pipe's ordered workqueue, and
-- `queue_task` and `task_done` are called from ioctls and interrupt handlers. Each is one step.
pub mod Task
pub mod Pipe
pub mod Engine
pub mod Fini
