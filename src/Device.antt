-- ===== src/Device.antt =====
-- Bringing the device up and down: lima_device.c and lima_platform_sprd.c of
-- src-kernel/drivers/gpu/drm/lima.
pub mod Power
pub mod Ip
pub mod Parts
pub mod Processors
pub mod Init
pub mod Unwind
pub mod Blocks
pub mod Required
pub mod Stages
pub mod Balance
