-- ===== src/Vm.antt =====
-- GPU address spaces: lima_vm.c and lima_vm.h of src-kernel/drivers/gpu/drm/lima.
-- `Tables` has the page tables, `Bo` the mappings of buffers; the other children prove.
pub mod Tables
pub mod Entries
pub mod Unmap
pub mod Map
pub mod Create
pub mod Release
pub mod Bo
