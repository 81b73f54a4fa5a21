-- ===== src/Lkm.antt =====
-- The kernel module, lkm/.
pub mod Errno
pub mod Layout
pub mod Memory
pub mod Pagelist
pub mod FreeList
pub mod PageTable
pub mod Mapping
pub mod Xarray
pub mod Threads
pub mod System
pub mod PgdRange
pub mod Fops
pub mod Pivot
pub mod Ioctl
pub mod Symbols
pub mod Debug
pub mod Device
