-- ===== src/Kv.antt =====
-- kv_ftl.c and kv_ftl.h: the key-value FTL; append_only.c: its allocator of memory.
pub mod Table
pub mod Memory
pub mod Bitmap
pub mod Io
pub mod Dispatch
pub mod Iter
pub mod Batch
