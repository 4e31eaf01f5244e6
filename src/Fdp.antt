-- ===== src/Fdp.antt =====
-- The FDP flash translation layer: fdp_ftl.c, fdp_ftl.h and nvme_fdp.h.
pub mod Context
pub mod Lines
pub mod State
pub mod Mapping
pub mod Pointers
pub mod Pages
pub mod Init
pub mod Gc
pub mod Remap
pub mod Namespace
