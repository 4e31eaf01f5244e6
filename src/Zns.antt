-- ===== src/Zns.antt =====
-- The zoned namespaces: zns_ftl.c, zns_ftl.h, zns_mgmt_send.c, zns_mgmt_recv.c and zns_read_write.c.
pub mod Config
pub mod State
pub mod Send
pub mod Resources
pub mod Init
pub mod Io
pub mod Write
pub mod Read
pub mod Recv
pub mod Dispatch
