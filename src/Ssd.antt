-- ===== src/Ssd.antt =====
-- The NAND device behind the FTLs: ssd.c, ssd.h, ssd_config.h and channel_model.c.
pub mod Config
pub mod Address
pub mod Geometry
pub mod Channel
pub mod Nand
pub mod Media
pub mod Buffer
