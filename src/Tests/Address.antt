-- ===== src/Tests/Address.antt =====
-- Addresses and page numbers at concrete inputs.
use nvmevirt_fdp.Prelude.{◌<◌, ◌≡◌, ◌↔◌, refl, arith, true, some}
use nvmevirt_fdp.Ssd.Address.{Ppa, IsPpa, same_blk, same_pg, blk_in_ssd}
use nvmevirt_fdp.Ssd.Address.Laws.{blk_in_ssd_iff}
use nvmevirt_fdp.Ssd.Geometry.{InDevice, pgidx, ppa2pgidx}
use nvmevirt_fdp.Ssd.Geometry.Index.{ppa2pgidx_ok, pgidx-injective, pgidx-surjective}
use nvmevirt_fdp.Tests.Devices.{tiny, tiny-IsGeometry}

abbrev page : Ppa
page = record { pg = 3; blk = 2; pl = 0; lun = 1; ch = 1; rsv = 0 }

page-IsPpa : IsPpa page
page-IsPpa = omega arith

page-InDevice : InDevice tiny page
page-InDevice = omega arith

blk_in_ssd_iff_example : (blk_in_ssd page ≡ blk_in_ssd page) ↔ (same_blk page page ≡ true)
blk_in_ssd_iff_example = blk_in_ssd_iff page page page-IsPpa page-IsPpa

ppa2pgidx_ok_example : (ppa2pgidx tiny page ≡ some (pgidx tiny page)) × (pgidx tiny page < 48)
ppa2pgidx_ok_example = ppa2pgidx_ok tiny page tiny-IsGeometry page-InDevice

pgidx-injective_example : same_pg page page ≡ true
pgidx-injective_example =
    pgidx-injective tiny page page tiny-IsGeometry page-InDevice page-InDevice refl

pgidx-surjective_example : (p : Ppa) × InDevice tiny p × (pgidx tiny p ≡ 41)
pgidx-surjective_example = pgidx-surjective tiny 41 tiny-IsGeometry (omega arith)
