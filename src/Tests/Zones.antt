-- ===== src/Tests/Zones.antt =====
-- The zoned namespace at concrete inputs: four zones of 128 blocks, each on two dies. The sizes of ZRWAs
-- are 0, as in the configurations of ssd_config.h.
use nvmevirt_fdp.Prelude.{◌+◌, ◌*◌, ◌≡◌, ◌≢◌, refl, true, false, arith, Returns}
use nvmevirt_fdp.Ssd.Buffer.{Buffer}
use nvmevirt_fdp.Ssd.Nand.{SsdTime, init_time}
use nvmevirt_fdp.Ssd.Nand.Laws.{IsTime, init_time-IsTime}
use nvmevirt_fdp.Fdp.Namespace.{NvmevRequest}
use nvmevirt_fdp.Zns.Config.{ZnsParams}
use nvmevirt_fdp.Zns.State.{ZnsFtl, opened_expl}
use nvmevirt_fdp.Zns.Resources.{IsAccounted, IsAccounted-HasRoom}
use nvmevirt_fdp.Zns.Init.{zns_init_ftl, init_descriptor}
use nvmevirt_fdp.Zns.Init.Fresh.{IsZoned, IsFresh, zns_init_ftl-IsFresh}
use nvmevirt_fdp.Zns.Send.{
  open_zone_explicitly, reset_zone, zmgmt_send, send_all, zsa_finish, zsa_close,
  zsa_flush_expl_zrwa,
}
use nvmevirt_fdp.Zns.Send.Opening.{open_zone-at}
use nvmevirt_fdp.Zns.Send.Keeps.{
  Managed, ManagedAll, IsLaidOut, Changed-Managed, zmgmt_send-Managed, send_all-ManagedAll,
}
use nvmevirt_fdp.Zns.Send.Outcomes.{Leaves, Erased, open_zone_explicitly-opens, reset_zone-Erased}
use nvmevirt_fdp.Zns.Io.{ZnsResult}
use nvmevirt_fdp.Zns.Write.{accept_write, zns_write_at_wp}
use nvmevirt_fdp.Zns.Write.Accepts.{Accepted, accept_write-Accepted}
use nvmevirt_fdp.Zns.Write.Total.{IsWritable}
use nvmevirt_fdp.Zns.Write.Written.{Written, zns_write_at_wp-Written}
use nvmevirt_fdp.Zns.Read.{zns_read}
use nvmevirt_fdp.Zns.Read.Total.{IsReadable, ZnsServed, zns_read-ZnsServed}
use nvmevirt_fdp.Zns.Recv.{
  ZoneMgmtRecv, ZoneReport, prp_transfer_data, zns_zmgmt_recv, check_zmgmt_rcv_option_supported,
}
use nvmevirt_fdp.Zns.Recv.Copies.{
  Carries, prp_page, Reported, prp_transfer_data-Carries, zns_zmgmt_recv-Reported,
}
use nvmevirt_fdp.Tests.Devices.{tiny}

abbrev zones : ZnsParams
zones = record {
  nr_zones = 4;
  nr_active_zones = 4;
  nr_open_zones = 4;
  dies_per_zone = 2;
  zone_size = 65536;
  zone_wb_size = 0;
  nr_zrwa_zones = 0;
  zrwafg_size = 0;
  zrwa_size = 0;
  zrwa_buffer_size = 0;
  lbas_per_zrwafg = 0;
  lbas_per_zrwa = 0;
}

zones-IsZoned : IsZoned zones tiny
zones-IsZoned = omega arith

abbrev idle : SsdTime
unfolding init_time
idle = init_time tiny (λ n. 1000 + n)

idle-IsTime : IsTime idle
unfolding init_time
idle-IsTime = init_time-IsTime tiny (λ n. 1000 + n) (omega arith) (omega arith)

abbrev buffer : Buffer
buffer = record { size = 65536; remaining = 65536 }

abbrev fresh : ZnsFtl
unfolding zns_init_ftl
fresh = zns_init_ftl zones tiny idle buffer (λ a. a)

zns_init_ftl-IsFresh_example : IsFresh (zns_init_ftl zones tiny idle buffer (λ a. a))
zns_init_ftl-IsFresh_example = zns_init_ftl-IsFresh zones tiny idle buffer (λ a. a) zones-IsZoned

fresh-IsAccounted : IsAccounted fresh
unfolding zns_init_ftl
fresh-IsAccounted = (zns_init_ftl-IsFresh zones tiny idle buffer (λ a. a) zones-IsZoned).accounted

-- Zone 1, opened with a ZRWA.
abbrev opened : ZnsFtl
unfolding open_zone_explicitly
opened = (open_zone_explicitly fresh 1 true).1

opened-Managed : Managed fresh 1 opened
unfolding open_zone_explicitly zns_init_ftl
opened-Managed = Changed-Managed fresh opened 1 fresh-IsAccounted (omega arith) (
    open_zone-at fresh 1 true (fresh.zone_descs 1).state refl
      (IsAccounted-HasRoom fresh 1 fresh-IsAccounted (omega arith)))

opened-IsAccounted : IsAccounted opened
opened-IsAccounted = opened-Managed.accounted

opened_ok : (opened.zone_descs 1).state ≡ opened_expl
unfolding open_zone_explicitly zns_init_ftl init_descriptor
opened_ok = refl

finish-ne-flush : zsa_finish ≢ zsa_flush_expl_zrwa
finish-ne-flush e = cc

close-ne-flush : zsa_close ≢ zsa_flush_expl_zrwa
close-ne-flush e = cc

zmgmt_send-Managed_example :
    Returns (λ r. Managed opened 1 r.1) (zmgmt_send 7 opened 130 zsa_finish false)
unfolding open_zone_explicitly zns_init_ftl
zmgmt_send-Managed_example =
    zmgmt_send-Managed 7 opened 130 zsa_finish false opened-IsAccounted (omega arith)
      (λ e z. absurd (finish-ne-flush e))

opened-IsLaidOut : IsLaidOut opened
unfolding open_zone_explicitly zns_init_ftl
opened-IsLaidOut = omega arith

send_all-ManagedAll_example : Returns (ManagedAll opened 4) (send_all 7 opened zsa_close false)
unfolding open_zone_explicitly zns_init_ftl
send_all-ManagedAll_example =
    send_all-ManagedAll 7 opened zsa_close false opened-IsAccounted opened-IsLaidOut
      (λ e i h z. absurd (close-ne-flush e))

open_zone_explicitly-opens_example : Leaves opened_expl 2 (open_zone_explicitly opened 2 true)
unfolding zns_init_ftl opened
open_zone_explicitly-opens_example =
    open_zone_explicitly-opens opened 2 true opened-IsAccounted (omega arith) refl

reset_zone-Erased_example : Erased opened 1 (reset_zone opened 1)
unfolding open_zone_explicitly zns_init_ftl
reset_zone-Erased_example = reset_zone-Erased opened 1 refl

accept_write-Accepted_example : Accepted opened 2 256 16 (accept_write opened 2 256 16)
unfolding open_zone_explicitly zns_init_ftl
accept_write-Accepted_example =
    accept_write-Accepted opened 2 256 16 opened-IsAccounted (omega arith) refl

-- An append of 16 blocks to zone 2.
abbrev request : NvmevRequest
request = record {
  cmd = record { opcode = 0x7d; nsid = 1; slba = 300; length = 15; control = 0; dsmgmt = 0 };
  sq_id = 1;
  nsecs_start = 500;
}

abbrev unset : ZnsResult
unset = record { status = 0; nsecs_target = 0; result = 0 }

opened-IsWritable : IsWritable opened
unfolding open_zone_explicitly zns_init_ftl
opened-IsWritable = record {
  timing = omega arith;
  oneshot = omega arith;
  oneshot_fits = omega arith;
  time = idle-IsTime;
}

zns_write_at_wp-Written_example :
    Returns (Written opened request unset 2) (zns_write_at_wp opened request unset)
unfolding open_zone_explicitly zns_init_ftl
zns_write_at_wp-Written_example =
    zns_write_at_wp-Written opened request unset opened-IsAccounted opened-IsWritable (omega arith)
      refl (omega arith) (omega arith)

opened-IsReadable : IsReadable opened
unfolding open_zone_explicitly zns_init_ftl
opened-IsReadable = record {
  timing = omega arith;
  page = omega arith;
  flashpg_fits = omega arith;
  time = idle-IsTime;
}

zns_read-ZnsServed_example :
    Returns (ZnsServed opened request unset) (zns_read opened request unset)
zns_read-ZnsServed_example = zns_read-ZnsServed opened request unset opened-IsReadable (omega arith)

-- A list of pages behind the second PRP.
prp_transfer_data-Carries_example :
    Returns
      (Carries (prp_page (λ a. a * 4096) 5000 8192 10000) 0 0 10000)
      (prp_transfer_data (λ a. a * 4096) 5000 8192 10000)
prp_transfer_data-Carries_example = prp_transfer_data-Carries (λ a. a * 4096) 5000 8192 10000 refl

abbrev report_cmd : ZoneMgmtRecv
report_cmd = record {
  prp1 = 5000;
  prp2 = 8192;
  slba = 130;
  nr_dw = 47;
  zra = 0;
  zra_specific_field = 0;
  zra_specific_features = true;
}

abbrev old_report : ZoneReport
old_report = record { nr_zones = 0; zd = fresh.zone_descs }

zns_zmgmt_recv-Reported_example :
    Returns
      (Reported (λ a. a * 4096) opened report_cmd old_report)
      (zns_zmgmt_recv (λ a. a * 4096) opened report_cmd old_report)
unfolding open_zone_explicitly zns_init_ftl check_zmgmt_rcv_option_supported
zns_zmgmt_recv-Reported_example =
    zns_zmgmt_recv-Reported (λ a. a * 4096) opened report_cmd old_report (omega arith) refl refl
