-- ===== src/Zns/Dispatch.antt =====
-- zns_ftl.c: `zns_flush` and `zns_proc_nvme_io_cmd`, which hands a command to its handler.
use nvmevirt_fdp.Prelude.{
  ℕ, Bool, true, Option, some, List, [], max, ◌==◌, ◌||◌, if◌then◌else◌, ◌>>=◌, ◌>>◌, nvmev_assert,
}
use nvmevirt_fdp.Ssd.Nand.{read_clock, ssd_next_idle_time}
use nvmevirt_fdp.Fdp.Namespace.{NvmevRequest, nvme_sc_success}
use nvmevirt_fdp.Fdp.Namespace.Dispatch.{nvme_cmd_flush, nvme_cmd_write, nvme_cmd_read}
use nvmevirt_fdp.Zns.State.{ZnsFtl}
use nvmevirt_fdp.Zns.Send.{ZoneMgmtSend, zns_zmgmt_send}
use nvmevirt_fdp.Zns.Recv.{Copy, ZoneMgmtRecv, ZoneReport, zns_zmgmt_recv}
use nvmevirt_fdp.Zns.Io.{ZnsResult, ZnsReply}
use nvmevirt_fdp.Zns.Write.{nvme_cmd_zone_append}
use nvmevirt_fdp.Zns.Write.Zrwa.{zns_write}
use nvmevirt_fdp.Zns.Read.{zns_read}

abbrev pub nvme_csi_zns : ℕ
nvme_csi_zns = 2

abbrev pub nvme_cmd_zone_mgmt_send : ℕ
nvme_cmd_zone_mgmt_send = 0x79

abbrev pub nvme_cmd_zone_mgmt_recv : ℕ
nvme_cmd_zone_mgmt_recv = 0x7a

-- A command in its three views, as the union `struct nvme_command` has them.
pub record ZnsRequest : Type 0 where
  pub req : NvmevRequest
  pub send : ZoneMgmtSend
  pub recv : ZoneMgmtRecv

-- The namespace: its command set, its parts, the FTL and the report buffer.
pub record ZnsNs : Type 0 where
  pub csi : ℕ
  pub nr_parts : ℕ
  pub ftl : ZnsFtl
  pub report : ZoneReport

-- A handler's reply, with the namespace and the copies to the host.
pub record ZnsAnswer : Type 0 where
  pub taken : Bool
  pub slba : ℕ
  pub ret : ZnsResult
  pub ns : ZnsNs
  pub copies : List Copy

abbrev answer : ZnsNs → ZnsReply → ZnsAnswer
answer ns r = record {
  taken = r.taken;
  slba = r.slba;
  ret = r.ret;
  ns = record ns { ftl = r.ftl };
  copies = [];
}

-- `zns_flush`, with the one part that there is.
unfoldable pub zns_flush : ZnsFtl → ZnsResult → ZnsResult × ZnsFtl
unfolding read_clock ssd_next_idle_time
zns_flush f ret =
    let (start, t) = read_clock f.time in
    let (idle, t') = ssd_next_idle_time f.sp t in
    (record ret { status = nvme_sc_success; nsecs_target = max start idle }, record f { time = t' })

-- `zns_proc_nvme_io_cmd`. Any other command is reported in the kernel log and taken, with the result as
-- it was.
unfoldable pub zns_proc_nvme_io_cmd :
    ℕ → (ℕ → ℕ) → ZnsNs → ZnsRequest → ZnsResult → Option ZnsAnswer
unfolding zns_write zns_read zns_flush zns_zmgmt_send zns_zmgmt_recv
zns_proc_nvme_io_cmd unset host ns r ret = do
  let op = r.req.cmd.opcode
  let same : ZnsAnswer = record {
    taken = true;
    slba = r.req.cmd.slba;
    ret = ret;
    ns = ns;
    copies = [];
  }
  nvmev_assert (ns.csi == nvme_csi_zns)
  nvmev_assert (ns.nr_parts == 1)
  if op == nvme_cmd_write || op == nvme_cmd_zone_append
      then (zns_write ns.ftl r.req ret >>= λ x. some (answer ns x))
      else if op == nvme_cmd_read
      then (zns_read ns.ftl r.req ret >>= λ x. some (answer ns x))
      else if op == nvme_cmd_flush
      then (let (ret', f) = zns_flush ns.ftl ret in
          some (record same { ret = ret'; ns = record ns { ftl = f } }))
      else if op == nvme_cmd_zone_mgmt_send
      then (do
        (status, f) ← zns_zmgmt_send unset ns.ftl r.send
        some (record same {
          ret = record ret { status = status; nsecs_target = r.req.nsecs_start };
          ns = record ns { ftl = f };
        }))
      else if op == nvme_cmd_zone_mgmt_recv
      then (do
        (status, report, copies) ← zns_zmgmt_recv host ns.ftl r.recv ns.report
        some (record same {
          ret = record ret { status = status; nsecs_target = r.req.nsecs_start };
          ns = record ns { report = report };
          copies = copies;
        }))
      else some same
