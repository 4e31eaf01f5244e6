-- ===== src/Fdp/Namespace.antt =====
-- fdp_ftl.c: the namespace, whose logical pages are striped over FTL partitions. The partitions share
-- the PCIe link, the write buffer, the clock and `fdp_ctx`. nvmev.h: requests and results; nvme.h:
-- the fields of read and write commands that are used.
pub mod Read
pub mod Write
pub mod Dispatch
use nvmevirt_fdp.Prelude.{
  ℕ, zero, suc, ◌+◌, ◌-◌, ◌*◌, ◌/◌, ◌%◌, ◌^◌, Bool, Option, some, none, List, [], ◌∷◌, ◌++◌, ltb,
  ◌==◌, if◌then◌else◌, ◌>>=◌, ◌>>◌, nvmev_assert, for_range,
}
use nvmevirt_fdp.Ssd.Config.{SsdConfig, SsdParams, u64, ssd_init_params, ssd_partitions}
use nvmevirt_fdp.Ssd.Channel.{Channel}
use nvmevirt_fdp.Ssd.Buffer.{Buffer, buffer_init}
use nvmevirt_fdp.Ssd.Nand.{Lun, SsdTime, init_time}
use nvmevirt_fdp.Fdp.Context.{FdpCtx, fdp_init_ctx}
use nvmevirt_fdp.Fdp.Lines.{PQueue}
use nvmevirt_fdp.Fdp.State.{Ftl, Dev, fdp_init_params}
use nvmevirt_fdp.Fdp.Init.{fdp_init_ftl}

-- The fields of `struct nvme_rw_command` that are read.
pub record NvmeCommand : Type 0 where
  pub opcode : ℕ
  pub nsid : ℕ
  pub slba : ℕ
  pub length : ℕ
  pub control : ℕ
  pub dsmgmt : ℕ

pub record NvmevRequest : Type 0 where
  pub cmd : NvmeCommand
  pub sq_id : ℕ
  pub nsecs_start : ℕ

pub record NvmevResult : Type 0 where
  pub status : ℕ
  pub nsecs_target : ℕ

abbrev pub nvme_sc_success : ℕ
nvme_sc_success = 0x0

abbrev pub nvme_sc_invalid_field : ℕ
nvme_sc_invalid_field = 0x2

-- A call of `schedule_internal_operation` of io.c: bytes of the write buffer to release at a time.
pub record InternalOperation : Type 0 where
  pub sqid : ℕ
  pub nsecs_target : ℕ
  pub buffs_to_release : ℕ

-- `struct nvmev_ns`, with what `ftls` points to. `scheduled` are the internal operations handed to
-- the I/O workers, in order.
pub record Ns (Q : Type 0) : Type 0 where
  pub csi : ℕ
  pub size : ℕ
  pub nr_parts : ℕ
  pub ftls : ℕ → Ftl Q
  pub times : ℕ → SsdTime
  pub pcie : Channel
  pub reads : ℕ
  pub wbuf : Buffer
  pub ctx : FdpCtx
  pub scheduled : List InternalOperation

module _ {Q : Type 0} where
  -- The time model of a partition, with the shared link and clock.
  abbrev pub part_time : Ns Q → ℕ → SsdTime
  part_time ns i = record (ns.times i) { pcie = ns.pcie; reads = ns.reads }

  -- What an operation on partition `i` reaches, and the namespace after it.
  abbrev pub part : Ns Q → ℕ → Dev Q
  part ns i = record { ftl = ns.ftls i; time = part_time ns i; ctx = ns.ctx }

  abbrev pub set_time : Ns Q → ℕ → SsdTime → Ns Q
  set_time ns i t = record ns {
    times = λ j. if i == j then t else ns.times j;
    pcie = t.pcie;
    reads = t.reads;
  }

  abbrev pub set_part : Ns Q → ℕ → Dev Q → Ns Q
  set_part ns i d = record ns {
    ftls = λ j. if i == j then d.ftl else ns.ftls j;
    times = λ j. if i == j then d.time else ns.times j;
    pcie = d.time.pcie;
    reads = d.time.reads;
    ctx = d.ctx;
  }

module _ (pq : PQueue) where
  -- `fdp_init_namespace`, in a build with the macros `c` and a clock. The partitions are built alike;
  -- all but the first drop their PCIe link and write buffer for those of the first.
  unfoldable pub fdp_init_namespace : SsdConfig → (ℕ → ℕ) → FdpCtx → ℕ → Option (Ns pq.Q)
  unfolding ssd_init_params fdp_init_params fdp_init_ftl fdp_init_ctx init_time buffer_init
  fdp_init_namespace c clock ctx size = do
    sp ← ssd_init_params c size ssd_partitions
    f ← fdp_init_ftl pq fdp_init_params sp
    let t = init_time sp clock
    some (record {
      csi = 0;
      size = u64 (size * 100) / fdp_init_params.pba_pcent;
      nr_parts = ssd_partitions;
      ftls = λ _. f;
      times = λ _. t;
      pcie = t.pcie;
      reads = 0;
      wbuf = buffer_init sp.write_buffer_size;
      ctx = fdp_init_ctx ctx (u64 (sp.pgs_per_line * sp.pgsz));
      scheduled = [];
    })
