-- ===== src/Simple.antt =====
-- simple_ftl.c: a device of I/O units, each busy until a time; and the copy of its scheduler in kv_ftl.c.
-- nvmev.h: the part of `struct nvmev_config` that it reads. `io_unit_stat` is a function of the unit.
pub mod Units
use nvmevirt_fdp.Prelude.{
  ℕ, zero, suc, ◌+◌, ◌-◌, ◌*◌, ◌/◌, ◌%◌, ◌^◌, Bool, true, false, Option, none, some, min, max, ltb,
  leb, ◌==◌, ◌||◌, if◌then◌else◌, ◌>>=◌, ◌>>◌, nvmev_assert,
}
use nvmevirt_fdp.Ssd.Config.{u32, u64}
use nvmevirt_fdp.Fdp.Namespace.{NvmeCommand, NvmevRequest, NvmevResult}
use nvmevirt_fdp.Fdp.Namespace.Dispatch.{nvme_cmd_flush, nvme_cmd_write, nvme_cmd_read}

-- `struct nvmev_config`, from `nr_io_units` on.
pub record IoConfig : Type 0 where
  pub nr_io_units : ℕ
  pub io_unit_shift : ℕ
  pub read_delay : ℕ
  pub read_time : ℕ
  pub read_trailing : ℕ
  pub write_delay : ℕ
  pub write_time : ℕ
  pub write_trailing : ℕ

-- `delay`, `latency` and `trailing`.
pub record Latencies : Type 0 where
  pub delay : ℕ
  pub latency : ℕ
  pub trailing : ℕ

abbrev pub write_latencies : IoConfig → Latencies
write_latencies c = record {
  delay = c.write_delay;
  latency = c.write_time;
  trailing = c.write_trailing;
}

abbrev pub read_latencies : IoConfig → Latencies
read_latencies c = record {
  delay = c.read_delay;
  latency = c.read_time;
  trailing = c.read_trailing;
}

abbrev pub no_latencies : Latencies
no_latencies = record { delay = 0; latency = 0; trailing = 0 }

unfoldable pub latencies_of : IoConfig → ℕ → Latencies
latencies_of c opcode =
    if opcode == nvme_cmd_write
    then write_latencies c
    else if opcode == nvme_cmd_read
    then read_latencies c
    else no_latencies

-- The variables of the loop, with `io_unit_stat`. `nr_io_units` counts down to below 0, which is as 0 here.
pub record IoUnits : Type 0 where
  pub latest : ℕ
  pub io_unit : ℕ
  pub nr_io_units : ℕ
  pub stat : ℕ → ℕ

abbrev pub set_stat : (ℕ → ℕ) → ℕ → ℕ → ℕ → ℕ
set_stat stat i v j = if i == j then v else stat j

-- One round of the loop.
unfoldable pub use_io_unit : IoConfig → Latencies → IoUnits → IoUnits
use_io_unit c l s =
    let latest = u64 (s.latest + l.latency) in
    record {
      latest = latest;
      io_unit = if leb c.nr_io_units (u32 (s.io_unit + 1)) then 0 else u32 (s.io_unit + 1);
      nr_io_units = s.nr_io_units - 1;
      stat =
          set_stat s.stat s.io_unit
            (if ltb 0 s.nr_io_units then u64 (latest + l.trailing) else latest);
    }

-- The loop `do … while (length > 0)`; the fuel counts the rounds.
unfoldable pub use_io_units : ℕ → IoConfig → ℕ → Latencies → ℕ → IoUnits → Option IoUnits
unfolding use_io_unit
use_io_units zero c size l length s = none
use_io_units (suc fuel) c size l length s = elim (length - min length size == 0) [
  | true ↦ some (use_io_unit c l s)
  | false ↦ use_io_units fuel c size l (length - min length size) (use_io_unit c l s)
]

abbrev pub io_unit_size : IoConfig → ℕ
io_unit_size c = u32 (2 ^ c.io_unit_shift)

-- `__schedule_io_units`: the completion time, and `io_unit_stat`.
unfoldable pub schedule_io_units : IoConfig → Latencies → ℕ → ℕ → ℕ → (ℕ → ℕ) → Option (ℕ × (ℕ → ℕ))
unfolding use_io_units
schedule_io_units c l lba length nsecs_start stat = do
  let io_unit = u32 (lba / 2 ^ (c.io_unit_shift - 9) % c.nr_io_units)
  s ← use_io_units (length + 1) c (io_unit_size c) l length (record {
    latest = u64 (max nsecs_start (stat io_unit) + l.delay);
    io_unit = io_unit;
    nr_io_units = min c.nr_io_units (u32 (length + io_unit_size c + 2 ^ 32 - 1) / io_unit_size c);
    stat = stat;
  })
  some (s.latest, s.stat)

-- `__schedule_flush`.
unfoldable pub schedule_flush : ℕ → (ℕ → ℕ) → ℕ
schedule_flush zero stat = 0
schedule_flush (suc n) stat = max (schedule_flush n stat) (stat n)

-- `__cmd_io_size`.
abbrev pub cmd_io_size : NvmeCommand → ℕ
cmd_io_size cmd = (cmd.length + 1) * 2 ^ 9

-- `simple_proc_nvme_io_cmd`, at a reading of the clock, in a build for this device. Any other command
-- is reported in the kernel log, with the result as it was.
unfoldable pub simple_proc_nvme_io_cmd :
    IoConfig → ℕ → ℕ → NvmevRequest → NvmevResult → (ℕ → ℕ) → Option (NvmevResult × (ℕ → ℕ))
unfolding schedule_io_units schedule_flush latencies_of
simple_proc_nvme_io_cmd c csi now req ret stat = do
  let op = req.cmd.opcode
  nvmev_assert (csi == 0)
  if op == nvme_cmd_write || op == nvme_cmd_read
      then (do
        (time, stat') ←
            schedule_io_units c (latencies_of c op) req.cmd.slba (u32 (cmd_io_size req.cmd)) now
              stat
        some (record ret { nsecs_target = time }, stat'))
      else if op == nvme_cmd_flush
      then some (record ret { nsecs_target = schedule_flush c.nr_io_units stat }, stat)
      else some (ret, stat)
