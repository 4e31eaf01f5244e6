-- ===== src/Kv/Dispatch.antt =====
-- kv_ftl.c: `kv_proc_nvme_io_cmd`, the time of a command. Its scheduler is a copy of that of simple_ftl.c, with
-- the commands on keys added.
use nvmevirt_fdp.Prelude.{ℕ, Option, some, ◌==◌, ◌||◌, if◌then◌else◌, ◌>>=◌}
use nvmevirt_fdp.Ssd.Config.{u32}
use nvmevirt_fdp.Fdp.Namespace.{NvmevRequest, NvmevResult}
use nvmevirt_fdp.Fdp.Namespace.Dispatch.{nvme_cmd_flush, nvme_cmd_write, nvme_cmd_read}
use nvmevirt_fdp.Simple.{
  IoConfig, Latencies, write_latencies, read_latencies, no_latencies, schedule_io_units,
  schedule_flush, cmd_io_size,
}
use nvmevirt_fdp.Kv.Io.{nvme_cmd_kv_store, nvme_cmd_kv_retrieve, KvCommand, cmd_value_length}

abbrev pub nvme_cmd_kv_batch : ℕ
nvme_cmd_kv_batch = 0x85

-- The latencies that the copy of `__schedule_io_units` takes.
unfoldable pub kv_latencies_of : IoConfig → ℕ → Latencies
kv_latencies_of c opcode =
    if opcode == nvme_cmd_write || opcode == nvme_cmd_kv_store || opcode == nvme_cmd_kv_batch
    then write_latencies c
    else if opcode == nvme_cmd_read || opcode == nvme_cmd_kv_retrieve
    then read_latencies c
    else no_latencies

-- `kv_proc_nvme_io_cmd`, at a reading of the clock, for a command in its two views. Any other command is
-- reported in the kernel log, with the result as it was.
unfoldable pub kv_proc_nvme_io_cmd :
    IoConfig → ℕ → NvmevRequest → KvCommand → NvmevResult → (ℕ → ℕ) → Option (NvmevResult × (ℕ → ℕ))
unfolding schedule_io_units schedule_flush kv_latencies_of
kv_proc_nvme_io_cmd c now req cmd ret stat =
    let op = req.cmd.opcode in
    if op == nvme_cmd_write || op == nvme_cmd_read
    then (do
      (time, stat') ←
          schedule_io_units c (kv_latencies_of c op) req.cmd.slba (u32 (cmd_io_size req.cmd)) now
            stat
      some (record ret { nsecs_target = time }, stat'))
    else if op == nvme_cmd_flush
    then some (record ret { nsecs_target = schedule_flush c.nr_io_units stat }, stat)
    else if op == nvme_cmd_kv_store || op == nvme_cmd_kv_retrieve || op == nvme_cmd_kv_batch
    then (do
      (time, stat') ← schedule_io_units c (kv_latencies_of c op) 0 (cmd_value_length cmd) now stat
      some (record ret { nsecs_target = time }, stat'))
    else some (ret, stat)
