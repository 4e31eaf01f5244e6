-- ===== src/Fdp/Namespace/Dispatch.antt =====
-- fdp_ftl.c: `fdp_proc_nvme_io_cmd`.
use nvmevirt_fdp.Prelude.{ℕ, Bool, true, Option, some, ◌==◌, if◌then◌else◌, ◌>>◌, nvmev_assert}
use nvmevirt_fdp.Fdp.Lines.{PQueue}
use nvmevirt_fdp.Fdp.Namespace.{NvmevRequest, NvmevResult, Ns}
use nvmevirt_fdp.Fdp.Namespace.Read.{fdp_read, fdp_flush}
use nvmevirt_fdp.Fdp.Namespace.Write.{fdp_write}

abbrev pub nvme_cmd_flush : ℕ
nvme_cmd_flush = 0x00

abbrev pub nvme_cmd_write : ℕ
nvme_cmd_write = 0x01

abbrev pub nvme_cmd_read : ℕ
nvme_cmd_read = 0x02

-- Any other command is reported in the kernel log and taken, with the result as it was.
unfoldable pub fdp_proc_nvme_io_cmd :
    (pq : PQueue) → Ns pq.Q → NvmevRequest → NvmevResult → Option (Bool × NvmevResult × Ns pq.Q)
unfolding fdp_write fdp_read fdp_flush
fdp_proc_nvme_io_cmd pq ns req ret = do
  nvmev_assert (ns.csi == 0)
  if req.cmd.opcode == nvme_cmd_write
      then fdp_write pq ns req ret
      else if req.cmd.opcode == nvme_cmd_read
      then fdp_read ns req ret
      else if req.cmd.opcode == nvme_cmd_flush
      then (let (result, ns') = fdp_flush ns in some (true, result, ns'))
      else some (true, ret, ns)
