-- ===== src/Tests/Commands.antt =====
-- Commands to a small namespace of one partition.
use nvmevirt_fdp.Prelude.{
  Option, some, map, ◌>>=◌, ℕ, ◌+◌, ◌≡◌, ◌≤◌, refl, List, [], ◌∷◌, arith, Returns,
}
use nvmevirt_fdp.Ssd.Address.{of_word}
use nvmevirt_fdp.Ssd.Geometry.{ppa2pgidx}
use nvmevirt_fdp.Ssd.Media.{init_media}
use nvmevirt_fdp.Ssd.Channel.{chmodel_request, chmodel_init}
use nvmevirt_fdp.Fdp.Mapping.{init_maptbl}
use nvmevirt_fdp.Ssd.Nand.{init_time, ssd_advance_pcie, ssd_advance_nand, advance_channel}
use nvmevirt_fdp.Ssd.Nand.Laws.{init_time-IsTime}
use nvmevirt_fdp.Ssd.Buffer.{buffer_init}
use nvmevirt_fdp.Fdp.Context.{fdp_init_ctx}
use nvmevirt_fdp.Fdp.Namespace.{nvme_sc_success, Ns, NvmevRequest, NvmevResult}
use nvmevirt_fdp.Fdp.Namespace.Read.{fdp_read, fdp_flush}
use nvmevirt_fdp.Fdp.Namespace.Read.Flush.{fdp_flush-waits}
use nvmevirt_fdp.Fdp.Namespace.Read.Total.{IsReady, Served, fdp_read-Served}
use nvmevirt_fdp.Fdp.Namespace.Write.{fdp_write}
use nvmevirt_fdp.Fdp.Namespace.Write.Rejects.{Rejected, fdp_write-Rejected}
use nvmevirt_fdp.Fdp.Context.Ring.{fdp_init_ctx-IsRing}
use nvmevirt_fdp.Tests.Devices.{tiny}
use nvmevirt_fdp.Tests.Mapping.{empty, used, tiny_queue}
use nvmevirt_fdp.Tests.Context.{pids_on}

abbrev one_part : Ns (List (ℕ × ℕ))
one_part = record {
  csi = 0;
  size = 0;
  nr_parts = 1;
  ftls = λ _. used;
  times = λ _. init_time tiny (λ n. 1000 + n);
  pcie = (init_time tiny (λ n. 1000 + n)).pcie;
  reads = 0;
  wbuf = buffer_init 65536;
  ctx = fdp_init_ctx pids_on 0;
  scheduled = [];
}

one_part-IsReady : IsReady one_part
one_part-IsReady =
    let t = init_time-IsTime tiny (λ n. 1000 + n) (omega arith) (omega arith) in
    record { timing = λ i. (omega arith); channels = λ i. t.channels_valid; link = t.pcie_valid }

-- Sixteen sectors from sector 40 on, logical pages 5 and 6, through handle 3.
abbrev request : NvmevRequest
request = record {
  cmd = record { opcode = 2; nsid = 1; slba = 40; length = 15; control = 32; dsmgmt = 196608 };
  sq_id = 1;
  nsecs_start = 500;
}

abbrev unset : NvmevResult
unset = record { status = 0; nsecs_target = 0 }

fdp_read-Served_example : Returns (Served one_part request unset) (fdp_read one_part request unset)
fdp_read-Served_example = fdp_read-Served one_part request unset one_part-IsReady

-- The same through handle 9, of which there are 8.
abbrev bad_request : NvmevRequest
bad_request = record request { cmd = record (request.cmd) { opcode = 1; dsmgmt = 589824 } }

fdp_write-Rejected_example :
    Returns
      (Rejected tiny_queue one_part bad_request)
      (fdp_write tiny_queue one_part bad_request unset)
fdp_write-Rejected_example =
    fdp_write-Rejected tiny_queue one_part bad_request unset (fdp_init_ctx-IsRing pids_on 0)
      (omega arith) refl

-- Two writes of one sector each, to logical pages 5 and 6 of an empty partition.
abbrev sector_write : ℕ → NvmevRequest
sector_write slba = record {
  cmd = record { opcode = 1; nsid = 1; slba = slba; length = 0; control = 0; dsmgmt = 0 };
  sq_id = 1;
  nsecs_start = 500;
}

abbrev two_sectors : Option (ℕ × List ℕ)
unfolding fdp_write
two_sectors = do
  (_, _, ns) ← fdp_write tiny_queue (record one_part { ftls = λ _. empty }) (sector_write 40) unset
  (_, _, ns') ← fdp_write tiny_queue ns (sector_write 48) unset
  some (ns'.wbuf.remaining, map (λ o. o.buffs_to_release) ns'.scheduled)

-- They take 1024 of the 65536 bytes of the write buffer, and 8192 are released when the wordline is
-- programmed.
two_sectors_lem : two_sectors ≡ some (64512, 8192 ∷ [])
unfolding fdp_write buffer_init ssd_advance_pcie chmodel_request init_time chmodel_init init_maptbl
    of_word ppa2pgidx init_media ssd_advance_nand advance_channel
two_sectors_lem = refl

fdp_flush-waits_example :
    let (res, ns) = fdp_flush one_part in
    (res.status ≡ nvme_sc_success)
    × (ns.ftls ≡ one_part.ftls)
    × (((one_part.times 0).luns 1 0).next_lun_avail_time ≤ res.nsecs_target)
fdp_flush-waits_example = fdp_flush-waits one_part 0 1 0 (omega arith) (omega arith) (omega arith)
