-- ===== src/Tests/Timing.antt =====
-- The channel model, the NAND commands and the write buffer at concrete inputs.
use nvmevirt_fdp.Prelude.{◌+◌, refl, arith, false, inl, Returns}
use nvmevirt_fdp.Ssd.Channel.{Channel, Taking, chmodel_init, chmodel_request, take_credits}
use nvmevirt_fdp.Ssd.Channel.Loop.{Took, take_credits-Took}
use nvmevirt_fdp.Ssd.Channel.Laws.{
  IsChannel, IsTimely, chmodel_init-IsChannel, chmodel_request-IsChannel, chmodel_request-IsTimely,
}
use nvmevirt_fdp.Ssd.Nand.{SsdTime, NandCmd, init_time, ssd_advance_nand, nand_read}
use nvmevirt_fdp.Ssd.Nand.Laws.{init_time-IsTime, IsTime, IsTiming, ssd_advance_nand-IsTime}
use nvmevirt_fdp.Ssd.Buffer.{buffer_init, buffer_allocate, buffer_release}
use nvmevirt_fdp.Ssd.Buffer.Ledger.{
  Ledger, Reach, here, next, allocates, releases, IsLedger, Reach-IsLedger,
}
use nvmevirt_fdp.Tests.Devices.{tiny}

-- The PCIe link of the FDP model.
link : Channel
unfolding chmodel_init
link = chmodel_init 3360

link-IsChannel : IsChannel link
unfolding link
link-IsChannel = chmodel_init-IsChannel 3360 (omega arith)

chmodel_request-IsChannel_example :
    Returns (λ r. IsChannel r.1) (chmodel_request link 5000 9000 4096)
chmodel_request-IsChannel_example = chmodel_request-IsChannel link 5000 9000 4096 link-IsChannel

chmodel_request-IsTimely_example :
    Returns (λ r. IsTimely link 9000 4096 r.0) (chmodel_request link 5000 9000 4096)
chmodel_request-IsTimely_example =
    chmodel_request-IsTimely link 5000 9000 4096 link-IsChannel (omega arith)

abbrev taking : Taking
taking = record { avail = λ i. 3; pos = 98303; remaining = 7; delay = 0 }

take_credits-Took_example : Returns (Took 5 taking) (take_credits 6 5 taking)
take_credits-Took_example =
    take_credits-Took 6 5 taking (omega arith) (omega arith) (omega arith) (omega arith)

abbrev idle : SsdTime
unfolding init_time
idle = init_time tiny (λ n. 1000 + n)

idle-IsTime : IsTime idle
unfolding init_time
idle-IsTime = init_time-IsTime tiny (λ n. 1000 + n) (omega arith) (omega arith)

abbrev read_cmd : NandCmd
read_cmd = record {
  cmd = nand_read;
  xfer_size = 8192;
  stime = 0;
  interleave_pci_dma = false;
  ppa = record { pg = 2; blk = 1; pl = 0; lun = 1; ch = 0; rsv = 0 };
}

tiny-IsTiming : IsTiming tiny
tiny-IsTiming = omega arith

ssd_advance_nand-IsTime_example : Returns (λ r. IsTime r.1) (ssd_advance_nand tiny read_cmd idle)
ssd_advance_nand-IsTime_example =
    ssd_advance_nand-IsTime tiny read_cmd idle tiny-IsTiming (inl (omega arith)) idle-IsTime

-- 80 bytes granted, and 90 released: more remains than the buffer has.
abbrev over_released : Ledger
over_released = record {
  buffer = record { size = 100; remaining = 110 };
  granted = 80;
  released = 90;
}

over_released-Reach :
    Reach (record { buffer = buffer_init 100; granted = 0; released = 0 }) over_released
unfolding buffer_init buffer_allocate buffer_release
over_released-Reach =
    next (next here (allocates _ 80 80 (record { size = 100; remaining = 20 }) refl)) (
      releases
        (record { buffer = record { size = 100; remaining = 20 }; granted = 80; released = 0 }) 90)

Reach-IsLedger_example : IsLedger 100 over_released
Reach-IsLedger_example = Reach-IsLedger 100 (omega arith) (omega arith) over_released-Reach
