-- ===== src/Tests/Units.antt =====
-- The I/O units at concrete inputs.
use nvmevirt_fdp.Prelude.{ℕ, ◌*◌, ◌≤◌, ◌<◌, arith, Returns}
use nvmevirt_fdp.Simple.{IoConfig, schedule_io_units, schedule_flush, latencies_of}
use nvmevirt_fdp.Simple.Units.{IsLatest, Scheduled, schedule_io_units-Scheduled, schedule_flush_lem}

-- Four units of 4096 bytes.
abbrev four : IoConfig
four = record {
  nr_io_units = 4;
  io_unit_shift = 12;
  read_delay = 1;
  read_time = 10;
  read_trailing = 2;
  write_delay = 3;
  write_time = 20;
  write_trailing = 5;
}

-- A write of 10000 bytes at block 16.
schedule_io_units-Scheduled_example :
    Returns
      (Scheduled four (latencies_of four 1) 16 10000 100 (λ i. 50 * i))
      (schedule_io_units four (latencies_of four 1) 16 10000 100 (λ i. 50 * i))
schedule_io_units-Scheduled_example =
    schedule_io_units-Scheduled four (latencies_of four 1) 16 10000 100 (λ i. 50 * i) (omega arith)

schedule_flush_lem_example :
    ((i : ℕ) → i < 4 → 50 * i ≤ schedule_flush 4 (λ j. 50 * j))
    × IsLatest 4 (λ j. 50 * j) (schedule_flush 4 (λ j. 50 * j))
schedule_flush_lem_example = schedule_flush_lem 4 (λ j. 50 * j)
