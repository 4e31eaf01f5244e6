-- ===== src/Lib.antt =====
-- NVMeVirt with Flexible Data Placement: a verification of the FDP flash translation layer and of
-- the device model under it.
--
-- The program is a Linux kernel module that emulates an NVMe device. A namespace stripes its logical
-- pages over FTL partitions. Each partition maps logical pages to NAND pages, writes through one open
-- line for each reclaim unit handle, and collects garbage through a line of its own. The time that a
-- command takes comes from a model of the NAND LUNs, the channels and the PCIe link.
--
-- Which file models which part (paths from the repository's root):
--   Ssd/Config         ssd_config.h (the FDP model), struct ssdparams, ssd_init_params
--   Ssd/Address        ssd.h, struct ppa with its three views
--   Ssd/Geometry       fdp_ftl.c, ppa2pgidx, valid_ppa, valid_lpn
--   Ssd/Channel        channel_model.c, all of it
--   Ssd/Nand           ssd.c, ssd_advance_nand and the other time functions
--   Ssd/Buffer         ssd.c, the write buffer
--   Ssd/Media          ssd.h, struct nand_block and struct nand_page
--   Fdp/Context        fdp_ftl.c, fdp_ctx: events, statistics, the feature FDP Events
--   Fdp/Lines          fdp_ftl.h, struct fdp_line; the priority queue as a parameter
--   Fdp/State          fdp_ftl.h, the other structures; fdp_init_params
--   Fdp/Mapping        fdp_ftl.c, the mapping table and the reverse map
--   Fdp/Pointers       fdp_ftl.c, free lines and write pointers
--   Fdp/Pages          fdp_ftl.c, mark_page_valid, mark_page_invalid, mark_block_free, mark_line_free
--   Fdp/Init           fdp_ftl.c, init_lines and fdp_init_ftl
--   Fdp/Gc             fdp_ftl.c, do_gc and the write credits
--   Fdp/Remap          fdp_ftl.c, the mapping part of the rounds of host writes, and garbage collection of
--                      a flash page, as changes of the mapping table, the reverse map and the status of pages
--   Fdp/Namespace      fdp_ftl.c, fdp_init_namespace, and in its children fdp_write, fdp_read,
--                      fdp_flush and fdp_proc_nvme_io_cmd
--   Zns/Config         ssd_config.h (the ZNS model), struct znsparams, zns_init_params
--   Zns/State          nvme_zns.h, zns_ftl.h: zones, their resources, the state, the conversions
--   Zns/Send           zns_mgmt_send.c; Zns/Resources has the transitions of a zone and what it holds
--   Zns/Io             zns_read_write.c, what reads and writes share
--   Zns/Write          zns_read_write.c, __zns_write; Zns/Write/Zrwa has __zns_write_zrwa and zns_write
--   Zns/Read           zns_read_write.c, zns_read
--   Zns/Recv           zns_mgmt_recv.c
--   Zns/Init           zns_ftl.c, __init_descriptor to zns_init_namespace
--   Zns/Dispatch       zns_ftl.c, zns_flush and zns_proc_nvme_io_cmd
--   Simple             simple_ftl.c, the I/O units
--   Kv/Table           kv_ftl.c, the mapping table of keys
--   Kv/Memory          append_only.c, and the interface of allocators
--   Kv/Bitmap          bitmap.c
--   Kv/Io              kv_ftl.c, the commands on one key
--   Kv/Iter            kv_ftl.c, the handles of iterators and the scan of kv_iter_read
--   Kv/Batch           kv_ftl.c, one store of a batch
--   Kv/Dispatch        kv_ftl.c, the time of a command
--   Prelude            the names, lemmas and the monad that the modules share
--   Tests              small devices, and the theorems at concrete inputs
--
-- Code that may stop the kernel is in the monad Option: none is a BUG_ON that fires, an access
-- through NULL, or fuel that runs out. A statement with Ensures is about the runs that do not stop, one with Returns says too
-- that no run stops. The divisors are parameters of the device, which are positive. Arrays behind pointers are functions of the index, so a read out of
-- range, which C does not define, reads some value. Numbers are natural numbers with the wrap-around of
-- their C type written out where it can occur.
--
-- Loops: counted loops recur on the rounds left (for_range). The loop of chmodel_request has as many
-- rounds of fuel as the ring has slots, the transfer loop of a read as many as it has bytes to send;
-- each takes at least one slot or byte a round.
--
-- Parameters: the clock, as the sequence of its readings; the priority queue of victim lines, which is
-- a copy of another project's library (pqueue/), with the behaviour that its header documents; the bitmaps
-- of the kernel, with the behaviour that its documentation gives; the memory of the host, as words.
--
-- Not modelled: the conventional FTL, the layout of the KV batches and of the iterators' buffers, the I/O workers, the admin commands, the
-- PCI and DMA glue, and the freeing of memory. clean_one_block and should_gc are called nowhere.
mod Prelude
pub mod Ssd
pub mod Fdp
pub mod Zns
pub mod Simple
pub mod Kv
mod Tests
