-- ===== src/Lib.antt =====
-- FlashSim, the simulator of a solid state disk in OriginalFlashSim/, with its zoned mode.
--
-- The program. A disk (Ssd) is an array of packages, a package of dies, a die of planes, a plane
-- of blocks, a block of pages. A request is an Event; it carries an Address and the time that it
-- takes so far. Each level of the array asserts that the index of its level is in range and hands
-- the event down, and the page adds its delay and copies data. A bus with one channel for each
-- package schedules the transmissions. The controller has, for the zoned mode, a table of zones
-- that are written in order, and a gate to the driver of a simulated circuit. Between the
-- requests and the array stand translation layers: one that counts pages, a zoned one, one that
-- maps pages on demand, one that maps blocks that are written in order and leaves the others to
-- that one, and two that map blocks and keep log blocks. They take blocks from a block manager,
-- and send requests to the controller. Beside the simulator stands a server of a network block
-- device: it keeps the bytes of a disk, drives the simulated circuit through a bridge with the
-- memory of the zone table, and answers requests as the circuit says. A driver starts commands
-- on the same circuit and waits for it.
--
-- The files, and the sources that they model, in OriginalFlashSim/:
--   Base, Base/...          Boolean tests, 32 and 64-bit wrap-around, arrays, outcomes of calls
--   Config                  the constants of ssd.h
--   Address, Address/...    ssd_address.cpp
--   Event, Event/Times      ssd_event.cpp
--   Memory, Page            ssd_page.cpp, and the data area that all pages share
--   Block, Block/...        ssd_block.cpp
--   Plane, Plane/...        ssd_plane.cpp; _merge is in Plane/Merge
--   Wear                    the loop that update_wear_stats has in dies, packages and the disk
--   Die, Package, Ssd       ssd_die.cpp, ssd_package.cpp, ssd_ssd.cpp
--   Channel, Channel/...    ssd_channel.cpp
--   Bus, Bus/Exclusive      ssd_bus.cpp
--   Zns, Zns/...            zns_manager.cpp, crypto_engine.cpp, ssd_controller.cpp (Zns/Gate),
--                           FTLs/zns_ftl.cpp (Zns/Mapping), the zones of flashsim_stubs.cpp
--   Ram                     ssd_ram.cpp
--   Stats                   ssd_stats.cpp
--   Options, Controller     what the layers read of ssd.h, and what they ask of its Controller
--   BlockManager,           ssd_bm.cpp; BlockManager/Pool and BlockManager/Gives are the queue that
--   BlockManager/...        its blocks form
--   Dftl, Dftl/...          FTLs/dftl_parent.cpp (Dftl/Pages: get_free_data_page, Dftl/Resolve:
--                           resolve_mapping), and FTLs/dftl_ftl.cpp (Dftl/Requests: read, write, trim;
--                           Dftl/Cleaning: cleanup_block)
--   PageFtl, PageFtl/...    FTLs/page_ftl.cpp, with the controller of flashsim_stubs.cpp
--   Bast, Bast/...          FTLs/bast_ftl.cpp
--   Bdftl, Bdftl/...        FTLs/bdftl_ftl.cpp
--   Fast, Fast/...          FTLs/fast_ftl.cpp (Fast/Logs: random_merge, Fast/Writes:
--                           write_to_log_block)
--   Bridge                  hardware_bridge.cpp
--   Nbd, Nbd/...            nbd_server.cpp, nbd_server.h, nbd_protocol.h; Nbd/Answers is what a
--                           client may see of it, Nbd/Management the management socket of
--                           sim_main.cpp
--   Driver, Driver/Ends     zns_driver.c, zns_driver.h
--   Raid, Raid/Served       ssd_raidssd.cpp, and event_arrive of ssd_ssd.cpp
--   ReadBack, ReadBack/...  theorems through all the levels from the disk to the page
--   Examples, Examples/...  small devices and requests, to which the theorems are applied
--
-- How state and operations correspond. Each class is a record with the fields of the class, in a
-- module of the name of the class; each method is a function of the name of the method, that
-- takes the record and returns it. References to parents are left out, except that a block calls
-- update_block of Block_manager through them: its container is Memory.active_cost. The only
-- statement of that method gives Boost's `replace` a place that is behind the end of the
-- container, into which nothing is ever put. What `replace` does there is undefined, so the call
-- is a parameter, Memory.update_block, which may return or end the program. The results on blocks
-- and planes that are written, erased or invalidated are on the calls that return. The data area
-- is a list of pages: a copy or a buffer pointer behind its end ends out of range, and so does a
-- copy from a payload that is shorter than a page. Asserts and indices of arrays are outcomes:
-- `ok`, or `abort` with `assertion` or `out_of_range`. Methods of the array return `Done`: the
-- status, the part, the event and the memory as the call leaves them. A name that is a word of
-- the language is changed: the field `package` is `pkg`.
--
-- The layers and the block manager share the statistics, the manager and the device, which is the
-- record World; each helper takes and returns it. The controller is a record of operations on a
-- device of any type, since the repository defines some of its methods as stubs and others
-- nowhere: that it carries out requests is a hypothesis where it matters. The container of Boost
-- in the demand mapping layer is a list of its entries in the order of their numbers; its other
-- index, by the time of the last visit, is a parameter, of which the theorems only ask that its
-- first entry is a cached one if any is. The stamps -1 and -2 are `none`. In the layer FAST the
-- list of log blocks stands for their chain of pointers.
--
-- The server works on a circuit and a socket of any kind, whose operations are parameters. What
-- read leaves of a buffer that it does not fill, and what new leaves in one, is in the model.
-- What the server asks write to send is recorded in Server.sent. The 1024 words and the sizes of
-- the disk are those of the sources, the latter as a record, so that examples can be small.
--
-- Bounds. Times are natural numbers of ticks: the source has doubles, and asserts that they are
-- not negative. Counters of type uint wrap around at 2 ^ 32, those of type ulong at 2 ^ 64; the
-- counters of the statistics, of type long, are natural numbers without a bound. Loops run over
-- lists or a counter, but for the eviction loop of the demand mapping layer: its fuel is one more
-- than the number of cached entries, which Dftl/Rooms shows to be enough.
--
-- A loop over the requests of a client runs on fuel, of which one more than the requests is
-- enough (Nbd/Session); the loops that receive bytes have the number of bytes as fuel, since
-- each read that goes on returns one at least. The driver waits for the circuit without a bound,
-- on fuel in the model, and Driver/Ends says how much is enough.
--
-- Not modelled: the printing of the statistics; the loader of the configuration; the negotiation
-- of the block device, which nothing calls; the sockets and the simulated circuit, which are
-- parameters; and the programs.
pub mod Base
pub mod Config
pub mod Address
pub mod Event
pub mod Memory
pub mod Page
pub mod Block
pub mod Plane
pub mod Wear
pub mod Die
pub mod Package
pub mod Ssd
pub mod Channel
pub mod Bus
pub mod Ram
pub mod Zns
pub mod Stats
pub mod PageFtl
pub mod Options
pub mod Controller
pub mod BlockManager
pub mod Dftl
pub mod Bast
pub mod Bdftl
pub mod Fast
pub mod ReadBack
pub mod Bridge
pub mod Nbd
pub mod Raid
pub mod Driver
pub mod Examples
