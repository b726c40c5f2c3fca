-- ===== src/Lib.antt =====
-- Greko copies block devices over a network: a kernel module of the source host tracks in a bitmap
-- which grains of a device were written, a server daemon hands the bitmap and the dirty grains out,
-- and a client daemon copies these grains to its target disk. This library models the Linux build,
-- atdr_base_code/kernel/atdr_linux and atdr_base_code/user/atdr_linux, called kernel/atdr_linux and
-- user/atdr_linux below and in the comments of the files.
--
-- The parts, and how they interact:
-- * Base and Memory carry what the parts share: tests, loops and integers, and a memory that gives each
--   bit. Kernel and server daemon share one memory, since the daemon maps the bitmap areas of the kernel.
--   The machine is little-endian with 64-bit longs.
-- * Kernel.Bitmap is kernel/atdr_linux/atdr_bitmap.h and the first half of atdr_bitmap.c, the bitmap and
--   the routines ebdr_clear_bmap, ebdr_clear_bmap_range and ebdr_bm_set_bits with what they call. A
--   function on a device takes the bitmap and the memory and returns the memory. Its children treat
--   single bits (Single), bit loops (Ranges), the fast routine by words (Words) and clearing (Clear).
-- * Kernel.Tracking is the second half of atdr_bitmap.c (ebdr_set_bits, ebdr_find_pos, ebdr_set_bitmap,
--   ebdr_update_bmap_and_sync) and kernel/atdr_linux/atdr_req.c, the path of a request to the backing
--   device. Its children treat the search of a grain (Search) and whole runs of requests (Marks).
-- * Kernel.Device is the state of the module, the globals of kernel/atdr_linux/atdr_main.c and the
--   device table of atdr_device.c, with the state machine ebdr_device_state and the areas of
--   atdr_memctl.c. Kernel.Device.Control is ebdr_ctl_ioctl, the requests of the control device, one
--   function for each. Its children hold the place of the bitmaps (Areas), the invariant of the tables
--   (Invariant, Creation, Outcomes, Requests), sequences of requests (Reachable), the outcomes of a creation
--   (Success, Failures) and the search by name (Names).
-- * User.Types, User.Posix and User.IoEngine are the headers of user/atdr_linux, the POSIX calls as an
--   interface on a state of the world, and atdr_io_engine_client.c and atdr_io_engine_server.c.
-- * User.Resync is the client's restart_resync and replication_terminate of atdr_resync.c, with every
--   early return. Its children hold the interface of a connection and a target disk that work
--   (Reliable), and follow one transfer (Transfer), the grains (Grains), the bytes (Result) and the whole
--   run (Complete).
-- * User.Resync.Flaky is restart_resync over a connection that fails: an interface that promises nothing of
--   a call that did not succeed (Flaky), one transfer (Transfer), the chunks and the grains (Chunks,
--   Grains), a run that was interrupted (Interrupted), and runs that are taken up again (Resumed).
-- * User.Client holds the tables of the client daemon, from atdr_partner_client.c, atdr_relation_client.c,
--   atdr_disk_target.c, atdr_bitmap_client.c, atdr_conn_client.c and atdr_replic_header_client.c. The
--   operations give none when the process stops. User.Client.View is the part of the tables on which
--   restart_resync runs, and resync_handler; User.Client.Session the messages of replic_client.c and the
--   negotiation of atdr_daemon.c (Negotiation); User.Client.Metadata the request for a bitmap and the
--   bitmap file (File); User.Client.Commands what parse_daemon_request does for each request (`serve`),
--   with the making of a partner (Joining); User.Client.Recovery the thread of atdr_recovery.c (Pass). The
--   modules Keys follow the ids of the table of partners through all of these.
-- * Adm is utils/atdr_linux/atdr_adm.c, which writes requests as text, and User.Client.Requests the sscanf
--   calls of parse_daemon_request that read them (Scanning, Printed, Served).
-- * User.ServerBitmap is atdr_bitmap_server.c; it calls the requests of Kernel.Device.Control through
--   prepare_and_send_ioctl_cmd of atdr_daemon.c. Its children treat the copies (Copies), the counting
--   (Counting), the two requests (Requests), both sides together (Flip), and writes that come between
--   copy and flip (Between), which load_from_memory_with takes as what they make of the memory.
-- * User.Server and User.Server.Handlers are the handlers of replic_server.c with the objects of
--   atdr_partner_server.c and atdr_relation_server.c, and the dispatch of atdr_conn_server.c by cmdMap.
--   The children treat requests for chunks after the end (Handlers.Data), the life of a partnership
--   (Handlers.Lifecycle), its end (Handlers.Termination), and the negotiation of the client with this server (Handlers.Agreement).
-- * User.Server.Receiving is the receiving thread of a client, ebdr_conn_server_recv and send_recv_handler of
--   atdr_conn_server.c, with verify_data of replic_server.c; its child Ending treats the end of the loop.
--   User.Server.Accept is the accepting thread replic_thread_init; its child Regained takes both threads
--   together.
-- * User.Server.Source is the creation of a source disk, the request `c` of parse_daemon_request with
--   atdr_disk_source.c and ebdr_dev_ctr_mmap of kernel/atdr_linux/atdr_memctl.c; its child Created follows
--   it through daemon and kernel module.
-- * User.Database is atdr_db.c: the functions that send a statement, with the texts that sprintf writes, and
--   in User.Database.Rows those that read a table. Calls and Texts set the lengths of the texts against
--   their arrays. Tables states what MySQL documents of the statements (the record Documented), on tables
--   of rows; Filled and Followed are what the loops over the rows leave, and the row that was last stored
--   for a partner id; Restored joins them. User.Database.Restart is db_init, the start of the client from
--   its tables; Started is one round of its loop and Resumed the whole loop.
-- * Tests applies the theorems to concrete bitmaps, devices and messages.
--
-- Global arrays are functions of the index. Pointers to bitmap objects are indices of a table, so that
-- two devices may share one in the model, as they may in C. Linux's answers to an ioctl (allocations,
-- copy_from_user, the class, queue, disk and backing device) are one argument; what the module gives
-- back is logged. The handlers and commands log their statements to the database; what such calls send and
-- keep is in User.Database.
--
-- Bounds: `unsigned long` arithmetic wraps at 2 ^ 64 and `int` at 2 ^ 32. A creation of a device with a
-- number from MAX_MINOR on writes behind the kernel's arrays and is an oops, as is a NULL from bdget. The bitmap of a device is at
-- most five pages (NUM_PAGES), that of the daemon 16384 bytes. Loops are counted by the number of rounds
-- that the bounds of the C loop give, computed before the loop, so that no fuel is chosen: the loop of
-- restart_resync runs from bit_pos up to the number of bits, and leaves early by its result. Only the
-- receiving loop of the server, which has no bound, is given a number of rounds, and tells whether they
-- were enough.
--
-- Not modelled: the Windows driver and daemons, whose bodies are other builds of the same protocol; the
-- files under kernel/atdr_linux/linux and kernel/atdr_linux/compat, which come from DRBD; logging and the
-- external md5sum, which are I/O; the configuration file of the database and the connection to MySQL; the
-- commands of the server daemon but for make_relation_with_client and the creation of a source disk, its
-- listening socket, its start from the database, and its half of the recovery thread; the loops on the FIFOs and main. MySQL is
-- a parameter. pthread_create is taken to succeed, and an object of a table is touched by one thread at
-- a time, but for PARTNER_OBJ_PAUSE. An index outside a table stops the process. The entry of cmdMap for
-- VERIFY_DATA is an argument of the dispatch; the receiving thread passes verify_data. POSIX, __set_bit and generic_make_request are arguments; what
-- a theorem relies on of them is in the records Reliable, Flaky, FileLaws, Working, Works, Answering,
-- Documented and BitOps.
pub mod Base
pub mod Memory
pub mod Kernel
pub mod User
pub mod Adm
pub mod Tests
