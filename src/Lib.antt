-- ===== src/Lib.antt =====
-- rfx, a filtering proxy between a game client and its server (C and C++).
--
-- A session has two pipes, one per direction. A pipe reads the peer's bytes, cuts them into packets
-- on a receive queue, lets the filters look at each packet, and sends what they let through from a
-- send queue. Packets are reference-counted; the send queue keeps a vector of entries that point
-- into its packets, for `writev`.
--
-- - Prelude, Prelude/Tests, Prelude/Lists: library names, Boolean tests, lists over native numbers.
-- - Packet: pkt_new, pkt_ref, pkt_unref, pkt_dsprintf of pktq.c. A heap maps an address to a packet;
--   a freed one is
--   gone. Code that touches memory is in a state monad that may fault: a fault is an access to a
--   freed packet, or past the end of a packet or of an array. A second free is such an access.
--   Packet/Lifetime: packets in use, and their bytes. Packet/Frames: what a run leaves alone.
-- - PacketQueue: the pqh_ functions of pktq.c; a queue is a list of addresses. PacketQueue/Pulling:
--   the three-way split that pqh_pull makes.
-- - SendQueue: class sendq of proxy.cpp and proxy.h. `sv` is an index into `svbuf`. The calls of
--   writev to come are a list of outcomes, each with the room in the kernel and an errno.
--   Below it: Window, Stream, Drain, Round (one round of the loop), Sending (the order of a queue),
--   Delivery, Inject, Pulls, PullNone, Shed (what a send leaves alone).
-- - Wire: GET_INT16 of include/util.h.
-- - RecvQueue: class recvq of proxy.cpp and proxy.h, with the calls of readv and the peer's bytes as
--   lists. Below it: Deframer (the framing of a stream, byte by byte), Invariant, Header, Body,
--   Extract, Receive, Framing, Packets, Growth (what a read leaves alone), Conserve,
--   Again (packets received, sent on and received again).
-- - Pipe: struct proxy_pipe of proxy.cpp and proxy.h; a libev watcher and a side of a socket are
--   flags.
-- - Events: evq.cpp, evq.h and rfx_chat_event of rfx_modules.h.
-- - Filters: rfx_filter of rfx_api.h, as an interface, and rfx_filter_chain of main.cpp.
-- - Delayed: delayed_pkt and delayed_queue of main.cpp. Delayed/Waiting: their packets and timers.
-- - Session: rf_session and rf_delayed_queue of main.cpp. Session/Marks, Session/Ends,
--   Session/Passive:
--   filters that add and drop nothing. Session/Tidy: two pipes in order. Session/Intake, Onward,
--   Turns:
--   the steps of a callback keep them so; Readable, Callback, Relayed, Ending: whole callbacks.
--   Session/Trace: the callbacks of a session's life as a step relation. With filters that add
--   nothing, the delayed queue stays empty, so that no timer is a step there.
-- - RfxState: rfx_state of rfx_api.h.
-- - Digits: the binary digits of the bitwise operators. Loot: loot_mask of rfx_loot.cpp, with Bits,
--   Setting, Sound and Counting for its operations, Command for loot_state, parse_mask and loot_cmd,
--   Lexing, Hex,
--   Meaning and Commands for the grammar of a command and what it means, Saving, Process for the
--   filter, and Drops.
-- - Chat: rfx_chat.cpp. Plugins: rfx_debug.cpp, and the three filters as one kind.
-- - Hexdump: hexdump of lib/misc.c, with fuel for the rows. Hexdump/Decoding, Hexdump/RoundTrip: the
--   bytes that the rows show.
-- - Address: init_addr and addr2a of lib/sock.c; gethostbyname is an argument. Address/RoundTrip.
-- - Connect: bootstrap, cli_connect_cb and proxy_run of main.cpp, which open and close descriptors.
--   Connect/Owners: who owns a descriptor. Connect/Lifecycle: the calls that the event loop makes.
-- - Modules: rfx_instance and rfx_module of main.cpp; a loaded object is a record of functions.
--   Modules/Reload: a reload keeps the state of the filters.
-- - Uri, Clock: uri_decode, xdigit2i and clock_diff of lib/misc.c.
-- - Sock: read_ms, write_ms, write_full_ms, writev_full and writev_full_ms of lib/sock.c, with the
--   outcomes of the system calls as a list. Sock/Whole: whole iovecs. After a
--   writev that writes nothing the code looks at the errno of an earlier call, which the model keeps.
-- - Mconf: mconf_init, mconf_check_conflict and mconf_add of lib/mconf.c; the variables behind the
--   options are a type, a setter is a function. Mconf/Conflicts: options stay apart. Mconf/Numbers:
--   strtol, strtoul and %u of the C library, and Mconf/Numbers/Decimal their laws. Mconf/Values: the
--   setters and getters; Mconf/RoundTrip.
--   Mconf/CommandLine: mconf_parse_cmdline, ini_handler, mconf_parse_conf and mconf_parse, where
--   getopt_long and inih's ini_parse are arguments; below it Buffers, Counts and Handler.
--   Mconf/Help: mconf_help_msg; Mconf/Help/Column: its description column. Its fuel bounds the lines.
--
-- - Tests: runs at concrete inputs.
--
-- Bounds: `svc`, `sv` and the number of packets stay in the sizes of their arrays; a packet's `len` is
-- 16 bits on the wire, its fields are kept in 32 bits, and differences of them wrap. The loop over the
-- 8 KB buffer of recvq::recv runs on fuel, the number of its bytes, each round of it takes a byte or
-- more. The loops around writev and readv run over the list of calls to come; a queue that waits for
-- the next call says so in its status. The fuel of a session bounds the events that one packet leads
-- to,
-- which the program does not; without events none is used. That of loot_cmd is the length of the
-- command, each term takes a character or more.
--
-- Not modelled: a block of options without a section, memory exhaustion (every allocation succeeds),
-- libev, log output, the vendored inih and
-- BSD queue code, sockets' setup and daemonize, which are system calls.
pub mod Prelude
pub mod Packet
pub mod PacketQueue
pub mod SendQueue
pub mod RecvQueue
pub mod Pipe
pub mod Wire
pub mod Digits
pub mod Events
pub mod Filters
pub mod Delayed
pub mod Session
pub mod RfxState
pub mod Loot
pub mod Chat
pub mod Plugins
pub mod Uri
pub mod Clock
pub mod Sock
pub mod Mconf
pub mod Modules
pub mod Connect
pub mod Hexdump
pub mod Address
pub mod Tests
