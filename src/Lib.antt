-- ===== src/Lib.antt =====
-- iouring-go: a Go library for io_uring(7). A Ring maps the submission and completion queues that it
-- shares with the kernel, prepares entries in the one, enters the kernel, and hands the completions
-- in the other to the requests that wait for them.
--
-- Parts, each with the file that models it:
--   Entry       types.go, consts.go: SubmitEntry with Reset, CompletionEntry with IsZero, the opcodes.
--   Queue       types.go: SubmitQueue and CompletionQueue, with Reset, NeedWakeup, enterLock,
--               enterUnlock, completeWrite and Advance. The pointers into the mapping are numbers.
--   Submit      ring.go: SubmitEntry and the callback that it returns (`submit_entry`, `commit`), for
--               one goroutine.
--   Locks       ring.go, types.go: SubmitEntry, its callback and the locks of Enter for any number of
--               goroutines, a step for each atomic operation; who holds which entry (Locks/Slots,
--               Locks/Reuse).
--   Ring        ring.go, uring_enter.go: the state of a Ring, ID, ShouldFlush, NeedsEnter, the four
--               positions, and Enter.
--   Ops         ops.go: the 21 Prepare functions (Ops/Files, Ops/Net, Ops/Misc, over `prepare`), all
--               of them as one interface with the entry that each is to write (Ops/Requests), and
--               the ten calls that wait for their completion (Ops/Calls); many calls before the
--               kernel takes an entry (Ops/Batch).
--   Completion  ring.go: onEntry, over the map of requests in flight.
--   Stop        ring.go: Stop, closeSq and closeCq, and what New hands them.
--   Run         ring.go: run and complete, with the tokens in the channel `retry`.
--   Completer   completer.go: run, which moves the head behind entries reported in any order; complete,
--               stop and run as steps at the channels (Completer/Channels).
--   Submitter   submitter.go: run, with its timer.
--   New         ring.go, ring_option.go: New with the six options, the accessors and FileReadWriter.
--   Listener    conn.go: walkCq and onListen of a listener.
--   Serving     conn.go: ringListener, the turns of its loop run (Serving/Rounds, Serving/Again), Accept,
--               Close, Addr and Fd.
--   Socket      conn.go: SockoptListener and FastOpenAllowed.
--   Connection  ring_conn.go: ringConn with getCqe, rePoll, run and the methods of a net.Conn, and the
--               calls on one connection in any order (Connection/Lifetime).
--   Lookup      types.go: EntryBy of CompletionQueue.
--   Fio         read_writer.go: ringFIO with getCqe, the Prepare functions and the methods of a file;
--               ring.go: getCqe; any number of transfers after one another (Fio/Jobs, Fio/Sequence),
--               and the completer behind them (Fio/Acknowledged).
--   Register    register.go: the eight register functions, with the arguments of the system call.
--   Registry    register.go: FileRegistry with Register, Unregister and ID.
--   Setup       uring_setup.go: Setup and MmapRing, with the addresses and lengths of what they map.
--   Standalone  examples/standalone/main.go: its own Setup, MmapRing and Enter, the loop of main
--               (Standalone/Program), and main from the temporary file to the comparison
--               (Standalone/Whole, Standalone/Ends).
--   Utils       utils.go: saferStringToBytes, on headers.
--   Cp          examples/cp/iouring.go: main, over a record of what it calls, and files in memory that
--               keep what it relies on (Cp/Stored).
--   Bulk        examples/bulk-socket/main.go: send and a turn of sendMessage, the chunk that it writes and
--               a reader of chunks (Bulk/Wire).
--   Base        What these share: lists, 64-bit integers, bit masks, and how a run of a function ends.
--   Examples    The theorems at concrete rings, and runs of the modelled functions.
--
-- How they interact. Ops and Fio take an entry from Submit, fill it through its index, and publish it
-- with the callback. Fio then enters the ring (Ring), looks for its completion in the queue and
-- reports the index to Completer. The calls of Ops that wait do so for the loop Run, which enters the
-- ring and calls onEntry (Completion). Submitter enters the ring as well. Registry calls Register.
-- New puts a Ring together from Setup and the options. Socket opens the listener that Serving runs,
-- whose turns enter the ring, walk the queue and poll through Listener, and hand over connections;
-- a Connection fills entries like Ops, enters the ring and looks for its completion with Lookup.
--
-- Conventions. A method is a function from the state that it changes to an `Outcome`: `done` with a
-- result and the state, `panic`, or `spin` for a busy loop that has used the rounds given to it.
-- A w-bit integer is a number, with `% 2 ^ w` where the code wraps; `int`, `int32` and `int64` are ℤ.
-- A Go map is an association list, a slice or a string its address and length, an error a value.
--
-- Bounds and rounds. SubmitEntry and enterLock loop until other goroutines let them through: their
-- rounds are a parameter, and the theorems show that one is enough on a ring that nobody is
-- entering. The inner loop of the completer gets a round more than its map has entries, which is
-- shown to be enough. The passes of getCqe are a list of the states that it sees, as long as one
-- likes. Queues have 2 ^ k entries, k < 31, and a mask of k ones, as the kernel sets them up.
--
-- Parameters. What the kernel answers to io_uring_enter, io_uring_register, io_uring_setup and mmap is
-- a function of the arguments (`Kernel`, `Call → ℕ`, `mmap`). What the loop of the ring signals
-- for a request is the parameter `complete` of Ops/Calls. The state of the shared queue at each
-- look of getCqe is the parameter `views` of Fio. Memory is sequentially consistent.
--
-- For New, what the mapped pages hold is the parameter `memory`. For sockets, the calls of packages
-- syscall, net and ioutil are the record `Sys`, accept4(2) is `accept`, and close(2) is `close_fd`. A
-- kernel that keeps the shape of the queues is the hypothesis `IsHonest`. The encoder of server-sent
-- events is the parameter `encode` of Bulk.
--
-- The members that the Prepare functions set are those of ops.go, which for accept and connect are not
-- those that io_uring_enter(2) documents; nothing is shown of how the kernel reads these two.
--
-- Not modelled: what the debug output of a listener and the stand-alone example print; the HTTP server
-- and the clients of the bulk-socket example; the other programs under examples and tests, which only
-- call the library. The requests of Completion are values: that complete may put a request back into
-- its pool, for another id, between the signal and the delete of onEntry is left out. The receive of a
-- connection's run from stop and the send of its getCqe are one step. A call on a Connection is one step, but for a wait at its channel; the
-- fields poll, pollReady and offset, which nothing reads, are left out.
pub mod Base
pub mod Entry
pub mod Queue
pub mod Submit
pub mod Register
pub mod Registry
pub mod Setup
pub mod Ring
pub mod Ops
pub mod Completion
pub mod Completer
pub mod Run
pub mod Submitter
pub mod Lookup
pub mod Stop
pub mod Listener
pub mod Connection
pub mod New
pub mod Serving
pub mod Socket
pub mod Standalone
pub mod Utils
pub mod Cp
pub mod Bulk
pub mod Locks
pub mod Fio
pub mod Examples
