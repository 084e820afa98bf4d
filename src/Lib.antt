-- ===== src/Lib.antt =====
-- A websocket client over io_uring (crate ws_uring): the submission queue, the buffer groups that are
-- lent to the kernel, completions, the readers over filled buffers, and the TCP stream on top.
--
-- How the parts interact. A stream's nonblocking write takes a slot of the submission queue, fills it
-- with a send and keeps the bytes until the completion. The kernel fills buffers of a group and posts
-- completions; a completion finds its buffer through the pool and hands it to the stream that owns
-- it, which queues it for reading. A reader that is drained gives its buffer back to the ring. A
-- program opens its streams, queues a receive for each, and then goes round: it submits what is
-- queued, takes the completions that are ready, and lets the websocket of each one's owner read.
--
-- Where each part is.
--   Base       shared names: tests, lists, words and bits, rings of places, panics as values.
--   UserData   src/lib.rs: `UserData`, `Event` and the constants.
--   Sqe        src/op.rs and the entry functions of src/ring.rs, over `io_uring_sqe` of src/sys.rs.
--              Sqe/Files and Example/Files have `open` and `close`, which nothing calls.
--   Ring       src/ring.rs: `io_uring_get_sqe`, `Ring::_prep_send`; `io_uring_cq_advance`.
--              Ring/Slots has the invariant, Ring/Queue the FIFO, Ring/Traffic the runs.
--   Memory     the memory shared with the kernel: buffer rings by address, bytes of the buffers.
--   BufRing    src/buf_ring.rs and src/common.rs. BufRing/Places and BufRing/Group describe a ring,
--              BufRing/Init a new group, BufRing/Cycle the runs of kernel and program over a group:
--              Sound its invariant, Progress and Ownership what follows from it. BufRing/Bytes has the
--              same ring as bytes.
--   Cqe        src/cqe.rs: `Completion::from_raw_event`, taking the buffer, dropping.
--   ReadBuf    src/read_buf.rs: `KernelBufferReader` and `KernelBufferVecReader`.
--   Net        src/net.rs: `TcpStream`. Net/Pending has the map of pending sends, Net/Outbound what
--              becomes of the messages, Net/Reads, Taken, Ask and Room any number of reads.
--   Session    src/ping_pong.rs and src/io_uring_probe_v2.rs: the types that both programs use.
--              Session/Start is ping_pong up to its loop, Session/PingPong its loop, Session/Probe the
--              other program and Probe/Loop where its completions go. Start/Setup has the proofs on
--              the start, PingPong/Loop and PingPong/Receive those on one completion,
--              PingPong/Opening, Buffers, Follow, Runs and Arrival those on whole runs: the program
--              over one stream follows the cycle of its group. PingPong/Carried and Intact add the
--              bytes that the kernel puts in buffers and those that the websocket reads,
--              PingPong/Expecting and Returns what the stream needs to take them. The loops have
--              no end: in PingPong/Program and Probe/Program, which join the parts, they go through
--              a list of rounds.
--   Frames     src/examples/io_uring_probe.rs: `WebsocketHandler::add_data`. Its loop takes fuel, the
--              number of calls of the decoder: one for each event, and the last, which has none.
--   Example    src/examples/io_uring_probe.rs: the program of one file that reads through rustls.
--              Copies has its own ring functions, Setup what goes before the loop, Receive the loop.
--              Plaintext and Plaintext/Loop follow the bytes, Group and Returns the buffers. The loop
--              over the plaintext has as many rounds as there are bytes of it; none takes fewer than one.
--   Abi        src/sys.rs: the structs and unions with the assertions on their layout; of each, one
--              definition has the fields and another the numbers that are asserted. Abi/Flags and
--              Abi/Codes have the constants, a list for each family, Abi/Families how they go.
--   Tests      concrete inputs.
--
-- How the code is rendered. State is passed and returned. A panic is a value of `Result`, `undefined`
-- standing for a read through a null or dangling pointer; the debug profile is modelled, so that
-- `debug_assert!` and arithmetic overflow panic. An error that the code returns is a value of `Io`. A
-- pointer to a submission entry is its index. A machine integer is a native number whose wrap-around
-- is written out, a signed one its bit pattern. The union of the buffer ring's tail with its first
-- entry is kept: the tail is the `resv` field of that entry, and BufRing/Bytes has what that is on the
-- bytes. All loops but that of `add_data` and the one over the plaintext are structural recursions.
--
-- What is a parameter. liburing's `io_uring_setup_buf_ring`, `Layout::from_size_align`, the allocator
-- and `sysconf` (`BufRing.Platform`), the growth of `VecDeque`, the allocator's address of a copied
-- message, libc's `MSG_WAITALL`, the socket (`Net.Socket`), tungstenite and what is called with it of
-- rustls (`Session.Tungstenite`), the frame decoder (`Frames.Decoder`), rustls and the other libraries of the example
-- (`Example.Library`), and liburing's calls of one round (`Session.Kernel`). The kernel is the
-- environment of the step relations `Ring.Traffic` and `BufRing.Cycle`: it takes submissions and
-- buffers in the order of their rings. The layout of structs is that of `repr(C)`, in Abi.antt.
--
-- What is not modelled. Logging, the TLS and websocket handshake, the clock, the foreign functions
-- of src/sys.rs (they are parameters where they are called) and its constants that belong to no
-- family, src/bin and the build scripts. Memory orderings are not modelled: each shared counter is
-- read and written in program order.
pub mod Base
pub mod UserData
pub mod Sqe
pub mod Ring
pub mod Memory
pub mod BufRing
pub mod Cqe
pub mod ReadBuf
pub mod Net
pub mod Session
pub mod Frames
pub mod Example
pub mod Abi
mod Tests
