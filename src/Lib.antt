-- ===== src/Lib.antt =====
-- A model of rtltcp, an I/Q spectrum server for RTL2832 receivers, and of its two tools: the
-- server and the proxy of src/main.rs, `rtltcp-capture` of src/bin/capture.rs and `rtltcp-replay`
-- of src/bin/replay.rs. A server owns the receiver, sends its samples to all clients and obeys the
-- commands of one of them, the master; a proxy stands between clients and another server, and may
-- encrypt the link; the tools record what a server sends and send it again.
--
-- A byte is a number, and the integers of the machine are numbers with their wrap-around written
-- out. An action on a stream is a function from its state to an outcome, `done` with a value or
-- `failed` with an error, and the new state (Io). What the operating system answers is part of the
-- state of a stream: a reader is the list of what arrives, bytes and errors (Io/Read), and a
-- socket or a file has a list of the faults of its coming writes (Io/Write). Loops are lists of
-- the rounds with what each of them finds, or run on fuel, one unit for a round (Prelude/Loop);
-- the fuel of a control thread is one unit for each thing that arrives on its stream and one more,
-- that of a replay one for each chunk, or for each arrival in the file, and one more, and with
-- `--loop` there is no end; the thread that logs the client's commands has fuel of its own, enough
-- for the round in which it gives up, since a client may go on for ever. A flag, the clock and a
-- random nonce are given for each round, so that the theorems hold for all of them.
--
-- The files and the code they model:
-- - Io, Bytes, Error: what the program uses of std::io, bytes of integers, and the errors of
--   src/error.rs.
-- - Capture: the file format of src/capture/mod.rs; Capture/Format states the bytes independently,
--   and Capture/RoundTrip, Capture/Header and Capture/Truncated are about the readers of it.
-- - Control: src/control.rs, with the ranges in Control/Ranges, `check_whitelist` in
--   Control/Whitelist, `AgcState` and `RateLimiter` in files of their names.
-- - Encryption: the nonce exchanges of src/encryption.rs; Encryption/Wrappers has
--   `EncryptedWriter` and `EncryptedReader`, with std's `write_all` above them. The crate chacha20
--   is a parameter, `StreamCipher`, and what is used of it is `CipherLaws`.
-- - Server: the commands as the control threads of src/main.rs do them on the device, which is a
--   parameter, `Controller`. Server/Thread has the loop that the threads share;
--   Server/Thread/Single is the thread of `run_serve_single`, and Server/Thread/Master is
--   `spawn_master_control_thread`. Server/Masters is the accept loop of `run_serve_multi`, with
--   the start of the thread that writes to a master in Server/Masters/Writer, and what the exit
--   flag does to its rounds in Server/Masters/Flags. Server/Commands has the wire format of the
--   commands, stated for the proofs, and Server/Delivery, Server/Frames and Server/Safety have
--   what holds of the threads, Server/Thread/Idle is about a master that sends nothing, and
--   Server/Modes about the two serve modes side by side.
-- - Serve: `run_serve_single` of src/main.rs as a whole, from the listener on: its three threads
--   are interleaved in any order that a list of events gives. Serve/Samples is about what the
--   client is sent, Serve/Shutdown about the end, Serve/Safety about the device. Io/BufWriter is
--   the `BufWriter` of std.
-- - ServeMulti: `run_serve_multi` of src/main.rs as a whole, in the same way, from the accept
--   loops of Server/Masters and Acceptor. ServeMulti/Quiet and ServeMulti/Progress are about its
--   single steps, ServeMulti/Turns, over Prelude/Fair, about schedules in which every thread has
--   its turns; ServeMulti/Protocol states the shutdown as a protocol of its own,
--   ServeMulti/Shutdown, ServeMulti/Closed and ServeMulti/Unsignalled are about the end of the
--   mode, ServeMulti/Accepting is what all of them use of the acceptor's steps, ServeMulti/Safety
--   about the device and the clients.
-- - ProxyMulti: `run_proxy_multi` of src/main.rs as a whole, in the same way, from the parts in
--   Proxy; ProxyMulti/Progress is about its single steps, ProxyMulti/Stops and
--   ProxyMulti/Unsignalled are about its end.
-- - Stream: `write_client_loop` of src/stream.rs over what the broadcast channel answers.
-- - Proxy: `connect_upstream` of src/proxy.rs; Proxy/Start is the way of `run_proxy_multi` in
--   src/main.rs to its connection; Proxy/Forward is the thread of `run_proxy_multi` in src/main.rs
--   that forwards commands, and the one that relays the samples; Proxy/Masters is the accept loop
--   there, with its masters in a row in Proxy/Masters/InStep. Proxy/Session puts a proxy and a
--   server together, and Proxy/Plain is about upstreams that are not the end of a chain.
-- - Fanout: the threads around the broadcast channel of src/main.rs in any order, as a step
--   relation; Fanout/Order has the invariant, Fanout/Greeting what it means for the magic packet.
-- - Acceptor: `spawn_slave_acceptor` of src/main.rs.
-- - Args: the options of src/main.rs, `validate_args`, the choice of the mode, and
--   `parse_encryption_key`.
-- - Recorder, Replay: the loops of src/bin/capture.rs and src/bin/replay.rs, with the thread of
--   the latter that logs commands in Replay/Commands; Recorder/Program and Replay/Program are
--   their `main`. Replay/Ending is about the end of a replay, from the readers in
--   Capture/Consumed; Replay/EndToEnd puts one tool behind the other.
-- - Tests: runs of the definitions and the theorems at concrete inputs.
--
-- Not modelled: log lines, which do not change what is returned; what an operating system may
-- refuse when a thread is started; the device library, which reads the samples and ends the
-- reading some time after it is asked; what fails only in the operating system at time-out
-- settings other than zero and, outside Serve and ProxyMulti, at a clone of a stream; a write that
-- is never answered, by a client that stays and does not read; outside Serve, what a `BufWriter`
-- that is dropped tries again to write after an error. But for Fanout, Serve, ServeMulti and
-- ProxyMulti, each thread is modelled by itself: what the others do to what it shares shows as
-- what its rounds are given.
pub mod Prelude
pub mod Io
pub mod Bytes
pub mod Capture
pub mod Error
pub mod Control
pub mod Encryption
pub mod Server
pub mod Stream
pub mod Proxy
pub mod Args
pub mod Acceptor
pub mod Recorder
pub mod Replay
pub mod Fanout
pub mod Serve
pub mod ServeMulti
pub mod ProxyMulti
mod Tests
