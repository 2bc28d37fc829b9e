-- ===== src/Recorder.antt =====
-- `rtltcp-capture`, src/bin/capture.rs: the loop that reads from a server and writes the capture
-- file. The arguments, the clock, the exit flag and what the stream gives are outside.
pub mod Content
pub mod Program
use rtltcp.Prelude.{
  ℕ, ◌+◌, ◌*◌, ◌%◌, Bool, not, List, [], ◌∷◌, ◌++◌, length, ◌==◌, leb, if◌then◌else◌,
}
use rtltcp.Prelude.Loop.{Flow, again, break, state}
use rtltcp.Io.{ErrorKind, Result, ok, err, Outcome, done, failed}
use rtltcp.Io.Write.{File, Faults, file_write_all, vec_write, File_write, File_seek}
use rtltcp.Io.Read.{Reader, read_exact}
use rtltcp.Bytes.{u64_mod}
use rtltcp.Capture.{CaptureChunk, CaptureHeader, write_chunk, write_header}
use rtltcp.Server.Thread.{is_timeout}

pub record Options : Type 0 where
  pub duration : ℕ
  pub buffer_mem : ℕ

-- A round of the loop: the exit flag, the nanoseconds since the start, what `read` gives, and the
-- nanoseconds once it has. No bytes mean that the server closed the connection.
pub record Round : Type 0 where
  pub should_exit : Bool
  pub elapsed : ℕ
  pub received : Result ErrorKind (List ℕ)
  pub stamp : ℕ

pub record Recording : Type 0 where
  pub file : File
  pub buf : List ℕ
  pub total_bytes : ℕ

abbrev pub is_empty_buf : List ℕ → Bool
is_empty_buf bs = length bs == 0

-- A failed flush ends the loop, and leaves the buffer as it is.
after_flush : Recording → Outcome File ErrorKind (Unit {0}) → Flow Recording
after_flush s (done u f) = again (record s { file = f; buf = [] })
after_flush s (failed e f) = break (record s { file = f })

flush_if_full : Options → Recording → Flow Recording
unfolding after_flush
flush_if_full args s =
    if leb args.buffer_mem (length s.buf)
    then after_flush s (file_write_all s.buf s.file)
    else again s

-- A chunk is put together in a vector of its own; that cannot fail.
append_chunk : Options → ℕ → Recording → Outcome (List ℕ) ErrorKind (Unit {0}) → Flow Recording
unfolding flush_if_full
append_chunk args n s (done u chunk_buf) =
    flush_if_full args
      (record s { buf = s.buf ++ chunk_buf; total_bytes = (s.total_bytes + n) % u64_mod })
append_chunk args n s (failed e chunk_buf) = again s

on_received : Options → ℕ → Recording → Result ErrorKind (List ℕ) → Flow Recording
unfolding append_chunk
on_received args stamp s (err e) = if is_timeout e then again s else break s
on_received args stamp s (ok bytes) =
    let chunk : CaptureChunk = record { timestamp_ns = stamp % u64_mod; payload = bytes } in
    if is_empty_buf bytes
    then break s
    else append_chunk args (length bytes) s (write_chunk chunk [])

unfoldable pub capture_round : Options → Round → Recording → Flow Recording
unfolding on_received
capture_round args r s =
    if r.should_exit
    then break s
    else if leb (args.duration * 1_000_000_000) r.elapsed
    then break s
    else on_received args r.stamp s r.received

-- Over the rounds that the program runs; the loop ends in one of them, or is cut off.
unfoldable pub capture_loop : Options → List Round → Recording → Recording
capture_loop args [] s = s
capture_loop args (r ∷ rs) s = elim (capture_round args r s) [
  | again s' ↦ capture_loop args rs s'
  | break s' ↦ s'
]

abbrev after_last : Outcome File ErrorKind (Unit {0}) → File
after_last (done u f) = f
after_last (failed e f) = f

-- The last flush, whose failure is only logged.
unfoldable pub finish : Recording → File
finish s = if not (is_empty_buf s.buf) then after_last (file_write_all s.buf s.file) else s.file

-- From the new file on: the header with the server's magic packet, the loop, the last flush. A
-- header that cannot be written ends the program.
after_header : Options → List Round → Outcome File ErrorKind (Unit {0}) → Result ErrorKind File
after_header args rs (done u f) =
    ok (finish (capture_loop args rs (record { file = f; buf = []; total_bytes = 0 })))
after_header args rs (failed e f) = err e

after_magic :
    Options → List Round → File → Outcome Reader ErrorKind (List ℕ) → Result ErrorKind File
unfolding after_header
after_magic args rs file (done magic_payload rest) =
    after_header args rs (write_header (record { magic_payload = magic_payload }) file)
after_magic args rs file (failed e rest) = err e

-- The magic packet is read first; then the file is created.
unfoldable pub capture : Options → Reader → List Round → File → Result ErrorKind File
unfolding after_magic
capture args stream rs file = after_magic args rs file (read_exact 12 stream)
