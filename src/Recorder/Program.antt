-- ===== src/Recorder/Program.antt =====
-- `main` of src/bin/capture.rs: the signal handler, the connection and the new file before the loop.
-- What the operating system answers is an argument; that no read time-out can be set is ignored.
use rtltcp.Prelude.{ℕ, ◌≡◌, refl, List, []}
use rtltcp.Io.{ErrorKind, Result, ok, err, map_err, Outcome, done, failed, or_exit, settled}
use rtltcp.Io.Read.{Reader, read_exact}
use rtltcp.Io.Write.{File, File_write, File_seek}
use rtltcp.Capture.{write_header}
use rtltcp.Recorder.{Options, Round, capture_loop, finish, after_header, after_magic, capture}

pub record Outside : Type 0 where
  pub set_handler : Result (Unit {0}) (Unit {0})
  pub connect : Result ErrorKind Reader
  pub create : Result ErrorKind File

-- The program panics without its signal handler, and exits with status 1 after other errors.
pub data Abort : Type 0 where
  panicked : Abort
  exited : ErrorKind → Abort

record_to : Outside → Options → List Round → Result ErrorKind File
record_to o args rs = or_exit o.connect λ stream. or_exit (settled (read_exact 12 stream)) λ magic.
    or_exit o.create λ file.
      or_exit (settled (write_header (record { magic_payload = magic.0 }) file))
        λ w. ok (finish (capture_loop args rs (record { file = w.1; buf = []; total_bytes = 0 })))

unfoldable pub main : Outside → Options → List Round → Result Abort File
unfolding record_to
main o args rs = elim o.set_handler [
  | ok u ↦ map_err exited (record_to o args rs)
  | err e ↦ err panicked
]

-- With nothing in its way, the program does what `capture` does.
module _ (o : Outside) (args : Options) (rs : List Round) (file f : File)
    (created : o.create ≡ ok file) where
  from_header :
      (w : Outcome File ErrorKind (Unit {0}))
      → after_header args rs w ≡ ok f
      → (or_exit (settled w) λ w.
          ok (finish (capture_loop args rs (record { file = w.1; buf = []; total_bytes = 0 }))))
        ≡ ok f
  unfolding after_header
  from_header (failed e g) h = cc
  from_header (done u g) h = h

  from_magic :
      (m : Outcome Reader ErrorKind (List ℕ))
      → after_magic args rs file m ≡ ok f
      → (or_exit (settled m) λ magic. or_exit o.create λ file.
          or_exit (settled (write_header (record { magic_payload = magic.0 }) file)) λ w.
            ok (finish (capture_loop args rs (record { file = w.1; buf = []; total_bytes = 0 }))))
        ≡ ok f
  unfolding after_magic
  from_magic (failed e s) h = cc
  from_magic (done magic s) h =
      rw created (from_header (write_header (record { magic_payload = magic }) file) h)

pub main-capture :
    (o : Outside) (args : Options) (stream : Reader) (rs : List Round) (file f : File)
    → o.set_handler ≡ ok tt
    → o.connect ≡ ok stream
    → o.create ≡ ok file
    → capture args stream rs file ≡ ok f
    → main o args rs ≡ ok f
unfolding main record_to capture
main-capture o args stream rs file f handler connected created h =
    rw (handler, connected) (rw (from_magic o args rs file f created (read_exact 12 stream) h) refl)
