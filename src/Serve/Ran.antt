-- ===== src/Serve/Ran.antt =====
-- A session of `run_serve_single` of src/main.rs that got past the magic packet.
use mathlib.Core.Path.{subst}
use rtltcp.Prelude.{ℕ, ◌≡◌, refl, true, List}
use rtltcp.Io.{ErrorKind, Result, ok, err, map_err, Outcome, done, failed, ◌>>◌}
use rtltcp.Io.Duplex.{Duplex}
use rtltcp.Io.BufWriter.{BufWriter, buffered_write_all, flush}
use rtltcp.Error.{
  RtlTcpError, io, config, device as device_error, open_device_failed, signal_handler_failed,
}
use rtltcp.Control.Whitelist.{Addresses}
use rtltcp.Args.{Args}
use rtltcp.Server.{Controller}
use rtltcp.Serve.{
  open_client, watched, with_device, and_then, Outside, Event, Running, writer, with_writer, run,
  open_single, begin, after_greeting, serve_single,
}

pub and_then-ok :
    {A B : Type 0} (r : Result RtlTcpError A) (f : A → Result RtlTcpError B) {b : B}
    → and_then r f ≡ ok b
    → (a : A) × (r ≡ ok a) × (f a ≡ ok b)
and_then-ok (ok a) f h = (a, refl, h)
and_then-ok (err e) f h = cc

-- What holds of the value, if there is one.
pub record IfOk {A : Type 0} (Q : A → Type 0) (r : Result RtlTcpError A) : Type 0 where
  pub value : (a : A) → r ≡ ok a → Q a

pub IfOk-ok : {A : Type 0} (Q : A → Type 0) (a : A) → Q a → IfOk Q (ok a)
IfOk-ok Q a q = record { value = λ b e. subst Q (ok_inj a b e) q }
  where
    ok_inj : {A : Type 0} (a b : A) → ◌≡◌ {A = Result RtlTcpError A} (ok a) (ok b) → a ≡ b
    ok_inj a b e = cc

pub IfOk-and_then :
    {A B : Type 0} (Q : B → Type 0) (r : Result RtlTcpError A) (f : A → Result RtlTcpError B)
    → ((a : A) → r ≡ ok a → IfOk Q (f a))
    → IfOk Q (and_then r f)
IfOk-and_then Q (ok a) f h = h a refl
IfOk-and_then Q (err e) f h = record { value = λ b g. cc }

pub map_err-ok :
    {E F A : Type 0} (f : E → F) (r : Result E A) {a : A} → map_err f r ≡ ok a → r ≡ ok a
map_err-ok f (ok a) h = cc
map_err-ok f (err e) h = cc

module _ (device : Controller) (net : Addresses) (magic : List ℕ) (o : Outside device.Handle) where
  open device use {Handle}

  -- The client and the device, and the writer once it has flushed the packet.
  pub record Ran (args : Args) (started started_later : ℕ) (early late : List Event)
      (s : Running device) : Type 0 where
    pub client : Duplex × Handle
    pub writer_after : BufWriter
    pub opened : open_single device net magic o args ≡ ok client
    pub ran :
        s
        ≡ run device late
            (record (with_writer device writer_after (
              run device early
                (begin device net magic o args started started_later client.0 client.1))) {
                  reading = true;
                })

  pub serve_single-Ran :
      (args : Args) (started started_later : ℕ) (early late : List Event) (s : Running device)
      → serve_single device net magic o args started started_later early late ≡ ok s
      → Ran args started started_later early late s
  unfolding serve_single after_greeting
  serve_single-Ran args started started_later early late s h =
      from_client (open_single device net magic o args) refl h
    where
      greeted : Duplex × Handle → Running device
      greeted client =
          run device early (begin device net magic o args started started_later client.0 client.1)

      from_writer :
          (client : Duplex × Handle)
          → open_single device net magic o args ≡ ok client
          → (w : Outcome BufWriter ErrorKind (Unit {0}))
          → after_greeting device net magic o late (greeted client) w ≡ ok s
          → Ran args started started_later early late s
      from_writer client e (failed k w) g = cc
      from_writer client e (done u w) g = record {
        client = client;
        writer_after = w;
        opened = e;
        ran = cc;
      }

      from_client :
          (r : Result RtlTcpError (Duplex × Handle))
          → open_single device net magic o args ≡ r
          → and_then r (λ client.
            after_greeting device net magic o late
              (greeted client)
              ((buffered_write_all magic >> flush) (writer device (greeted client))))
            ≡ ok s
          → Ran args started started_later early late s
      from_client (err k) e g = cc
      from_client (ok client) e g = from_writer client e _ g

  pub open_single-device :
      (args : Args) (client : Duplex × Handle)
      → open_single device net magic o args ≡ ok client
      → o.open_device args.device_index ≡ ok client.1
  unfolding open_single with_device watched
  open_single-device args client h =
      let (stream, e1, h1) =
        and_then-ok (open_client device net magic o args) (with_device device net magic o args) h in
      let (ctl, e2, h2) =
        and_then-ok
          (map_err (λ (e : Unit {0}). device_error open_device_failed)
            (o.open_device args.device_index))
          (watched device net magic o stream) h1 in
      let (u, e3, h3) =
        and_then-ok (map_err (λ (e : Unit {0}). config signal_handler_failed) o.set_handler)
          (λ u. and_then (map_err io o.clone_for_control) λ v. ok (stream, ctl)) h2 in
      let (v, e4, h4) = and_then-ok (map_err io o.clone_for_control) (λ v. ok (stream, ctl)) h3 in
      same stream ctl
        (map_err-ok (λ e. device_error open_device_failed) (o.open_device args.device_index) e2) h4
    where
      same :
          (stream : Duplex) (ctl : Handle)
          → o.open_device args.device_index ≡ ok ctl
          → ◌≡◌ {A = Result RtlTcpError (Duplex × Handle)} (ok (stream, ctl)) (ok client)
          → o.open_device args.device_index ≡ ok client.1
      same stream ctl e g = cc
