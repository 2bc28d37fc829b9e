-- ===== src/Tests/Upstream.antt =====
-- The start of the proxy mode at a plain server.
use Prim.Native.String.{String}
use text.Mathlib.Text.{◌==◌ as str_eq}
use rtltcp.Prelude.{
  ℕ, ◌≡◌, refl, false, List, [], ◌∷◌, ◌++◌, Option, none, some, arith, if◌then◌else◌,
}
use rtltcp.Io.{ErrorKind, Result, ok, err, timed_out, not_connected}
use rtltcp.Io.Read.{fail, sending}
use rtltcp.Io.Duplex.{Duplex}
use rtltcp.Args.{Args, parse_encryption_key}
use rtltcp.Proxy.{UpstreamConnection, probe}
use rtltcp.Proxy.Agreement.{link}
use rtltcp.Proxy.Plain.{connect_plain}
use rtltcp.Proxy.Start.{open_upstream}
use rtltcp.Tests.Fixtures.{striped}

abbrev pub options : Args
options = record {
  mode = "proxy";
  address = "127.0.0.1";
  master_port = 1234;
  slave_port = some 1235;
  max_slaves = 10;
  upstream = some "far:1234";
  key = none;
  key_file = none;
  device_index = 0;
  buffers = 8;
  tcp_buffers = 4096;
  read_timeout = 30;
  write_timeout = 30;
  whitelist = [];
}

abbrev pub rsplit_once : String → Option (String × String)
rsplit_once t = if str_eq t "far:1234" then some ("far", "1234") else none

abbrev pub parse_port : String → Option ℕ
parse_port t = if str_eq t "1234" then some 1234 else none

abbrev pub no_hex : String → Option (List ℕ)
no_hex t = none

abbrev pub no_files : String → Result ErrorKind (List ℕ)
no_files t = err not_connected

abbrev magic : List ℕ
magic = b'R' ∷ b'T' ∷ b'L' ∷ b'0' ∷ 0 ∷ 0 ∷ 0 ∷ 5 ∷ 0 ∷ 0 ∷ 0 ∷ 29 ∷ []

abbrev pub nonce : List ℕ
nonce = 1 ∷ 2 ∷ 3 ∷ 4 ∷ 5 ∷ 6 ∷ 7 ∷ 8 ∷ 9 ∷ 10 ∷ 11 ∷ 12 ∷ []

-- A plain server, which does not answer the probe.
abbrev pub far : String → ℕ → Result ErrorKind Duplex
far host port = ok (link (sending magic ++ (fail timed_out ∷ [])) [])

abbrev pub plain_upstream : UpstreamConnection striped
plain_upstream = record {
  stream = link [] probe;
  is_chain = false;
  read_cipher = none;
  write_cipher = none;
  magic_packet = magic;
}

pub open_upstream-far :
    open_upstream rsplit_once parse_port no_hex no_files striped far nonce options
    ≡ ok plain_upstream
unfolding open_upstream parse_encryption_key
open_upstream-far =
    connect_plain striped none nonce magic 500_000_000 timed_out [] [] (omega arith) refl
