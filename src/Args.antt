-- ===== src/Args.antt =====
-- The command line of src/main.rs: its options, their validation, the choice of the mode, and the
-- encryption key. Clap's parsing, the crate hex and the file system are outside: the options are
-- given, and the decoder and the file reader are arguments.
pub mod Validation
use Prim.Native.String.{String}
use text.Mathlib.Text.{◌==◌ as str_eq}
use rtltcp.Prelude.{
  ℕ, Bool, true, false, ◌||◌, List, Option, none, some, length, not, ◌==◌, ltb, if◌then◌else◌,
}
use rtltcp.Io.{ErrorKind, Result, ok, err}
use rtltcp.Error.{
  RtlTcpError, config, buffers_range, tcp_buffers_range, read_timeout_zero, write_timeout_zero,
  same_ports, unknown_mode, invalid_hex_key, key_length, key_file_failed,
}

pub record Args : Type 0 where
  pub mode : String
  pub address : String
  pub master_port : ℕ
  pub slave_port : Option ℕ
  pub max_slaves : ℕ
  pub upstream : Option String
  pub key : Option String
  pub key_file : Option String
  pub device_index : ℕ
  pub buffers : ℕ
  pub tcp_buffers : ℕ
  pub read_timeout : ℕ
  pub write_timeout : ℕ
  pub whitelist : List String

abbrev pub same_port : Option ℕ → ℕ → Bool
same_port none master_port = false
same_port (some sp) master_port = sp == master_port

unfoldable pub validate_args : Args → Result RtlTcpError (Unit {0})
validate_args args =
    if args.buffers == 0 || ltb 32 args.buffers
    then err (config buffers_range)
    else if args.tcp_buffers == 0 || ltb 10_485_760 args.tcp_buffers
    then err (config tcp_buffers_range)
    else if args.read_timeout == 0
    then err (config read_timeout_zero)
    else if args.write_timeout == 0
    then err (config write_timeout_zero)
    else if same_port args.slave_port args.master_port
    then err (config same_ports)
    else ok tt

-- Which of the three functions `main` goes on with.
pub data Mode : Type 0 where
  run_proxy_multi run_serve_multi run_serve_single : Mode

abbrev pub serve_mode : Option ℕ → Mode
serve_mode (some sp) = run_serve_multi
serve_mode none = run_serve_single

choose : Args → Result RtlTcpError Mode
choose args =
    if str_eq args.mode "proxy"
    then ok run_proxy_multi
    else if str_eq args.mode "serve"
    then ok (serve_mode args.slave_port)
    else err (config unknown_mode)

after_validation : Args → Result RtlTcpError (Unit {0}) → Result RtlTcpError Mode
unfolding choose
after_validation args (ok u) = choose args
after_validation args (err e) = err e

unfoldable pub main : Args → Result RtlTcpError Mode
unfolding after_validation
main args = after_validation args (validate_args args)

-- The address that stands for all interfaces, for which a warning is written.
unfoldable pub is_all_interfaces : Args → Bool
is_all_interfaces args =
    str_eq args.address "0.0.0.0"
    || str_eq args.address "::"
    || str_eq args.address "[::]"
    || str_eq args.address ""

exactly_32 : List ℕ → Result RtlTcpError (Option (List ℕ))
exactly_32 bytes = if not (length bytes == 32) then err (config key_length) else ok (some bytes)

module _ (hex_decode : String → Option (List ℕ))
    (read_file : String → Result ErrorKind (List ℕ)) where
  key_of_hex : Option (List ℕ) → Result RtlTcpError (Option (List ℕ))
  unfolding exactly_32
  key_of_hex (some bytes) = exactly_32 bytes
  key_of_hex none = err (config invalid_hex_key)

  key_of_file : Result ErrorKind (List ℕ) → Result RtlTcpError (Option (List ℕ))
  unfolding exactly_32
  key_of_file (ok bytes) = exactly_32 bytes
  key_of_file (err e) = err (config (key_file_failed e))

  key_from : Option String → Option String → Result RtlTcpError (Option (List ℕ))
  unfolding key_of_hex key_of_file
  key_from (some hex_key) key_file = key_of_hex (hex_decode hex_key)
  key_from none (some path) = key_of_file (read_file path)
  key_from none none = ok none

  unfoldable pub parse_encryption_key : Args → Result RtlTcpError (Option (List ℕ))
  unfolding key_from
  parse_encryption_key args = key_from args.key args.key_file
