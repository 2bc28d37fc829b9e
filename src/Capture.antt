-- ===== src/Capture.antt =====
-- The capture file format of src/capture/mod.rs: a header with the server's magic packet, then
-- chunks with a time stamp each. (The field `data` of a chunk is `payload` here.)
pub mod Format
pub mod RoundTrip
pub mod Truncated
pub mod Consumed
pub mod Header
use rtltcp.Prelude.{
  ℕ, ◌+◌, ◌%◌, List, [], ◌∷◌, ◌++◌, Option, none, some, length, not, ◌==◌, bytes_eq, if◌then◌else◌,
}
use rtltcp.Io.{
  ErrorKind, unexpected_eof, invalid_data, Outcome, done, failed, Action, ◌>>=◌, ◌>>◌, return,
  throw,
}
use rtltcp.Io.Read.{Reader, read_exact}
use rtltcp.Io.Write.{Write, Seek}
use rtltcp.Bytes.{u32_mod, to_le_bytes, from_le_bytes}

abbrev pub capture_magic : List ℕ
capture_magic = b'R' ∷ b'T' ∷ b'L' ∷ b'X' ∷ []

abbrev pub capture_version : ℕ
capture_version = 1

pub record CaptureHeader : Type 0 where
  pub magic_payload : List ℕ

pub record CaptureChunk : Type 0 where
  pub timestamp_ns : ℕ
  pub payload : List ℕ

unfoldable pub write_header_to_vec : CaptureHeader → List ℕ
write_header_to_vec header =
    let magic_len : ℕ = length header.magic_payload % u32_mod in
    capture_magic
    ++ (to_le_bytes 4 capture_version ++ (to_le_bytes 4 magic_len ++ header.magic_payload))

unfoldable pub write_header :
    {W : Type 0} ⦃w : Write W⦄ ⦃k : Seek W⦄ → CaptureHeader → Action W ErrorKind (Unit {0})
write_header ⦃w⦄ ⦃k⦄ header = do
  start ← k.stream_position
  w.write_all capture_magic
  w.write_all (to_le_bytes 4 capture_version)
  let magic_len = length header.magic_payload % u32_mod
  w.write_all (to_le_bytes 4 magic_len)
  w.write_all header.magic_payload
  end ← k.stream_position
  if not (start == 0)
      then (do k.seek_start 0; w.write_all (write_header_to_vec header); k.seek_start end)
      else return tt

-- What follows the magic of the file. The version is read, and not looked at.
unfoldable pub read_header_fields : Action Reader ErrorKind CaptureHeader
read_header_fields = do
  version_buf ← read_exact 4
  magic_len_buf ← read_exact 4
  let magic_len = from_le_bytes magic_len_buf
  magic_payload ← read_exact magic_len
  return (record { magic_payload = magic_payload })

unfoldable pub read_header : Action Reader ErrorKind CaptureHeader
read_header = do
  magic ← read_exact 4
  if not (bytes_eq magic capture_magic) then throw invalid_data else read_header_fields

unfoldable pub write_chunk :
    {W : Type 0} ⦃w : Write W⦄ → CaptureChunk → Action W ErrorKind (Unit {0})
write_chunk ⦃w⦄ chunk = do
  w.write_all (to_le_bytes 8 chunk.timestamp_ns)
  let data_len = length chunk.payload % u32_mod
  w.write_all (to_le_bytes 4 data_len)
  w.write_all chunk.payload

-- What follows the time stamp.
unfoldable pub read_chunk_data : ℕ → Action Reader ErrorKind (Option CaptureChunk)
read_chunk_data timestamp_ns = do
  len_buf ← read_exact 4
  let data_len = from_le_bytes len_buf
  payload ← read_exact data_len
  return (some (record { timestamp_ns = timestamp_ns; payload = payload }))

-- A stream that ends before the time stamp is complete is the end of the capture.
after_timestamp : Outcome Reader ErrorKind (List ℕ) → Outcome Reader ErrorKind (Option CaptureChunk)
after_timestamp (done ts_buf s) = read_chunk_data (from_le_bytes ts_buf) s
after_timestamp (failed unexpected_eof s) = done none s
after_timestamp (failed e s) = failed e s

unfoldable pub read_chunk : Action Reader ErrorKind (Option CaptureChunk)
unfolding after_timestamp
read_chunk s = after_timestamp (read_exact 8 s)
