-- ===== src/Capture/Format.antt =====
-- The bytes of a header and of a chunk, as the format is documented, and that the writers of
-- src/capture/mod.rs produce them.
use rtltcp.Prelude.{ℕ, ◌<◌, ◌%◌, ◌≡◌, List, ◌++◌, concat, map, length, append_assoc, arith}
use rtltcp.Io.{done}
use rtltcp.Io.Write.{vec_write}
use rtltcp.Bytes.{u32_mod, u64_mod, to_le_bytes}
use rtltcp.Capture.{
  CaptureHeader, CaptureChunk, capture_magic, capture_version, write_header_to_vec, write_chunk,
}

-- A chunk that its 64-bit time stamp and its 32-bit length field can hold.
abbrev pub Fits : CaptureChunk → Type 0
Fits c = (c.timestamp_ns < u64_mod) × (length c.payload < u32_mod)

unfoldable pub chunk_bytes : CaptureChunk → List ℕ
chunk_bytes c = to_le_bytes 8 c.timestamp_ns ++ (to_le_bytes 4 (length c.payload) ++ c.payload)

unfoldable pub header_bytes : CaptureHeader → List ℕ
header_bytes h =
    capture_magic
    ++ (to_le_bytes 4 capture_version
        ++ (to_le_bytes 4 (length h.magic_payload) ++ h.magic_payload))

-- Chunks one behind the other.
abbrev pub stored : List CaptureChunk → List ℕ
stored cs = concat (map chunk_bytes cs)

pub write_chunk_vec :
    (c : CaptureChunk) (v : List ℕ) → Fits c → write_chunk c v ≡ done tt (v ++ chunk_bytes c)
unfolding write_chunk chunk_bytes
write_chunk_vec c v (ht, hl) =
    let small : length c.payload % u32_mod ≡ length c.payload = omega arith in
    rw small (simp append_assoc)

pub write_header_to_vec_lem :
    (h : CaptureHeader) → length h.magic_payload < u32_mod → write_header_to_vec h ≡ header_bytes h
unfolding write_header_to_vec header_bytes
write_header_to_vec_lem h fits =
    let small : length h.magic_payload % u32_mod ≡ length h.magic_payload = omega arith in rw small
