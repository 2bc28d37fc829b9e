-- ===== src/Tests/Capture.antt =====
-- Runs of the capture format.
use rtltcp.Prelude.{ℕ, ◌≡◌, refl, List, [], ◌∷◌, ◌++◌, some, length, arith, take, ◌+◌}
use rtltcp.Io.{done, failed, unexpected_eof}
use rtltcp.Io.Read.{sending}
use rtltcp.Io.Write.{File, vec_write, File_write, File_seek}
use rtltcp.Bytes.{to_le_bytes}
use rtltcp.Capture.{CaptureChunk, CaptureHeader, write_chunk, read_chunk, write_header, read_header}
use rtltcp.Capture.Format.{chunk_bytes, header_bytes}
use rtltcp.Capture.RoundTrip.{read_chunk-write_chunk}
use rtltcp.Capture.Truncated.{read_chunk_truncated}
use rtltcp.Capture.Header.{healthy, read_header-write_header}

abbrev sample : CaptureChunk
sample = record { timestamp_ns = 1000; payload = 7 ∷ 8 ∷ 9 ∷ [] }

abbrev tuner : CaptureHeader
tuner = record { magic_payload = b'R' ∷ b'T' ∷ b'L' ∷ b'0' ∷ [] }

chunk_bytes-sample :
    chunk_bytes sample ≡ 232 ∷ 3 ∷ 0 ∷ 0 ∷ 0 ∷ 0 ∷ 0 ∷ 0 ∷ 3 ∷ 0 ∷ 0 ∷ 0 ∷ 7 ∷ 8 ∷ 9 ∷ []
unfolding chunk_bytes to_le_bytes
chunk_bytes-sample = refl

read_chunk-write_chunk_example :
    (bs : List ℕ) × (write_chunk sample (5 ∷ []) ≡ done tt (5 ∷ bs))
    × (read_chunk (sending bs ++ []) ≡ done (some sample) [])
read_chunk-write_chunk_example = read_chunk-write_chunk sample (5 ∷ []) [] (omega arith)

read_header-write_header_example :
    (g : File) × (t : List ℕ) × (write_header tuner (healthy (1 ∷ 2 ∷ []) 2) ≡ done tt g)
    × (g.position ≡ 2 + length (header_bytes tuner))
    × (read_header (sending g.content) ≡ done tuner (sending t))
read_header-write_header_example = read_header-write_header tuner (1 ∷ 2 ∷ []) 2 (omega arith)

read_chunk_truncated_example :
    read_chunk (sending (take 13 (chunk_bytes sample))) ≡ failed unexpected_eof []
read_chunk_truncated_example =
    read_chunk_truncated sample 13 (omega arith) (unfold chunk_bytes to_le_bytes in omega arith)
