-- ===== src/Segment/Decode.antt =====
-- When the record decoder reaches its checksum test, and when it reports a torn write before it.
use folio.Base.{ℕ, ◌+◌, ◌<◌, ◌≤◌, ◌≡◌, List, arith, u64_mod, length, take, drop}
use folio.Bytes.{from_le_bytes}
use folio.Error.{err, storage, ok}
use folio.Segment.{record_overhead, decode_record, checked}

-- The payload length that the record at `pos` claims.
abbrev pub claimed : List ℕ → ℕ → ℕ
claimed bytes pos = from_le_bytes (take 4 (drop pos bytes))

module _ (crc32 : List ℕ → ℕ) (bytes : List ℕ) (pos : ℕ) (small : length bytes < u64_mod) where
  -- The record lies inside the data: all depends on the checksum.
  pub decode_record-inside :
      pos + record_overhead + claimed bytes pos ≤ length bytes
      → decode_record crc32 bytes pos ≡ checked crc32 bytes pos (claimed bytes pos)
  unfolding decode_record
  decode_record-inside h = ground arith

  -- The data ends inside the record's length prefix, or before the record does.
  pub decode_record-truncated :
      length bytes < pos + record_overhead + claimed bytes pos
      → decode_record crc32 bytes pos ≡ err storage
  unfolding decode_record
  decode_record-truncated h = ground arith

  -- A record that decodes is there in whole.
  pub decode_record-fits :
      {r : ℕ × ℕ × List ℕ × ℕ}
      → decode_record crc32 bytes pos ≡ ok r
      → (pos + record_overhead + claimed bytes pos ≤ length bytes)
        × (checked crc32 bytes pos (claimed bytes pos) ≡ ok r)
  unfolding decode_record
  decode_record-fits h = ground arith
