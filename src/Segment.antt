-- ===== src/Segment.antt =====
-- crates/folio-node/src/storage/segment.rs: record framing, the aligned write buffer and the record
-- decoder. A record is
--   [u32 LE payload_len][u64 BE ledger_id][u64 BE entry_id][payload][u32 LE CRC32].
pub mod Codec
pub mod Decode
pub mod Soundness
pub mod Extend
pub mod Batch
use folio.Base.{
  ℕ, zero, suc, ◌+◌, ◌-◌, ◌*◌, ◌/◌, ◌%◌, Bool, true, false, String, Option, none, some, List, [],
  ◌∷◌, ◌++◌, u32_mod, checked_add64, add64, sub64, ltb, ◌==◌, if◌then◌else◌, length, take, drop,
  replicate,
}
use folio.Bytes.{to_be_bytes, from_be_bytes, to_le_bytes, from_le_bytes}
use folio.Error.{Result, ok, err, storage}

abbrev pub record_header : ℕ
record_header = 20

abbrev pub record_footer : ℕ
record_footer = 4

abbrev pub record_overhead : ℕ
record_overhead = record_header + record_footer

abbrev pub align : ℕ
align = 4096

abbrev pub block_size : ℕ
block_size = 256 * 1024

pub data SegmentKind : Type 0 where
  wal entry : SegmentKind

pub data SegmentStatus : Type 0 where
  on_local offloading on_s3 deleted active : SegmentStatus

unfoldable pub status_eq : SegmentStatus → SegmentStatus → Bool
status_eq on_local on_local = true
status_eq offloading offloading = true
status_eq on_s3 on_s3 = true
status_eq deleted deleted = true
status_eq active active = true
status_eq _ _ = false

-- `ledger_sizes` is a map from ledger to bytes, as an association list.
pub record SegmentMeta : Type 0 where
  pub id : ℕ
  pub kind : SegmentKind
  pub status : SegmentStatus
  pub local_path : Option String
  pub s3_key : Option String
  pub byte_len : ℕ
  pub ledger_sizes : List (ℕ × ℕ)

pub record IndexValue : Type 0 where
  pub segment_id : ℕ
  pub offset : ℕ
  pub length : ℕ

-- `payload_range_in_block`, whose arithmetic wraps.
unfoldable pub payload_range_in_block : IndexValue → ℕ → ℕ × ℕ
payload_range_in_block iv block_start =
    let rec_start = sub64 iv.offset block_start in
    let pay_start = add64 rec_start record_header in
    (pay_start, add64 pay_start (sub64 iv.length record_overhead))

-- `(n + ALIGN - 1) & !(ALIGN - 1)`: clearing the low bits of a power of two is this division.
unfoldable pub align_up : ℕ → ℕ
align_up n = (n + align - 1) / align * align

-- The four fields that the checksum covers.
abbrev pub covered : ℕ → ℕ → List ℕ → List ℕ
covered ledger_id entry_id payload =
    to_le_bytes 4 (length payload % u32_mod)
    ++ (to_be_bytes 8 ledger_id ++ (to_be_bytes 8 entry_id ++ payload))

module _ (crc32 : List ℕ → ℕ) where
  -- What `push` appends to the buffer.
  unfoldable pub encode_record : ℕ → ℕ → List ℕ → List ℕ
  encode_record ledger_id entry_id payload =
      covered ledger_id entry_id payload
      ++ to_le_bytes 4 (crc32 (covered ledger_id entry_id payload))

  -- `AlignedBuffer::push` on the buffer's bytes: the new bytes, and (offset, record length as u32).
  unfoldable pub push : List ℕ → ℕ → ℕ → List ℕ → List ℕ × ℕ × ℕ
  push inner ledger_id entry_id payload = (
    inner ++ encode_record ledger_id entry_id payload,
    length inner,
    (record_overhead + length payload) % u32_mod,
  )

  -- `decode_record`: (ledger_id, entry_id, payload, record length), or a torn write.
  -- A slice that the tests have placed inside the data is `take n (drop pos data)`.
  abbrev exceeds : Option ℕ → ℕ → Bool
  exceeds none n = true
  exceeds (some end) n = ltb n end

  unfoldable pub checked : List ℕ → ℕ → ℕ → Result (ℕ × ℕ × List ℕ × ℕ)
  checked bytes pos payload_len =
      let ledger_id = from_be_bytes (take 8 (drop (pos + 4) bytes)) in
      let entry_id = from_be_bytes (take 8 (drop (pos + 12) bytes)) in
      let payload = take payload_len (drop (pos + 20) bytes) in
      let stored_crc = from_le_bytes (take 4 (drop (pos + 20 + payload_len) bytes)) in
      let computed = crc32 (
        to_le_bytes 4 (payload_len % u32_mod)
        ++ (to_be_bytes 8 ledger_id ++ (to_be_bytes 8 entry_id ++ payload))) in
      if stored_crc == computed
      then ok (ledger_id, entry_id, payload, record_overhead + payload_len)
      else err storage

  unfoldable pub decode_record : List ℕ → ℕ → Result (ℕ × ℕ × List ℕ × ℕ)
  unfolding checked
  decode_record bytes pos =
      if exceeds (checked_add64 pos 4) (length bytes)
      then err storage
      else let payload_len = from_le_bytes (take 4 (drop pos bytes)) in
        elim (checked_add64 record_overhead payload_len) [
          | none ↦ err storage
          | some total ↦
              if exceeds (checked_add64 pos total) (length bytes)
              then err storage
              else checked bytes pos payload_len
        ]

-- `padded_aligned`: the buffer, and zeros up to the next multiple of ALIGN.
unfoldable pub padded_aligned : List ℕ → List ℕ
padded_aligned inner = inner ++ replicate (align_up (length inner) - length inner) 0
