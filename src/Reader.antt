-- ===== src/Reader.antt =====
-- `TieredReader` of crates/folio-node/src/storage/tiered_reader.rs, with the block cache of
-- block_cache.rs. Files on disk and objects in S3 are read through functions that may fail. The block
-- cache may drop blocks by its own policy; here it keeps them until its segment is invalidated.
pub mod Blocks
use folio.Base.{
  ℕ, ◌+◌, ◌*◌, ◌/◌, Bool, true, false, String, Option, none, some, List, [], ◌∷◌, ◌++◌, ◌==◌, leb,
  if◌then◌else◌, take, drop, add64, sub64,
}
use folio.Error.{Result, Done, ok, err, panicked, ok_or, storage, entry_not_found}
use folio.Partition.{Partition, Bincode}
use folio.Segment.{
  IndexValue, SegmentMeta, SegmentStatus, on_local, offloading, on_s3, deleted, active, block_size,
  decode_record,
}
use folio.Index.{Index, get_location}
use folio.Registry
use folio.EntryMap.{EntryMap, lookup}
use folio.EntryMap
use folio.Stateful.{Stateful, ◌>>=◌, ◌>>◌, current, lift, modify}

abbrev pub BlockCache : Type 0
BlockCache = EntryMap (List ℕ)

unfoldable pub block_start : ℕ → ℕ
block_start offset = offset / block_size * block_size

unfoldable pub invalidate_segment : ℕ → BlockCache → BlockCache
invalidate_segment segment_id [] = []
invalidate_segment segment_id ((s, b, block) ∷ blocks) =
    let rest = invalidate_segment segment_id blocks in
    if s == segment_id then rest else (s, b, block) ∷ rest

abbrev pub Files : Type 0
Files = String → Result (List ℕ)

-- A read at the end of a file is short.
unfoldable pub block_of : List ℕ → ℕ → List ℕ
block_of file start = take block_size (drop start file)

unfoldable pub read_local_block : Files → String → ℕ → Result (List ℕ)
read_local_block files path start =
    folio.Error.with_ok (files path) (λ file. ok (block_of file start))

abbrev pub or_read : Files → ℕ → String → ℕ → Option (List ℕ) → Stateful BlockCache (List ℕ)
or_read files segment_id path start (some block) = lift (ok block)
or_read files segment_id path start none = do
  block ← lift (read_local_block files path start)
  _ ← modify (EntryMap.insert segment_id start block)
  lift (ok block)

unfoldable pub get_entry_block : Files → ℕ → String → ℕ → Bool → Stateful BlockCache (List ℕ)
get_entry_block files segment_id path start false = lift (read_local_block files path start)
get_entry_block files segment_id path start true = do
  cache ← current
  or_read files segment_id path start (lookup segment_id start cache)

abbrev pub payload_of : ℕ × ℕ × List ℕ × ℕ → List ℕ
payload_of (l, e, payload, n) = payload

-- The record at its place in the bytes that were read.
unfoldable pub decoded_at : (List ℕ → ℕ) → List ℕ → ℕ → Result (List ℕ)
decoded_at crc bytes offset =
    folio.Error.with_ok (decode_record crc bytes offset) (λ r. ok (payload_of r))

-- One block, or two when the record runs over the end of the first.
unfoldable pub read_blocks :
    {S : Type 0} (get_block : ℕ → Stateful S (List ℕ)) → IndexValue → Stateful S (List ℕ)
read_blocks get_block iv = do
  block ← get_block (block_start iv.offset)
  if leb (add64 iv.offset iv.length) (add64 (block_start iv.offset) block_size)
      then lift (ok block)
      else (do
        block2 ← get_block (add64 (block_start iv.offset) block_size)
        lift (ok (block ++ block2)))

unfoldable pub read_located :
    {S : Type 0} (crc : List ℕ → ℕ) (get_block : ℕ → Stateful S (List ℕ))
    → IndexValue
    → Stateful S (List ℕ)
read_located crc get_block iv = do
  bytes ← read_blocks get_block iv
  lift (decoded_at crc bytes (sub64 iv.offset (block_start iv.offset)))

-- The object store, if one is configured: the bytes from one offset to another, both included.
abbrev pub Objects : Type 0
Objects = Option (String → ℕ → ℕ → Result (List ℕ))

unfoldable pub read_s3_record : (List ℕ → ℕ) → Objects → String → ℕ → ℕ → Result (List ℕ)
read_s3_record crc none s3_key offset length = err storage
read_s3_record crc (some get_object) s3_key offset length =
    folio.Error.with_ok (get_object s3_key offset (sub64 (add64 offset length) 1))
      (λ bytes. decoded_at crc bytes 0)

abbrev pub is_sealed : SegmentStatus → Bool
is_sealed active = false
is_sealed _ = true

-- The record of an entry segment, by the segment's status.
unfoldable pub read_entry_segment :
    (List ℕ → ℕ)
    → Files
    → Objects
    → IndexValue
    → SegmentMeta
    → SegmentStatus
    → Stateful BlockCache (List ℕ)
read_entry_segment crc files objects iv segment on_s3 = do
  s3_key ← lift (ok_or segment.s3_key storage)
  lift (read_s3_record crc objects s3_key iv.offset iv.length)
read_entry_segment crc files objects iv segment deleted = lift (err storage)
read_entry_segment crc files objects iv segment status = do
  path ← lift (ok_or segment.local_path storage)
  read_located crc (λ start. get_entry_block files iv.segment_id path start (is_sealed status)) iv

-- A block of a journal segment, by the segment's status. Blocks of the journal are not cached.
unfoldable pub get_wal_block : Files → SegmentMeta → SegmentStatus → ℕ → Result (List ℕ)
get_wal_block files segment on_s3 start = err storage
get_wal_block files segment deleted start = err storage
get_wal_block files segment status start =
    folio.Error.with_ok (ok_or segment.local_path storage)
      (λ path. read_local_block files path start)

module _ (P : Partition) (B : Bincode IndexValue) (M : Bincode SegmentMeta) where
  pub record TieredReader : Type 0 where
    pub entry_index : Index P
    pub entry_registry : P.Store
    pub wal_index : Index P
    pub wal_registry : P.Store

  abbrev pub segment_in : P.Store → ℕ → Result SegmentMeta
  segment_in s id = folio.Error.with_ok (Registry.get P M s id) (λ found. ok_or found storage)

  -- Each block read looks the segment up anew.
  abbrev pub wal_block : Files → P.Store → ℕ → ℕ → Stateful BlockCache (List ℕ)
  wal_block files registry id start = lift (
      folio.Error.with_ok (segment_in registry id)
        (λ segment. get_wal_block files segment (SegmentMeta.status segment) start))

  abbrev pub in_wal :
      (List ℕ → ℕ) → Files → TieredReader → ℕ → ℕ → Option IndexValue → Stateful BlockCache (List ℕ)
  in_wal crc files r ledger_id entry_id none = lift (err (entry_not_found ledger_id entry_id))
  in_wal crc files r ledger_id entry_id (some iv) =
      read_located crc (wal_block files r.wal_registry iv.segment_id) iv

  abbrev pub in_entries :
      (List ℕ → ℕ)
      → Files
      → Objects
      → TieredReader
      → ℕ
      → ℕ
      → Option IndexValue
      → Stateful BlockCache (List ℕ)
  in_entries crc files objects r ledger_id entry_id (some iv) = do
    segment ← lift (segment_in r.entry_registry iv.segment_id)
    read_entry_segment crc files objects iv segment (SegmentMeta.status segment)
  in_entries crc files objects r ledger_id entry_id none = do
    found ← lift (get_location P B r.wal_index ledger_id entry_id)
    in_wal crc files r ledger_id entry_id found

  unfoldable pub read_entry :
      (List ℕ → ℕ) → Files → Objects → TieredReader → ℕ → ℕ → Stateful BlockCache (List ℕ)
  read_entry crc files objects r ledger_id entry_id = do
    found ← lift (get_location P B r.entry_index ledger_id entry_id)
    in_entries crc files objects r ledger_id entry_id found
