-- ===== src/Index.antt =====
-- `FjallIndex` of crates/folio-node/src/storage/fjall.rs: the locations of entries in segments,
-- the checkpoints of crash recovery, and the durable state of ledgers.
pub mod Key
pub mod Locations
pub mod Scans
use folio.Base.{
  ℕ, ◌+◌, ◌-◌, ◌^◌, Bool, true, false, String, Option, none, some, List, [], ◌∷◌, ◌++◌, ◌==◌, leb,
  ◌&&◌, length, take, drop, if◌then◌else◌, u64_mod, add64, ltb,
}
use folio.Bytes.{to_be_bytes, from_be_bytes, bytes_eq}
use folio.Error.{Result, Done, ok, err, panicked, storage, serialization, ◌>>=◌}
use folio.Segment.{IndexValue}
use folio.Partition.{Partition, Bincode, Pairs}

unfoldable pub encode_key : ℕ → ℕ → List ℕ
encode_key ledger_id entry_id = to_be_bytes 8 ledger_id ++ to_be_bytes 8 entry_id

unfoldable pub decode_key : List ℕ → Result (ℕ × ℕ)
decode_key k =
    if ltb (length k) 16
    then err storage
    else ok (from_be_bytes (take 8 k), from_be_bytes (take 8 (drop 8 k)))

abbrev pub u64_max : ℕ
u64_max = 2 ^ 64 - 1

-- `LedgerState` of fjall.rs (not that of protocol.rs).
pub record LedgerRecord : Type 0 where
  pub is_fenced : Bool
  pub master_key : Option (List ℕ)

module _ (P : Partition) where
  pub record Index : Type 0 where
    pub entries : P.Store
    pub locations : P.Store
    pub checkpoints : P.Store
    pub ledgers : P.Store

module _ (P : Partition) (B : Bincode IndexValue) where
  unfoldable pub insert_location : Index P → ℕ → ℕ → ℕ → ℕ → ℕ → Result (Index P)
  insert_location idx ledger_id entry_id segment_id offset len = do
    bytes ← B.serialize (record { segment_id = segment_id; offset = offset; length = len })
    s ← P.insert idx.locations (encode_key ledger_id entry_id) bytes
    ok (record idx { locations = s })

  unfoldable pub get_location : Index P → ℕ → ℕ → Result (Option IndexValue)
  get_location idx ledger_id entry_id = do
    found ← P.get idx.locations (encode_key ledger_id entry_id)
    elim found [ none ↦ ok none | some bytes ↦ do v ← B.deserialize bytes; ok (some v) ]

-- The match on the last key of the ledger's range.
abbrev pub after_last : Option (List ℕ × List ℕ) → Result ℕ
after_last none = ok 0
after_last (some (k, _)) = do (_, eid) ← decode_key k; ok (add64 eid 1)

module _ (P : Partition) where
  unfoldable pub delete_location : Index P → ℕ → ℕ → Result (Index P)
  delete_location idx ledger_id entry_id = do
    s ← P.remove idx.locations (encode_key ledger_id entry_id)
    ok (record idx { locations = s })

  unfoldable pub get_next_entry_id : Index P → ℕ → Result ℕ
  get_next_entry_id idx ledger_id = do
    last ← P.range_last idx.locations (encode_key ledger_id 0) (encode_key ledger_id u64_max)
    after_last last

  -- An absent checkpoint reads as 0; the slice `b[..8]` panics on a shorter value.
  unfoldable pub get_checkpoint : Index P → ℕ → Result ℕ
  get_checkpoint idx segment_id = do
    found ← P.get idx.checkpoints (to_be_bytes 8 segment_id)
    elim found [
      | none ↦ ok 0
      | some b ↦ if ltb (length b) 8 then panicked else ok (from_be_bytes (take 8 b))
    ]

  unfoldable pub set_checkpoint : Index P → ℕ → ℕ → Result (Index P)
  set_checkpoint idx segment_id offset = do
    s ← P.insert idx.checkpoints (to_be_bytes 8 segment_id) (to_be_bytes 8 offset)
    ok (record idx { checkpoints = s })

-- The two loops of `delete_locations_in_segment_tail`.
module _ (P : Partition) (B : Bincode IndexValue) where
  unfoldable pub tail_keys : ℕ → ℕ → Pairs → Result (List (ℕ × ℕ))
  tail_keys segment_id min_offset [] = ok []
  tail_keys segment_id min_offset ((k, v) ∷ items) = do
    iv ← B.deserialize v
    if iv.segment_id == segment_id && leb min_offset iv.offset
        then (do key ← decode_key k; rest ← tail_keys segment_id min_offset items; ok (key ∷ rest))
        else tail_keys segment_id min_offset items

  -- The keys deleted before a failure stay deleted.
  unfoldable pub delete_all : Index P → List (ℕ × ℕ) → Index P × Result Done
  delete_all idx [] = (idx, ok tt)
  delete_all idx ((l, e) ∷ keys) = elim (delete_location P idx l e) [
    | ok idx' ↦ delete_all idx' keys
    | err failure ↦ (idx, err failure)
    | panicked ↦ (idx, panicked)
  ]

  unfoldable pub delete_locations_in_segment_tail :
      Index P → ℕ → ℕ → Index P × Result (List (ℕ × ℕ))
  delete_locations_in_segment_tail idx segment_id min_offset =
      elim (do items ← P.iter idx.locations; tail_keys segment_id min_offset items) [
        | ok to_delete ↦
            let (idx', done) = delete_all idx to_delete in (idx', do _ ← done; ok to_delete)
        | err failure ↦ (idx, err failure)
        | panicked ↦ (idx, panicked)
      ]

module _ (P : Partition) (L : Bincode LedgerRecord) where
  unfoldable pub get_ledger_state : Index P → ℕ → Result (Option LedgerRecord)
  get_ledger_state idx ledger_id = do
    found ← P.get idx.ledgers (to_be_bytes 8 ledger_id)
    elim found [ none ↦ ok none | some b ↦ do s ← L.deserialize b; ok (some s) ]

  unfoldable pub put_ledger_state : Index P → ℕ → LedgerRecord → Result (Index P)
  put_ledger_state idx ledger_id state = do
    val ← L.serialize state
    s ← P.insert idx.ledgers (to_be_bytes 8 ledger_id) val
    ok (record idx { ledgers = s })

  -- `unwrap_or_default`
  abbrev or_default : Option LedgerRecord → LedgerRecord
  or_default none = record { is_fenced = false; master_key = none }
  or_default (some s) = s

  unfoldable pub fence_ledger : Index P → ℕ → Result (Index P)
  fence_ledger idx ledger_id = do
    found ← get_ledger_state idx ledger_id
    put_ledger_state idx ledger_id (record (or_default found) { is_fenced = true })

  abbrev key_of : Option LedgerRecord → Option (List ℕ)
  key_of none = none
  key_of (some s) = s.master_key

  unfoldable pub get_ledger_master_key : Index P → ℕ → Result (Option (List ℕ))
  get_ledger_master_key idx ledger_id = do found ← get_ledger_state idx ledger_id; ok (key_of found)

  -- The inner match on (stored key, key supplied now).
  unfoldable pub reconcile :
      Index P → ℕ → LedgerRecord → Option (List ℕ) → Option (List ℕ) → Result (Index P × Bool)
  reconcile idx ledger_id state none (some new_key) = do
    idx' ← put_ledger_state idx ledger_id (record state { master_key = some new_key })
    ok (idx', true)
  reconcile idx ledger_id state (some existing) (some new_key) =
      if bytes_eq existing new_key then ok (idx, false) else err serialization
  reconcile idx ledger_id state _ none = ok (idx, false)

  unfoldable pub ensure_ledger_known : Index P → ℕ → Option (List ℕ) → Result (Index P × Bool)
  ensure_ledger_known idx ledger_id master_key = do
    found ← get_ledger_state idx ledger_id
    elim found [
      | none ↦ do
        idx' ←
            put_ledger_state idx ledger_id (record { is_fenced = false; master_key = master_key })
        ok (idx', true)
      | some state ↦ reconcile idx ledger_id state state.master_key master_key
    ]

  -- `load_fenced_ledgers`, as the list of ids that go into the set.
  unfoldable pub fenced_in : Pairs → Result (List ℕ)
  fenced_in [] = ok []
  fenced_in ((k, v) ∷ items) = do
    state ← L.deserialize v
    if state.is_fenced
        then (if ltb (length k) 8
            then err storage
            else (do rest ← fenced_in items; ok (from_be_bytes (take 8 k) ∷ rest)))
        else fenced_in items

  unfoldable pub load_fenced_ledgers : Index P → Result (List ℕ)
  load_fenced_ledgers idx = do items ← P.iter idx.ledgers; fenced_in items
