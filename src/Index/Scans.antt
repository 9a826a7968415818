-- ===== src/Index/Scans.antt =====
-- The scans of `FjallIndex`, and its legacy index of whole entries.
use folio.Base.{ℕ, Option, none, some, List, [], ◌∷◌, length, take, leb, if◌then◌else◌}
use folio.Bytes.{from_be_bytes}
use folio.Error.{Result, ok, ◌>>=◌}
use folio.Segment.{IndexValue}
use folio.Partition.{Partition, Bincode, Pairs}
use folio.Index.{Index, encode_key, decode_key, u64_max}

-- The ids in the keys of eight bytes or more.
unfoldable pub key_ids : Pairs → List ℕ
key_ids [] = []
key_ids ((k, v) ∷ items) =
    let rest = key_ids items in if leb 8 (length k) then from_be_bytes (take 8 k) ∷ rest else rest

module _ (P : Partition) where
  unfoldable pub list_known_ledger_ids : Index P → Result (List ℕ)
  list_known_ledger_ids idx = do items ← P.iter idx.ledgers; ok (key_ids items)

module _ (P : Partition) (B : Bincode IndexValue) where
  unfoldable pub locations_in : Pairs → Result (List (ℕ × IndexValue))
  locations_in [] = ok []
  locations_in ((k, v) ∷ items) = do
    (_, eid) ← decode_key k
    iv ← B.deserialize v
    rest ← locations_in items
    ok ((eid, iv) ∷ rest)

  unfoldable pub scan_ledger_locations : Index P → ℕ → Result (List (ℕ × IndexValue))
  scan_ledger_locations idx ledger_id = do
    items ← P.range idx.locations (encode_key ledger_id 0) (encode_key ledger_id u64_max)
    locations_in items

  -- The set, as the list of the ids that go into it.
  unfoldable pub segments_in : Pairs → Result (List ℕ)
  segments_in [] = ok []
  segments_in ((k, v) ∷ items) = do
    iv ← B.deserialize v
    rest ← segments_in items
    ok (iv.segment_id ∷ rest)

  unfoldable pub referenced_segment_ids : Index P → Result (List ℕ)
  referenced_segment_ids idx = do items ← P.iter idx.locations; segments_in items

module _ {Stored : Type 0} (P : Partition) (E : Bincode Stored) where
  unfoldable pub legacy_insert : Index P → ℕ → ℕ → Stored → Result (Index P)
  legacy_insert idx ledger_id entry_id stored = do
    val ← E.serialize stored
    s ← P.insert idx.entries (encode_key ledger_id entry_id) val
    ok (record idx { entries = s })

  unfoldable pub legacy_get : Index P → ℕ → ℕ → Result (Option Stored)
  legacy_get idx ledger_id entry_id = do
    found ← P.get idx.entries (encode_key ledger_id entry_id)
    elim found [ none ↦ ok none | some b ↦ do e ← E.deserialize b; ok (some e) ]

  unfoldable pub stored_in : Pairs → Result (List Stored)
  stored_in [] = ok []
  stored_in ((k, v) ∷ items) = do e ← E.deserialize v; rest ← stored_in items; ok (e ∷ rest)

  unfoldable pub legacy_range : Index P → ℕ → Result (List Stored)
  legacy_range idx ledger_id = do
    items ← P.range idx.entries (encode_key ledger_id 0) (encode_key ledger_id u64_max)
    stored_in items
