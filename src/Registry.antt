-- ===== src/Registry.antt =====
-- `SegmentRegistry` of crates/folio-node/src/storage/fjall.rs.
use folio.Base.{
  ℕ, Bool, true, false, String, Option, none, some, List, [], ◌∷◌, max, ◌==◌, if◌then◌else◌, length,
}
use folio.Bytes.{to_be_bytes, from_be_bytes}
use folio.Error.{Result, ok, ◌>>=◌}
use folio.Segment.{SegmentMeta, SegmentStatus, status_eq, on_s3}
use folio.Partition.{Partition, Bincode, Pairs}

-- The keys of eight bytes, and the greatest of their ids.
unfoldable pub max_key : Option ℕ → Pairs → Option ℕ
max_key highest [] = highest
max_key highest ((k, v) ∷ items) =
    if length k == 8
    then max_key
        (elim highest [ none ↦ some (from_be_bytes k) | some m ↦ some (max m (from_be_bytes k)) ])
        items
    else max_key highest items

module _ (P : Partition) (B : Bincode SegmentMeta) where
  unfoldable pub upsert : P.Store → SegmentMeta → Result P.Store
  upsert s segment = do val ← B.serialize segment; P.insert s (to_be_bytes 8 segment.id) val

  unfoldable pub get : P.Store → ℕ → Result (Option SegmentMeta)
  get s id = do
    found ← P.get s (to_be_bytes 8 id)
    elim found [ none ↦ ok none | some b ↦ do m ← B.deserialize b; ok (some m) ]

  unfoldable pub with_status : SegmentStatus → Pairs → Result (List SegmentMeta)
  with_status status [] = ok []
  with_status status ((k, v) ∷ items) = do
    m ← B.deserialize v
    rest ← with_status status items
    ok (if status_eq m.status status then m ∷ rest else rest)

  unfoldable pub list_by_status : P.Store → SegmentStatus → Result (List SegmentMeta)
  list_by_status s status = do items ← P.iter s; with_status status items

  -- The part that `cas_status` and `cas_to_s3` share: the segment, as found and as changed, is
  -- written if it has the expected status.
  unfoldable pub swap :
      P.Store → SegmentStatus → SegmentMeta → SegmentMeta → Result (P.Store × Bool)
  swap s expected segment changed =
      if status_eq segment.status expected
      then (do t ← upsert s changed; ok (t, true))
      else ok (s, false)

  unfoldable pub cas_status : P.Store → ℕ → SegmentStatus → SegmentStatus → Result (P.Store × Bool)
  cas_status s id expected new = do
    found ← get s id
    elim found [
      | none ↦ ok (s, false)
      | some segment ↦ swap s expected segment (record segment { status = new })
    ]

  unfoldable pub cas_to_s3 : P.Store → ℕ → SegmentStatus → String → Result (P.Store × Bool)
  cas_to_s3 s id expected s3_key = do
    found ← get s id
    elim found [
      | none ↦ ok (s, false)
      | some segment ↦
          swap s expected segment
            (record segment { status = on_s3; s3_key = some s3_key; local_path = none })
    ]

module _ (P : Partition) where
  unfoldable pub max_id : P.Store → Result (Option ℕ)
  max_id s = do items ← P.iter s; ok (max_key none items)
