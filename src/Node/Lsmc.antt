-- ===== src/Node/Lsmc.antt =====
-- The production backend. The outcomes of the journal's write and of a forced sync of the keyspace
-- are arguments, and so is the read behind the cache (the tiered reader).
use folio.Base.{
  ℕ, ◌-◌, max, ◌∷◌, Bool, true, false, Option, none, some, List, [], not, ◌&&◌, if◌then◌else◌,
}
use folio.Error.{Result, Done, ok, err, panicked, serialization, ledger_fenced, with_ok}
use folio.Protocol.{Crypto, Entry, AppendAck, ReadResult, validate_digest, validate_hmac}
use folio.Partition.{Partition, Bincode}
use folio.Segment.{IndexValue}
use folio.Index.{
  Index, LedgerRecord, get_location, get_next_entry_id, get_ledger_master_key, ensure_ledger_known,
  load_fenced_ledgers,
}
use folio.Index
use folio.Index.Scans.{list_known_ledger_ids}
use folio.EntryCache.{EntrySegmentCache, contains}
use folio.EntryCache
use folio.Stateful.{Stateful, ◌>>=◌, current, lift, modify, refuse_if}
use folio.Node.{StoredEntry, Shared, has, ack, note_lac, raise, value}

abbrev is_some {ℓ} : {A : Type ℓ} → Option A → Bool
is_some none = false
is_some (some a) = true

abbrev or_empty : Result (List ℕ) → List ℕ
or_empty (ok xs) = xs
or_empty _ = []

-- `h || r?`, whose right side is not asked when the left one holds.
abbrev or_asked : Bool → Result Bool → Result Bool
or_asked true r = ok true
or_asked false r = r

abbrev held {ℓ} : {A : Type ℓ} → Result (Option A) → Result Bool
held (ok o) = ok (is_some o)
held (err failure) = err failure
held panicked = panicked

module _ (P : Partition) where
  pub record Node : Type 0 where
    pub shared : Shared
    pub wal_index : Index P
    pub entry_index : Index P
    pub cache : EntrySegmentCache

  -- `new_lsmc`: the fences and the known ledgers come from the index of entries.
  unfoldable pub new_lsmc :
      Bincode LedgerRecord → folio.Base.String → Index P → Index P → EntrySegmentCache → Node
  new_lsmc L node_id wal_index entry_index cache = record {
    shared = record {
      node_id = node_id;
      lac = [];
      hi_entry = [];
      fences = or_empty (load_fenced_ledgers P L entry_index);
      known_ledgers = or_empty (list_known_ledger_ids P entry_index);
    };
    wal_index = wal_index;
    entry_index = entry_index;
    cache = cache;
  }

  abbrev put_index : Result (Index P × Bool) → Stateful Node Bool
  put_index (ok (idx, written)) = λ s. (record s { entry_index = idx }, ok written)
  put_index (err failure) = λ s. (s, err failure)
  put_index panicked = λ s. (s, panicked)

module _ (P : Partition) (L : Bincode LedgerRecord) where
  abbrev ensure : ℕ → Option (List ℕ) → Stateful (Node P) Bool
  ensure l master_key = λ s. put_index P (ensure_ledger_known P L s.entry_index l master_key) s

  -- The first write of a ledger records it, and a new key is synced at once.
  unfoldable pub know : Entry → Result Done → Bool → Stateful (Node P) Done
  know entry persisted false = do
    written ← ensure entry.ledger_id entry.master_key
    _ ← lift (if written && is_some entry.master_key then persisted else ok tt)
    modify (λ s. record s {
      shared = record s.shared { known_ledgers = entry.ledger_id ∷ s.shared.known_ledgers };
    })
  know entry persisted true =
      if is_some entry.master_key
      then (do _ ← ensure entry.ledger_id entry.master_key; lift (ok tt))
      else lift (ok tt)

  abbrev mac_check : Crypto → Entry → Option (List ℕ) → Result Done
  mac_check c entry none = ok tt
  mac_check c entry (some mk) = if validate_hmac c entry mk then ok tt else err serialization

  -- An entry with a MAC is checked when the ledger has a key.
  unfoldable pub verify : Crypto → Entry → Stateful (Node P) Done
  verify c entry = do
    s ← current
    lift (
        if is_some entry.hmac
        then with_ok (get_ledger_master_key P L s.entry_index entry.ledger_id) (mac_check c entry)
        else ok tt)

module _ (P : Partition) (B : Bincode IndexValue) where
  -- Cache, then entry index, then journal index.
  unfoldable pub is_duplicate : Node P → ℕ → ℕ → Result Bool
  is_duplicate s l e = or_asked (contains s.cache l e) (
      with_ok (held (get_location P B s.entry_index l e))
        (λ entry_hit. or_asked entry_hit (held (get_location P B s.wal_index l e))))

module _ (P : Partition) where
  -- The journal has the entry before the cache and the highest entry id do.
  unfoldable pub write : Bincode StoredEntry → ℕ → Entry → Result Done → Stateful (Node P) AppendAck
  write T now entry journal = do
    payload ← lift (T.serialize (record { entry = entry; appended_at_ms = now }))
    _ ← lift journal
    _ ← modify (λ s. record s {
      shared =
          note_lac entry
            (record s.shared { hi_entry = raise entry.ledger_id entry.entry_id s.shared.hi_entry });
      cache = EntryCache.insert s.cache entry.ledger_id entry.entry_id payload;
    })
    s ← current
    lift (ok (ack s.shared entry.ledger_id entry.entry_id))

module _ (c : Crypto) (P : Partition) (B : Bincode IndexValue) (L : Bincode LedgerRecord)
    (T : Bincode StoredEntry) where
  unfoldable pub add_entry : ℕ → Entry → Result Done → Result Done → Stateful (Node P) AppendAck
  add_entry now entry persisted journal = do
    _ ← refuse_if (not (validate_digest c entry)) serialization
    s ← current
    _ ← refuse_if (has entry.ledger_id s.shared.fences) (ledger_fenced entry.ledger_id)
    _ ← know P L entry persisted (has entry.ledger_id s.shared.known_ledgers)
    _ ← verify P L c entry
    u ← current
    dup ← lift (is_duplicate P B u entry.ledger_id entry.entry_id)
    if dup
        then lift (ok (ack u.shared entry.ledger_id entry.entry_id))
        else write P T now entry journal

module _ (P : Partition) (T : Bincode StoredEntry) where
  -- `behind` is the tiered reader's answer.
  unfoldable pub read_entry : Node P → ℕ → ℕ → Result (List ℕ) → Result ReadResult
  read_entry s ledger_id entry_id behind =
      with_ok
        (elim (EntryCache.get s.cache ledger_id entry_id) [
          | some payload ↦ ok payload
          | none ↦ behind
        ])
        (λ payload. with_ok (T.deserialize payload) (λ stored. ok (record {
          entry = StoredEntry.entry stored;
          node_id = s.shared.node_id;
          appended_at_ms = StoredEntry.appended_at_ms stored;
        })))

module _ (P : Partition) (L : Bincode LedgerRecord) where
  -- The fence is durable before it is in force, and stays in force if the search for the highest
  -- entry fails.
  unfoldable pub fence_ledger : ℕ → Result Done → Stateful (Node P) ℕ
  fence_ledger ledger_id persisted = do
    s ← current
    idx ← lift (Index.fence_ledger P L s.entry_index ledger_id)
    _ ← modify (λ s. record s { entry_index = idx })
    _ ← lift persisted
    _ ← modify (λ s. record s { shared = record s.shared { fences = ledger_id ∷ s.shared.fences } })
    t ← current
    entries ← lift (get_next_entry_id P t.entry_index ledger_id)
    wal ← lift (get_next_entry_id P t.wal_index ledger_id)
    lift (ok (max (value ledger_id t.shared.hi_entry) (max (entries - 1) (wal - 1))))
