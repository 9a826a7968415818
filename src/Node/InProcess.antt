-- ===== src/Node/InProcess.antt =====
-- The in-process backend, with the `MemoryLedgerIndex` of crates/folio-node/src/storage/index.rs.
-- The outcome of the journal's write is an argument.
use Prim.Native.Nat.{compare, Ordering}
use folio.Base.{ℕ, ◌∷◌, Option, none, some, List, [], not, ◌==◌, if◌then◌else◌}
use folio.Error.{Result, Done, ok, err, serialization, ledger_fenced, entry_not_found}
use folio.Protocol.{Crypto, Entry, AppendAck, ReadResult, validate_digest}
use folio.OrderedMap.{lookup, insert}
use folio.Stateful.{Stateful, ◌>>=◌, current, lift, modify, refuse_if}
use folio.Node.{StoredEntry, Shared, has, ack, note_lac, value}

abbrev pub pair_order : ℕ × ℕ → ℕ × ℕ → Ordering
pair_order (l, e) (m, f) = elim (compare l m) [
  | Ordering.lt ↦ Ordering.lt
  | Ordering.eq ↦ compare e f
  | Ordering.gt ↦ Ordering.gt
]

-- `MemoryLedgerIndex`
abbrev pub MemoryIndex : Type 0
MemoryIndex = List ((ℕ × ℕ) × StoredEntry)

unfoldable pub index_insert : StoredEntry → MemoryIndex → MemoryIndex
index_insert stored index =
    insert pair_order (stored.entry.ledger_id, stored.entry.entry_id) stored index

unfoldable pub index_get : ℕ → ℕ → MemoryIndex → Option StoredEntry
index_get ledger_id entry_id index = lookup pair_order (ledger_id, entry_id) index

unfoldable pub index_range : ℕ → MemoryIndex → List StoredEntry
index_range ledger_id [] = []
index_range ledger_id (((l, e), stored) ∷ index) =
    let rest = index_range ledger_id index in if l == ledger_id then stored ∷ rest else rest

pub record Node : Type 0 where
  pub shared : Shared
  pub index : MemoryIndex

-- The write, after the journal has the entry.
unfoldable pub write : ℕ → Entry → Result Done → Stateful Node AppendAck
write now entry journal = do
  _ ← lift journal
  _ ← modify (λ s. record s {
    index = index_insert (record { entry = entry; appended_at_ms = now }) s.index;
    shared = note_lac entry s.shared;
  })
  s ← current
  lift (ok (ack s.shared entry.ledger_id entry.entry_id))

-- An entry that the index has is acknowledged and not written again.
abbrev pub write_new : ℕ → Entry → Result Done → Option StoredEntry → Stateful Node AppendAck
write_new now entry journal none = write now entry journal
write_new now entry journal (some _) = λ s. (s, ok (ack s.shared entry.ledger_id entry.entry_id))

module _ (c : Crypto) where
  unfoldable pub add_entry : ℕ → Entry → Result Done → Stateful Node AppendAck
  add_entry now entry journal = do
    _ ← refuse_if (not (validate_digest c entry)) serialization
    s ← current
    _ ← refuse_if (has entry.ledger_id s.shared.fences) (ledger_fenced entry.ledger_id)
    write_new now entry journal (index_get entry.ledger_id entry.entry_id s.index)

abbrev pub result_of : Shared → StoredEntry → ReadResult
result_of s stored = record { entry = stored.entry; node_id = s.node_id; appended_at_ms = 0 }

unfoldable pub read_entry : Node → ℕ → ℕ → Result ReadResult
read_entry s ledger_id entry_id = elim (index_get ledger_id entry_id s.index) [
  | none ↦ err (entry_not_found ledger_id entry_id)
  | some stored ↦ ok (result_of s.shared stored)
]

-- `hi_entry` is not kept by this backend, so the answer is what the map holds, or 0.
unfoldable pub fence_ledger : ℕ → Stateful Node ℕ
fence_ledger ledger_id s =
    let t = record s.shared { fences = ledger_id ∷ s.shared.fences } in
    (record s { shared = t }, ok (value ledger_id t.hi_entry))
