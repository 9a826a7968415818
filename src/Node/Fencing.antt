-- ===== src/Node/Fencing.antt =====
-- Fencing and appends on the in-process backend.
use folio.Base.{ℕ, ◌≡◌, Option, none, some, [], ◌∷◌, arith, ◌==◌, if◌then◌else◌, ◌&&◌}
use folio.Error.{Result, Done, ok, err, ledger_fenced, serialization}
use folio.Protocol.{Crypto, Entry, AppendAck, validate_digest}
use folio.OrderedMap.{lookup, insert}
use folio.Node.{StoredEntry, has, ack, note_lac}
use folio.Node.InProcess.{
  pair_order, MemoryIndex, index_insert, index_get, Node, write, add_entry, fence_ledger,
}

lookup-insert_pair :
    (l e : ℕ) (v : StoredEntry) (es : MemoryIndex) (m f : ℕ)
    → lookup pair_order (m, f) (insert pair_order (l, e) v es)
      ≡ (if l == m && e == f then some v else lookup pair_order (m, f) es)
lookup-insert_pair l e v [] m f = ground arith
lookup-insert_pair l e v (((a, b), w) ∷ es) m f = ground (arith, lookup-insert_pair l e v es m f)

-- Once a ledger is fenced, no append to it changes the node, and one with a valid digest answers
-- that the ledger is fenced.
pub add_entry-fence_ledger :
    (c : Crypto) (now : ℕ) (entry : Entry) (journal : Result Done) (s : Node)
    → let fenced = (fence_ledger entry.ledger_id s).0 in
      add_entry c now entry journal fenced ≡ (
        fenced,
        err (if validate_digest c entry then ledger_fenced entry.ledger_id else serialization),
      )
unfolding fence_ledger add_entry has
add_entry-fence_ledger c now entry journal s = ground arith

abbrev stood : Option StoredEntry → StoredEntry → StoredEntry
stood none new = new
stood (some old) new = old

-- After an acknowledged append the entry stands in the index: the new one, or the one that was there
-- before. What is found under other keys is as before, and the fences are.
pub index_get-add_entry :
    (c : Crypto) (now : ℕ) (entry : Entry) (journal : Result Done) (s t : Node) (a : AppendAck)
    → add_entry c now entry journal s ≡ (t, ok a)
    → (l e : ℕ)
    → (index_get l e t.index ≡ (
        if entry.ledger_id == l && entry.entry_id == e
        then some (stood (index_get l e s.index) (record { entry = entry; appended_at_ms = now }))
        else index_get l e s.index))
      × (t.shared.fences ≡ s.shared.fences)
      × (a.entry_id ≡ entry.entry_id)
unfolding add_entry index_get write index_insert note_lac ack
index_get-add_entry c now entry journal s t a added l e = (
  ground (
    arith,
    lookup-insert_pair entry.ledger_id entry.entry_id
        (record { entry = entry; appended_at_ms = now }) s.index l e,
  ),
  ground arith,
  ground arith,
)
