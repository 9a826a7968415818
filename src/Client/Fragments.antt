-- ===== src/Client/Fragments.antt =====
-- `change_fragment` of crates/folio-ledger/src/fragment.rs.
pub mod Placement
use folio.Base.{
  ℕ, zero, suc, ◌+◌, Bool, true, false, String, str_eq, Option, none, some, List, [], ◌∷◌, ◌++◌,
  map, not, ◌&&◌, ltb, if◌then◌else◌, length, take, filter, any, last?,
}
use folio.Error.{Result, ok, err, panicked, ◌>>=◌, ok_or, invalid_fragment, quorum_not_met}
use folio.Protocol.{LedgerMetadata, Fragment, NodeInfo, status_eq, read_write}
use folio.Metadata.{MetadataStore}

unfoldable pub member : String → List String → Bool
member n ns = any (λ m. str_eq m n) ns

-- The size of the `HashSet` of the failed ids.
unfoldable pub distinct_count : List String → ℕ
distinct_count [] = 0
distinct_count (n ∷ ns) = let rest = distinct_count ns in if member n ns then rest else suc rest

abbrev pub node_id_of : NodeInfo → String
node_id_of n = n.node_id

-- The writable nodes outside the ensemble, as many as failed.
unfoldable pub spares_of : List String → List String → List NodeInfo → List String
spares_of members failed nodes = map node_id_of (
    take (distinct_count failed) (
      filter (λ n. not (member n.node_id members))
        (filter (λ n. status_eq n.status read_write) nodes)))

unfoldable pub survivors : List String → List String → List String
survivors members failed = filter (λ n. not (member n failed)) members

-- The survivors and the spares, if they are enough for the write quorum.
unfoldable pub with_spares : Fragment → List String → List NodeInfo → Result (List String)
with_spares current failed nodes =
    let kept = survivors current.ensemble failed in
    let spares = spares_of current.ensemble failed nodes in
    if ltb (length kept + length spares) current.write_quorum
    then err (quorum_not_met current.write_quorum (length kept + length spares))
    else ok (kept ++ spares)

module _ (M : MetadataStore) where
  -- The new ensemble.
  unfoldable pub replacement : M.Store → Fragment → List String → Result (List String)
  replacement s current [] = ok current.ensemble
  replacement s current (f ∷ fs) = do nodes ← M.list_nodes s; with_spares current (f ∷ fs) nodes

  -- The fragment is pushed on the caller's metadata before the write, and stays there when the write
  -- fails; a successful write replaces the caller's metadata by what the store answers.
  unfoldable pub write_fragment :
      ℕ → M.Store → LedgerMetadata → Fragment → M.Store × LedgerMetadata × Result (Unit {0})
  write_fragment now s ledger fragment =
      let pushed = record ledger { fragments = ledger.fragments ++ (fragment ∷ []) } in
      let (t, written) = M.put_ledger now s pushed in
      elim written [
        | ok stored ↦ (t, stored, ok tt)
        | err failure ↦ (t, pushed, err failure)
        | panicked ↦ (t, pushed, panicked)
      ]

  abbrev pub new_fragment : M.Store → LedgerMetadata → List String → ℕ → Result Fragment
  new_fragment s ledger failed next_entry_id = do
    current ← ok_or (last? ledger.fragments) (invalid_fragment ledger.id)
    new_ensemble ← replacement s current failed
    ok (record {
      first_entry_id = next_entry_id;
      ensemble = new_ensemble;
      write_quorum = current.write_quorum;
      ack_quorum = current.ack_quorum;
    })

  unfoldable pub change_fragment :
      ℕ → M.Store → LedgerMetadata → List String → ℕ → M.Store × LedgerMetadata × Result (Unit {0})
  change_fragment now s ledger failed next_entry_id =
      elim (new_fragment s ledger failed next_entry_id) [
        | ok fragment ↦ write_fragment now s ledger fragment
        | err failure ↦ (s, ledger, err failure)
        | panicked ↦ (s, ledger, panicked)
      ]
