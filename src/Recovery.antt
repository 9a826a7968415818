-- ===== src/Recovery.antt =====
-- `RecoveryManager` of crates/folio-node/src/recovery/mod.rs. Storage nodes are reached by calls
-- that may fail: `resolve` finds a node, `fence` asks a node to fence a ledger, `fetch` reads an entry from a node, and
-- `add` writes one to a node. Each takes what the node answers as a function of its id.
pub mod Replication
use folio.Base.{
  ℕ, zero, suc, ◌+◌, ◌-◌, max, Bool, true, false, String, str_eq, Option, none, some, List, [], ◌∷◌,
  ◌++◌, not, ◌&&◌, ltb, leb, ◌==◌, if◌then◌else◌, filter, last?, find?,
}
use folio.Error.{
  Result, Done, ok, err, panicked, ◌>>=◌, ok_or, FolioError, invalid_fragment, invalid_entry_id,
  metadata,
}
use folio.Protocol.{
  LedgerMetadata, Fragment, Entry, ReadResult, AppendAck, NodeInfo, opened, in_recovery, closed,
}
use folio.Metadata.{MetadataStore}
use folio.Client.Fragments.{member}
use folio.Client.Handle.{fragment_of}

-- The answers of the ensemble to `fence_ledger`, up to the first failure, and their maximum.
unfoldable pub fence_all : (String → ℕ → Result ℕ) → ℕ → List String → Result ℕ
fence_all fence ledger_id [] = ok 0
fence_all fence ledger_id (n ∷ ns) = do
  lac ← fence n ledger_id
  rest ← fence_all fence ledger_id ns
  ok (max lac rest)

-- `checked_sub(1)`
abbrev pub checked_pred : ℕ → Option ℕ
checked_pred zero = none
checked_pred (suc n) = some n

abbrev pub sealed_at : LedgerMetadata → ℕ → LedgerMetadata
sealed_at m lac = record m {
  state = closed;
  last_add_confirmed = lac;
  last_entry_id = checked_pred lac;
}

module _ (M : MetadataStore) where
  unfoldable pub initiate_recovery : ℕ → M.Store → ℕ → M.Store × Result LedgerMetadata
  initiate_recovery now s ledger_id = M.transition_state now s ledger_id opened in_recovery

  -- A ledger that is not open is read as it is.
  abbrev pub begun : ℕ → M.Store × Result LedgerMetadata → M.Store × Result LedgerMetadata
  begun ledger_id (t, ok m) = (t, ok m)
  begun ledger_id (t, err _) = (t, M.get_ledger t ledger_id)
  begun ledger_id (t, panicked) = (t, panicked)

  abbrev pub sealing : (String → ℕ → Result ℕ) → ℕ → Result LedgerMetadata → Result LedgerMetadata
  sealing fence ledger_id started = do
    m ← started
    fragment ← ok_or (last? m.fragments) (invalid_fragment ledger_id)
    lac ← fence_all fence ledger_id fragment.ensemble
    ok (sealed_at m lac)

  abbrev pub put_if : ℕ → M.Store → Result LedgerMetadata → M.Store × Result LedgerMetadata
  put_if now s (ok m) = M.put_ledger now s m
  put_if now s (err failure) = (s, err failure)
  put_if now s panicked = (s, panicked)

  unfoldable pub fence_and_seal :
      (String → ℕ → Result ℕ) → ℕ → M.Store → ℕ → M.Store × Result LedgerMetadata
  fence_and_seal fence now s ledger_id =
      let (t, started) = begun ledger_id (initiate_recovery now s ledger_id) in
      put_if now t (sealing fence ledger_id started)

-- The copy of one entry: a node that already has it answers `InvalidEntryId`.
abbrev pub accepted : Result AppendAck → Result Done
accepted (ok ack) = ok tt
accepted (err (invalid_entry_id a b)) = ok tt
accepted (err failure) = err failure
accepted panicked = panicked

-- `for entry_id in from_entry_id..end_entry_id`, as a count of entries from the first one.
unfoldable pub copy_entries :
    (ℕ → Result ReadResult) → (Entry → Result AppendAck) → ℕ → ℕ → Result Done
copy_entries fetch add entry_id zero = ok tt
copy_entries fetch add entry_id (suc count) = do
  read ← fetch entry_id
  _ ← accepted (add read.entry)
  copy_entries fetch add (suc entry_id) count

-- The end of the fragment: the start of the first fragment that starts above it.
unfoldable pub end_of : Fragment → List Fragment → ℕ → ℕ
end_of fragment fragments last_add_confirmed =
    elim (find? (λ f. ltb fragment.first_entry_id f.first_entry_id) fragments) [
      | none ↦ last_add_confirmed
      | some f ↦ f.first_entry_id
    ]

-- The ensemble of the first fragment with this start, less the failed node, with the target.
unfoldable pub replace_node : ℕ → String → String → List Fragment → List Fragment
replace_node first_entry_id failed target [] = []
replace_node first_entry_id failed target (f ∷ fs) =
    if f.first_entry_id == first_entry_id
    then record f { ensemble = filter (λ n. not (str_eq n failed)) f.ensemble ++ (target ∷ []) }
      ∷ fs
    else f ∷ replace_node first_entry_id failed target fs

module _ (M : MetadataStore) where
  -- The source, and the target, of the copy.
  unfoldable pub choose : M.Store → Fragment → String → Result (String × String)
  choose s fragment failed = do
    source ← ok_or (find? (λ n. not (str_eq n failed)) fragment.ensemble) metadata
    nodes ← M.list_nodes s
    target ←
        ok_or
          (find? (λ n. not (str_eq n.node_id failed) && not (member n.node_id fragment.ensemble))
            nodes)
          metadata
    ok (source, NodeInfo.node_id target)

  -- What is written back when the copy is done.
  unfoldable pub restored :
      (String → Result Done)
      → (String → ℕ → ℕ → Result ReadResult)
      → (String → Entry → Result AppendAck)
      → M.Store
      → LedgerMetadata
      → String
      → ℕ
      → Result LedgerMetadata
  restored resolve fetch add s m failed from_entry_id = do
    fragment ← ok_or (fragment_of from_entry_id m.fragments) (invalid_fragment m.id)
    (source, target) ← choose s fragment failed
    _ ← resolve source
    _ ← resolve target
    _ ←
        copy_entries (fetch source m.id) (add target) from_entry_id
          (end_of fragment m.fragments m.last_add_confirmed - from_entry_id)
    ok (record m { fragments = replace_node fragment.first_entry_id failed target m.fragments })

  unfoldable pub restore_replication :
      (String → Result Done)
      → (String → ℕ → ℕ → Result ReadResult)
      → (String → Entry → Result AppendAck)
      → ℕ
      → M.Store
      → LedgerMetadata
      → String
      → ℕ
      → M.Store × Result LedgerMetadata
  restore_replication resolve fetch add now s m failed from_entry_id =
      put_if M now s (restored resolve fetch add s m failed from_entry_id)
