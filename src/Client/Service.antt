-- ===== src/Client/Service.antt =====
-- `FolioClient` of crates/folio-ledger/src/client.rs, `speculative_read` of speculative.rs with
-- no hedge delay, and the read of a handle over it. The cache of closed ledgers holds metadata for a
-- while and drops it by its own policy; a lookup in it is an argument.
pub mod Reading
use folio.Base.{ℕ, Option, none, some, List, [], ◌∷◌, String, if◌then◌else◌}
use folio.Error.{Result, Done, ok, err, panicked, ◌>>=◌, FolioError, entry_not_found}
use folio.Protocol.{
  Entry, ReadResult, LedgerMetadata, LedgerOptions, closed, deleted, opened, state_eq,
}
use folio.Metadata.{MetadataStore}
use folio.Client.Handle.{LedgerHandle, read}
use folio.Client.Handle

-- An answer ends the loop; a failure is kept for the next round.
abbrev pub or_next : Result ReadResult → (Result ReadResult → Result ReadResult) → Result ReadResult
or_next (ok r) next = ok r
or_next (err failure) next = next (err failure)
or_next panicked next = panicked

-- The clients are asked in turn until one answers; the last failure is the result.
unfoldable pub first_answer :
    (String → ℕ → ℕ → Result ReadResult)
    → List String
    → ℕ
    → ℕ
    → Result ReadResult
    → Result ReadResult
first_answer ask [] ledger_id entry_id last = last
first_answer ask (n ∷ ns) ledger_id entry_id last =
    or_next (ask n ledger_id entry_id) (λ failed. first_answer ask ns ledger_id entry_id failed)

unfoldable pub speculative_read :
    (String → ℕ → ℕ → Result ReadResult) → List String → ℕ → ℕ → Result ReadResult
speculative_read ask clients ledger_id entry_id =
    first_answer ask clients ledger_id entry_id (err (entry_not_found ledger_id entry_id))

-- `filter_map(|nid| self.nodes.resolve(nid).ok())`
unfoldable pub resolved : (String → Option String) → List String → List String
resolved resolve [] = []
resolved resolve (n ∷ ns) = elim (resolve n) [
  | none ↦ resolved resolve ns
  | some client ↦ client ∷ resolved resolve ns
]

abbrev pub entry_of : ReadResult → Entry
entry_of r = r.entry

-- What `read` does with the nodes of the fragment.
unfoldable pub fetch :
    (String → Option String)
    → (String → ℕ → ℕ → Result ReadResult)
    → List String
    → ℕ
    → ℕ
    → Result Entry
fetch resolve ask ensemble ledger_id entry_id = do
  r ← speculative_read ask (resolved resolve ensemble) ledger_id entry_id
  ok (entry_of r)

module _ (M : MetadataStore) where
  unfoldable pub create_ledger :
      ℕ → M.Store → LedgerOptions → List String → M.Store × Result LedgerHandle
  create_ledger now s options ensemble =
      let (t, made) = M.create_ledger now s options ensemble in
      (t, do metadata ← made; ok (Handle.new metadata))

  -- The handle, and the metadata that goes into the cache.
  unfoldable pub open_ledger :
      M.Store → Option LedgerMetadata → ℕ → Result (LedgerHandle × Option LedgerMetadata)
  open_ledger s (some cached) ledger_id = ok (Handle.new cached, none)
  open_ledger s none ledger_id = do
    m ← M.get_ledger s ledger_id
    ok (Handle.new m, if state_eq m.state opened then none else some m)

  -- `?` on a write, whose value is dropped.
  abbrev pub done {ℓ} : {A : Type ℓ} → M.Store × Result A → M.Store × Result Done
  done (t, written) = (t, do _ ← written; ok tt)

  abbrev pub sealed_with : LedgerMetadata → ℕ → LedgerMetadata
  sealed_with m final_lac = record m {
    state = closed;
    last_add_confirmed = final_lac;
    last_entry_id = some final_lac;
  }

  unfoldable pub seal_ledger : ℕ → M.Store → ℕ → ℕ → M.Store × Result Done
  seal_ledger now s ledger_id final_lac = elim (M.get_ledger s ledger_id) [
    | err failure ↦ (s, err failure)
    | panicked ↦ (s, panicked)
    | ok m ↦
        if state_eq m.state closed
        then (s, ok tt)
        else done (M.put_ledger now s (sealed_with m final_lac))
  ]

  abbrev pub after_put : ℕ → M.Store × Result LedgerMetadata → M.Store × Result Done
  after_put ledger_id (t, ok m) = M.delete_ledger t ledger_id
  after_put ledger_id (t, err failure) = (t, err failure)
  after_put ledger_id (t, panicked) = (t, panicked)

  unfoldable pub delete_ledger : ℕ → M.Store → ℕ → M.Store × Result Done
  delete_ledger now s ledger_id = elim (M.get_ledger s ledger_id) [
    | err failure ↦ (s, err failure)
    | panicked ↦ (s, panicked)
    | ok m ↦ after_put ledger_id (M.put_ledger now s (record m { state = deleted }))
  ]
