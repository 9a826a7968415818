-- ===== src/Client/Handle/Quorum.antt =====
-- No append succeeds without its quorum.
use folio.Base.{
  ℕ, ◌≤◌, ◌≡◌, Bool, true, false, Option, none, some, List, arith, length, last?, if◌then◌else◌,
}
use folio.Error.{Result, ok, panicked, is_ok}
use folio.Protocol.{Crypto, LedgerMetadata, Fragment, new_entry}
use folio.Metadata.{MetadataStore}
use folio.Client.Fragments.{change_fragment}
use folio.Client.Handle.{LedgerHandle, Answers, Gathered, fenced, gathered, gather, targets}

-- Enough nodes acknowledged, and none answered that the ledger is fenced.
abbrev pub Quorate : Fragment → Gathered → Type 0
Quorate fragment fenced = ⊥
Quorate fragment (gathered acks failed) = fragment.ack_quorum ≤ length acks

module _ (c : Crypto) (M : MetadataStore) where
  -- The nodes of the handle's last fragment gave the next entry its quorum.
  abbrev pub Confirmed : Answers → List ℕ → LedgerHandle → Type 0
  Confirmed answer payload h =
      (fragment : Fragment) × (last? h.metadata.fragments ≡ some fragment)
      × Quorate fragment (
          gather answer (new_entry c h.metadata.id h.next_entry_id h.lac.lac payload)
            (targets fragment))

  abbrev Next : Type 0
  Next = M.Store → LedgerHandle → M.Store × LedgerHandle × Result ℕ

  -- What a fragment change answers, and the handle with the metadata that it leaves.
  abbrev pub changed_by :
      ℕ
      → M.Store
      → LedgerHandle
      → List folio.Base.String
      → M.Store × LedgerMetadata × Result (Unit {0})
  changed_by now s h failed = change_fragment M now s h.metadata failed h.next_entry_id

  abbrev pub with_change : ℕ → M.Store → LedgerHandle → List folio.Base.String → LedgerHandle
  with_change now s h failed = record h { metadata = (changed_by now s h failed).1 }

  abbrev Retried : ℕ → M.Store → LedgerHandle → Option Next → ℕ → Type 0
  Retried now s h none id = ⊥
  Retried now s h (some next) id =
      (failed : List folio.Base.String) × (is_ok (changed_by now s h failed).2 ≡ true)
      × ((next (changed_by now s h failed).0 (with_change now s h failed)).2 ≡ ok id)
