-- ===== src/Metadata/Versions.antt =====
-- The compare-and-swap discipline of the in-memory metadata store.
use folio.Base.{
  ℕ, ◌≤◌, ◌<◌, ◌≡◌, ◌≢◌, suc, String, List, Bool, Option-cases, inl, inr, false, Option, none, some,
  ◌==◌, if◌then◌else◌, arith, add64, u64_mod,
}
use folio.Error.{Result, ok, err, cas_conflict}
use folio.Protocol.{LedgerMetadata, LedgerOptions}
use folio.OrderedMap.{lookup-insert}
use folio.Metadata.{
  InMemoryState, ledger_of, put_ledger, create_ledger, next_ledger_id, first_metadata,
}

abbrev pub found {ℓ} : {A : Type ℓ} → Result A → Option A
found (ok a) = some a
found _ = none

abbrev pub has_version : Option LedgerMetadata → ℕ → Bool
has_version none v = false
has_version (some m) v = m.version == v

-- Of two writes from the same version of a ledger, the second is refused and changes nothing.
pub put_ledger-put_ledger :
    (now later : ℕ) (s t : InMemoryState) (a b u : LedgerMetadata)
    → a.version < u64_mod
    → b.id ≡ a.id
    → b.version ≡ a.version
    → put_ledger now s a ≡ (t, ok u)
    → put_ledger later t b ≡ (t, err cas_conflict)
unfolding put_ledger
put_ledger-put_ledger now later s t a b u fits same_id same_version first = ground (
  arith,
  lookup-insert a.id (record a { updated_at_ms = now; version = add64 a.version 1 }) s.ledgers b.id,
)

-- Ids are handed out in order: no ledger has an id above the counter.
pub record IsFresh (s : InMemoryState) : Type 0 where
  pub below : (id : ℕ) (m : LedgerMetadata) → ledger_of s id ≡ some m → id ≤ s.next_id

-- The store after a ledger was created.
pub create_ledger-ledger_of :
    (now : ℕ) (s t : InMemoryState) (options : LedgerOptions) (ensemble : List String)
    (u : LedgerMetadata)
    → suc s.next_id < u64_mod
    → create_ledger now s options ensemble ≡ (t, ok u)
    → (u.id ≡ suc s.next_id)
      × (t.next_id ≡ suc s.next_id)
      × ((id : ℕ) → ledger_of t id ≡ (if u.id == id then some u else ledger_of s id))
unfolding create_ledger next_ledger_id first_metadata
create_ledger-ledger_of now s t options ensemble u room made = (
  ground arith,
  ground arith,
  λ id. ground (
    arith,
    lookup-insert (add64 s.next_id 1) (first_metadata now (add64 s.next_id 1) options ensemble)
        s.ledgers id,
  ),
)

-- A created ledger takes an id that no ledger had, is found under it, leaves the others as they
-- were, and keeps the ids below the counter.
pub create_ledger-IsFresh :
    (now : ℕ) (s t : InMemoryState) (options : LedgerOptions) (ensemble : List String)
    (u : LedgerMetadata)
    → IsFresh s
    → suc s.next_id < u64_mod
    → create_ledger now s options ensemble ≡ (t, ok u)
    → IsFresh t
      × (ledger_of s u.id ≡ none)
      × (ledger_of t u.id ≡ some u)
      × ((id : ℕ) → id ≢ u.id → ledger_of t id ≡ ledger_of s id)
create_ledger-IsFresh now s t options ensemble u fresh room made =
    let (own, top, at) = create_ledger-ledger_of now s t options ensemble u room made in
    (
      record { below = λ id m held. below_top own top at id m held },
      elim (Option-cases (ledger_of s u.id)) [
        | inl absent ↦ absent
        | inr (m, held) ↦ absurd (omega (arith, fresh.below u.id m held, own))
      ],
      ground (arith, at u.id),
      λ id other. ground (arith, at id, other),
    )
  where
    below_top :
        u.id ≡ suc s.next_id
        → t.next_id ≡ suc s.next_id
        → ((id : ℕ) → ledger_of t id ≡ (if u.id == id then some u else ledger_of s id))
        → (id : ℕ) (m : LedgerMetadata) → ledger_of t id ≡ some m
        → id ≤ t.next_id
    below_top own top at id m held = elim (Option-cases (ledger_of s id)) [
      | inl absent ↦ ground (arith, at id)
      | inr (n, before) ↦ omega (arith, fresh.below id n before, top)
    ]
