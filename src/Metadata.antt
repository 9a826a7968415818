-- ===== src/Metadata.antt =====
-- `InMemoryMetadataStore` of crates/folio-core/src/metadata.rs, and the trait `MetadataStore` as the
-- interface that the client and recovery take. `now_ms` is an argument of the calls that read it.
pub mod Versions
use Prim.Native.Nat.{compare}
use Prim.Native.String.{compare as text_order}
use folio.Base.{
  ℕ, ◌%◌, ◌==◌, String, Option, none, some, List, [], ◌∷◌, if◌then◌else◌, u8_mod, add64, u64_mod,
}
use folio.Error.{
  Result, ok, err, panicked, Done, ◌>>=◌, ok_or, FolioError, ledger_not_found, cas_conflict,
  state_conflict,
}
use folio.Protocol.{
  LedgerState, opened, state_eq, NodeInfo, Fragment, LedgerMetadata, LedgerOptions,
}
use folio.Protocol.Options.{validate}
use folio.OrderedMap
use folio.OrderedMap.{lookup, insert, remove, values}

-- The calls that the client and the recovery manager make: the store before and after, and the
-- result.
pub record MetadataStore : Type 1 where
  pub Store : Type 0
  pub create_ledger : ℕ → Store → LedgerOptions → List String → Store × Result LedgerMetadata
  pub get_ledger : Store → ℕ → Result LedgerMetadata
  pub put_ledger : ℕ → Store → LedgerMetadata → Store × Result LedgerMetadata
  pub transition_state : ℕ → Store → ℕ → LedgerState → LedgerState → Store × Result LedgerMetadata
  pub delete_ledger : Store → ℕ → Store × Result Done
  pub list_nodes : Store → Result (List NodeInfo)

pub record InMemoryState : Type 0 where
  pub next_id : ℕ
  pub ledgers : List (ℕ × LedgerMetadata)
  pub nodes : List (String × NodeInfo)

abbrev pub new : InMemoryState
new = record { next_id = 0; ledgers = []; nodes = [] }

abbrev pub ledger_of : InMemoryState → ℕ → Option LedgerMetadata
ledger_of s ledger_id = lookup compare ledger_id s.ledgers

unfoldable pub next_ledger_id : InMemoryState → InMemoryState × ℕ
next_ledger_id s = let id = add64 s.next_id 1 in (record s { next_id = id }, id)

-- The quorums are cut to eight bits.
unfoldable pub first_metadata : ℕ → ℕ → LedgerOptions → List String → LedgerMetadata
first_metadata now ledger_id options ensemble = record {
  id = ledger_id;
  state = opened;
  fragments =
      record {
        first_entry_id = 0;
        ensemble = ensemble;
        write_quorum = options.write_quorum % u8_mod;
        ack_quorum = options.ack_quorum % u8_mod;
      }
      ∷ [];
  last_entry_id = none;
  last_add_confirmed = 0;
  created_at_ms = now;
  updated_at_ms = now;
  version = 1;
}

unfoldable pub create_ledger :
    ℕ → InMemoryState → LedgerOptions → List String → InMemoryState × Result LedgerMetadata
create_ledger now s options ensemble = elim (validate options) [
  | err failure ↦ (s, err failure)
  | panicked ↦ (s, panicked)
  | ok _ ↦
      let (t, ledger_id) = next_ledger_id s in
      let metadata = first_metadata now ledger_id options ensemble in
      (record t { ledgers = insert compare ledger_id metadata t.ledgers }, ok metadata)
]

unfoldable pub get_ledger : InMemoryState → ℕ → Result LedgerMetadata
get_ledger s ledger_id = ok_or (ledger_of s ledger_id) (ledger_not_found ledger_id)

-- A write must carry the version that it read.
unfoldable pub put_ledger :
    ℕ → InMemoryState → LedgerMetadata → InMemoryState × Result LedgerMetadata
put_ledger now s metadata = elim (ledger_of s metadata.id) [
  | none ↦ (s, err (ledger_not_found metadata.id))
  | some current ↦
      if current.version == metadata.version
      then (let updated = record metadata {
        updated_at_ms = now;
        version = add64 metadata.version 1;
      } in
          (record s { ledgers = insert compare updated.id updated s.ledgers }, ok updated))
      else (s, err cas_conflict)
]

unfoldable pub transition_state :
    ℕ → InMemoryState → ℕ → LedgerState → LedgerState → InMemoryState × Result LedgerMetadata
transition_state now s ledger_id expected next = elim (ledger_of s ledger_id) [
  | none ↦ (s, err (ledger_not_found ledger_id))
  | some ledger ↦
      if state_eq ledger.state expected
      then (let moved = record ledger {
        state = next;
        version = add64 ledger.version 1;
        updated_at_ms = now;
      } in
          (record s { ledgers = insert compare ledger_id moved s.ledgers }, ok moved))
      else (s, err (state_conflict expected ledger.state))
]

unfoldable pub list_ledgers : InMemoryState → Result (List LedgerMetadata)
list_ledgers s = ok (values s.ledgers)

unfoldable pub delete_ledger : InMemoryState → ℕ → InMemoryState × Result Done
delete_ledger s ledger_id = (record s { ledgers = remove compare ledger_id s.ledgers }, ok tt)

unfoldable pub register_node : InMemoryState → NodeInfo → InMemoryState × Result Done
register_node s node = (record s { nodes = insert text_order node.node_id node s.nodes }, ok tt)

unfoldable pub list_nodes : InMemoryState → Result (List NodeInfo)
list_nodes s = ok (values s.nodes)

-- The in-memory store implements the trait.
abbrev pub in_memory : MetadataStore
in_memory = record {
  Store = InMemoryState;
  create_ledger = create_ledger;
  get_ledger = get_ledger;
  put_ledger = put_ledger;
  transition_state = transition_state;
  delete_ledger = delete_ledger;
  list_nodes = list_nodes;
}
