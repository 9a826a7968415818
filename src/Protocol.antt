-- ===== src/Protocol.antt =====
-- crates/folio-core/src/protocol.rs: the data that nodes, clients and the metadata store exchange.
-- CRC-32 and HMAC-SHA256 come from third-party crates and are the parameter `Crypto`.
pub mod Options
pub mod Integrity
use folio.Base.{
  ℕ, ◌<◌, ◌≡◌, Bool, true, false, String, Option, none, some, List, ◌++◌, u32_mod, ◌==◌,
}
use folio.Bytes.{to_be_bytes, bytes_eq}

pub data LedgerState : Type 0 where
  opened in_recovery closed deleted : LedgerState

-- The derived `==`.
unfoldable pub state_eq : LedgerState → LedgerState → Bool
state_eq opened opened = true
state_eq in_recovery in_recovery = true
state_eq closed closed = true
state_eq deleted deleted = true
state_eq _ _ = false

pub data NodeStatus : Type 0 where
  read_write read_only recovering unavailable : NodeStatus

unfoldable pub status_eq : NodeStatus → NodeStatus → Bool
status_eq read_write read_write = true
status_eq read_only read_only = true
status_eq recovering recovering = true
status_eq unavailable unavailable = true
status_eq _ _ = false

pub record NodeInfo : Type 0 where
  pub node_id : String
  pub address : String
  pub status : NodeStatus
  pub last_heartbeat_ms : ℕ

pub record Fragment : Type 0 where
  pub first_entry_id : ℕ
  pub ensemble : List String
  pub write_quorum : ℕ
  pub ack_quorum : ℕ

pub record LedgerMetadata : Type 0 where
  pub id : ℕ
  pub state : LedgerState
  pub fragments : List Fragment
  pub last_entry_id : Option ℕ
  pub last_add_confirmed : ℕ
  pub created_at_ms : ℕ
  pub updated_at_ms : ℕ
  pub version : ℕ

pub record LedgerOptions : Type 0 where
  pub ensemble_size : ℕ
  pub write_quorum : ℕ
  pub ack_quorum : ℕ

-- A 32-byte array is the list of its bytes.
pub record Entry : Type 0 where
  pub ledger_id : ℕ
  pub entry_id : ℕ
  pub lac : ℕ
  pub digest : ℕ
  pub payload : List ℕ
  pub master_key : Option (List ℕ)
  pub hmac : Option (List ℕ)

pub record AppendAck : Type 0 where
  pub ledger_id : ℕ
  pub entry_id : ℕ
  pub local_lac : ℕ
  pub node_id : String

pub record ReadResult : Type 0 where
  pub entry : Entry
  pub node_id : String
  pub appended_at_ms : ℕ

pub record ReReplicationTask : Type 0 where
  pub ledger_id : ℕ
  pub failed_node_id : String
  pub target_node_id : String
  pub from_entry_id : ℕ
  pub created_at_ms : ℕ

-- crc32fast and hmac/sha2: the checksum is a u32; a MAC is a function of the key and the message.
pub record Crypto : Type 0 where
  pub crc32 : List ℕ → ℕ
  pub crc32-lt : (bs : List ℕ) → crc32 bs < u32_mod
  pub mac : List ℕ → List ℕ → List ℕ

module _ (c : Crypto) where
  unfoldable pub new_entry : ℕ → ℕ → ℕ → List ℕ → Entry
  new_entry ledger_id entry_id lac payload = record {
    ledger_id = ledger_id;
    entry_id = entry_id;
    lac = lac;
    digest = c.crc32 payload;
    payload = payload;
    master_key = none;
    hmac = none;
  }

  -- The message that the MAC covers: ledger_id_be || entry_id_be || lac_be || data.
  pub compute_hmac : List ℕ → ℕ → ℕ → ℕ → List ℕ → List ℕ
  compute_hmac key ledger_id entry_id lac payload =
      c.mac key
        (to_be_bytes 8 ledger_id ++ (to_be_bytes 8 entry_id ++ (to_be_bytes 8 lac ++ payload)))

  pub with_hmac : Entry → List ℕ → Entry
  with_hmac e key = record e {
    hmac = some (compute_hmac key e.ledger_id e.entry_id e.lac e.payload);
  }

  pub validate_hmac : Entry → List ℕ → Bool
  validate_hmac e key = elim e.hmac [
    | none ↦ false
    | some stored ↦
        bytes_eq
          (c.mac key (
            to_be_bytes 8 e.ledger_id
            ++ (to_be_bytes 8 e.entry_id ++ (to_be_bytes 8 e.lac ++ e.payload))))
          stored
  ]

  unfoldable pub validate_digest : Entry → Bool
  validate_digest e = c.crc32 e.payload == e.digest

pub with_master_key : Entry → List ℕ → Entry
with_master_key e key = record e { master_key = some key }
