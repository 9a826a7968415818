-- ===== src/Client.antt =====
-- The client of crates/folio-ledger: fragments, the last-add-confirmed tracker and the ledger
-- handle. Storage nodes are third parties to the client: a call to one is a function from the
-- node's id and the request to the answer. The answers to the two attempts of an append are two
-- functions, since time passes between them.
pub mod Fragments
pub mod Handle
pub mod Service
use folio.Base.{ℕ, max, List, [], ◌∷◌}
use folio.Protocol.{AppendAck}

-- lac_tracker.rs
pub record LacTracker : Type 0 where
  pub lac : ℕ

-- `acks.iter().map(|a| a.local_lac).max().unwrap_or(0)`
abbrev pub max_reported : List AppendAck → ℕ
max_reported [] = 0
max_reported (a ∷ acks) = max a.local_lac (max_reported acks)

unfoldable pub advance : LacTracker → List AppendAck → ℕ → LacTracker
advance t acks entry_id = record { lac = max (max t.lac (max_reported acks)) entry_id }
