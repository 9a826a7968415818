-- ===== src/Node.antt =====
-- `JournalService` of crates/folio-node/src/storage/node.rs: what its two backends share. Latency
-- and health figures are left out.
pub mod InProcess
pub mod Lsmc
pub mod Fencing
use Prim.Native.Nat.{compare, Ordering}
use folio.Base.{
  ℕ, max, Bool, String, Option, none, some, List, [], ◌∷◌, any, ◌==◌, ltb, if◌then◌else◌,
}
use folio.Error.{Result, unwrap_or, ok, err, lac_timeout}
use folio.Protocol.{Entry, AppendAck}
use folio.OrderedMap.{lookup, insert}

pub record StoredEntry : Type 0 where
  pub entry : Entry
  pub appended_at_ms : ℕ

-- The concurrent maps of the service: `lac` is the confirmed entry that clients reported, and
-- `hi_entry` the highest entry written in this session.
pub record Shared : Type 0 where
  pub node_id : String
  pub lac : List (ℕ × ℕ)
  pub hi_entry : List (ℕ × ℕ)
  pub fences : List ℕ
  pub known_ledgers : List ℕ

unfoldable pub has : ℕ → List ℕ → Bool
has x xs = any (λ y. y == x) xs

abbrev pub raised : Option ℕ → ℕ → ℕ
raised none v = v
raised (some h) v = max h v

-- `entry(l).and_modify(|h| *h = (*h).max(v)).or_insert(v)`
unfoldable pub raise : ℕ → ℕ → List (ℕ × ℕ) → List (ℕ × ℕ)
raise l v m = insert compare l (raised (lookup compare l m) v) m

unfoldable pub value : ℕ → List (ℕ × ℕ) → ℕ
value l m = unwrap_or (lookup compare l m) 0

unfoldable pub ack : Shared → ℕ → ℕ → AppendAck
ack s ledger_id entry_id = record {
  ledger_id = ledger_id;
  entry_id = entry_id;
  local_lac = value ledger_id s.lac;
  node_id = s.node_id;
}

-- The end of an append that wrote: the client's confirmed entry is noted.
unfoldable pub note_lac : Entry → Shared → Shared
note_lac e s = record s { lac = raise e.ledger_id e.lac s.lac }

-- `get_lac`: whether a time to wait is given, whether there are waiters for the ledger, and what
-- the service holds when it is notified, or none if the time runs out before.
unfoldable pub get_lac : Shared → ℕ → Bool → Bool → Option Shared → Result ℕ
get_lac s ledger_id waits has_notifier notified =
    if ltb 0 (value ledger_id s.lac)
    then ok (value ledger_id s.lac)
    else if waits
    then (if has_notifier
        then elim notified [ none ↦ err lac_timeout | some t ↦ ok (value ledger_id t.lac) ]
        else ok (value ledger_id s.lac))
    else ok (value ledger_id s.lac)
