-- ===== src/EntryCache.antt =====
-- `EntrySegmentCache` of crates/folio-node/src/storage/entry_cache.rs: the two-tier write buffer.
pub mod Reads
pub mod Accounting
use folio.Base.{ℕ, Bool, List, [], Option, none, some, ◌||◌, leb, if◌then◌else◌, length, add64}
use folio.EntryMap
use folio.EntryMap.{EntryMap, lookup, contains_key, insert_all, or_else}

pub record EntrySegmentCache : Type 0 where
  pub hot : EntryMap (List ℕ)
  pub warm : EntryMap (List ℕ)
  pub hot_bytes : ℕ
  pub flush_threshold : ℕ

pub new : ℕ → EntrySegmentCache
new flush_threshold = record {
  hot = [];
  warm = [];
  hot_bytes = 0;
  flush_threshold = flush_threshold;
}

-- `prev.is_none()` is asked of the map before the insertion.
pub insert : EntrySegmentCache → ℕ → ℕ → List ℕ → EntrySegmentCache
insert c ledger_id entry_id payload =
    if contains_key ledger_id entry_id c.warm then c else record c {
      hot = EntryMap.insert ledger_id entry_id payload c.hot;
      hot_bytes = elim (lookup ledger_id entry_id c.hot) [
        | none ↦ add64 c.hot_bytes (length payload)
        | some _ ↦ c.hot_bytes
      ];
    }

pub get : EntrySegmentCache → ℕ → ℕ → Option (List ℕ)
get c ledger_id entry_id =
    or_else (lookup ledger_id entry_id c.hot) (lookup ledger_id entry_id c.warm)

unfoldable pub contains : EntrySegmentCache → ℕ → ℕ → Bool
contains c ledger_id entry_id =
    contains_key ledger_id entry_id c.hot || contains_key ledger_id entry_id c.warm

pub is_full : EntrySegmentCache → Bool
is_full c = leb c.flush_threshold c.hot_bytes

-- The new cache, and the entries for the disk write.
unfoldable pub drain_hot_to_warm : EntrySegmentCache → EntrySegmentCache × EntryMap (List ℕ)
drain_hot_to_warm c = (record c { hot = []; warm = insert_all c.hot c.warm; hot_bytes = 0 }, c.hot)

pub evict_warm : EntrySegmentCache → EntrySegmentCache
evict_warm c = record c { warm = [] }
