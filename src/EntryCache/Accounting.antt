-- ===== src/EntryCache/Accounting.antt =====
-- The byte count of the hot tier.
use folio.Base.{ℕ, ◌+◌, ◌<◌, ◌≡◌, refl, none, List, arith, length, u64_mod}
use folio.EntryMap.{lookup, bytes_of, bytes_of-insert}
use folio.EntryCache.{EntrySegmentCache, insert, drain_hot_to_warm}

-- `hot_bytes` counts the payloads of the hot tier.
abbrev pub IsCounted : EntrySegmentCache → Type 0
IsCounted c = c.hot_bytes ≡ bytes_of c.hot

-- Inserting an entry that the hot tier does not hold keeps the count, if it does not overflow.
pub insert-IsCounted :
    (c : EntrySegmentCache) (l e : ℕ) (p : List ℕ)
    → lookup l e c.hot ≡ none
    → c.hot_bytes + length p < u64_mod
    → IsCounted c
    → IsCounted (insert c l e p)
unfolding insert
insert-IsCounted c l e p absent small h = ground (arith, bytes_of-insert l e p c.hot absent)

pub drain_hot_to_warm-IsCounted : (c : EntrySegmentCache) → IsCounted (drain_hot_to_warm c).0
unfolding drain_hot_to_warm bytes_of
drain_hot_to_warm-IsCounted c = refl
