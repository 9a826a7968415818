-- ===== src/EntryCache/Reads.antt =====
-- What a reader of the cache sees across its operations.
use folio.Base.{
  ℕ, ◌≡◌, refl, inl, inr, Bool-cases, true, false, none, some, List, [], arith, if◌then◌else◌,
  length, add64,
}
use folio.EntryMap.{
  lookup, contains_key, key_eq, Distinct, lookup-insert, lookup-insert_all, insert-Distinct,
  or_else,
}
use folio.EntryCache.{EntrySegmentCache, insert, get, contains, drain_hot_to_warm, evict_warm}

-- No entry stands in both tiers, and none twice in the hot one.
pub record IsTiered (c : EntrySegmentCache) : Type 0 where
  pub separate : (l e : ℕ) → contains_key l e c.warm ≡ true → lookup l e c.hot ≡ none
  pub distinct : Distinct c.hot

-- An insertion is visible under its key unless the warm tier holds the entry; every other entry reads
-- as before. The warm tier and the threshold stay, and the byte count grows by the payload's length
-- exactly when neither tier held the entry.
pub get-insert :
    (c : EntrySegmentCache) (l e : ℕ) (p : List ℕ) (m f : ℕ)
    → (get (insert c l e p) m f ≡ (
        if contains_key l e c.warm
        then get c m f
        else if key_eq l e m f
        then some p
        else get c m f))
      × ((insert c l e p).warm ≡ c.warm)
      × ((insert c l e p).flush_threshold ≡ c.flush_threshold)
      × ((insert c l e p).hot_bytes
          ≡ (if contains c l e then c.hot_bytes else add64 c.hot_bytes (length p)))
unfolding get insert contains contains_key
get-insert c l e p m f =
    (ground (arith, lookup-insert l e p c.hot m f), ground arith, ground arith, ground arith)

-- Draining hands exactly the hot entries to the writer, leaves the hot tier and its byte count empty
-- and the threshold as it was, puts every drained entry before the older ones in the warm tier, and
-- changes no read. A second drain has nothing to hand over.
pub get-drain_hot_to_warm :
    (c : EntrySegmentCache) (l e : ℕ)
    → IsTiered c
    → let (d, entries) = drain_hot_to_warm c in
      (get d l e ≡ get c l e)
      × (lookup l e entries ≡ lookup l e c.hot)
      × (lookup l e d.hot ≡ none)
      × (lookup l e d.warm ≡ or_else (lookup l e entries) (lookup l e c.warm))
      × (d.hot_bytes ≡ 0)
      × (d.flush_threshold ≡ c.flush_threshold)
      × ((drain_hot_to_warm d).1 ≡ [])
unfolding get drain_hot_to_warm lookup
get-drain_hot_to_warm c l e t = (
  rw (lookup-insert_all c.hot c.warm l e t.distinct),
  refl,
  refl,
  lookup-insert_all c.hot c.warm l e t.distinct,
  refl,
  refl,
  refl,
)

-- `contains` is the question whether `get` answers.
pub contains-get :
    (c : EntrySegmentCache) (l e : ℕ)
    → contains c l e ≡ elim (get c l e) [ none ↦ false | some _ ↦ true ]
unfolding contains get contains_key
contains-get c l e = ground arith

-- An insertion keeps the tiers separate and the hot keys distinct.
pub insert-IsTiered :
    (c : EntrySegmentCache) (l e : ℕ) (p : List ℕ) → IsTiered c → IsTiered (insert c l e p)
unfolding insert
insert-IsTiered c l e p t = elim (Bool-cases (contains_key l e c.warm)) [
  | inl flushed ↦ rw flushed t
  | inr fresh ↦ rw fresh (record {
    separate =
        λ m f h. ground (arith, t.separate m f h, lookup-insert l e p c.hot m f, apart m f fresh h);
    distinct = insert-Distinct l e p c.hot t.distinct;
  })
]
  where
    apart :
        (m f : ℕ)
        → contains_key l e c.warm ≡ false
        → contains_key m f c.warm ≡ true
        → key_eq l e m f ≡ false
    apart m f fresh h = ground arith

pub drain_hot_to_warm-IsTiered :
    (c : EntrySegmentCache) → IsTiered c → IsTiered (drain_hot_to_warm c).0
unfolding drain_hot_to_warm lookup
drain_hot_to_warm-IsTiered c t = record { separate = λ l e h. refl; distinct = tt }

pub evict_warm-IsTiered : (c : EntrySegmentCache) → IsTiered c → IsTiered (evict_warm c)
unfolding evict_warm contains_key lookup
evict_warm-IsTiered c t = record { separate = λ l e h. cc; distinct = t.distinct }
