-- ===== src/Index/Locations.antt =====
-- The location calls refine a map from (ledger, entry) to a location.
use folio.Base.{
  ℕ, ◌<◌, ◌≤◌, ◌≡◌, sym, ap, ◌∙◌, true, Option, none, some, List, ◌&&◌, arith, ◌==◌, if◌then◌else◌,
  u64_mod, add64, inl, inr, ◌⊎◌, ==_refl, ==_iff,
}
use folio.Bytes.{lex_leb}
use folio.Error.{Result, ok, ◌>>=◌, bind_ok}
use folio.Segment.{IndexValue}
use folio.Partition.{Partition, Bincode, IsLast}
use folio.Index.{
  after_last, Index, encode_key, decode_key, u64_max, insert_location, get_location,
  delete_location, get_next_entry_id,
}
use folio.Index.Key.{
  bytes_eq-encode_key, decode_key-encode_key, within-encode_key, lex_leb-encode_key,
}

module _ (P : Partition) (B : Bincode IndexValue) where
  abbrev decoded : Option (List ℕ) → Result (Option IndexValue)
  decoded none = ok none
  decoded (some bytes) = do v ← B.deserialize bytes; ok (some v)

  -- The location of an entry, as the index holds it.
  unfoldable pub location : Index P → ℕ → ℕ → Result (Option IndexValue)
  location idx l e = decoded (P.view idx.locations (encode_key l e))

  -- A read that does not fail returns the location that the index holds.
  pub get_location-location :
      (idx : Index P) (l e : ℕ) (o : Option IndexValue)
      → get_location P B idx l e ≡ ok o
      → location idx l e ≡ ok o
  unfolding get_location location
  get_location-location idx l e o h =
      let (found, read, rest) = bind_ok (P.get idx.locations (encode_key l e)) _ h in
      rw (← P.get-view idx.locations (encode_key l e) read) (ground arith)

  -- An insertion sets its own entry's location and leaves every other as it was.
  pub insert_location-location :
      (idx : Index P) (l e seg off len : ℕ) (idx' : Index P)
      → insert_location P B idx l e seg off len ≡ ok idx'
      → (m f : ℕ) → l < u64_mod
      → e < u64_mod
      → m < u64_mod
      → f < u64_mod
      → location idx' m f ≡ (
          if l == m && e == f
          then ok (some (record { segment_id = seg; offset = off; length = len }))
          else location idx m f)
  unfolding insert_location location
  insert_location-location idx l e seg off len idx' h m f hl he hm hf =
      let iv : IndexValue = record { segment_id = seg; offset = off; length = len } in
      let (bytes, written, r) = bind_ok (B.serialize iv) _ h in
      let (s, stored, done) = bind_ok (P.insert idx.locations (encode_key l e) bytes) _ r in
      let same : idx'.locations ≡ s = cc (done) in
      rw
        (
          same,
          P.insert-view idx.locations (encode_key l e) bytes stored (encode_key m f),
          bytes_eq-encode_key l e m f hl he hm hf,
        )
        (ground (arith, B.deserialize-serialize iv written))

  -- A deletion removes its own entry's location and no other.
  pub delete_location-location :
      (idx : Index P) (l e : ℕ) (idx' : Index P)
      → delete_location P idx l e ≡ ok idx'
      → (m f : ℕ) → l < u64_mod
      → e < u64_mod
      → m < u64_mod
      → f < u64_mod
      → location idx' m f ≡ (if l == m && e == f then ok none else location idx m f)
  unfolding delete_location location
  delete_location-location idx l e idx' h m f hl he hm hf =
      let (s, stored, done) = bind_ok (P.remove idx.locations (encode_key l e)) _ h in
      let same : idx'.locations ≡ s = cc (done) in
      rw
        (
          same,
          P.remove-view idx.locations (encode_key l e) stored (encode_key m f),
          bytes_eq-encode_key l e m f hl he hm hf,
        )
        (ground arith)

module _ (P : Partition) where
  abbrev pub Held : Index P → ℕ → ℕ → Type 0
  Held idx l e = (v : List ℕ) × (P.view idx.locations (encode_key l e) ≡ some v)

  -- Every key of the partition is the key of an entry.
  abbrev pub IsKeyed : Index P → Type 0
  IsKeyed idx =
      (k v : List ℕ)
      → P.view idx.locations k ≡ some v
      → (l : ℕ) × (e : ℕ) × (l < u64_mod) × (e < u64_mod) × (k ≡ encode_key l e)

  -- `n` is one above every entry that the ledger has in the index, or the ledger has none.
  abbrev pub IsNext : Index P → ℕ → ℕ → Type 0
  IsNext idx l n =
      ((n ≡ 0) × ((e : ℕ) → e < u64_mod → ¬ Held idx l e))
      ⊎ ((top : ℕ) × (n ≡ add64 top 1)
          × (top < u64_mod)
          × Held idx l top
          × ((e : ℕ) → e < u64_mod → Held idx l e → e ≤ top))

  after-IsNext :
      (idx : Index P) (l n : ℕ)
      → IsKeyed idx
      → l < u64_mod
      → (last : Option (List ℕ × List ℕ))
      → IsLast (P.view idx.locations) (encode_key l 0) (encode_key l u64_max) last
      → after_last last ≡ ok n
      → IsNext idx l n
  after-IsNext idx l n keyed hl none nothing h = inl (cc, absent)
    where
      absent : (e : ℕ) → e < u64_mod → ¬ Held idx l e
      absent e he (v, held) =
          cc (held, nothing (encode_key l e) (within-encode_key l l e hl hl he ∙ ==_refl l))
  after-IsNext idx l n keyed hl (some (k, v)) (held, inside, greatest) h =
      let (m, top, hm, ht, key) = keyed k v held in
      let own : l ≡ m =
        (==_iff l m).0 (sym (within-encode_key l m top hl hm ht) ∙ rw key at inside) in
      inr (
        top,
        next m top hm ht key,
        ht,
        (v, rw (own, ← key) held),
        λ e he other. below m top hm ht own e he (
            rw key at (
              greatest (encode_key l e) other.0 (within-encode_key l l e hl hl he ∙ ==_refl l)
                other.1)),
      )
    where
      next : (m top : ℕ) → m < u64_mod → top < u64_mod → k ≡ encode_key m top → n ≡ add64 top 1
      next m top hm ht key = cc (
        sym h,
        ap (λ r. do (_, eid) ← r; ok (add64 eid 1))
            (ap decode_key key ∙ decode_key-encode_key m top hm ht),
      )

      below :
          (m top : ℕ)
          → m < u64_mod
          → top < u64_mod
          → l ≡ m
          → (e : ℕ) → e < u64_mod
          → lex_leb (encode_key l e) (encode_key m top) ≡ true
          → e ≤ top
      below m top hm ht own e he order = ground (arith, lex_leb-encode_key l e m top hl he hm ht)

  -- `get_next_entry_id` answers one above the ledger's highest entry, and 0 if it has none here.
  pub get_next_entry_id-IsNext :
      (idx : Index P) (l n : ℕ)
      → IsKeyed idx
      → l < u64_mod
      → get_next_entry_id P idx l ≡ ok n
      → IsNext idx l n
  unfolding get_next_entry_id
  get_next_entry_id-IsNext idx l n keyed hl h =
      let (last, read, rest) =
        bind_ok (P.range_last idx.locations (encode_key l 0) (encode_key l u64_max)) _ h in
      after-IsNext idx l n keyed hl last (P.range_last-IsLast idx.locations _ _ read) rest
