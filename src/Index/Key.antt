-- ===== src/Index/Key.antt =====
-- Index keys are read back, tell any two entries apart, and sort by ledger and then by entry.
use folio.Base.{
  ℕ, ◌<◌, ◌≡◌, sym, ◌∙◌, ap, inl, inr, Bool-cases, true, false, ◌&&◌, arith, length, take, drop,
  ltb, leb, ◌==◌, if◌then◌else◌, u64_mod, length-append, take_exact, take_all, drop_past,
}
use folio.Bytes.{to_be_bytes, lex_leb, bytes_eq, bytes_eq_iff}
use folio.Bytes.RoundTrip.{length-to_be_bytes, from_be_bytes-to_be_bytes}
use folio.Bytes.Order.{lex_leb-to_be_bytes, lex_leb-append}
use folio.Error.{Result, ok}
use folio.Partition.{within}
use folio.Index.{encode_key, decode_key, u64_max}

pub length-encode_key : (l e : ℕ) → length (encode_key l e) ≡ 16
unfolding encode_key
length-encode_key l e = omega (
  arith,
  length-append (to_be_bytes 8 l) (to_be_bytes 8 e),
  length-to_be_bytes 8 l,
  length-to_be_bytes 8 e,
)

-- Decoding undoes encoding.
pub decode_key-encode_key :
    (l e : ℕ) → l < u64_mod → e < u64_mod → decode_key (encode_key l e) ≡ ok (l, e)
unfolding decode_key
decode_key-encode_key l e hl he = rw (
  length-encode_key l e,
  high,
  low,
  from_be_bytes-to_be_bytes 8 l hl,
  from_be_bytes-to_be_bytes 8 e he,
)
  where
    high : take 8 (encode_key l e) ≡ to_be_bytes 8 l
    high =
        unfold encode_key in
        take_exact (to_be_bytes 8 l) (to_be_bytes 8 e) 8 (omega (arith, length-to_be_bytes 8 l))

    low : take 8 (drop 8 (encode_key l e)) ≡ to_be_bytes 8 e
    low =
        unfold encode_key in
        rw
          (drop_past (to_be_bytes 8 l) (to_be_bytes 8 e) 0 8
            (omega (arith, length-to_be_bytes 8 l)))
          (take_all (to_be_bytes 8 e) 8 (omega (arith, length-to_be_bytes 8 e)))

-- Keys compare as the pairs do.
pub lex_leb-encode_key :
    (l e m f : ℕ)
    → l < u64_mod
    → e < u64_mod
    → m < u64_mod
    → f < u64_mod
    → lex_leb (encode_key l e) (encode_key m f)
      ≡ (if ltb l m then true else if l == m then leb e f else false)
unfolding encode_key
lex_leb-encode_key l e m f hl he hm hf = ground (
  arith,
  lex_leb-append (to_be_bytes 8 l) (to_be_bytes 8 e) (to_be_bytes 8 m) (to_be_bytes 8 f)
      (omega (arith, length-to_be_bytes 8 l, length-to_be_bytes 8 m)),
  lex_leb-to_be_bytes 8 l m hl hm,
  lex_leb-to_be_bytes 8 m l hm hl,
  lex_leb-to_be_bytes 8 e f he hf,
)

-- A scan of one ledger's range meets the keys of that ledger and no other.
pub within-encode_key :
    (l m e : ℕ)
    → l < u64_mod
    → m < u64_mod
    → e < u64_mod
    → within (encode_key l 0) (encode_key l u64_max) (encode_key m e) ≡ (l == m)
within-encode_key l m e hl hm he = ground (
  arith,
  lex_leb-encode_key l 0 m e hl (omega arith) hm he,
  lex_leb-encode_key m e l u64_max hm he hl (omega arith),
)

pub encode_key-injective :
    (l e m f : ℕ)
    → l < u64_mod
    → e < u64_mod
    → m < u64_mod
    → f < u64_mod
    → encode_key l e ≡ encode_key m f
    → (l ≡ m) × (e ≡ f)
encode_key-injective l e m f hl he hm hf h = (cc both, cc both)
  where
    both : ◌≡◌ {A = Result (ℕ × ℕ)} (ok (l, e)) (ok (m, f))
    both = sym (decode_key-encode_key l e hl he) ∙ ap decode_key h ∙ decode_key-encode_key m f hm hf

-- Equal keys come from equal pairs.
pub bytes_eq-encode_key :
    (l e m f : ℕ)
    → l < u64_mod
    → e < u64_mod
    → m < u64_mod
    → f < u64_mod
    → bytes_eq (encode_key l e) (encode_key m f) ≡ (l == m && e == f)
bytes_eq-encode_key l e m f hl he hm hf =
    elim (Bool-cases (bytes_eq (encode_key l e) (encode_key m f))) [
      | inl same ↦
          let (p, q) = encode_key-injective l e m f hl he hm hf ((bytes_eq_iff _ _).0 same) in
          rw same (ground arith)
      | inr differ ↦ rw differ (ground (arith, equal differ))
    ]
  where
    equal : bytes_eq (encode_key l e) (encode_key m f) ≡ false → l ≡ m → e ≡ f → ⊥
    equal no_key p q = cc (no_key, (bytes_eq_iff (encode_key l e) (encode_key m f)).1 (rw (p, q)))
