-- ===== src/Segment/Codec.antt =====
-- Encoding then decoding a record.
use mathlib.Core.List.{append_assoc}
use folio.Base.{
  ℕ, ◌+◌, ◌%◌, ◌<◌, ◌≤◌, ◌≡◌, refl, ◌∙◌, List, ◌++◌, arith, u32_mod, u64_mod, length, take, drop,
  length-append, drop_past, take_exact, ==_refl,
}
use folio.Bytes.{to_be_bytes, to_le_bytes}
use folio.Bytes.RoundTrip.{
  length-to_be_bytes, length-to_le_bytes, from_be_bytes-to_be_bytes, from_le_bytes-to_le_bytes,
}
use folio.Error.{ok}
use folio.Segment.Decode.{claimed, decode_record-inside}
use folio.Segment.{record_overhead, covered, encode_record, decode_record, checked}

-- The encoded record with its five fields in a row.
abbrev fields : List ℕ → List ℕ → List ℕ → List ℕ → List ℕ → List ℕ → List ℕ → List ℕ
fields pre a b c d f rest = pre ++ (a ++ (b ++ (c ++ (d ++ (f ++ rest)))))

module _ (pre a b c d f rest : List ℕ) (ha : length a ≡ 4) (hb : length b ≡ 8) (hc : length c ≡ 8)
    (hf : length f ≡ 4) where
  slice_a : take 4 (drop (length pre) (fields pre a b c d f rest)) ≡ a
  slice_a =
      rw (drop_past pre (a ++ (b ++ (c ++ (d ++ (f ++ rest))))) 0 (length pre) (omega arith))
        (take_exact a _ 4 (omega arith))

  slice_b : take 8 (drop (length pre + 4) (fields pre a b c d f rest)) ≡ b
  slice_b =
      rw
        (
          drop_past pre (a ++ (b ++ (c ++ (d ++ (f ++ rest))))) 4 (length pre + 4) (omega arith),
          drop_past a (b ++ (c ++ (d ++ (f ++ rest)))) 0 4 (omega arith),
        )
        (take_exact b _ 8 (omega arith))

  slice_c : take 8 (drop (length pre + 12) (fields pre a b c d f rest)) ≡ c
  slice_c =
      rw
        (
          drop_past pre (a ++ (b ++ (c ++ (d ++ (f ++ rest))))) 12 (length pre + 12) (omega arith),
          drop_past a (b ++ (c ++ (d ++ (f ++ rest)))) 8 12 (omega arith),
          drop_past b (c ++ (d ++ (f ++ rest))) 0 8 (omega arith),
        )
        (take_exact c _ 8 (omega arith))

  slice_d : take (length d) (drop (length pre + 20) (fields pre a b c d f rest)) ≡ d
  slice_d =
      rw
        (
          drop_past pre (a ++ (b ++ (c ++ (d ++ (f ++ rest))))) 20 (length pre + 20) (omega arith),
          drop_past a (b ++ (c ++ (d ++ (f ++ rest)))) 16 20 (omega arith),
          drop_past b (c ++ (d ++ (f ++ rest))) 8 16 (omega arith),
          drop_past c (d ++ (f ++ rest)) 0 8 (omega arith),
        )
        (take_exact d _ (length d) refl)

  slice_f : take 4 (drop (length pre + 20 + length d) (fields pre a b c d f rest)) ≡ f
  slice_f =
      rw
        (
          drop_past pre (a ++ (b ++ (c ++ (d ++ (f ++ rest))))) (20 + length d)
              (length pre + 20 + length d) (omega arith),
          drop_past a (b ++ (c ++ (d ++ (f ++ rest)))) (16 + length d) (20 + length d)
              (omega arith),
          drop_past b (c ++ (d ++ (f ++ rest))) (8 + length d) (16 + length d) (omega arith),
          drop_past c (d ++ (f ++ rest)) (length d) (8 + length d) (omega arith),
          drop_past d (f ++ rest) 0 (length d) (omega arith),
        )
        (take_exact f _ 4 (omega arith))

pub length-covered : (l e : ℕ) (p : List ℕ) → length (covered l e p) ≡ 20 + length p
length-covered l e p = omega (
  arith,
  length-append (to_le_bytes 4 (length p % u32_mod)) (to_be_bytes 8 l ++ (to_be_bytes 8 e ++ p)),
  length-append (to_be_bytes 8 l) (to_be_bytes 8 e ++ p),
  length-append (to_be_bytes 8 e) p,
  length-to_le_bytes 4 (length p % u32_mod),
  length-to_be_bytes 8 l,
  length-to_be_bytes 8 e,
)

module _ (crc32 : List ℕ → ℕ) where
  pub length-encode_record :
      (l e : ℕ) (p : List ℕ) → length (encode_record crc32 l e p) ≡ record_overhead + length p
  unfolding encode_record
  length-encode_record l e p = omega (
    arith,
    length-append (covered l e p) (to_le_bytes 4 (crc32 (covered l e p))),
    length-covered l e p,
    length-to_le_bytes 4 (crc32 (covered l e p)),
  )

  encode_record-fields :
      (pre : List ℕ) (l e : ℕ) (p rest : List ℕ)
      → pre ++ (encode_record crc32 l e p ++ rest)
        ≡ fields pre
            (to_le_bytes 4 (length p % u32_mod))
            (to_be_bytes 8 l)
            (to_be_bytes 8 e)
            p
            (to_le_bytes 4 (crc32 (covered l e p)))
            rest
  unfolding encode_record
  encode_record-fields pre l e p rest = simp append_assoc

  module _ (crc32-lt : (bs : List ℕ) → crc32 bs < u32_mod) (pre : List ℕ) (l e : ℕ)
      (p rest : List ℕ) (hl : l < u64_mod) (he : e < u64_mod) (hp : length p < u32_mod) where
    field_widths :
        (length (to_le_bytes 4 (length p % u32_mod)) ≡ 4)
        × (length (to_be_bytes 8 l) ≡ 8)
        × (length (to_be_bytes 8 e) ≡ 8)
        × (length (to_le_bytes 4 (crc32 (covered l e p))) ≡ 4)
    field_widths = (
      length-to_le_bytes 4 _,
      length-to_be_bytes 8 _,
      length-to_be_bytes 8 _,
      length-to_le_bytes 4 _,
    )

    claimed-encode : claimed (pre ++ (encode_record crc32 l e p ++ rest)) (length pre) ≡ length p
    claimed-encode =
        let (wa, wb, wc, wf) = field_widths in
        rw
          (
            encode_record-fields pre l e p rest,
            slice_a pre _ _ _ p _ rest wa wb wc wf,
            from_le_bytes-to_le_bytes 4 (length p % u32_mod) (omega arith),
          )
          (omega arith)

    checked-encode :
        checked crc32 (pre ++ (encode_record crc32 l e p ++ rest)) (length pre) (length p)
        ≡ ok (l, e, p, record_overhead + length p)
    unfolding checked
    checked-encode =
        let (wa, wb, wc, wf) = field_widths in
        rw (
          encode_record-fields pre l e p rest,
          slice_b pre _ _ _ p _ rest wa wb wc wf,
          slice_c pre _ _ _ p _ rest wa wb wc wf,
          slice_d pre _ _ _ p _ rest wa wb wc wf,
          slice_f pre _ _ _ p _ rest wa wb wc wf,
          from_be_bytes-to_be_bytes 8 l hl,
          from_be_bytes-to_be_bytes 8 e he,
          from_le_bytes-to_le_bytes 4 (crc32 (covered l e p)) (crc32-lt _),
          ==_refl (crc32 (covered l e p)),
        )

    -- Decoding where a record was written gives back the record, whatever stands before and after.
    pub decode_record-encode_record :
        length (pre ++ (encode_record crc32 l e p ++ rest)) < u64_mod
        → decode_record crc32 (pre ++ (encode_record crc32 l e p ++ rest)) (length pre)
          ≡ ok (l, e, p, record_overhead + length p)
    decode_record-encode_record small =
        decode_record-inside crc32 _ (length pre) small inside ∙ rw claimed-encode checked-encode
      where
        inside :
            length pre
              + record_overhead
              + claimed (pre ++ (encode_record crc32 l e p ++ rest)) (length pre)
            ≤ length (pre ++ (encode_record crc32 l e p ++ rest))
        inside = omega (
          arith,
          claimed-encode,
          length-append pre (encode_record crc32 l e p ++ rest),
          length-append (encode_record crc32 l e p) rest,
          length-encode_record l e p,
        )
