-- ===== src/Segment/Soundness.antt =====
-- Only the encoding of a record decodes.
use mathlib.Core.List.{append_assoc}
use folio.Base.{
  ℕ, ◌+◌, ◌%◌, ◌<◌, ◌≤◌, ◌≡◌, List, ◌++◌, arith, u32_mod, u64_mod, length, take, drop, length-take,
  length-drop, take-add, drop-drop, All-take, All-drop,
}
use folio.Bytes.{IsBytes, to_be_bytes, from_be_bytes, to_le_bytes, from_le_bytes}
use folio.Bytes.RoundTrip.{to_be_bytes-from_be_bytes, to_le_bytes-from_le_bytes, from_le_bytes-lt}
use folio.Error.{ok}
use folio.Segment.Decode.{claimed, decode_record-fits}
use folio.Segment.{record_overhead, encode_record, decode_record, checked}

-- A slice of bytes is recovered from the number that it encodes.
slice_be :
    (w k : ℕ) (bs : List ℕ)
    → IsBytes bs
    → k + w ≤ length bs
    → to_be_bytes w (from_be_bytes (take w (drop k bs))) ≡ take w (drop k bs)
slice_be w k bs h fits =
    rw (width) at
      (to_be_bytes-from_be_bytes (take w (drop k bs)) (All-take _ w _ (All-drop _ k bs h)))
  where
    width : length (take w (drop k bs)) ≡ w
    width = omega (arith, length-take w (drop k bs), length-drop k bs)

slice_le :
    (w k : ℕ) (bs : List ℕ)
    → IsBytes bs
    → k + w ≤ length bs
    → to_le_bytes w (from_le_bytes (take w (drop k bs))) ≡ take w (drop k bs)
slice_le w k bs h fits =
    rw (width) at
      (to_le_bytes-from_le_bytes (take w (drop k bs)) (All-take _ w _ (All-drop _ k bs h)))
  where
    width : length (take w (drop k bs)) ≡ w
    width = omega (arith, length-take w (drop k bs), length-drop k bs)

-- A slice from `pos` in the five parts of a record.
slice_parts :
    (pos k : ℕ) (bs : List ℕ)
    → take (24 + k) (drop pos bs)
      ≡ take 4 (drop pos bs)
        ++ (take 8 (drop (pos + 4) bs)
            ++ (take 8 (drop (pos + 12) bs)
                ++ (take k (drop (pos + 20) bs) ++ take 4 (drop (pos + 20 + k) bs))))
slice_parts pos k bs = rw (
  resize (24 + k) (4 + (8 + (8 + (k + 4)))) (omega arith),
  slice-add pos 4 (8 + (8 + (k + 4))),
  slice-add (pos + 4) 8 (8 + (k + 4)),
  slice-add (pos + 4 + 8) 8 (k + 4),
  slice-add (pos + 4 + 8 + 8) k 4,
  move (pos + 4 + 8 + 8 + k) (pos + 20 + k) (omega arith),
  move (pos + 4 + 8 + 8) (pos + 20) (omega arith),
  move (pos + 4 + 8) (pos + 12) (omega arith),
)
  where
    resize : (m n : ℕ) → m ≡ n → take m (drop pos bs) ≡ take n (drop pos bs)
    resize m n h = rw h

    move : (m n : ℕ) → m ≡ n → drop m bs ≡ drop n bs
    move m n h = rw h

    slice-add :
        (at m n : ℕ) → take (m + n) (drop at bs) ≡ take m (drop at bs) ++ take n (drop (at + m) bs)
    slice-add at m n = rw (take-add m n (drop at bs), drop-drop at m bs)

assemble :
    (pos k : ℕ) (bs a b c d f : List ℕ) (n : ℕ)
    → n ≡ 24 + k
    → a ≡ take 4 (drop pos bs)
    → b ≡ take 8 (drop (pos + 4) bs)
    → c ≡ take 8 (drop (pos + 12) bs)
    → d ≡ take k (drop (pos + 20) bs)
    → f ≡ take 4 (drop (pos + 20 + k) bs)
    → take n (drop pos bs) ≡ (a ++ (b ++ (c ++ d))) ++ f
assemble pos k bs a b c d f n en ea eb ec ed ef =
    rw (en, slice_parts pos k bs, ← ea, ← eb, ← ec, ← ed, ← ef) (simp append_assoc)

module _ (crc32 : List ℕ → ℕ) (bytes : List ℕ) (pos : ℕ) (valid : IsBytes bytes)
    (small : length bytes < u64_mod) where
  claimed-lt :
      pos + record_overhead + claimed bytes pos ≤ length bytes → claimed bytes pos < u32_mod
  claimed-lt fits =
      rw (four) at
        (from_le_bytes-lt (take 4 (drop pos bytes)) (All-take _ 4 _ (All-drop _ pos bytes valid)))
    where
      four : length (take 4 (drop pos bytes)) ≡ 4
      four = omega (arith, length-take 4 (drop pos bytes), length-drop pos bytes)

  -- What a passed checksum test says of the four fields.
  checked-eq-ok :
      (k l e : ℕ) (p : List ℕ) (n : ℕ)
      → checked crc32 bytes pos k ≡ ok (l, e, p, n)
      → (l ≡ from_be_bytes (take 8 (drop (pos + 4) bytes)))
        × (e ≡ from_be_bytes (take 8 (drop (pos + 12) bytes)))
        × (p ≡ take k (drop (pos + 20) bytes))
        × (n ≡ record_overhead + k)
        × (crc32 (to_le_bytes 4 (k % u32_mod) ++ (to_be_bytes 8 l ++ (to_be_bytes 8 e ++ p)))
            ≡ from_le_bytes (take 4 (drop (pos + 20 + k) bytes)))
  unfolding checked
  checked-eq-ok k l e p n h = ground arith

  -- Bytes that decode are the encoding of what they decode to, and of nothing else.
  pub decode_record_sound :
      (l e : ℕ) (p : List ℕ) (n : ℕ)
      → decode_record crc32 bytes pos ≡ ok (l, e, p, n)
      → (n ≡ record_overhead + length p)
        × (pos + n ≤ length bytes)
        × (take n (drop pos bytes) ≡ encode_record crc32 l e p)
  unfolding encode_record
  decode_record_sound l e p n h =
      let (fits, good) = decode_record-fits crc32 bytes pos small h in
      let k : ℕ = claimed bytes pos in
      let (el, ee, ep, en, ec) = checked-eq-ok k l e p n good in
      let wide : length p ≡ k =
        rw ep
          (omega (arith, length-take k (drop (pos + 20) bytes), length-drop (pos + 20) bytes)) in
      let below : k % u32_mod ≡ k = omega (arith, claimed-lt fits) in
      let head : to_le_bytes 4 (k % u32_mod) ≡ take 4 (drop pos bytes) =
        rw below (slice_le 4 pos bytes valid (omega arith)) in
      (
        rw wide en,
        omega arith,
        rw wide (
            assemble pos k bytes _ _ _ p _ n en head
              (rw el (slice_be 8 (pos + 4) bytes valid (omega arith)))
              (rw ee (slice_be 8 (pos + 12) bytes valid (omega arith))) ep
              (rw ec (slice_le 4 (pos + 20 + k) bytes valid (omega arith)))),
      )
