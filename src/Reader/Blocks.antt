-- ===== src/Reader/Blocks.antt =====
-- A record that lies within two blocks of its file is read back through them.
use folio.Base.{
  ℕ, zero, suc, ◌+◌, ◌-◌, ◌*◌, ◌<◌, ◌≤◌, ◌≡◌, refl, sym, ap, ◌∙◌, List, [], ◌∷◌, ◌++◌, arith,
  length, take, drop, u64_mod, u32_mod, add64, sub64, leb, Bool-cases, inl, inr, take-add,
  drop-drop, length-take, length-drop,
}
use folio.Error.{ok, with_ok}
use folio.Segment.{IndexValue, block_size, encode_record, record_overhead}
use folio.Segment.Codec.{decode_record-encode_record, length-encode_record}
use folio.Stateful.{Stateful, lift}
use folio.Reader.{block_start, block_of, read_blocks, read_located, decoded_at, payload_of}

module _ {ℓ} {A : Type ℓ} where
  drop-append_within :
      (xs ys : List A) (n : ℕ) → n ≤ length xs → drop n (xs ++ ys) ≡ drop n xs ++ ys
  drop-append_within xs ys zero h = refl
  drop-append_within [] ys (suc n) h = absurd (omega arith)
  drop-append_within (x ∷ xs) ys (suc n) h = drop-append_within xs ys n (omega arith)

  take-append_past :
      (xs ys : List A) (n : ℕ) → length xs ≤ n → take n (xs ++ ys) ≡ xs ++ take (n - length xs) ys
  take-append_past [] ys n h = ap (λ k. take k ys) (omega arith)
  take-append_past (x ∷ xs) ys zero h = absurd (omega arith)
  take-append_past (x ∷ xs) ys (suc n) h =
      ap (◌∷◌ x) (take-append_past xs ys n (omega arith) ∙ ap (λ k. xs ++ take k ys) (omega arith))

  -- A window that holds the middle part whole.
  window :
      (before middle behind : List A) (start n : ℕ)
      → start ≤ length before
      → length before + length middle ≤ start + n
      → take n (drop start (before ++ (middle ++ behind)))
        ≡ drop start before
          ++ (middle ++ take (n - length (drop start before) - length middle) behind)
  window before middle behind start n low high =
      rw (drop-append_within before (middle ++ behind) start low) (
        take-append_past (drop start before) (middle ++ behind) n
          (omega (arith, length-drop start before))
        ∙ ap (◌++◌ (drop start before)) (
            take-append_past middle behind (n - length (drop start before))
              (omega (arith, length-drop start before))))

-- The blocks of a file, read without a failure.
abbrev pub blocks_of : {S : Type 0} → List ℕ → ℕ → Stateful S (List ℕ)
blocks_of file start = lift (ok (block_of file start))

two_blocks :
    (file : List ℕ) (start : ℕ)
    → start + block_size < u64_mod
    → block_of file start ++ block_of file (add64 start block_size)
      ≡ take (block_size + block_size) (drop start file)
unfolding block_of
two_blocks file start small =
    ap (λ k. take block_size (drop start file) ++ take block_size (drop k file))
      (the_end start small)
    ∙ ap (λ xs. take block_size (drop start file) ++ take block_size xs)
        (sym (drop-drop start block_size file))
    ∙ sym (take-add block_size block_size (drop start file))
  where
    the_end : (a : ℕ) → a + block_size < u64_mod → add64 a block_size ≡ a + block_size
    the_end a h = omega arith

-- The bytes read are a window of the file that reaches the end of the record.
read_blocks-window :
    {S : Type 0} (file : List ℕ) (iv : IndexValue) (s : S)
    → iv.offset + iv.length + 2 * block_size < u64_mod
    → iv.offset + iv.length ≤ block_start iv.offset + 2 * block_size
    → (n : ℕ) × (iv.offset + iv.length ≤ block_start iv.offset + n)
      × (n ≤ 2 * block_size)
      × (read_blocks (blocks_of file) iv s ≡ (s, ok (take n (drop (block_start iv.offset) file))))
unfolding read_blocks block_of block_start
read_blocks-window file iv s fits near =
    elim (Bool-cases (leb (add64 iv.offset iv.length) (add64 (block_start iv.offset) block_size))) [
      | inl one ↦ (block_size, ground arith, omega arith, rw one refl)
      | inr two ↦ (
        block_size + block_size,
        omega arith,
        omega arith,
        rw two
            (ap (λ bytes. (s, ok bytes)) (two_blocks file (block_start iv.offset) (omega arith))),
      )
    ]

block_start_le : (offset : ℕ) → block_start offset ≤ offset
unfolding block_start
block_start_le offset = omega arith

module _ {S : Type 0} (crc : List ℕ → ℕ) (crc-lt : (bs : List ℕ) → crc bs < u32_mod)
    (before : List ℕ) (l e : ℕ) (payload behind : List ℕ) (segment_id : ℕ) (s : S) where
  abbrev pub file_with : List ℕ
  file_with = before ++ (encode_record crc l e payload ++ behind)

  abbrev pub located : IndexValue
  located = record {
    segment_id = segment_id;
    offset = length before;
    length = record_overhead + length payload;
  }

  -- A record that ends within the block after the one it starts in is read back from the blocks of
  -- its file, at the offset and length that the index holds, whatever stands around it.
  pub read_located-encode_record :
      l < u64_mod
      → e < u64_mod
      → length payload < u32_mod
      → length before + record_overhead + length payload + 2 * block_size < u64_mod
      → length before + (record_overhead + length payload)
        ≤ block_start (length before) + 2 * block_size
      → read_located crc (blocks_of file_with) located s ≡ (s, ok payload)
  unfolding read_located decoded_at
  read_located-encode_record hl he hp small near =
      let (n, whole, most, bytes) = read_blocks-window file_with located s (omega arith) near in
      rw (bytes) (ap (λ r. (s, r)) (decoded_window n whole most))
    where
      enc : List ℕ
      enc = encode_record crc l e payload

      start : ℕ
      start = block_start (length before)

      below : start ≤ length before
      below = block_start_le (length before)

      decoded_window :
          (n : ℕ)
          → length before + (record_overhead + length payload) ≤ block_start (length before) + n
          → n ≤ 2 * block_size
          → decoded_at crc
              (take n (drop (block_start (length before)) file_with))
              (sub64 (length before) (block_start (length before)))
            ≡ ok payload
      decoded_window n whole most =
          let low : start ≤ length before = below in
          let rest : List ℕ = take (n - length (drop start before) - length enc) behind in
          let bytes : take n (drop start file_with) ≡ drop start before ++ (enc ++ rest) =
            window before enc behind start n low
              (omega (arith, length-encode_record crc l e payload)) in
          let fits : length (take n (drop start file_with)) < u64_mod =
            omega (arith, length-take n (drop start file_with)) in
          let place : sub64 (length before) start ≡ length (drop start before) =
            omega (arith, length-drop start before) in
          rw (bytes, place)
            (ap (λ r. with_ok r (λ q. ok (payload_of q)))
              (decode_record-encode_record crc crc-lt (drop start before) l e payload rest hl he hp
                (rw bytes at fits)))
