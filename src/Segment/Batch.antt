-- ===== src/Segment/Batch.antt =====
-- Records pushed one after the other into one buffer, as `write_batch` and the journal loop do, and
-- read back through the offsets that were handed out.
use mathlib.Core.List.{append_assoc, append-nil}
use folio.Base.{
  ℕ, ◌+◌, ◌%◌, ◌<◌, ◌≡◌, sym, ap, ◌∙◌, List, [], ◌∷◌, ◌++◌, arith, u32_mod, u64_mod, length, All,
  length-append,
}
use folio.Error.{ok}
use folio.Segment.{record_overhead, encode_record, decode_record, push}
use folio.Segment.Codec.{decode_record-encode_record}

abbrev pub Item : Type 0
Item = ℕ × ℕ × List ℕ

-- The values that the framing can hold: u64 identifiers, and a record length that fits a u32.
abbrev pub Fits : Item → Type 0
Fits (l, e, p) = (l < u64_mod) × (e < u64_mod) × (record_overhead + length p < u32_mod)

module _ (crc32 : List ℕ → ℕ) where
  -- The buffer after all pushes, and (base + offset, length) of each record in the order of pushing.
  unfoldable pub push_all : ℕ → List ℕ → List Item → List ℕ × List (ℕ × ℕ)
  unfolding push
  push_all base inner [] = (inner, [])
  push_all base inner ((l, e, p) ∷ items) =
      let (inner', offset, len) = push crc32 inner l e p in
      let (final, offsets) = push_all base inner' items in (final, (base + offset, len) ∷ offsets)

  -- Every item is read back from `file` at its offset, with its length.
  abbrev pub Decodes : List ℕ → List Item → List (ℕ × ℕ) → Type 0
  Decodes file [] [] = Unit
  Decodes file [] (o ∷ os) = ⊥
  Decodes file (i ∷ is) [] = ⊥
  Decodes file ((l, e, p) ∷ is) ((offset, len) ∷ os) =
      (decode_record crc32 file offset ≡ ok (l, e, p, len)) × Decodes file is os

  abbrev pub encode_all : List Item → List ℕ
  encode_all [] = []
  encode_all ((l, e, p) ∷ items) = encode_record crc32 l e p ++ encode_all items

  pub push_all-eq :
      (base : ℕ) (inner : List ℕ) (items : List Item)
      → (push_all base inner items).0 ≡ inner ++ encode_all items
  unfolding push_all
  push_all-eq base inner [] = sym (append-nil inner)
  push_all-eq base inner ((l, e, p) ∷ items) =
      push_all-eq base (inner ++ encode_record crc32 l e p) items ∙ append_assoc inner _ _

  module _ (crc32-lt : (bs : List ℕ) → crc32 bs < u32_mod) where
    -- Wherever the buffer is placed, its records are found at `base` plus their offsets.
    pub push_all-Decodes :
        (file pre inner : List ℕ) (items : List Item) (rest : List ℕ)
        → All Fits items
        → length file < u64_mod
        → file ≡ pre ++ (inner ++ (encode_all items ++ rest))
        → Decodes file items (push_all (length pre) inner items).1
    unfolding push_all
    push_all-Decodes file pre inner [] rest h small at = tt
    push_all-Decodes file pre inner ((l, e, p) ∷ items) rest h small at = (
      first,
      push_all-Decodes file pre (inner ++ encode_record crc32 l e p) items rest h.1 small
          (at ∙ simp append_assoc),
    )
      where
        here : file ≡ (pre ++ inner) ++ (encode_record crc32 l e p ++ (encode_all items ++ rest))
        here = at ∙ simp append_assoc

        first :
            decode_record crc32 file (length pre + length inner)
            ≡ ok (l, e, p, (record_overhead + length p) % u32_mod)
        first =
            rw (here, ← length-append pre inner)
              (decode_record-encode_record crc32 crc32-lt (pre ++ inner) l e p _ h.0.0 h.0.1
                  (omega arith) (rw here at small)
                ∙ ap (λ n. ok (l, e, p, n)) (omega arith))
