-- ===== src/Segment/Extend.antt =====
-- A record that decodes keeps decoding when bytes are added behind it.
use folio.Base.{
  ℕ, ◌+◌, ◌<◌, ◌≤◌, ◌≡◌, ◌∙◌, List, ◌++◌, arith, u64_mod, length, length-append, slice-append,
}
use folio.Error.{ok}
use folio.Segment.{record_overhead, decode_record, checked}
use folio.Segment.Decode.{claimed, decode_record-inside, decode_record-fits}

module _ (crc32 : List ℕ → ℕ) (a b : List ℕ) (pos : ℕ) where
  checked-append :
      (k : ℕ)
      → pos + record_overhead + k ≤ length a
      → checked crc32 (a ++ b) pos k ≡ checked crc32 a pos k
  unfolding checked
  checked-append k h = rw (
    slice-append a b (pos + 4) 8 (omega arith),
    slice-append a b (pos + 12) 8 (omega arith),
    slice-append a b (pos + 20) k (omega arith),
    slice-append a b (pos + 20 + k) 4 (omega arith),
  )

  pub decode_record-append :
      {r : ℕ × ℕ × List ℕ × ℕ}
      → length (a ++ b) < u64_mod
      → decode_record crc32 a pos ≡ ok r
      → decode_record crc32 (a ++ b) pos ≡ ok r
  decode_record-append small h =
      let short : length a < u64_mod = omega (arith, length-append a b) in
      let (fits, good) = decode_record-fits crc32 a pos short h in
      let same : claimed (a ++ b) pos ≡ claimed a pos = rw (slice-append a b pos 4 (omega arith)) in
      decode_record-inside crc32 (a ++ b) pos small (rw same (omega (arith, length-append a b)))
      ∙ rw same (checked-append (claimed a pos) fits)
      ∙ good
