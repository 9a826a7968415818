-- ===== src/Bytes/Order.antt =====
-- Big-endian keys sort as their numbers do.
use native.Mathlib.Nat.{mod-lt, div-add-mod', mul-le-mul_right}
use folio.Base.{
  ℕ, zero, suc, ◌+◌, ◌*◌, ◌/◌, ◌%◌, ◌^◌, ◌<◌, ◌≡◌, refl, sym, true, false, List, [], ◌∷◌, ◌++◌,
  arith, length, ltb, leb, ◌==◌, if◌then◌else◌,
}
use folio.Bytes.{to_be_bytes, lex_leb}
use folio.Bytes.RoundTrip.{pow256_pos}

-- The comparison of two numbers by quotient first and remainder next.
leb-div_mod :
    (p m n : ℕ)
    → 0 < p
    → leb m n ≡ elim (ltb (m / p) (n / p)) [
      | true ↦ true
      | false ↦ elim (m / p == n / p) [ true ↦ leb (m % p) (n % p) | false ↦ false ]
    ]
leb-div_mod p m n h =
    compared (m / p) (n / p) (m % p) (n % p) m n (sym (div-add-mod' m p)) (sym (div-add-mod' n p))
      (mod-lt m h) (mod-lt n h)
  where
    compared :
        (qm qn rm rn a b : ℕ)
        → a ≡ qm * p + rm
        → b ≡ qn * p + rn
        → rm < p
        → rn < p
        → leb a b ≡ elim (ltb qm qn) [
          | true ↦ true
          | false ↦ elim (qm == qn) [ true ↦ leb rm rn | false ↦ false ]
        ]
    compared qm qn rm rn a b ea eb hm hn =
        ground (
          arith,
          mul-le-mul_right {m = suc qm} {n = qn} p,
          mul-le-mul_right {m = suc qn} {n = qm} p,
        )

-- On two values of one width the byte order of the encodings is the order of the numbers.
pub lex_leb-to_be_bytes :
    (w m n : ℕ) → m < 256 ^ w → n < 256 ^ w → lex_leb (to_be_bytes w m) (to_be_bytes w n) ≡ leb m n
unfolding lex_leb to_be_bytes
lex_leb-to_be_bytes zero m n hm hn = ground arith
lex_leb-to_be_bytes (suc w) m n hm hn = ground (
  arith,
  leb-div_mod (256 ^ w) m n (pow256_pos w),
  lex_leb-to_be_bytes w (m % 256 ^ w) (n % 256 ^ w) (mod-lt m (pow256_pos w))
      (mod-lt n (pow256_pos w)),
)

-- Keys made of two parts compare by the first part, and by the second where the first are equal.
pub lex_leb-append :
    (a b c d : List ℕ)
    → length a ≡ length c
    → lex_leb (a ++ b) (c ++ d)
      ≡ (if lex_leb a c then (if lex_leb c a then lex_leb b d else true) else false)
unfolding lex_leb
lex_leb-append [] b [] d h = refl
lex_leb-append [] b (y ∷ c) d h = absurd (omega arith)
lex_leb-append (x ∷ a) b [] d h = absurd (omega arith)
lex_leb-append (x ∷ a) b (y ∷ c) d h = ground (arith, lex_leb-append a b c d (omega arith))
