-- ===== src/Bytes/RoundTrip.antt =====
-- The encodings have the right width, hold bytes, and are undone by the decoders, both ways.
use mathlib.Core.Path.{ap₂}
use native.Mathlib.Nat.{
  pow-suc, div-add-mod', mod-lt, mod-eq_of_lt, div-lt_iff_lt-mul, div-eq_of_lt, mul-add-div_right,
  mul-add-mod_self_right, mul-le-mul_right,
}
use folio.Base.{
  ℕ, zero, suc, ◌+◌, ◌*◌, ◌/◌, ◌%◌, ◌^◌, ◌<◌, ◌≤◌, ◌≡◌, refl, ap, ◌∙◌, List, [], ◌∷◌, arith, length,
}
use folio.Bytes.{IsBytes, to_be_bytes, from_be_bytes, to_le_bytes, from_le_bytes}

pub pow256_pos : (w : ℕ) → 0 < 256 ^ w
pow256_pos zero = omega arith
pow256_pos (suc w) = rw (pow-suc 256 w) (omega (arith, pow256_pos w))

pub pow256-suc : (w : ℕ) → 256 ^ suc w ≡ 256 * 256 ^ w
pow256-suc w = rw (pow-suc 256 w) (omega arith)

pub length-to_be_bytes : (w n : ℕ) → length (to_be_bytes w n) ≡ w
unfolding to_be_bytes
length-to_be_bytes zero n = refl
length-to_be_bytes (suc w) n = ap suc (length-to_be_bytes w (n % 256 ^ w))

pub length-to_le_bytes : (w n : ℕ) → length (to_le_bytes w n) ≡ w
unfolding to_le_bytes
length-to_le_bytes zero n = refl
length-to_le_bytes (suc w) n = ap suc (length-to_le_bytes w (n / 256))

pub from_be_bytes-to_be_bytes : (w n : ℕ) → n < 256 ^ w → from_be_bytes (to_be_bytes w n) ≡ n
unfolding to_be_bytes from_be_bytes
from_be_bytes-to_be_bytes zero n h = omega arith
from_be_bytes-to_be_bytes (suc w) n h =
    rw
      (
        length-to_be_bytes w (n % 256 ^ w),
        from_be_bytes-to_be_bytes w (n % 256 ^ w) (mod-lt n (pow256_pos w)),
      )
      (div-add-mod' n (256 ^ w))

pub from_le_bytes-to_le_bytes : (w n : ℕ) → n < 256 ^ w → from_le_bytes (to_le_bytes w n) ≡ n
unfolding to_le_bytes from_le_bytes
from_le_bytes-to_le_bytes zero n h = omega arith
from_le_bytes-to_le_bytes (suc w) n h =
    omega (arith, from_le_bytes-to_le_bytes w (n / 256) (omega (arith, pow256-suc w)))

pub to_be_bytes-IsBytes : (w n : ℕ) → n < 256 ^ w → IsBytes (to_be_bytes w n)
unfolding to_be_bytes
to_be_bytes-IsBytes zero n h = tt
to_be_bytes-IsBytes (suc w) n h = (
  (div-lt_iff_lt-mul (pow256_pos w)).1 (rw (← pow256-suc w) h),
  to_be_bytes-IsBytes w (n % 256 ^ w) (mod-lt n (pow256_pos w)),
)

pub to_le_bytes-IsBytes : (w n : ℕ) → IsBytes (to_le_bytes w n)
unfolding to_le_bytes
to_le_bytes-IsBytes zero n = tt
to_le_bytes-IsBytes (suc w) n = (omega arith, to_le_bytes-IsBytes w (n / 256))

le_pred : (b : ℕ) → b < 256 → b ≤ 255
le_pred b h = omega arith

pub from_be_bytes-lt : (bs : List ℕ) → IsBytes bs → from_be_bytes bs < 256 ^ length bs
unfolding from_be_bytes
from_be_bytes-lt [] h = omega arith
from_be_bytes-lt (b ∷ bs) h = omega (
  arith,
  pow256-suc (length bs),
  from_be_bytes-lt bs h.1,
  mul-le-mul_right (256 ^ length bs) (le_pred b h.0),
)

pub from_le_bytes-lt : (bs : List ℕ) → IsBytes bs → from_le_bytes bs < 256 ^ length bs
unfolding from_le_bytes
from_le_bytes-lt [] h = omega arith
from_le_bytes-lt (b ∷ bs) h = omega (arith, pow256-suc (length bs), from_le_bytes-lt bs h.1)

-- Decoding loses nothing: the bytes are recovered from the number.
pub to_be_bytes-from_be_bytes :
    (bs : List ℕ) → IsBytes bs → to_be_bytes (length bs) (from_be_bytes bs) ≡ bs
unfolding to_be_bytes from_be_bytes
to_be_bytes-from_be_bytes [] h = refl
to_be_bytes-from_be_bytes (b ∷ bs) h =
    let below = from_be_bytes-lt bs h.1 in
    let pos = pow256_pos (length bs) in
    ap₂ ◌∷◌ (mul-add-div_right pos b (from_be_bytes bs) ∙ rw (div-eq_of_lt below) (omega arith)) (
      rw (mul-add-mod_self_right b (256 ^ length bs) (from_be_bytes bs), mod-eq_of_lt below)
        (to_be_bytes-from_be_bytes bs h.1))

pub to_le_bytes-from_le_bytes :
    (bs : List ℕ) → IsBytes bs → to_le_bytes (length bs) (from_le_bytes bs) ≡ bs
unfolding to_le_bytes from_le_bytes
to_le_bytes-from_le_bytes [] h = refl
to_le_bytes-from_le_bytes (b ∷ bs) h =
    ap₂ ◌∷◌ (omega arith) (rw (high b (from_le_bytes bs) h.0) (to_le_bytes-from_le_bytes bs h.1))
  where
    high : (x r : ℕ) → x < 256 → (x + 256 * r) / 256 ≡ r
    high x r below = omega arith
