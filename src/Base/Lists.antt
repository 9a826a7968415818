-- ===== src/Base/Lists.antt =====
-- Lists measured, sliced and searched by native numbers, under the library's names.
use Prim.Native.Nat.{ℕ, zero, suc, ◌+◌, ◌-◌, ◌≤◌, min}
use mathlib.Core.Path.{◌≡◌, refl, ap}
use mathlib.Core.Bool.{Bool, true, false}
use mathlib.Core.List.{List, [], ◌∷◌, ◌++◌}
use mathlib.Core.Option.{Option, none, some}
use native.Mathlib.Omega.{arith}

module _ {ℓ} {A : Type ℓ} where
  abbrev pub length : List A → ℕ
  length [] = 0
  length (x ∷ xs) = suc (length xs)

  abbrev pub get_elem? : List A → ℕ → Option A
  get_elem? [] i = none
  get_elem? (x ∷ xs) zero = some x
  get_elem? (x ∷ xs) (suc i) = get_elem? xs i

  abbrev pub take : ℕ → List A → List A
  take zero xs = []
  take (suc n) [] = []
  take (suc n) (x ∷ xs) = x ∷ take n xs

  abbrev pub drop : ℕ → List A → List A
  drop zero xs = xs
  drop (suc n) [] = []
  drop (suc n) (x ∷ xs) = drop n xs

  abbrev pub replicate : ℕ → A → List A
  replicate zero a = []
  replicate (suc n) a = a ∷ replicate n a

  pub length-append : (xs ys : List A) → length (xs ++ ys) ≡ length xs + length ys
  length-append [] ys = omega arith
  length-append (x ∷ xs) ys = omega (arith, length-append xs ys)

  pub length-take : (n : ℕ) (xs : List A) → length (take n xs) ≡ min n (length xs)
  length-take zero xs = omega arith
  length-take (suc n) [] = omega arith
  length-take (suc n) (x ∷ xs) = omega (arith, length-take n xs)

  pub length-drop : (n : ℕ) (xs : List A) → length (drop n xs) ≡ length xs - n
  length-drop zero xs = omega arith
  length-drop (suc n) [] = omega arith
  length-drop (suc n) (x ∷ xs) = omega (arith, length-drop n xs)

  pub length-replicate : (n : ℕ) (a : A) → length (replicate n a) ≡ n
  length-replicate zero a = refl
  length-replicate (suc n) a = ap suc (length-replicate n a)

  pub take-append-drop : (n : ℕ) (xs : List A) → take n xs ++ drop n xs ≡ xs
  take-append-drop zero xs = refl
  take-append-drop (suc n) [] = refl
  take-append-drop (suc n) (x ∷ xs) = rw (take-append-drop n xs)

  -- A slice that starts behind a prefix does not see the prefix.
  pub drop-append_length : (xs ys : List A) → drop (length xs) (xs ++ ys) ≡ ys
  drop-append_length [] ys = refl
  drop-append_length (x ∷ xs) ys = drop-append_length xs ys

  pub take-append_length : (xs ys : List A) → take (length xs) (xs ++ ys) ≡ xs
  take-append_length [] ys = refl
  take-append_length (x ∷ xs) ys = ap (◌∷◌ x) (take-append_length xs ys)

  pub drop-drop : (m n : ℕ) (xs : List A) → drop n (drop m xs) ≡ drop (m + n) xs
  drop-drop zero n xs = ap (λ k. drop k xs) (omega arith)
  drop-drop (suc m) zero [] = rw (zero_right m)
    where
      zero_right : (k : ℕ) → suc k + 0 ≡ suc k
      zero_right k = omega arith
  drop-drop (suc m) (suc n) [] = rw (suc_left m n)
    where
      suc_left : (j k : ℕ) → suc j + suc k ≡ suc (j + suc k)
      suc_left j k = omega arith
  drop-drop (suc m) n (x ∷ xs) = rw (suc_left m n) (drop-drop m n xs)
    where
      suc_left : (j k : ℕ) → suc j + k ≡ suc (j + k)
      suc_left j k = omega arith

  -- The last element (`Vec::last`).
  abbrev pub last? : List A → Option A
  last? [] = none
  last? (x ∷ []) = some x
  last? (x ∷ y ∷ ys) = last? (y ∷ ys)

  -- `Iterator::any` and `Iterator::find` with a Boolean test.
  abbrev pub any : (A → Bool) → List A → Bool
  any p [] = false
  any p (x ∷ xs) = elim (p x) [ true ↦ true | false ↦ any p xs ]

  abbrev pub find? : (A → Bool) → List A → Option A
  find? p [] = none
  find? p (x ∷ xs) = elim (p x) [ true ↦ some x | false ↦ find? p xs ]

  -- `Iterator::filter` and `Vec::retain`.
  abbrev pub filter : (A → Bool) → List A → List A
  filter p [] = []
  filter p (x ∷ xs) = elim (p x) [ true ↦ x ∷ filter p xs | false ↦ filter p xs ]

module _ {ℓ κ} {A : Type ℓ} where
  -- A predicate of every element.
  abbrev pub All : (A → Type κ) → List A → Type κ
  All P [] = Unit
  All P (x ∷ xs) = P x × All P xs

  pub All-take : (P : A → Type κ) (n : ℕ) (xs : List A) → All P xs → All P (take n xs)
  All-take P zero xs h = tt
  All-take P (suc n) [] h = tt
  All-take P (suc n) (x ∷ xs) h = (h.0, All-take P n xs h.1)

  pub All-drop : (P : A → Type κ) (n : ℕ) (xs : List A) → All P xs → All P (drop n xs)
  All-drop P zero xs h = h
  All-drop P (suc n) [] h = tt
  All-drop P (suc n) (x ∷ xs) h = All-drop P n xs h.1

module _ {ℓ} {A : Type ℓ} where
  -- A slice taken where a concatenation has its parts.
  pub drop_past : (xs ys : List A) (j k : ℕ) → k ≡ length xs + j → drop k (xs ++ ys) ≡ drop j ys
  drop_past [] ys j k h = rw h (ap (λ i. drop i ys) (omega arith))
  drop_past (x ∷ xs) ys j zero h = absurd (omega arith)
  drop_past (x ∷ xs) ys j (suc k) h = drop_past xs ys j k (omega arith)

  pub take_all : (xs : List A) (n : ℕ) → length xs ≤ n → take n xs ≡ xs
  take_all [] zero h = refl
  take_all [] (suc n) h = refl
  take_all (x ∷ xs) zero h = absurd (omega arith)
  take_all (x ∷ xs) (suc n) h = ap (◌∷◌ x) (take_all xs n (omega arith))

  pub take_exact : (xs ys : List A) (n : ℕ) → n ≡ length xs → take n (xs ++ ys) ≡ xs
  take_exact xs ys n h = rw h (take-append_length xs ys)

module _ {ℓ} {A : Type ℓ} where
  pub take-add : (m n : ℕ) (xs : List A) → take (m + n) xs ≡ take m xs ++ take n (drop m xs)
  take-add zero n xs = ap (λ k. take k xs) (omega arith)
  take-add (suc m) zero [] = rw (zero-add_suc m)
    where
      zero-add_suc : (k : ℕ) → suc k + 0 ≡ suc k
      zero-add_suc k = omega arith
  take-add (suc m) (suc n) [] = rw (suc-add m n)
    where
      suc-add : (j k : ℕ) → suc j + suc k ≡ suc (j + suc k)
      suc-add j k = omega arith
  take-add (suc m) n (x ∷ xs) = rw (suc-add m n) (ap (◌∷◌ x) (take-add m n xs))
    where
      suc-add : (j k : ℕ) → suc j + k ≡ suc (j + k)
      suc-add j k = omega arith

module _ {ℓ} {A : Type ℓ} where
  -- A slice that ends before the end of the first part does not see the second.
  pub slice-append :
      (xs ys : List A) (k n : ℕ)
      → k + n ≤ length xs
      → take n (drop k (xs ++ ys)) ≡ take n (drop k xs)
  slice-append [] ys zero zero h = refl
  slice-append [] ys zero (suc n) h = absurd (omega arith)
  slice-append [] ys (suc k) n h = absurd (omega arith)
  slice-append (x ∷ xs) ys zero zero h = refl
  slice-append (x ∷ xs) ys zero (suc n) h = ap (◌∷◌ x) (slice-append xs ys zero n (omega arith))
  slice-append (x ∷ xs) ys (suc k) n h = slice-append xs ys k n (omega arith)
