-- ===== src/OrderedMap.antt =====
-- `BTreeMap` of the standard library, as an association list in the order of its keys.
use folio.Base.{ℕ, ◌≡◌, Option, none, some, List, [], ◌∷◌, arith, ◌==◌, if◌then◌else◌}
use Prim.Native.Nat.{Ordering}
use Prim.Native.Nat.{compare}

module _ {ℓ κ} {K : Type ℓ} {V : Type κ} (order : K → K → Ordering) where
  abbrev pub lookup : K → List (K × V) → Option V
  lookup k [] = none
  lookup k ((j, v) ∷ es) = elim (order k j) [ Ordering.eq ↦ some v | _ ↦ lookup k es ]

  abbrev pub insert : K → V → List (K × V) → List (K × V)
  insert k v [] = (k, v) ∷ []
  insert k v ((j, w) ∷ es) = elim (order k j) [
    | Ordering.lt ↦ (k, v) ∷ (j, w) ∷ es
    | Ordering.eq ↦ (k, v) ∷ es
    | Ordering.gt ↦ (j, w) ∷ insert k v es
  ]

  abbrev pub remove : K → List (K × V) → List (K × V)
  remove k [] = []
  remove k ((j, w) ∷ es) = elim (order k j) [ Ordering.eq ↦ es | _ ↦ (j, w) ∷ remove k es ]

abbrev pub values {ℓ κ} : {K : Type ℓ} {V : Type κ} → List (K × V) → List V
values [] = []
values ((k, v) ∷ es) = v ∷ values es

module _ {ℓ} {V : Type ℓ} where
  pub lookup-insert :
      (k : ℕ) (v : V) (es : List (ℕ × V)) (j : ℕ)
      → lookup compare j (insert compare k v es) ≡ (if k == j then some v else lookup compare j es)
  lookup-insert k v [] j = ground arith
  lookup-insert k v ((i, w) ∷ es) j = ground (arith, lookup-insert k v es j)
