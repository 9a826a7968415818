-- ===== src/Partition.antt =====
-- The key-value store under the indices and registries: one partition of a Fjall keyspace, whose
-- code is a third-party crate. Its documented behaviour is the parameter `Partition`: an ordered map
-- from byte strings to byte strings, in which each call may fail, and a failed call changes nothing.
-- `Bincode` is the serializer of the values.
use folio.Base.{ℕ, ◌≡◌, Bool, true, false, Option, none, some, List, [], ◌∷◌, if◌then◌else◌}
use folio.Bytes.{bytes_eq, lex_leb}
use folio.Error.{Result, ok}

abbrev pub Pairs : Type 0
Pairs = List (List ℕ × List ℕ)

-- The value of a key in a listing, and the keys in range.
unfoldable pub lookup : List ℕ → Pairs → Option (List ℕ)
lookup k [] = none
lookup k ((j, v) ∷ ps) = if bytes_eq j k then some v else lookup k ps

abbrev pub within : List ℕ → List ℕ → List ℕ → Bool
within start end k = if lex_leb start k then lex_leb k end else false

-- No key is listed twice.
abbrev pub Distinct : Pairs → Type 0
Distinct [] = Unit
Distinct ((k, v) ∷ ps) = (lookup k ps ≡ none) × Distinct ps

-- The greatest key of a range: `range(start..=end).next_back()`.
abbrev pub IsLast : (List ℕ → Option (List ℕ)) → List ℕ → List ℕ → Option (List ℕ × List ℕ) → Type 0
IsLast view start end none = (k : List ℕ) → within start end k ≡ true → view k ≡ none
IsLast view start end (some (k, v)) =
    (view k ≡ some v)
    × (within start end k ≡ true)
    × ((j w : List ℕ) → within start end j ≡ true → view j ≡ some w → lex_leb j k ≡ true)

pub record Partition : Type 1 where
  pub Store : Type 0
  -- What the store holds.
  pub view : Store → List ℕ → Option (List ℕ)
  pub get : Store → List ℕ → Result (Option (List ℕ))
  pub insert : Store → List ℕ → List ℕ → Result Store
  pub remove : Store → List ℕ → Result Store
  pub iter : Store → Result Pairs
  pub range : Store → List ℕ → List ℕ → Result Pairs
  pub range_last : Store → List ℕ → List ℕ → Result (Option (List ℕ × List ℕ))
  pub get-view : (s : Store) (k : List ℕ) {o : Option (List ℕ)} → get s k ≡ ok o → o ≡ view s k
  pub insert-view :
      (s : Store) (k v : List ℕ) {t : Store}
      → insert s k v ≡ ok t
      → (j : List ℕ) → view t j ≡ (if bytes_eq k j then some v else view s j)
  pub remove-view :
      (s : Store) (k : List ℕ) {t : Store}
      → remove s k ≡ ok t
      → (j : List ℕ) → view t j ≡ (if bytes_eq k j then none else view s j)
  pub iter-view : (s : Store) {ps : Pairs} → iter s ≡ ok ps → (k : List ℕ) → lookup k ps ≡ view s k
  pub iter-Distinct : (s : Store) {ps : Pairs} → iter s ≡ ok ps → Distinct ps
  pub range-view :
      (s : Store) (start end : List ℕ) {ps : Pairs}
      → range s start end ≡ ok ps
      → (k : List ℕ) → lookup k ps ≡ (if within start end k then view s k else none)
  pub range_last-IsLast :
      (s : Store) (start end : List ℕ) {o : Option (List ℕ × List ℕ)}
      → range_last s start end ≡ ok o
      → IsLast (view s) start end o

-- `bincode::serialize` and `deserialize` at one type.
pub record Bincode (A : Type 0) : Type 0 where
  pub serialize : A → Result (List ℕ)
  pub deserialize : List ℕ → Result A
  pub deserialize-serialize : (a : A) {bs : List ℕ} → serialize a ≡ ok bs → deserialize bs ≡ ok a
