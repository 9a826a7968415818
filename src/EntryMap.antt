-- ===== src/EntryMap.antt =====
-- `HashMap<(u64, u64), V>` of the standard library, as an association list in which a key stands
-- once. The order in which the source drains such a map is not specified; here it is the list's.
use folio.Base.{
  ℕ, ◌+◌, ◌≡◌, refl, Bool, true, false, Option, none, some, List, [], ◌∷◌, ◌&&◌, arith, ◌==◌,
  if◌then◌else◌, length,
}

abbrev pub EntryMap {ℓ} : Type ℓ → Type ℓ
EntryMap V = List (ℕ × ℕ × V)

abbrev pub key_eq : ℕ → ℕ → ℕ → ℕ → Bool
key_eq l e m f = l == m && e == f

module _ {ℓ} {V : Type ℓ} where
  unfoldable pub lookup : ℕ → ℕ → EntryMap V → Option V
  lookup l e [] = none
  lookup l e ((m, f, v) ∷ es) = if key_eq m f l e then some v else lookup l e es

  unfoldable pub insert : ℕ → ℕ → V → EntryMap V → EntryMap V
  insert l e v [] = (l, e, v) ∷ []
  insert l e v ((m, f, w) ∷ es) =
      if key_eq m f l e then (l, e, v) ∷ es else (m, f, w) ∷ insert l e v es

  unfoldable pub contains_key : ℕ → ℕ → EntryMap V → Bool
  contains_key l e es = elim (lookup l e es) [ none ↦ false | some _ ↦ true ]

  -- `for (l, e, v) in entries { map.insert((l, e), v) }`
  unfoldable pub insert_all : EntryMap V → EntryMap V → EntryMap V
  insert_all [] into = into
  insert_all ((l, e, v) ∷ es) into = insert_all es (insert l e v into)

  abbrev pub Distinct : EntryMap V → Type ℓ
  Distinct [] = Unit
  Distinct ((l, e, v) ∷ es) = (lookup l e es ≡ none) × Distinct es

  abbrev pub or_else : Option V → Option V → Option V
  or_else none o = o
  or_else (some v) o = some v

  pub lookup-insert :
      (l e : ℕ) (v : V) (es : EntryMap V) (m f : ℕ)
      → lookup m f (insert l e v es) ≡ (if key_eq l e m f then some v else lookup m f es)
  unfolding lookup insert
  lookup-insert l e v [] m f = refl
  lookup-insert l e v ((a, b, w) ∷ es) m f = ground (arith, lookup-insert l e v es m f)

  pub insert-Distinct :
      (l e : ℕ) (v : V) (es : EntryMap V) → Distinct es → Distinct (insert l e v es)
  unfolding lookup insert
  insert-Distinct l e v [] h = (refl, tt)
  insert-Distinct l e v ((a, b, w) ∷ es) h =
      ground (arith, insert-Distinct l e v es h.1, lookup-insert l e v es a b)

  pub lookup-insert_all :
      (es into : EntryMap V) (m f : ℕ)
      → Distinct es
      → lookup m f (insert_all es into) ≡ or_else (lookup m f es) (lookup m f into)
  unfolding lookup insert_all
  lookup-insert_all [] into m f h = refl
  lookup-insert_all ((l, e, v) ∷ es) into m f h =
      ground (arith, lookup-insert_all es (insert l e v into) m f h.1, lookup-insert l e v into m f)

-- The payload bytes that a map holds.
unfoldable pub bytes_of : EntryMap (List ℕ) → ℕ
bytes_of [] = 0
bytes_of ((l, e, p) ∷ es) = length p + bytes_of es

pub bytes_of-insert :
    (l e : ℕ) (p : List ℕ) (es : EntryMap (List ℕ))
    → lookup l e es ≡ none
    → bytes_of (insert l e p es) ≡ length p + bytes_of es
unfolding bytes_of insert lookup
bytes_of-insert l e p [] h = refl
bytes_of-insert l e p ((a, b, w) ∷ es) h = ground (arith, bytes_of-insert l e p es)
