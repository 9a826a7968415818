-- ===== src/Error.antt =====
-- crates/folio-core/src/error.rs. The texts that `Io`, `Serialization`, `Metadata` and `Storage`
-- carry for the log are dropped; no code branches on them. A call may also panic, as a slice out of
-- range does.
use folio.Base.{ℕ, ◌≡◌, refl, Bool, true, false, Option, none, some}
use folio.Protocol.{LedgerState}

pub data FolioError : Type 0 where
  ledger_not_found : ℕ → FolioError
  entry_not_found : ℕ → ℕ → FolioError
  ledger_fenced : ℕ → FolioError
  quorum_not_met : ℕ → ℕ → FolioError
  state_conflict : LedgerState → LedgerState → FolioError
  cas_conflict : FolioError
  invalid_fragment : ℕ → FolioError
  invalid_entry_id : ℕ → ℕ → FolioError
  lac_timeout io serialization metadata storage : FolioError

pub data Result {ℓ} (A : Type ℓ) : Type ℓ where
  ok : A → Result A
  err : FolioError → Result A
  panicked : Result A

-- The value of a call that answers nothing.
abbrev pub Done : Type 0
Done = Unit

-- The `?` operator.
infixl 5 ◌>>=◌ ◌>>◌
abbrev pub ◌>>=◌ {ℓ κ} : {A : Type ℓ} {B : Type κ} → Result A → (A → Result B) → Result B
err failure >>= next = err failure
panicked >>= next = panicked
ok value >>= next = next value

abbrev pub ◌>>◌ {ℓ κ} : {A : Type ℓ} {B : Type κ} → Result A → Result B → Result B
m >> k = m >>= λ _. k

module _ {ℓ} {A : Type ℓ} where
  -- `Option::ok_or`
  abbrev pub ok_or : Option A → FolioError → Result A
  ok_or none e = err e
  ok_or (some a) e = ok a

  -- `Result::is_ok`
  abbrev pub is_ok : Result A → Bool
  is_ok (ok a) = true
  is_ok (err e) = false
  is_ok panicked = false

  -- `unwrap_or`
  abbrev pub unwrap_or : Option A → A → A
  unwrap_or none a = a
  unwrap_or (some b) a = b

-- `?` under a name, for a file whose operator is another's.
abbrev pub with_ok {ℓ κ} : {A : Type ℓ} {B : Type κ} → Result A → (A → Result B) → Result B
with_ok m next = m >>= next

-- A chain of two calls succeeds only if both do.
pub bind_ok {ℓ κ} :
    {X : Type ℓ} {Y : Type κ} (call : Result X) (next : X → Result Y) {y : Y}
    → (call >>= next) ≡ ok y
    → (x : X) × (call ≡ ok x) × (next x ≡ ok y)
bind_ok (err failure) next both = cc
bind_ok panicked next both = cc
bind_ok (ok x) next both = (x, refl, both)
