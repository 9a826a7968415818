-- ===== src/Stateful.antt =====
-- Calls that change a state and may fail: what they changed before a failure stays.
use folio.Base.{Bool, if◌then◌else◌}
use folio.Error.{Result, Done, ok, err, panicked, FolioError}

abbrev pub Stateful {ℓ} : Type ℓ → Type ℓ → Type ℓ
Stateful S A = S → S × Result A

abbrev pub and_then {ℓ} : {S A B : Type ℓ} → S × Result A → (A → Stateful S B) → S × Result B
and_then (t, ok a) next = next a t
and_then (t, err failure) next = (t, err failure)
and_then (t, panicked) next = (t, panicked)

infixl 5 ◌>>=◌ ◌>>◌
abbrev pub ◌>>=◌ {ℓ} : {S A B : Type ℓ} → Stateful S A → (A → Stateful S B) → Stateful S B
m >>= next = λ s. and_then (m s) next

abbrev pub ◌>>◌ {ℓ} : {S A B : Type ℓ} → Stateful S A → Stateful S B → Stateful S B
m >> next = λ s. and_then (m s) (λ _. next)

module _ {ℓ} {S : Type ℓ} where
  abbrev pub current : Stateful S S
  current s = (s, ok s)

  abbrev pub lift : {A : Type ℓ} → Result A → Stateful S A
  lift r s = (s, r)

abbrev pub modify : {S : Type 0} → (S → S) → Stateful S Done
modify f s = (f s, ok tt)

-- `if bad { return Err(failure) }`
abbrev pub refuse_if : {S : Type 0} → Bool → FolioError → Stateful S Done
refuse_if bad failure s = if bad then (s, err failure) else (s, ok tt)
