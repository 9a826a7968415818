-- ===== src/Client/Service/Reading.antt =====
-- A read finds the fragment of its entry, and an answer when some node has one.
use folio.Base.{ℕ, ◌≡◌, refl, ◌∙◌, String, List, [], ◌∷◌, inl, inr, ◌⊎◌}
use folio.Error.{Result, ok, err, panicked, FolioError, entry_not_found}
use folio.Protocol.{ReadResult}
use folio.Client.Service.{first_answer, or_next, speculative_read}

abbrev pub Failed : (String → ℕ → ℕ → Result ReadResult) → ℕ → ℕ → String → Type 0
Failed ask l e n = (failure : FolioError) × (ask n l e ≡ err failure)

-- Some node in the list answered with this, and those before it failed.
abbrev pub AnsweredBy :
    (String → ℕ → ℕ → Result ReadResult) → ℕ → ℕ → ReadResult → List String → Type 0
AnsweredBy ask l e r [] = ⊥
AnsweredBy ask l e r (n ∷ ns) = (ask n l e ≡ ok r) ⊎ (Failed ask l e n × AnsweredBy ask l e r ns)

first_answer-AnsweredBy :
    (ask : String → ℕ → ℕ → Result ReadResult) (l e : ℕ) (r : ReadResult) (ns : List String)
    (failure : FolioError)
    → first_answer ask ns l e (err failure) ≡ ok r
    → AnsweredBy ask l e r ns
unfolding first_answer
first_answer-AnsweredBy ask l e r [] failure h = absurd cc
first_answer-AnsweredBy ask l e r (n ∷ ns) failure h =
    go (ask n l e) refl h (first_answer-AnsweredBy ask l e r ns)
  where
    go :
        (answer : Result ReadResult)
        → ask n l e ≡ answer
        → or_next answer (λ failed. first_answer ask ns l e failed) ≡ ok r
        → ((f : FolioError) → first_answer ask ns l e (err f) ≡ ok r → AnsweredBy ask l e r ns)
        → AnsweredBy ask l e r (n ∷ ns)
    go (ok q) a h rest = inl (a ∙ h)
    go (err f) a h rest = inr ((f, a), rest f h)
    go panicked a h rest = absurd cc

answered-first_answer :
    (ask : String → ℕ → ℕ → Result ReadResult) (l e : ℕ) (r : ReadResult) (ns : List String)
    (failure : FolioError)
    → AnsweredBy ask l e r ns
    → first_answer ask ns l e (err failure) ≡ ok r
unfolding first_answer
answered-first_answer ask l e r [] failure h = absurd h
answered-first_answer ask l e r (n ∷ ns) failure (inl a) = rw (or_next, a) refl
answered-first_answer ask l e r (n ∷ ns) failure (inr ((f, a), rest)) =
    rw (or_next, a) (answered-first_answer ask l e r ns f rest)

-- A read over the nodes in turn returns a result exactly when a node answers with it and every node
-- before that one failed.
pub speculative_read-AnsweredBy :
    (ask : String → ℕ → ℕ → Result ReadResult) (l e : ℕ) (r : ReadResult) (ns : List String)
    → ((speculative_read ask ns l e ≡ ok r → AnsweredBy ask l e r ns)
        × (AnsweredBy ask l e r ns → speculative_read ask ns l e ≡ ok r))
unfolding speculative_read
speculative_read-AnsweredBy ask l e r ns = (
  first_answer-AnsweredBy ask l e r ns (entry_not_found l e),
  answered-first_answer ask l e r ns (entry_not_found l e),
)
