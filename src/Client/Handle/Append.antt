-- ===== src/Client/Handle/Append.antt =====
-- What an append does to the handle, whatever the nodes and the metadata store answer.
use folio.Base.{
  ℕ, ◌≤◌, ◌≡◌, refl, ap, ◌∙◌, Bool-cases, inl, inr, Option, none, some, List, [], ◌∷◌, arith,
  length, last?, add64, leb, String,
}
use folio.Error.{Result, ok, err, panicked, is_ok}
use folio.Protocol.{Crypto, Entry, AppendAck, Fragment, opened, state_eq, new_entry}
use folio.Metadata.{MetadataStore}
use folio.Client.{advance}
use folio.Client.Fragments.{change_fragment}
use folio.Client.Handle.{
  LedgerHandle, Answers, Gathered, fenced, gathered, confirm, repair, replace_and_retry, conclude,
  attempt_on, attempt, do_append,
}

-- The position after a call: one entry further, at or above the entry, if the call succeeded, and
-- where it was otherwise.
abbrev pub Moved : LedgerHandle → LedgerHandle → Result ℕ → Type 0
Moved h k (ok id) =
    (id ≡ h.next_entry_id)
    × (k.next_entry_id ≡ add64 h.next_entry_id 1)
    × (id ≤ k.lac.lac)
    × (h.lac.lac ≤ k.lac.lac)
Moved h k _ = (k.next_entry_id ≡ h.next_entry_id) × (k.lac ≡ h.lac)

along :
    (h k j : LedgerHandle) (r : Result ℕ)
    → k.next_entry_id ≡ h.next_entry_id
    → k.lac ≡ h.lac
    → Moved k j r
    → Moved h j r
along h k j (ok id) place lac (a, b, d, e) =
    (a ∙ place, b ∙ ap (λ n. add64 n 1) place, d, rw (← lac) e)
along h k j (err failure) place lac (a, b) = (a ∙ place, b ∙ lac)
along h k j panicked place lac (a, b) = (a ∙ place, b ∙ lac)

module _ (c : Crypto) (M : MetadataStore) where
  repair-Moved :
      (now : ℕ) (s : M.Store) (h k : LedgerHandle) (failed : List String) (r : Result ℕ)
      → Moved h k r
      → Moved h (repair c M now s k failed).1 r
  unfolding repair
  repair-Moved now s h k [] r m = m
  repair-Moved now s h k (f ∷ fs) (ok id) m = m
  repair-Moved now s h k (f ∷ fs) (err e) m = m
  repair-Moved now s h k (f ∷ fs) panicked m = m

  abbrev Next : Type 0
  Next = M.Store → LedgerHandle → M.Store × LedgerHandle × Result ℕ

  -- The next attempt starts where this one did.
  abbrev Resumes : LedgerHandle → Option Next → Type 0
  Resumes h none = Unit
  Resumes h (some next) =
      (t : M.Store) (k : LedgerHandle)
      → k.next_entry_id ≡ h.next_entry_id
      → k.lac ≡ h.lac
      → Moved h (next t k).1 (next t k).2

  replace_and_retry-Moved :
      (now : ℕ) (s : M.Store) (h : LedgerHandle) (fragment : Fragment) (acks : List AppendAck)
      (failed : List String) (retry : Option Next)
      → Resumes h retry
      → Moved h
          (replace_and_retry c M now s h fragment acks failed retry).1
          (replace_and_retry c M now s h fragment acks failed retry).2
  unfolding replace_and_retry
  replace_and_retry-Moved now s h fragment acks [] retry next = (refl, refl)
  replace_and_retry-Moved now s h fragment acks (f ∷ fs) none next = (refl, refl)
  replace_and_retry-Moved now s h fragment acks (f ∷ fs) (some go) next =
      elim (Bool-cases (is_ok (change_fragment M now s h.metadata (f ∷ fs) h.next_entry_id).2)) [
        | inl changed ↦ rw changed (next _ _ refl refl)
        | inr kept ↦ rw kept (refl, refl)
      ]

  conclude-Moved :
      (now : ℕ) (s : M.Store) (h : LedgerHandle) (fragment : Fragment) (entry : Entry)
      (g : Gathered) (retry : Option Next)
      → entry.entry_id ≡ h.next_entry_id
      → Resumes h retry
      → Moved h
          (conclude c M now s h fragment entry g retry).1
          (conclude c M now s h fragment entry g retry).2
  unfolding conclude confirm advance
  conclude-Moved now s h fragment entry fenced retry id next = (refl, refl)
  conclude-Moved now s h fragment entry (gathered acks failed) retry id next =
      elim (Bool-cases (leb fragment.ack_quorum (length acks))) [
        | inl enough ↦ rw enough (
            repair-Moved now s h (confirm h acks entry.entry_id) failed (ok entry.entry_id)
              (id, refl, omega arith, omega arith))
        | inr few ↦ rw few (replace_and_retry-Moved now s h fragment acks failed retry next)
      ]

  attempt_on-Moved :
      (now : ℕ) (answer : Answers) (payload : List ℕ) (retry : Option Next) (last : Option Fragment)
      (s : M.Store) (h : LedgerHandle)
      → Resumes h retry
      → Moved h
          (attempt_on c M now answer payload retry last s h).1
          (attempt_on c M now answer payload retry last s h).2
  unfolding attempt_on new_entry
  attempt_on-Moved now answer payload retry none s h next = (refl, refl)
  attempt_on-Moved now answer payload retry (some fragment) s h next =
      conclude-Moved now s h fragment (new_entry c h.metadata.id h.next_entry_id h.lac.lac payload)
        _ retry refl next

  attempt-Moved :
      (now : ℕ) (answer : Answers) (payload : List ℕ) (retry : Option Next) (s : M.Store)
      (h : LedgerHandle)
      → Resumes h retry
      → Moved h
          (attempt c M now answer payload retry s h).1
          (attempt c M now answer payload retry s h).2
  unfolding attempt
  attempt-Moved now answer payload retry s h next =
      attempt_on-Moved now answer payload retry (last? h.metadata.fragments) s h next

  -- An append that succeeds takes the handle's next entry id, moves the handle one entry on and
  -- raises its confirmed entry to the new one at least, never down; one that fails leaves the
  -- position and the confirmed entry. This holds over both attempts, whatever the nodes answer and
  -- the metadata store does.
  pub do_append-Moved :
      (now : ℕ) (first second : Answers) (s : M.Store) (h : LedgerHandle) (payload : List ℕ)
      → Moved h
          (do_append c M now first second s h payload).1
          (do_append c M now first second s h payload).2
  unfolding do_append
  do_append-Moved now first second s h payload =
      elim (Bool-cases (state_eq h.metadata.state opened)) [
        | inl writable ↦ rw writable (
            attempt-Moved now first payload (some (attempt c M now second payload none)) s h
              (λ t k place lac. resumed t k place lac))
        | inr other ↦ rw other (refl, refl)
      ]
    where
      resumed :
          (t : M.Store) (k : LedgerHandle)
          → k.next_entry_id ≡ h.next_entry_id
          → k.lac ≡ h.lac
          → Moved h
              (attempt c M now second payload none t k).1
              (attempt c M now second payload none t k).2
      resumed t k place lac =
          along h k (attempt c M now second payload none t k).1
            (attempt c M now second payload none t k).2 place lac
            (attempt-Moved now second payload none t k tt)
