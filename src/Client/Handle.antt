-- ===== src/Client/Handle.antt =====
-- `LedgerHandle` of crates/folio-ledger/src/ledger.rs.
pub mod Append
pub mod Quorum
use folio.Base.{
  ℕ, Bool, true, false, String, Option, none, some, List, [], ◌∷◌, ◌||◌, ltb, leb, if◌then◌else◌,
  length, take, last?, find?, add64,
}
use folio.Error.{
  Result, Done, ok, err, panicked, is_ok, ◌>>=◌, ok_or, FolioError, ledger_fenced, quorum_not_met,
  state_conflict, invalid_fragment, entry_not_found,
}
use folio.Protocol.{
  Crypto, Entry, new_entry, AppendAck, LedgerMetadata, Fragment, LedgerState, opened, state_eq,
}
use folio.Metadata.{MetadataStore}
use folio.Client.{LacTracker, advance}
use folio.Client.Fragments.{change_fragment}

-- The metadata store is shared; it is passed beside the handle.
pub record LedgerHandle : Type 0 where
  pub metadata : LedgerMetadata
  pub next_entry_id : ℕ
  pub lac : LacTracker

abbrev pub next_after : Option ℕ → ℕ
next_after none = 0
next_after (some v) = add64 v 1

unfoldable pub new : LedgerMetadata → LedgerHandle
new metadata = record {
  metadata = metadata;
  next_entry_id = next_after metadata.last_entry_id;
  lac = record { lac = metadata.last_add_confirmed };
}

-- The outcomes of the nodes, in the ensemble's order: the loop stops at a fenced answer.
pub data Gathered : Type 0 where
  fenced : Gathered
  gathered : List AppendAck → List String → Gathered

abbrev pub Answers : Type 0
Answers = String → Entry → Result AppendAck

-- One outcome before the rest. A call that ends without an answer is a failed one.
abbrev pub gather_one : String → Result AppendAck → Gathered → Gathered
gather_one n (ok ack) fenced = fenced
gather_one n (ok ack) (gathered acks failed) = gathered (ack ∷ acks) failed
gather_one n (err (ledger_fenced l)) rest = fenced
gather_one n _ fenced = fenced
gather_one n _ (gathered acks failed) = gathered acks (n ∷ failed)

unfoldable pub gather : Answers → Entry → List String → Gathered
gather answer entry [] = gathered [] []
gather answer entry (n ∷ ns) = gather_one n (answer n entry) (gather answer entry ns)

unfoldable pub targets : Fragment → List String
targets fragment = take fragment.write_quorum fragment.ensemble

-- The handle once an entry has its quorum.
unfoldable pub confirm : LedgerHandle → List AppendAck → ℕ → LedgerHandle
confirm h acks entry_id =
    let lac = advance h.lac acks entry_id in
    record h {
      lac = lac;
      metadata = record h.metadata { last_add_confirmed = lac.lac; last_entry_id = some entry_id };
      next_entry_id = add64 h.next_entry_id 1;
    }

module _ (c : Crypto) (M : MetadataStore) where
  abbrev pub Outcome : Type 0
  Outcome = M.Store × LedgerHandle × Result ℕ

  -- The fragment change after a confirmed entry, whose failure is only logged.
  unfoldable pub repair : ℕ → M.Store → LedgerHandle → List String → M.Store × LedgerHandle
  repair now s h [] = (s, h)
  repair now s h (f ∷ fs) =
      let (t, changed, _) = change_fragment M now s h.metadata (f ∷ fs) h.next_entry_id in
      (t, record h { metadata = changed })

  abbrev pub short : Fragment → List AppendAck → M.Store → LedgerHandle → Outcome
  short fragment acks t k = (t, k, err (quorum_not_met fragment.ack_quorum (length acks)))

  -- Too few nodes answered: the failed ones are replaced, and the next attempt, if there is one,
  -- follows.
  unfoldable pub replace_and_retry :
      ℕ
      → M.Store
      → LedgerHandle
      → Fragment
      → List AppendAck
      → List String
      → Option (M.Store → LedgerHandle → Outcome)
      → Outcome
  replace_and_retry now s h fragment acks (f ∷ fs) (some next) =
      let (t, changed, result) = change_fragment M now s h.metadata (f ∷ fs) h.next_entry_id in
      let k = record h { metadata = changed } in
      if is_ok result then next t k else short fragment acks t k
  replace_and_retry now s h fragment acks _ _ = short fragment acks s h

  -- The end of an attempt, given what the next attempt does: only the first has a next one.
  unfoldable pub conclude :
      ℕ
      → M.Store
      → LedgerHandle
      → Fragment
      → Entry
      → Gathered
      → Option (M.Store → LedgerHandle → Outcome)
      → Outcome
  conclude now s h fragment entry fenced retry = (s, h, err (ledger_fenced entry.ledger_id))
  conclude now s h fragment entry (gathered acks failed) retry =
      if leb fragment.ack_quorum (length acks)
      then (let (t, repaired) = repair now s (confirm h acks entry.entry_id) failed in
          (t, repaired, ok entry.entry_id))
      else replace_and_retry now s h fragment acks failed retry

  -- The attempt on the last fragment, if there is one.
  unfoldable pub attempt_on :
      ℕ
      → Answers
      → List ℕ
      → Option (M.Store → LedgerHandle → Outcome)
      → Option Fragment
      → M.Store
      → LedgerHandle
      → Outcome
  attempt_on now answer payload retry none s h = (s, h, err (invalid_fragment h.metadata.id))
  attempt_on now answer payload retry (some fragment) s h =
      let entry = new_entry c h.metadata.id h.next_entry_id h.lac.lac payload in
      conclude now s h fragment entry (gather answer entry (targets fragment)) retry

  unfoldable pub attempt :
      ℕ
      → Answers
      → List ℕ
      → Option (M.Store → LedgerHandle → Outcome)
      → M.Store
      → LedgerHandle
      → Outcome
  attempt now answer payload retry s h =
      attempt_on now answer payload retry (last? h.metadata.fragments) s h

  unfoldable pub do_append : ℕ → Answers → Answers → M.Store → LedgerHandle → List ℕ → Outcome
  do_append now first second s h payload =
      if state_eq h.metadata.state opened
      then attempt now first payload (some (attempt now second payload none)) s h
      else (s, h, err (state_conflict opened h.metadata.state))

-- The latest fragment that starts at or below the entry: `iter().rev().find(..)`.
unfoldable pub fragment_of : ℕ → List Fragment → Option Fragment
fragment_of entry_id [] = none
fragment_of entry_id (f ∷ fs) = elim (fragment_of entry_id fs) [
  | some g ↦ some g
  | none ↦ if leb f.first_entry_id entry_id then some f else none
]

-- The guard of `read`.
abbrev pub unconfirmed : LedgerHandle → ℕ → ℕ → Result Done
unconfirmed h last_entry_id entry_id =
    if ltb last_entry_id entry_id || ltb h.lac.lac entry_id
    then err (entry_not_found h.metadata.id entry_id)
    else ok tt

-- The nodes' part of a read, `resolve` and `speculative_read`, is an argument.
unfoldable pub read : (List String → ℕ → ℕ → Result Entry) → LedgerHandle → ℕ → Result (List ℕ)
read fetch h entry_id = do
  last_entry_id ← ok_or h.metadata.last_entry_id (entry_not_found h.metadata.id entry_id)
  _ ← unconfirmed h last_entry_id entry_id
  fragment ← ok_or (fragment_of entry_id h.metadata.fragments) (invalid_fragment h.metadata.id)
  entry ← fetch fragment.ensemble h.metadata.id entry_id
  ok entry.payload
