-- ===== src/Examples/Runs.antt =====
-- The theorems on nodes, clients, metadata and recovery at concrete inputs.
use folio.Base.{
  ℕ, ◌≢◌, ◌≡◌, ◌<◌, refl, inl, inr, true, false, Bool, String, Option, none, some, List, [], ◌∷◌,
  arith, All, length, u32_mod,
}
use folio.Error.{Result, ok, err, ledger_fenced, storage, cas_conflict}
use folio.Protocol.{
  Crypto, Entry, AppendAck, ReadResult, NodeInfo, Fragment, LedgerMetadata, LedgerOptions, opened,
  read_write, read_only,
}
use folio.Metadata.{
  InMemoryState, in_memory, new, create_ledger, put_ledger, first_metadata, ledger_of,
}
use folio.Metadata.Versions.{IsFresh, put_ledger-put_ledger, create_ledger-IsFresh}
use folio.Client.{LacTracker}
use folio.Client.Handle.{LedgerHandle, do_append}
use folio.Client.Handle
use folio.Client.Handle.Append.{Moved, do_append-Moved}
use folio.Client.Service.{speculative_read}
use folio.Client.Service.Reading.{AnsweredBy, speculative_read-AnsweredBy}
use folio.Node.{Shared}
use folio.Node.InProcess.{Node, add_entry, fence_ledger, index_get}
use folio.Node.Fencing.{add_entry-fence_ledger, index_get-add_entry}
use folio.Reader.{BlockCache, read_located}
use folio.Reader.Blocks.{blocks_of, file_with, read_located-encode_record}
use folio.Recovery.{fence_all}
use folio.Recovery.Replication.{Answered, fence_all-Answered}

abbrev no_digest : Crypto
no_digest = record { crc32 = λ bs. 0; crc32-lt = λ bs. omega arith; mac = λ k bs. [] }

abbrev written : Entry
written = record {
  ledger_id = 1;
  entry_id = 4;
  lac = 3;
  digest = 0;
  payload = 9 ∷ [];
  master_key = none;
  hmac = none;
}

abbrev idle : Node
idle = record {
  shared = record { node_id = "a"; lac = []; hi_entry = []; fences = []; known_ledgers = [] };
  index = [];
}

add_entry-fence_ledger_example :
    add_entry no_digest 5 written (ok tt) (fence_ledger 1 idle).0
    ≡ ((fence_ledger 1 idle).0, err (ledger_fenced 1))
unfolding fence_ledger add_entry folio.Protocol.validate_digest folio.Node.has
add_entry-fence_ledger_example = add_entry-fence_ledger no_digest 5 written (ok tt) idle

abbrev holding : Node
holding = (add_entry no_digest 5 written (ok tt) idle).0

abbrev confirmed : AppendAck
confirmed = record { ledger_id = 1; entry_id = 4; local_lac = 3; node_id = "a" }

index_get-add_entry_example :
    (index_get 1 4 holding.index ≡ some (record { entry = written; appended_at_ms = 5 }))
    × (holding.shared.fences ≡ [])
    × (confirmed.entry_id ≡ written.entry_id)
unfolding add_entry folio.Protocol.validate_digest folio.Node.has index_get
    folio.Node.InProcess.write folio.Node.ack folio.Node.value folio.Node.note_lac folio.Node.raise
index_get-add_entry_example =
    index_get-add_entry no_digest 5 written (ok tt) idle holding confirmed refl 1 4

abbrev triple : LedgerOptions
triple = record { ensemble_size = 3; write_quorum = 2; ack_quorum = 1 }

abbrev created : LedgerMetadata
created = first_metadata 7 1 triple ("a" ∷ "b" ∷ [])

abbrev one_ledger : InMemoryState
one_ledger = (create_ledger 7 new triple ("a" ∷ "b" ∷ [])).0

new-IsFresh : IsFresh new
new-IsFresh = record { below = λ id m held. absurd cc }

create_ledger-IsFresh_example :
    IsFresh one_ledger
    × (ledger_of new 1 ≡ none)
    × (ledger_of one_ledger 1 ≡ some created)
    × ((id : ℕ) → id ≢ 1 → ledger_of one_ledger id ≡ ledger_of new id)
unfolding create_ledger folio.Protocol.Options.validate folio.Metadata.next_ledger_id first_metadata
create_ledger-IsFresh_example =
    create_ledger-IsFresh 7 new one_ledger triple ("a" ∷ "b" ∷ []) created new-IsFresh (omega arith)
      refl

abbrev rewritten : InMemoryState
rewritten = (put_ledger 8 one_ledger created).0

put_ledger-put_ledger_example : put_ledger 9 rewritten created ≡ (rewritten, err cas_conflict)
unfolding first_metadata put_ledger create_ledger folio.Protocol.Options.validate
    folio.Metadata.next_ledger_id
put_ledger-put_ledger_example =
    put_ledger-put_ledger 8 9 one_ledger rewritten created created
      (record created { updated_at_ms = 8; version = 2 }) (omega arith) refl refl refl

-- Node "b" is down.
abbrev half_up : Handle.Answers
half_up n e = if_a (folio.Base.str_eq n "a")
  where
    if_a : Bool → Result AppendAck
    if_a true =
        ok (record {
          ledger_id = e.ledger_id;
          entry_id = e.entry_id;
          local_lac = e.lac;
          node_id = n;
        })
    if_a false = err storage

abbrev fresh_handle : LedgerHandle
fresh_handle = Handle.new created

do_append-Moved_example :
    Moved fresh_handle
      (do_append no_digest in_memory 8 half_up half_up one_ledger fresh_handle (9 ∷ [])).1
      (ok 0)
unfolding do_append folio.Protocol.state_eq Handle.new first_metadata Handle.attempt
    Handle.attempt_on Handle.conclude Handle.gather Handle.targets folio.Protocol.new_entry
do_append-Moved_example =
    do_append-Moved no_digest in_memory 8 half_up half_up one_ledger fresh_handle (9 ∷ [])

abbrev pair : Fragment
pair = record { first_entry_id = 0; ensemble = "a" ∷ "b" ∷ []; write_quorum = 2; ack_quorum = 1 }

abbrev spare : NodeInfo
spare = record { node_id = "c"; address = "c"; status = read_write; last_heartbeat_ms = 0 }

abbrev stored_at : ℕ → Result ReadResult
stored_at id = ok (record { entry = written; node_id = "a"; appended_at_ms = id })

abbrev takes : Entry → Result AppendAck
takes e = ok confirmed

abbrev highest : String → ℕ → Result ℕ
highest n l = ok (length_of n)
  where
    length_of : String → ℕ
    length_of m = 4

fence_all-Answered_example : All (Answered highest 1 4) ("a" ∷ "b" ∷ [])
unfolding fence_all
fence_all-Answered_example = fence_all-Answered highest 1 4 ("a" ∷ "b" ∷ []) refl

abbrev second_only : String → ℕ → ℕ → Result ReadResult
second_only n l e = if_b (folio.Base.str_eq n "b")
  where
    if_b : Bool → Result ReadResult
    if_b true = stored_at 0
    if_b false = err storage

abbrev read_back : ReadResult
read_back = record { entry = written; node_id = "a"; appended_at_ms = 0 }

speculative_read-AnsweredBy_example :
    (speculative_read second_only ("a" ∷ "b" ∷ []) 1 4 ≡ ok read_back
      → AnsweredBy second_only 1 4 read_back ("a" ∷ "b" ∷ []))
    × (AnsweredBy second_only 1 4 read_back ("a" ∷ "b" ∷ [])
        → speculative_read second_only ("a" ∷ "b" ∷ []) 1 4 ≡ ok read_back)
speculative_read-AnsweredBy_example =
    speculative_read-AnsweredBy second_only 1 4 read_back ("a" ∷ "b" ∷ [])

abbrev no_crc : List ℕ → ℕ
no_crc bs = 0

no_crc-lt : (bs : List ℕ) → no_crc bs < u32_mod
no_crc-lt bs = omega arith

read_located-encode_record_example :
    read_located no_crc
      (blocks_of {S = BlockCache}
        (file_with {S = BlockCache} no_crc no_crc-lt (9 ∷ []) 3 4 (7 ∷ 8 ∷ []) (0 ∷ []) 6 []))
      (record { segment_id = 6; offset = 1; length = 26 })
      []
    ≡ ([], ok (7 ∷ 8 ∷ []))
read_located-encode_record_example =
    read_located-encode_record no_crc no_crc-lt (9 ∷ []) 3 4 (7 ∷ 8 ∷ []) (0 ∷ []) 6 []
      (omega arith) (omega arith) (omega arith) (omega arith) (omega arith)
