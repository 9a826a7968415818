-- ===== src/Examples.antt =====
-- The theorems at concrete inputs.
mod Runs
use folio.Base.{none, ℕ, ◌≡◌, refl, List, [], ◌∷◌, ◌++◌, true, ◌<◌, arith, some, u32_mod}
use folio.Error.{ok}
use folio.Segment.{encode_record, decode_record}
use folio.Segment.Codec.{decode_record-encode_record}
use folio.Index.{encode_key, decode_key}
use folio.Index.Key.{lex_leb-encode_key, decode_key-encode_key}
use folio.Bytes.{lex_leb}
use folio.Protocol.{LedgerOptions}
use folio.Protocol.Options.{validate, IsQuorum, validate-IsQuorum}
use folio.EntryMap.{lookup}
use folio.EntryCache.{contains, EntrySegmentCache, insert, get, drain_hot_to_warm}
use folio.EntryCache.Reads.{IsTiered, get-insert, get-drain_hot_to_warm, insert-IsTiered}

abbrev zero_crc : List ℕ → ℕ
zero_crc bs = 0

zero_crc-lt : (bs : List ℕ) → zero_crc bs < u32_mod
zero_crc-lt bs = omega arith

abbrev before : List ℕ
before = 1 ∷ []

abbrev behind : List ℕ
behind = 0 ∷ 0 ∷ []

abbrev body : List ℕ
body = 7 ∷ 8 ∷ []

decode_record-encode_record_example :
    decode_record zero_crc (before ++ (encode_record zero_crc 3 4 body ++ behind)) 1
    ≡ ok (3, 4, body, 26)
unfolding encode_record folio.Bytes.to_le_bytes folio.Bytes.to_be_bytes
decode_record-encode_record_example =
    decode_record-encode_record zero_crc zero_crc-lt before 3 4 body behind (omega arith)
      (omega arith) (omega arith) (omega arith)

lex_leb-encode_key_example : lex_leb (encode_key 1 9) (encode_key 2 0) ≡ true
lex_leb-encode_key_example =
    lex_leb-encode_key 1 9 2 0 (omega arith) (omega arith) (omega arith) (omega arith)

decode_key-encode_key_example : decode_key (encode_key 5 6) ≡ ok (5, 6)
decode_key-encode_key_example = decode_key-encode_key 5 6 (omega arith) (omega arith)

abbrev three_nodes : LedgerOptions
three_nodes = record { ensemble_size = 3; write_quorum = 3; ack_quorum = 2 }

validate-IsQuorum_example : IsQuorum three_nodes
unfolding validate
validate-IsQuorum_example = validate-IsQuorum three_nodes refl

-- Entry (1, 0) is flushed and warm, entry (1, 1) is hot.
abbrev two_tiers : EntrySegmentCache
two_tiers = record {
  hot = (1, 1, body) ∷ [];
  warm = (1, 0, before) ∷ [];
  hot_bytes = 2;
  flush_threshold = 10;
}

two_tiers-IsTiered : IsTiered two_tiers
unfolding lookup folio.EntryMap.contains_key
two_tiers-IsTiered = record { separate = λ l e h. ground arith; distinct = (refl, tt) }

get-insert_example :
    (get (insert two_tiers 2 0 behind) 2 0 ≡ some behind)
    × ((insert two_tiers 2 0 behind).warm ≡ two_tiers.warm)
    × ((insert two_tiers 2 0 behind).flush_threshold ≡ 10)
    × ((insert two_tiers 2 0 behind).hot_bytes ≡ 4)
unfolding lookup folio.EntryMap.contains_key contains
get-insert_example = get-insert two_tiers 2 0 behind 2 0

get-drain_hot_to_warm_example :
    (get (drain_hot_to_warm two_tiers).0 1 1 ≡ get two_tiers 1 1)
    × (lookup 1 1 (drain_hot_to_warm two_tiers).1 ≡ some body)
    × (lookup 1 1 (drain_hot_to_warm two_tiers).0.hot ≡ none)
    × (lookup 1 1 (drain_hot_to_warm two_tiers).0.warm ≡ some body)
    × ((drain_hot_to_warm two_tiers).0.hot_bytes ≡ 0)
    × ((drain_hot_to_warm two_tiers).0.flush_threshold ≡ 10)
    × ((drain_hot_to_warm (drain_hot_to_warm two_tiers).0).1 ≡ [])
unfolding lookup drain_hot_to_warm
get-drain_hot_to_warm_example = get-drain_hot_to_warm two_tiers 1 1 two_tiers-IsTiered

insert-IsTiered_example : IsTiered (insert two_tiers 1 0 body)
insert-IsTiered_example = insert-IsTiered two_tiers 1 0 body two_tiers-IsTiered
