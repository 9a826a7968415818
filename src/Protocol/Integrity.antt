-- ===== src/Protocol/Integrity.antt =====
-- What the digest and the MAC of an entry protect.
use folio.Base.{ℕ, ◌≡◌, refl, true, false, none, List, arith, ==_refl}
use folio.Bytes.{bytes_eq_iff}
use folio.Protocol.{
  Entry, Crypto, new_entry, with_hmac, compute_hmac, validate_hmac, validate_digest,
}

module _ (c : Crypto) where
  -- A signed fresh entry passes both checks of its reader, and only under a key with the same MAC.
  pub new_entry-validate :
      (ledger_id entry_id lac : ℕ) (payload key : List ℕ)
      → let e = with_hmac c (new_entry c ledger_id entry_id lac payload) key in
        (validate_digest c e ≡ true) × (validate_hmac c e key ≡ true)
  unfolding with_hmac new_entry compute_hmac validate_hmac validate_digest
  new_entry-validate l e a p k = (==_refl (c.crc32 p), (bytes_eq_iff _ _).1 refl)

  -- An entry that carries no MAC never validates.
  pub validate_hmac-none :
      (e : Entry) (key : List ℕ) → e.hmac ≡ none → validate_hmac c e key ≡ false
  unfolding validate_hmac
  validate_hmac-none e key h = ground arith
