-- ===== src/Protocol/Options.antt =====
-- `LedgerOptions::validate`.
use folio.Base.{◌≤◌, ◌<◌, ◌≡◌, ◌||◌, arith, ltb, ◌==◌, if◌then◌else◌}
use folio.Error.{Result, ok, err, metadata}
use folio.Protocol.{LedgerOptions}

unfoldable pub validate : LedgerOptions → Result (Unit {0})
validate o =
    if o.ensemble_size == 0
    then err metadata
    else if o.write_quorum == 0 || o.ack_quorum == 0
    then err metadata
    else if ltb o.write_quorum o.ack_quorum || ltb o.ensemble_size o.write_quorum
    then err metadata
    else ok tt

pub record IsQuorum (o : LedgerOptions) : Type 0 where
  pub ack_pos : 0 < o.ack_quorum
  pub ack_le_write : o.ack_quorum ≤ o.write_quorum
  pub write_le_ensemble : o.write_quorum ≤ o.ensemble_size

-- Options that pass satisfy 0 < ack <= write <= ensemble.
pub validate-IsQuorum : (o : LedgerOptions) → validate o ≡ ok tt → IsQuorum o
unfolding validate
validate-IsQuorum o h = ground arith

pub IsQuorum-validate : (o : LedgerOptions) → IsQuorum o → validate o ≡ ok tt
unfolding validate
IsQuorum-validate o q = ground arith
