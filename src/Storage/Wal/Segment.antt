-- ===== src/Storage/Wal/Segment.antt =====
-- crates/storage/src/wal.rs: the scan of a segment when the log is opened. A device is its bytes;
-- the loop runs on fuel, for which the number of bytes is enough.
pub mod Scan
pub mod Recovery
use simple_rdbms.Common.{
  ℕ, zero, suc, ◌+◌, ◌-◌, Bool, true, false, Option, none, some, List, [], ◌∷◌,
}
use simple_rdbms.Common.{length, take, ◌==◌, not, if◌then◌else◌, Result, ok, err}
use simple_rdbms.Common.Map.{Map, nat_eq, insert}
use simple_rdbms.Common.Options.{◌>>=◌}
use simple_rdbms.Ids.{TxnId, Lsn}
use simple_rdbms.Storage.Wal.Record.{LoggedRecord, decode_record}

abbrev pub segment_header_len : ℕ
segment_header_len = 16

pub data WalError : Type 0 where
  corrupt_log_header : WalError

-- The loop of `scan_decoded_records`: the place behind the last record that decodes, and the last
-- lsn of each transaction.
unfoldable pub scan_loop : ℕ → List ℕ → ℕ → Map TxnId Lsn → Option (ℕ × Map TxnId Lsn)
unfolding decode_record insert
scan_loop zero bytes pos last_lsn_by_txn = none
scan_loop (suc fuel) bytes pos last_lsn_by_txn = elim (decode_record bytes pos) [
  | none ↦ some (pos, last_lsn_by_txn)
  | some (r, len) ↦ scan_loop fuel bytes (pos + len) (insert r.txn_id r.lsn last_lsn_by_txn)
]

-- The next lsn, the place behind the last record, and the last lsn of each transaction.
unfoldable pub scan_decoded_records : List ℕ → ℕ → Option (ℕ × ℕ × Map TxnId Lsn)
unfolding scan_loop
scan_decoded_records bytes start_lsn = do
  (pos, last_lsn_by_txn) ← scan_loop (suc (length bytes)) bytes segment_header_len []
  some (start_lsn + (pos - segment_header_len), pos, last_lsn_by_txn)

-- `scan_active_segment`: the device is cut off behind the last record.
unfoldable pub scan_active_segment : List ℕ → ℕ → Option (List ℕ × ℕ × Map TxnId Lsn)
unfolding scan_decoded_records
scan_active_segment bytes start_lsn = do
  (next_lsn, pos, last_lsn_by_txn) ← scan_decoded_records bytes start_lsn
  some (take pos bytes, next_lsn, last_lsn_by_txn)

-- `scan_sealed_segment`: it is an error if the records end before the device does.
unfoldable pub scan_sealed_segment : List ℕ → ℕ → Option (Result WalError (ℕ × Map TxnId Lsn))
unfolding scan_decoded_records
scan_sealed_segment bytes start_lsn = do
  (next_lsn, pos, last_lsn_by_txn) ← scan_decoded_records bytes start_lsn
  some
      (if not (pos == length bytes) then err corrupt_log_header else ok (next_lsn, last_lsn_by_txn))
