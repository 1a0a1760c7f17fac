-- ===== src/Storage/Log.antt =====
-- `LogManager` of crates/storage/src/wal.rs by the records that its segments and its buffer hold, the
-- newest first: an lsn is the place of a record's first byte, so that the lsns grow by the bytes of
-- the records.
use simple_rdbms.Common.{ℕ, ◌+◌, Option, none, some, List, [], ◌∷◌, ◌++◌, length, retain}
use simple_rdbms.Common.{Result, ok, ltb, leb, ◌==◌, if◌then◌else◌}
use simple_rdbms.Common.Map.{Map, nat_eq, get, insert}
use simple_rdbms.Ids.{TxnId, Lsn}
use simple_rdbms.Storage.Wal.Record.{LogRecordKind, LoggedRecord, encode_record}

pub record Log : Type 0 where
  pub records : List LoggedRecord
  pub next_lsn : Lsn
  pub last_lsn_by_txn : Map TxnId Lsn

-- `LogManager::append`; it never fails.
unfoldable pub append :
    {StorageError : Type 0} → Log → TxnId → LogRecordKind → Result StorageError Lsn × Log
unfolding get insert encode_record
append log txn_id kind =
    let r : LoggedRecord = record {
      lsn = log.next_lsn;
      prev_lsn = get txn_id log.last_lsn_by_txn;
      txn_id = txn_id;
      kind = kind;
    } in
    (
      ok log.next_lsn,
      record {
        records = r ∷ log.records;
        next_lsn = log.next_lsn + length (encode_record r);
        last_lsn_by_txn = insert txn_id log.next_lsn log.last_lsn_by_txn;
      },
    )

unfoldable pub find_record : Lsn → List LoggedRecord → Option LoggedRecord
find_record lsn [] = none
find_record lsn (r ∷ rs) = let rest = find_record lsn rs in if r.lsn == lsn then some r else rest

-- `LogManager::read_at`
unfoldable pub read_at : Log → Lsn → Option LoggedRecord
unfolding find_record
read_at log lsn = if lsn == 0 then none else find_record lsn log.records

-- `HEADER_LEN`
abbrev pub header_len : ℕ
header_len = 16

unfoldable pub oldest_first : List LoggedRecord → List LoggedRecord
oldest_first [] = []
oldest_first (r ∷ rs) = oldest_first rs ++ r ∷ []

-- What `LogManager::iter_from` yields, the oldest record first.
unfoldable pub iter_from : Log → Lsn → List LoggedRecord
unfolding oldest_first
iter_from log from =
    retain (λ r. leb (if ltb from header_len then header_len else from) r.lsn)
      (oldest_first log.records)

-- `u64::MAX`
abbrev pub checkpoint_txn : TxnId
checkpoint_txn = 18446744073709551615

abbrev pub larger : TxnId → Option TxnId → Option TxnId
larger txn_id none = some txn_id
larger txn_id (some other) = if ltb other txn_id then some txn_id else some other

unfoldable pub max_of_keys : Map TxnId Lsn → Option TxnId
max_of_keys [] = none
max_of_keys ((txn_id, lsn) ∷ m) =
    let rest = max_of_keys m in if txn_id == checkpoint_txn then rest else larger txn_id rest

unfoldable pub max_txn_id : Log → Option TxnId
unfolding max_of_keys
max_txn_id log = max_of_keys log.last_lsn_by_txn
