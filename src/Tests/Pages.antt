-- ===== src/Tests/Pages.antt =====
-- A page with one row, and an empty one.
use simple_rdbms.Common.{ℕ, ◌+◌, ◌≡◌, refl, arith, inr, [], ◌∷◌, ◌++◌, length, replicate}
use simple_rdbms.Common.{some, Result, ok}
use simple_rdbms.Ids.{TxnId, Lsn}
use simple_rdbms.Storage.Wal.Record.{LogRecordKind}
use simple_rdbms.Storage.PageWrite.{Guarded, write}
use simple_rdbms.Storage.Page.{page_lsn, stamp_checksum, checksum_ok, checksum_ok-stamp_checksum}
use simple_rdbms.Common.{drop, true}
use simple_rdbms.Storage.SlottedPage.{slotted_slot_count, slotted_read, insert, write_all}
use simple_rdbms.Storage.SlottedPage.Inserted.{slotted_read-insert, slotted_read-insert_other}

-- A log that counts its records.
abbrev counting : ℕ → TxnId → LogRecordKind → Result (Unit {0}) Lsn × ℕ
counting log txn_id kind = (ok log, log + 1)

abbrev page : Guarded ℕ
page = record {
  page_id = 3;
  bytes =
      replicate 12 0
      ++ ((1 ∷ 0 ∷ 3 ∷ 0 ∷ 0 ∷ 0 ∷ 0 ∷ 0 ∷ 253 ∷ 15 ∷ 3 ∷ 0 ∷ [])
          ++ (replicate 4069 0 ++ (7 ∷ 8 ∷ 9 ∷ [])));
  log = 5;
}

page_sized : length page.bytes ≡ 4096
page_sized = refl

taken : (insert counting page 1 (1 ∷ 2 ∷ [])).0 ≡ ok (some 1)
unfolding insert write_all write
taken = refl

slotted_read-insert_example :
    (1 ≡ slotted_slot_count page.bytes)
    × (slotted_read {StorageError = Unit} (insert counting page 1 (1 ∷ 2 ∷ [])).1.bytes 1
        ≡ ok (some (1 ∷ 2 ∷ [])))
slotted_read-insert_example =
    slotted_read-insert counting page 1 (1 ∷ 2 ∷ []) 1 page_sized (omega arith) taken

slotted_read-insert_other_example :
    slotted_read {StorageError = Unit} (insert counting page 1 (1 ∷ 2 ∷ [])).1.bytes 0
    ≡ slotted_read page.bytes 0
slotted_read-insert_other_example =
    slotted_read-insert_other counting page 1 (1 ∷ 2 ∷ []) 1 0 page_sized taken (omega arith)
      (inr (omega arith))

checksum_ok-stamp_checksum_example :
    (checksum_ok (stamp_checksum page.bytes) ≡ true)
    × (drop 4 (stamp_checksum page.bytes) ≡ drop 4 page.bytes)
    × (page_lsn (stamp_checksum page.bytes) ≡ page_lsn page.bytes)
checksum_ok-stamp_checksum_example = checksum_ok-stamp_checksum page.bytes
