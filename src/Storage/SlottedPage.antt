-- ===== src/Storage/SlottedPage.antt =====
-- The slotted page of crates/storage/src/heap.rs: slots grow from the header up, tuples from the end
-- of the page down. Casts to `u16` wrap around.
pub mod Insert
pub mod Reads
pub mod Inserted
use simple_rdbms.Common.{
  ℕ, suc, ◌+◌, ◌-◌, ◌*◌, ◌/◌, ◌%◌, ◌^◌, Bool, true, false, Option, none, some,
}
use simple_rdbms.Common.{
  List, [], ◌∷◌, ◌++◌, length, take, drop, slice, get_or, replicate, ltb, leb, ◌==◌,
}
use simple_rdbms.Common.{Result, ok, err, if◌then◌else◌}
use simple_rdbms.Common.Bytes.{to_le_bytes, from_le_bytes}
use simple_rdbms.Ids.{PageId, TxnId, Lsn}
use simple_rdbms.Storage.Wal.Record.{LogRecordKind}
use simple_rdbms.Storage.PageWrite.{page_size, Guarded, write}

abbrev pub header_size : ℕ
header_size = 20

abbrev pub slot_size : ℕ
slot_size = 4

abbrev pub max_slots : ℕ
max_slots = (page_size - header_size) / slot_size

abbrev pub slot_offset : ℕ → ℕ
slot_offset slot = header_size + slot * slot_size

abbrev pub read_u16 : List ℕ → ℕ → ℕ
read_u16 bytes at = get_or bytes at 0 + 256 * get_or bytes (at + 1) 0

abbrev pub slotted_slot_count : List ℕ → ℕ
slotted_slot_count bytes = read_u16 bytes 12

abbrev pub slotted_data_used : List ℕ → ℕ
slotted_data_used bytes = read_u16 bytes 14

-- `saturating_sub`
abbrev pub slotted_data_start : List ℕ → ℕ
slotted_data_start bytes = page_size - slotted_data_used bytes

abbrev pub slotted_next_page_id : List ℕ → PageId
slotted_next_page_id bytes = from_le_bytes (take 4 (drop 16 bytes))

-- `next_page_id`; page 0 stands for none.
abbrev pub next_page_id : List ℕ → Option PageId
next_page_id bytes =
    if slotted_next_page_id bytes == 0 then none else some (slotted_next_page_id bytes)

-- The errors of the page, and those of the log behind its writes.
pub data PageError (StorageError : Type 0) : Type 0 where
  too_many_slots overlaps_slots past_the_page : PageError StorageError
  no_such_slot slot_deleted : PageError StorageError
  update_out_of_bounds : (tuple_len offset patch_len : ℕ) → PageError StorageError
  log_failed : StorageError → PageError StorageError

module _ {StorageError : Type 0} where
  unfoldable pub checked_slot_count : List ℕ → Result (PageError StorageError) ℕ
  checked_slot_count bytes =
      let count = slotted_slot_count bytes in
      if ltb max_slots count then err too_many_slots else ok count

  -- Offset and length of the tuple of a slot.
  unfoldable pub slotted_slot_entry : List ℕ → ℕ → Result (PageError StorageError) (Option (ℕ × ℕ))
  unfolding checked_slot_count
  slotted_slot_entry bytes slot = elim (checked_slot_count bytes) [
    | err e ↦ err e
    | ok count ↦
        if leb count slot
        then ok none
        else ok (some (read_u16 bytes (slot_offset slot), read_u16 bytes (slot_offset slot + 2)))
  ]

  -- `slotted_read` behind the tests of the entry and the length.
  unfoldable pub tuple_at : List ℕ → ℕ → ℕ → Result (PageError StorageError) (Option (List ℕ))
  tuple_at bytes start len =
      if ltb start (slot_offset (slotted_slot_count bytes))
      then err overlaps_slots
      else elim (slice bytes start len) [ some tuple ↦ ok (some tuple) | none ↦ err past_the_page ]

  unfoldable pub slotted_read : List ℕ → ℕ → Result (PageError StorageError) (Option (List ℕ))
  unfolding slotted_slot_entry tuple_at
  slotted_read bytes slot = elim (slotted_slot_entry bytes slot) [
    | err e ↦ err e
    | ok none ↦ ok none
    | ok (some (offset, len)) ↦ if len == 0 then ok none else tuple_at bytes offset len
  ]

abbrev pub slotted_free_space : List ℕ → ℕ
slotted_free_space bytes =
    slotted_data_start bytes - (header_size + slotted_slot_count bytes * slot_size)

-- The three writes of `insert`: the tuple, its slot, and the header.
abbrev pub insert_patches : List ℕ → List ℕ → List (ℕ × List ℕ)
unfolding to_le_bytes
insert_patches bytes tuple =
    let slot_count = slotted_slot_count bytes in
    let data_start = slotted_data_start bytes - length tuple in
    (data_start, tuple)
    ∷ (
      slot_offset slot_count,
      to_le_bytes 2 (data_start % 2 ^ 16) ++ to_le_bytes 2 (length tuple % 2 ^ 16),
    )
    ∷ (12, to_le_bytes 2 (slot_count + 1) ++ to_le_bytes 2 ((page_size - data_start) % 2 ^ 16))
    ∷ []

module _ {Log : Type 0} {StorageError : Type 0}
    (append_log : Log → TxnId → LogRecordKind → Result StorageError Lsn × Log) where
  -- The writes one after the other; the first that fails ends them.
  unfoldable pub write_all :
      Guarded Log → TxnId → List (ℕ × List ℕ) → Result StorageError (Unit {0}) × Guarded Log
  unfolding write
  write_all guard txn_id [] = (ok tt, guard)
  write_all guard txn_id ((offset, patch) ∷ patches) =
      let (written, guard') = write append_log guard txn_id offset patch in
      let rest = write_all guard' txn_id patches in
      elim written [ err e ↦ (err e, guard') | ok _ ↦ rest ]

  unfoldable pub init : Guarded Log → TxnId → Result StorageError (Unit {0}) × Guarded Log
  unfolding write
  init guard txn_id = write append_log guard txn_id 12 (replicate 8 0)

  unfoldable pub set_next_page_id :
      Guarded Log → TxnId → PageId → Result StorageError (Unit {0}) × Guarded Log
  unfolding write to_le_bytes
  set_next_page_id guard txn_id next = write append_log guard txn_id 16 (to_le_bytes 4 next)

  unfoldable pub insert :
      Guarded Log → TxnId → List ℕ → Result StorageError (Option ℕ) × Guarded Log
  unfolding write_all insert_patches
  insert guard txn_id tuple =
      let slot_count = slotted_slot_count guard.bytes in
      let new_slots_end = header_size + (slot_count + 1) * slot_size in
      let (written, guard') = write_all guard txn_id (insert_patches guard.bytes tuple) in
      if ltb (slotted_data_start guard.bytes) (new_slots_end + length tuple)
      then (ok none, guard)
      else elim written [ err e ↦ (err e, guard') | ok _ ↦ (ok (some slot_count), guard') ]

  -- The slot keeps its offset and gets the length 0.
  unfoldable pub delete :
      Guarded Log → TxnId → ℕ → Result (PageError StorageError) (Unit {0}) × Guarded Log
  unfolding write slotted_slot_entry
  delete guard txn_id slot = elim (slotted_slot_entry guard.bytes slot) [
    | err e ↦ (err e, guard)
    | ok none ↦ (ok tt, guard)
    | ok (some entry) ↦
        let (written, guard') =
          write append_log guard txn_id (slot_offset slot + 2) (replicate 2 0) in
        elim written [ err e ↦ (err (log_failed e), guard') | ok _ ↦ (ok tt, guard') ]
  ]

  unfoldable pub update_in_place :
      Guarded Log
      → TxnId
      → ℕ
      → ℕ
      → List ℕ
      → Result (PageError StorageError) (Unit {0}) × Guarded Log
  unfolding write slotted_slot_entry
  update_in_place guard txn_id slot offset patch = elim (slotted_slot_entry guard.bytes slot) [
    | err e ↦ (err e, guard)
    | ok none ↦ (err no_such_slot, guard)
    | ok (some (tuple_start, tuple_len)) ↦
        if tuple_len == 0
        then (err slot_deleted, guard)
        else if ltb tuple_len (offset + length patch)
        then (err (update_out_of_bounds tuple_len offset (length patch)), guard)
        else (let (written, guard') = write append_log guard txn_id (tuple_start + offset) patch in
            elim written [ err e ↦ (err (log_failed e), guard') | ok _ ↦ (ok tt, guard') ])
  ]
