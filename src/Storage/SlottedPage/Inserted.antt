-- ===== src/Storage/SlottedPage/Inserted.antt =====
-- The page that `insert` of heap.rs leaves, with the records of the log in between.
use simple_rdbms.Common.{Result-cases}
use simple_rdbms.Common.{
  ℕ, ◌+◌, ◌-◌, ◌*◌, ◌^◌, ◌%◌, ◌≤◌, ◌<◌, ◌≡◌, refl, sym, ap, ◌∙◌, ◌⊎◌, inl, inr,
}
use simple_rdbms.Common.{some, List, [], ◌∷◌, ◌++◌, length, take, drop}
use simple_rdbms.Common.{arith, ltb, Result, ok, err, Bool-cases}
use simple_rdbms.Common.Bytes.{to_le_bytes}
use simple_rdbms.Ids.{TxnId, Lsn}
use simple_rdbms.Storage.Wal.Record.{LogRecordKind, update}
use simple_rdbms.Storage.PageWrite.{Guarded, write}
use simple_rdbms.Storage.PageWrite.Bytes.{logged_write}
use simple_rdbms.Storage.SlottedPage.{slotted_slot_count, slotted_data_start, slot_offset}
use simple_rdbms.Storage.SlottedPage.{
  slotted_read, header_size, slot_size, insert_patches, write_all,
}
use simple_rdbms.Storage.SlottedPage.{insert}
use simple_rdbms.Storage.SlottedPage.Reads.{IsSlotSound, after, new_tuple, old_tuple}

module _ {Log : Type 0} {StorageError : Type 0}
    (append_log : Log → TxnId → LogRecordKind → Result StorageError Lsn × Log) where
  write-cases :
      (guard : Guarded Log) (t : TxnId) (offset : ℕ) (patch : List ℕ)
      → ((e : StorageError) × ((write append_log guard t offset patch).0 ≡ err e))
        ⊎ ((lsn : Lsn) × ((write append_log guard t offset patch).0 ≡ ok tt)
            × ((write append_log guard t offset patch).1.bytes
                ≡ logged_write lsn offset patch guard.bytes))
  unfolding write
  write-cases guard t offset patch =
      let before = take (length patch) (drop offset guard.bytes) in
      elim (Result-cases
        (append_log guard.log t (update guard.page_id (offset % 2 ^ 16) before patch)).0) [
          | inl (e, q) ↦ inl (e, ground (arith, q))
          | inr (lsn, q) ↦ inr (lsn, ground (arith, q), ground (arith, q))
        ]

  write_all_first :
      (guard : Guarded Log) (t : TxnId) (offset : ℕ) (patch : List ℕ) (patches : List (ℕ × List ℕ))
      → (write_all append_log guard t ((offset, patch) ∷ patches)).0 ≡ ok tt
      → (lsn : Lsn) × (next : Guarded Log) × (next.bytes
          ≡ logged_write lsn offset patch guard.bytes)
        × (write_all append_log guard t ((offset, patch) ∷ patches)
            ≡ write_all append_log next t patches)
  unfolding write_all
  write_all_first guard t offset patch patches h = elim (write-cases guard t offset patch) [
    | inl (e, q) ↦ absurd (ground (arith, h, q))
    | inr (lsn, q, b) ↦ (lsn, (write append_log guard t offset patch).1, b, ground (arith, q))
  ]

  write_all_done : (guard : Guarded Log) (t : TxnId) → (write_all append_log guard t []).1 ≡ guard
  unfolding write_all
  write_all_done guard t = refl

  insert-cases :
      (guard : Guarded Log) (t : TxnId) (tuple : List ℕ) (slot : ℕ)
      → (insert append_log guard t tuple).0 ≡ ok (some slot)
      → (slot ≡ slotted_slot_count guard.bytes)
        × (slot_offset (slotted_slot_count guard.bytes + 1) + length tuple
            ≤ slotted_data_start guard.bytes)
        × ((write_all append_log guard t (insert_patches guard.bytes tuple)).0 ≡ ok tt)
        × ((insert append_log guard t tuple).1
            ≡ (write_all append_log guard t (insert_patches guard.bytes tuple)).1)
  unfolding insert
  insert-cases guard t tuple slot h =
      elim (Bool-cases (
        ltb (slotted_data_start guard.bytes)
          (header_size + (slotted_slot_count guard.bytes + 1) * slot_size + length tuple))) [
            | inl full ↦ absurd (ground (arith, h, full))
            | inr room ↦
                elim (Result-cases
                  (write_all append_log guard t (insert_patches guard.bytes tuple)).0) [
                    | inl (e, q) ↦ absurd (ground (arith, h, room, q))
                    | inr (u, q) ↦ (
                      ground (arith, h, room, q),
                      ground (arith, room),
                      q,
                      ground (arith, room, q),
                    )
                  ]
          ]

  insert-after :
      (guard : Guarded Log) (t : TxnId) (tuple : List ℕ) (slot : ℕ)
      → (sized : length guard.bytes ≡ 4096) → (insert append_log guard t tuple).0 ≡ ok (some slot)
      → (l₁ l₂ l₃ : ℕ) × (fits : slot_offset (slotted_slot_count guard.bytes + 1) + length tuple
          ≤ slotted_data_start guard.bytes)
        × ((insert append_log guard t tuple).1.bytes ≡ after guard.bytes tuple l₁ l₂ l₃ sized fits)
  unfolding insert_patches
  insert-after guard t tuple slot sized h =
      let (_, fits, q, last) = insert-cases guard t tuple slot h in
      let c = slotted_slot_count guard.bytes in
      let start = slotted_data_start guard.bytes - length tuple in
      let entry = to_le_bytes 2 (start % 2 ^ 16) ++ to_le_bytes 2 (length tuple % 2 ^ 16) in
      let header = to_le_bytes 2 (c + 1) ++ to_le_bytes 2 ((4096 - start) % 2 ^ 16) in
      let (l₁, g₁, b₁, w₁) =
        write_all_first guard t start tuple ((slot_offset c, entry) ∷ (12, header) ∷ []) q in
      let (l₂, g₂, b₂, w₂) =
        write_all_first g₁ t (slot_offset c) entry ((12, header) ∷ [])
          (sym (ap (λ r. r.0) w₁) ∙ q) in
      let (l₃, g₃, b₃, w₃) =
        write_all_first g₂ t 12 header [] (sym (ap (λ r. r.0) (w₁ ∙ w₂)) ∙ q) in
      (
        l₁,
        l₂,
        l₃,
        fits,
        ap (λ g. g.bytes) (last ∙ ap (λ r. r.1) (w₁ ∙ w₂ ∙ w₃) ∙ write_all_done g₃ t)
            ∙ b₃
            ∙ ap (logged_write l₃ 12 header) (b₂ ∙ ap (logged_write l₂ (slot_offset c) entry) b₁),
      )

  -- On a page of 4096 bytes, a tuple that `insert` takes, not an empty one, is then read back from
  -- the slot that it answers, which is the first slot that was free.
  pub slotted_read-insert :
      (guard : Guarded Log) (t : TxnId) (tuple : List ℕ) (slot : ℕ)
      → length guard.bytes ≡ 4096
      → 0 < length tuple
      → (insert append_log guard t tuple).0 ≡ ok (some slot)
      → (slot ≡ slotted_slot_count guard.bytes)
        × (slotted_read {StorageError = StorageError} (insert append_log guard t tuple).1.bytes slot
            ≡ ok (some tuple))
  slotted_read-insert guard t tuple slot sized h q =
      let same = (insert-cases guard t tuple slot q).0 in
      let (l₁, l₂, l₃, fits, b) = insert-after guard t tuple slot sized q in
      (
        same,
        ap (λ n. slotted_read (insert append_log guard t tuple).1.bytes n) same
            ∙ ap (λ l. slotted_read l (slotted_slot_count guard.bytes)) b
            ∙ new_tuple guard.bytes tuple l₁ l₂ l₃ sized fits h,
      )

  -- On a page of 4096 bytes, a tuple that `insert` takes changes nothing of what is read from the
  -- other slots, where each is deleted or has its tuple among the tuples.
  pub slotted_read-insert_other :
      (guard : Guarded Log) (t : TxnId) (tuple : List ℕ) (slot other : ℕ)
      → length guard.bytes ≡ 4096
      → (insert append_log guard t tuple).0 ≡ ok (some slot)
      → other < slotted_slot_count guard.bytes
      → IsSlotSound guard.bytes other
      → slotted_read {StorageError = StorageError} (insert append_log guard t tuple).1.bytes other
        ≡ slotted_read guard.bytes other
  slotted_read-insert_other guard t tuple slot other sized q h sound =
      let (l₁, l₂, l₃, fits, b) = insert-after guard t tuple slot sized q in
      ap (λ l. slotted_read l other) b
      ∙ old_tuple guard.bytes tuple l₁ l₂ l₃ sized fits other h sound
