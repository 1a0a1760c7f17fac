-- ===== src/Storage/SlottedPage/Reads.antt =====
-- What `slotted_read` of heap.rs finds after `insert`.
use simple_rdbms.Common.{ℕ, ◌+◌, ◌-◌, ◌≤◌, ◌<◌, ◌≡◌, sym, ap, ◌∙◌, ◌⊎◌}
use simple_rdbms.Common.{Option, none, some, List, length, take, drop}
use simple_rdbms.Common.{arith, leb, ◌==◌, Result, ok, err, if◌then◌else◌, inl, inr}
use simple_rdbms.Common.{take-length-append}
use simple_rdbms.Storage.PageWrite.Bytes.{drop_at-logged_write, drop-logged_write}
use simple_rdbms.Storage.SlottedPage.{slotted_slot_count, slotted_data_start, slot_offset, read_u16}
use simple_rdbms.Storage.SlottedPage.{
  slotted_read, slotted_slot_entry, checked_slot_count, tuple_at,
}
use simple_rdbms.Storage.SlottedPage.{PageError, past_the_page}
use simple_rdbms.Storage.SlottedPage.Insert.{three}
use simple_rdbms.Storage.SlottedPage.Insert.{sized_three, drop-three, count-three, offset-three}
use simple_rdbms.Storage.SlottedPage.Insert.{length-three, old_entry}

-- `slotted_read` on a page whose slots are in bounds, by the entry of the slot.
slotted_read_lem :
    {StorageError : Type 0} (bytes : List ℕ) (slot : ℕ)
    → slotted_slot_count bytes ≤ 1019
    → slot < slotted_slot_count bytes
    → slotted_read {StorageError = StorageError} bytes slot ≡ (
        if read_u16 bytes (slot_offset slot + 2) == 0
        then ok none
        else tuple_at bytes
            (read_u16 bytes (slot_offset slot))
            (read_u16 bytes (slot_offset slot + 2)))
unfolding slotted_read slotted_slot_entry checked_slot_count
slotted_read_lem bytes slot h k = ground (arith, h, k)

tuple_at_lem :
    {StorageError : Type 0} (bytes : List ℕ) (start len : ℕ)
    → slot_offset (slotted_slot_count bytes) ≤ start
    → tuple_at {StorageError = StorageError} bytes start len ≡ (
        if leb (start + len) (length bytes)
        then ok (some (take len (drop start bytes)))
        else err past_the_page)
unfolding tuple_at
tuple_at_lem bytes start len h = ground (arith, h)

-- The slot is deleted, or its tuple lies among the tuples.
abbrev pub IsSlotSound : List ℕ → ℕ → Type 0
IsSlotSound bytes slot =
    (read_u16 bytes (slot_offset slot + 2) ≡ 0)
    ⊎ (slotted_data_start bytes ≤ read_u16 bytes (slot_offset slot))

module _ (bytes tuple : List ℕ) (l₁ l₂ l₃ : ℕ) (sized : length bytes ≡ 4096)
    (fits : slot_offset (slotted_slot_count bytes + 1) + length tuple
      ≤ slotted_data_start bytes) where
  abbrev pub after : List ℕ
  after = three bytes tuple l₁ l₂ l₃ sized fits

  tuple_there : take (length tuple) (drop (slotted_data_start bytes - length tuple) after) ≡ tuple
  tuple_there =
      let start = slotted_data_start bytes - length tuple in
      ap (take (length tuple)) (
        drop-three bytes tuple l₁ l₂ l₃ sized fits start (omega (arith, fits))
        ∙ drop_at-logged_write l₁ start tuple bytes (omega (arith, fits))
            (omega (arith, fits, sized)))
      ∙ take-length-append tuple (drop (start + length tuple) bytes)

  pub new_tuple :
      {StorageError : Type 0}
      → 0 < length tuple
      → slotted_read {StorageError = StorageError} after (slotted_slot_count bytes)
        ≡ ok (some tuple)
  new_tuple h =
      let c = slotted_slot_count bytes in
      let start = slotted_data_start bytes - length tuple in
      let more = count-three bytes tuple l₁ l₂ l₃ sized fits in
      let whole = sized_three bytes tuple l₁ l₂ l₃ sized fits in
      slotted_read_lem after c (omega (arith, more, fits)) (omega (arith, more))
      ∙ by_entry (read_u16 after (slot_offset c)) (read_u16 after (slot_offset c + 2)) start
          (offset-three bytes tuple l₁ l₂ l₃ sized fits)
          (length-three bytes tuple l₁ l₂ l₃ sized fits)
      ∙ tuple_at_lem after start (length tuple) (omega (arith, more, fits))
      ∙ within start (omega (arith, fits, whole))
      ∙ ap (λ t. ok (some t)) tuple_there
    where
      by_entry :
          {StorageError : Type 0} (offset len start : ℕ)
          → offset ≡ start
          → len ≡ length tuple
          → ◌≡◌ {A = Result (PageError StorageError) (Option (List ℕ))}
              (if len == 0 then ok none else tuple_at after offset len)
              (tuple_at after start (length tuple))
      by_entry offset len start p q = ground (arith, p, q, h)

      within :
          {StorageError : Type 0} (start : ℕ)
          → start + length tuple ≤ length after
          → ◌≡◌ {A = Result (PageError StorageError) (Option (List ℕ))}
              (if leb (start + length tuple) (length after)
                then ok (some (take (length tuple) (drop start after)))
                else err past_the_page)
              (ok (some (take (length tuple) (drop start after))))
      within start k = ground (arith, k)

  pub old_tuple :
      {StorageError : Type 0} (slot : ℕ)
      → slot < slotted_slot_count bytes
      → IsSlotSound bytes slot
      → slotted_read {StorageError = StorageError} after slot ≡ slotted_read bytes slot
  old_tuple slot h sound =
      let more = count-three bytes tuple l₁ l₂ l₃ sized fits in
      let (po, pl) = old_entry bytes tuple l₁ l₂ l₃ sized fits slot h in
      slotted_read_lem after slot (omega (arith, more, fits)) (omega (arith, more, h))
      ∙ same_entry sound po pl
      ∙ sym (slotted_read_lem bytes slot (omega (arith, fits)) h)
    where
      same_tuple :
          {StorageError : Type 0} (start len : ℕ)
          → slotted_data_start bytes ≤ start
          → tuple_at {StorageError = StorageError} after start len ≡ tuple_at bytes start len
      same_tuple start len k =
          let more = count-three bytes tuple l₁ l₂ l₃ sized fits in
          let whole = sized_three bytes tuple l₁ l₂ l₃ sized fits in
          let behind : drop start after ≡ drop start bytes =
            drop-three bytes tuple l₁ l₂ l₃ sized fits start (omega (arith, fits, k))
            ∙ drop-logged_write l₁ (slotted_data_start bytes - length tuple) tuple bytes
                (omega (arith, fits)) (omega (arith, fits, sized)) start (omega (arith, fits, k)) in
          tuple_at_lem after start len (omega (arith, more, fits, k))
          ∙ ap
              (λ n.
                if leb (start + len) n
                then ok (some (take len (drop start after)))
                else err past_the_page)
              (whole ∙ sym sized)
          ∙ ap
              (λ l.
                if leb (start + len) (length bytes)
                then ok (some (take len l))
                else err past_the_page)
              behind
          ∙ sym (tuple_at_lem bytes start len (omega (arith, fits, k)))

      same_entry :
          {StorageError : Type 0} {o o' l l' : ℕ}
          → (l' ≡ 0) ⊎ (slotted_data_start bytes ≤ o')
          → o ≡ o'
          → l ≡ l'
          → ◌≡◌ {A = Result (PageError StorageError) (Option (List ℕ))}
              (if l == 0 then ok none else tuple_at after o l)
              (if l' == 0 then ok none else tuple_at bytes o' l')
      same_entry (inl z) p q = ground (arith, z, p, q)
      same_entry {StorageError = StorageError} {o' = o'} {l' = l'} (inr k) p q =
          ground (arith, p, q, same_tuple {StorageError = StorageError} o' l' k)
