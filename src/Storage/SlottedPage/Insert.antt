-- ===== src/Storage/SlottedPage/Insert.antt =====
-- What `insert` of heap.rs leaves on the page: the tuple in a new slot, and the other tuples.
use simple_rdbms.Common.{ℕ, ◌+◌, ◌-◌, ◌*◌, ◌%◌, ◌^◌, ◌≤◌, ◌<◌, ◌≡◌, refl, ap}
use simple_rdbms.Common.{◌∙◌, List, ◌++◌, length}
use simple_rdbms.Common.{drop, get_or, arith}
use simple_rdbms.Common.Bytes.{to_le_bytes}
use simple_rdbms.Storage.PageWrite.{page_size}
use simple_rdbms.Storage.PageWrite.Bytes.{logged_write, length-logged_write}
use simple_rdbms.Storage.PageWrite.Bytes.{get_or-logged_write_before, get_or-logged_write_behind}
use simple_rdbms.Storage.PageWrite.Bytes.{get_or-logged_write_in, drop-logged_write}
use simple_rdbms.Storage.SlottedPage.{slotted_slot_count, slotted_data_start}
use simple_rdbms.Storage.SlottedPage.{slot_offset, read_u16}

-- The header and the slot that `insert` writes are two words of 16 bits.
first_word :
    (x y : ℕ)
    → x < 2 ^ 16
    → get_or (to_le_bytes 2 x ++ to_le_bytes 2 y) 0 0
        + 256 * get_or (to_le_bytes 2 x ++ to_le_bytes 2 y) 1 0
      ≡ x
unfolding to_le_bytes
first_word x y h = omega (arith, h)

second_word :
    (x y : ℕ)
    → y < 2 ^ 16
    → get_or (to_le_bytes 2 x ++ to_le_bytes 2 y) 2 0
        + 256 * get_or (to_le_bytes 2 x ++ to_le_bytes 2 y) 3 0
      ≡ y
unfolding to_le_bytes
second_word x y h = omega (arith, h)

two_words : (x y : ℕ) → length (to_le_bytes 2 x ++ to_le_bytes 2 y) ≡ 4
unfolding to_le_bytes
two_words x y = refl

-- A page on which a tuple of the length still fits.
module _ (bytes tuple : List ℕ) (l₁ l₂ l₃ : ℕ) (sized : length bytes ≡ 4096)
    (fits : slot_offset (slotted_slot_count bytes + 1) + length tuple
      ≤ slotted_data_start bytes) where
  abbrev pub count : ℕ
  count = slotted_slot_count bytes

  abbrev pub data_start : ℕ
  data_start = slotted_data_start bytes - length tuple

  abbrev pub entry : List ℕ
  entry = to_le_bytes 2 (data_start % 2 ^ 16) ++ to_le_bytes 2 (length tuple % 2 ^ 16)

  abbrev pub header : List ℕ
  header = to_le_bytes 2 (count + 1) ++ to_le_bytes 2 ((page_size - data_start) % 2 ^ 16)

  abbrev pub one : List ℕ
  one = logged_write l₁ data_start tuple bytes

  abbrev pub two : List ℕ
  two = logged_write l₂ (slot_offset count) entry one

  -- The page behind the three writes.
  abbrev pub three : List ℕ
  three = logged_write l₃ 12 header two

  length-entry : length entry ≡ 4
  length-entry = two_words (data_start % 2 ^ 16) (length tuple % 2 ^ 16)

  length-header : length header ≡ 4
  length-header = two_words (count + 1) ((page_size - data_start) % 2 ^ 16)

  fits_one : data_start + length tuple ≤ length bytes
  fits_one = omega (arith, sized, fits)

  low_one : 12 ≤ data_start
  low_one = omega (arith, fits)

  sized_one : length one ≡ 4096
  sized_one = length-logged_write l₁ data_start tuple bytes low_one fits_one ∙ sized

  fits_two : slot_offset count + length entry ≤ length one
  fits_two = omega (arith, sized_one, fits, length-entry)

  low_two : 12 ≤ slot_offset count
  low_two = omega arith

  sized_two : length two ≡ 4096
  sized_two = length-logged_write l₂ (slot_offset count) entry one low_two fits_two ∙ sized_one

  fits_three : 12 + length header ≤ length two
  fits_three = omega (arith, sized_two, length-header)

  low_three : 12 ≤ 12
  low_three = omega arith

  pub sized_three : length three ≡ 4096
  sized_three = length-logged_write l₃ 12 header two low_three fits_three ∙ sized_two

  -- The tuples lie behind the later writes.
  pub drop-three : (s : ℕ) → slot_offset count + 4 ≤ s → drop s three ≡ drop s one
  drop-three s h =
      drop-logged_write l₃ 12 header two low_three fits_three s (omega (arith, h, length-header))
      ∙ drop-logged_write l₂ (slot_offset count) entry one low_two fits_two s
          (omega (arith, h, length-entry))

  -- The slots lie behind the header, and those that were there before the new one.
  old_byte : (i : ℕ) → 16 ≤ i → i < slot_offset count → get_or three i 0 ≡ get_or bytes i 0
  old_byte i h k =
      get_or-logged_write_behind l₃ 12 header two low_three fits_three i
        (omega (arith, h, length-header))
      ∙ get_or-logged_write_before l₂ (slot_offset count) entry one low_two fits_two i
          (omega (arith, h)) k
      ∙ get_or-logged_write_before l₁ data_start tuple bytes low_one fits_one i (omega (arith, h))
          (omega (arith, k, fits))

  entry_byte : (i : ℕ) → i < 4 → get_or three (slot_offset count + i) 0 ≡ get_or entry i 0
  entry_byte i h =
      get_or-logged_write_behind l₃ 12 header two low_three fits_three (slot_offset count + i)
        (omega (arith, length-header))
      ∙ get_or-logged_write_in l₂ (slot_offset count) entry one low_two fits_two i
          (omega (arith, h, length-entry))

  header_byte : (i : ℕ) → i < 4 → get_or three (12 + i) 0 ≡ get_or header i 0
  header_byte i h =
      get_or-logged_write_in l₃ 12 header two low_three fits_three i
        (omega (arith, h, length-header))

  pub count-three : slotted_slot_count three ≡ count + 1
  count-three = omega (
    arith,
    header_byte 0 (omega arith),
    header_byte 1 (omega arith),
    first_word (count + 1) ((page_size - data_start) % 2 ^ 16) (omega (arith, fits)),
  )

  pub offset-three : read_u16 three (slot_offset count) ≡ data_start
  offset-three =
      let e₀ : get_or three (slot_offset count) 0 ≡ get_or entry 0 0 =
        ap (λ i. get_or three i 0) (omega arith) ∙ entry_byte 0 (omega arith) in
      omega (
        arith,
        e₀,
        entry_byte 1 (omega arith),
        first_word (data_start % 2 ^ 16) (length tuple % 2 ^ 16) (omega arith),
      )

  pub length-three : read_u16 three (slot_offset count + 2) ≡ length tuple
  length-three =
      let e₃ : get_or three (slot_offset count + 2 + 1) 0 ≡ get_or entry 3 0 =
        ap (λ i. get_or three i 0) (omega arith) ∙ entry_byte 3 (omega arith) in
      omega (
        arith,
        e₃,
        fits,
        entry_byte 2 (omega arith),
        second_word (data_start % 2 ^ 16) (length tuple % 2 ^ 16) (omega arith),
      )

  pub old_entry :
      (slot : ℕ)
      → slot < count
      → (read_u16 three (slot_offset slot) ≡ read_u16 bytes (slot_offset slot))
        × (read_u16 three (slot_offset slot + 2) ≡ read_u16 bytes (slot_offset slot + 2))
  old_entry slot h = (
    omega (
      arith,
      old_byte (slot_offset slot) (omega arith) (omega (arith, h)),
      old_byte (slot_offset slot + 1) (omega arith) (omega (arith, h)),
    ),
    omega (
      arith,
      old_byte (slot_offset slot + 2) (omega arith) (omega (arith, h)),
      old_byte (slot_offset slot + 2 + 1) (omega arith) (omega (arith, h)),
    ),
  )
