-- ===== src/Storage/Heap.antt =====
-- `TableHeap` of crates/storage/src/heap.rs: what is read from the chain of its pages. The reading
-- of a page through the buffer pool is a parameter.
use simple_rdbms.Common.{ℕ, zero, suc, ◌-◌, Option, none, some, List, [], ◌∷◌, ◌++◌}
use simple_rdbms.Common.{Result, ok, err}
use simple_rdbms.Ids.{PageId, Rid}
use simple_rdbms.Storage.SlottedPage.{PageError, checked_slot_count, slotted_read, next_page_id}

pub data HeapError (StorageError : Type 0) : Type 0 where
  fetch_failed : StorageError → HeapError StorageError
  on_page : PageError StorageError → HeapError StorageError

pub data PageScan : Type 0 where
  tuple : (slot : ℕ) (bytes : List ℕ) → PageScan
  end_of_page : (next_page_id : Option PageId) → PageScan

module _ {StorageError : Type 0} where
  -- The loop of `scan_page` over `n` slots from `slot` on.
  unfoldable pub scan_slots : List ℕ → ℕ → ℕ → Result (PageError StorageError) (Option (ℕ × List ℕ))
  unfolding slotted_read
  scan_slots bytes zero slot = ok none
  scan_slots bytes (suc n) slot =
      let rest = scan_slots bytes n (suc slot) in
      elim (slotted_read bytes slot) [
        | err e ↦ err e
        | ok (some found) ↦ ok (some (slot, found))
        | ok none ↦ rest
      ]

  -- `scan_page` on the bytes of the page.
  unfoldable pub scan_bytes : List ℕ → ℕ → Result (PageError StorageError) PageScan
  unfolding checked_slot_count scan_slots
  scan_bytes bytes from_slot = elim (checked_slot_count bytes) [
    | err e ↦ err e
    | ok count ↦ elim (scan_slots bytes (count - from_slot) from_slot) [
      | err e ↦ err e
      | ok (some (slot, found)) ↦ ok (tuple slot found)
      | ok none ↦ ok (end_of_page (next_page_id bytes))
    ]
  ]

  -- `TableIter` on one page: the loop over `n` slots from `slot` on.
  unfoldable pub page_entries :
      PageId → List ℕ → ℕ → ℕ → Result (PageError StorageError) (List (Rid × List ℕ))
  unfolding slotted_read
  page_entries page_id bytes zero slot = ok []
  page_entries page_id bytes (suc n) slot =
      let rest = page_entries page_id bytes n (suc slot) in
      elim (slotted_read bytes slot) [
        | err e ↦ err e
        | ok none ↦ rest
        | ok (some found) ↦ elim rest [
          | err e ↦ err e
          | ok entries ↦ ok ((record { page_id = page_id; slot = slot }, found) ∷ entries)
        ]
      ]

  module _ (fetch_page_read : PageId → Result StorageError (List ℕ)) where
    unfoldable pub scan_page : PageId → ℕ → Result (HeapError StorageError) PageScan
    unfolding scan_bytes
    scan_page page_id from_slot = elim (fetch_page_read page_id) [
      | err e ↦ err (fetch_failed e)
      | ok bytes ↦ elim (scan_bytes bytes from_slot) [ err e ↦ err (on_page e) | ok s ↦ ok s ]
    ]

    unfoldable pub entries_of_page :
        PageId → Result (HeapError StorageError) (List (Rid × List ℕ) × Option PageId)
    unfolding checked_slot_count page_entries
    entries_of_page page_id = elim (fetch_page_read page_id) [
      | err e ↦ err (fetch_failed e)
      | ok bytes ↦ elim (checked_slot_count bytes) [
        | err e ↦ err (on_page e)
        | ok count ↦ elim (page_entries page_id bytes count 0) [
          | err e ↦ err (on_page e)
          | ok entries ↦ ok (entries, next_page_id bytes)
        ]
      ]
    ]

    -- What `TableIter` yields from a page on, if no page and no slot is bad; the number of pages is
    -- fuel, and `none` is a chain that is longer.
    unfoldable pub entries_from :
        ℕ → Option PageId → Option (Result (HeapError StorageError) (List (Rid × List ℕ)))
    unfolding entries_of_page
    entries_from zero page = none
    entries_from (suc n) none = some (ok [])
    entries_from (suc n) (some page_id) = elim (entries_of_page page_id) [
      | err e ↦ some (err e)
      | ok (entries, next_page) ↦ elim (entries_from n next_page) [
        | none ↦ none
        | some (err e) ↦ some (err e)
        | some (ok rest) ↦ some (ok (entries ++ rest))
      ]
    ]

    unfoldable pub get_tuple : Rid → Result (HeapError StorageError) (Option (List ℕ))
    unfolding slotted_read
    get_tuple rid = elim (fetch_page_read rid.page_id) [
      | err e ↦ err (fetch_failed e)
      | ok bytes ↦ elim (slotted_read bytes rid.slot) [ err e ↦ err (on_page e) | ok t ↦ ok t ]
    ]
