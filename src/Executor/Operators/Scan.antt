-- ===== src/Executor/Operators/Scan.antt =====
-- The rows that the sequential scan of crates/executor/src/operators/seq_scan.rs answers.
use simple_rdbms.Common.{Result-cases}
use simple_rdbms.Common.{ℕ, zero, suc, ◌+◌, ◌-◌, ◌≤◌, ◌≡◌, refl, sym, ap, ◌∙◌, true, false}
use simple_rdbms.Common.{
  Option, none, some, List, [], ◌∷◌, ◌++◌, Result, ok, err, arith, inl, inr, subst,
}
use simple_rdbms.Common.{Bool-cases, Option-cases, ◌⊎◌}
use simple_rdbms.Ids.{PageId, Rid}
use simple_rdbms.Types.Value.{DataType}
use simple_rdbms.Types.Tuple.{decode}
use simple_rdbms.Storage.SlottedPage.{checked_slot_count, slotted_read, next_page_id}
use simple_rdbms.Storage.Heap.{PageScan, tuple, end_of_page, scan_slots, scan_page}
use simple_rdbms.Storage.Heap.{page_entries, entries_from}
use simple_rdbms.Executor.Operators.{Tuple, Executor, LockOps, Context, SeqScan, next}
use simple_rdbms.Executor.Operators.{seq_scan, admit, decoded}
use simple_rdbms.Executor.Operators.Drain.{Reply, Replies, Drains}

next_slot : (i : ℕ) → suc i ≡ i + 1
next_slot i = omega arith

module _ {StorageError : Type 0} (fetch : PageId → Result StorageError (List ℕ)) where
  scan_page-none :
      (page : PageId) (bytes : List ℕ) (count n slot : ℕ)
      → fetch page ≡ ok bytes
      → checked_slot_count {StorageError = StorageError} bytes ≡ ok count
      → n + slot ≡ count
      → scan_slots {StorageError = StorageError} bytes n slot ≡ ok none
      → scan_page fetch page slot ≡ ok (end_of_page (next_page_id bytes))
  unfolding scan_page
  scan_page-none page bytes count n slot f c q e =
      let d : count - slot ≡ n = omega (arith, q) in ground (arith, f, c, d, e)

  scan_page-some :
      (page : PageId) (bytes : List ℕ) (count n slot i : ℕ) (found : List ℕ)
      → fetch page ≡ ok bytes
      → checked_slot_count {StorageError = StorageError} bytes ≡ ok count
      → n + slot ≡ count
      → scan_slots {StorageError = StorageError} bytes n slot ≡ ok (some (i, found))
      → scan_page fetch page slot ≡ ok (tuple i found)
  unfolding scan_page
  scan_page-some page bytes count n slot i found f c q e =
      let d : count - slot ≡ n = omega (arith, q) in ground (arith, f, c, d, e)

  -- Where `TableIter` reads all slots, the scan meets no bad one.
  scan_slots-ok :
      (page : PageId) (bytes : List ℕ) (n slot : ℕ) (es : List (Rid × List ℕ))
      → page_entries {StorageError = StorageError} page bytes n slot ≡ ok es
      → (found : Option (ℕ × List ℕ)) × (scan_slots {StorageError = StorageError} bytes n slot
          ≡ ok found)
  unfolding page_entries scan_slots
  scan_slots-ok page bytes zero slot es h = (none, refl)
  scan_slots-ok page bytes (suc n) slot es h =
      elim (Result-cases (slotted_read {StorageError = StorageError} bytes slot)) [
        | inl (e, r) ↦ absurd (ground (arith, h, r))
        | inr (o, r) ↦ elim (Option-cases o) [
          | inr (t, q) ↦ (some (slot, t), ground (arith, r, q))
          | inl q ↦
              let (found, k) = scan_slots-ok page bytes n (suc slot) es (ground (arith, h, r, q)) in
              (found, ground (arith, r, q, k))
        ]
      ]

module _ {LockError Locks : Type 0} (ops : LockOps Locks LockError) (ctx : Context)
    (types : List DataType) where
  -- The rows that entries of the heap hold, each admitted in turn; `none` where one may not be
  -- read or is not the bytes of a row.
  unfoldable pub read_rows : Locks → List (Rid × List ℕ) → Option (List Tuple × Locks)
  unfolding admit decode
  read_rows l [] = some ([], l)
  read_rows l ((rid, bytes) ∷ es) =
      let (admitted, l₁) = admit ops ctx l rid in
      let rest = read_rows l₁ es in
      elim admitted [
        | err e ↦ none
        | ok false ↦ rest
        | ok true ↦ elim (decode bytes types) [
          | err e ↦ none
          | ok row ↦ elim rest [ none ↦ none | some (rows, l') ↦ some (row ∷ rows, l') ]
        ]
      ]

  pub read_rows-cases :
      (l l' : Locks) (rid : Rid) (bytes : List ℕ) (es : List (Rid × List ℕ)) (rows : List Tuple)
      → read_rows l ((rid, bytes) ∷ es) ≡ some (rows, l')
      → ((l₁ : Locks) × (admit ops ctx l rid ≡ (ok false, l₁))
          × (read_rows l₁ es ≡ some (rows, l')))
        ⊎ ((l₁ : Locks) × (row : Tuple) × (others : List Tuple) × (admit ops ctx l rid
              ≡ (ok true, l₁))
            × (decode bytes types ≡ ok row)
            × (read_rows l₁ es ≡ some (others, l'))
            × (row ∷ others ≡ rows))
  unfolding read_rows
  read_rows-cases l l' rid bytes es rows h =
      let l₁ = (admit ops ctx l rid).1 in
      elim (Result-cases (admit ops ctx l rid).0) [
        | inl (e, a) ↦ absurd (ground (arith, h, a))
        | inr (b, a) ↦ elim (Bool-cases b) [
          | inr q ↦ inl (l₁, ground (arith, a, q), ground (arith, h, a, q))
          | inl q ↦ elim (Result-cases (decode bytes types)) [
            | inl (e, d) ↦ absurd (ground (arith, h, a, q, d))
            | inr (row, d) ↦ elim (Option-cases (read_rows l₁ es)) [
              | inl n ↦ absurd (ground (arith, h, a, q, d, n))
              | inr ((others, k), n) ↦ inr (
                l₁,
                row,
                others,
                ground (arith, a, q),
                d,
                ground (arith, h, a, q, d, n),
                ground (arith, h, a, q, d, n),
              )
            ]
          ]
        ]
      ]

module _ {StorageError LockError Locks : Type 0} (fetch : PageId → Result StorageError (List ℕ))
    (ops : LockOps Locks LockError) (ctx : Context) (st : SeqScan) where
  abbrev pub scanning : Option PageId → ℕ → Executor
  scanning page slot = seq_scan (record st { current_page = page; next_slot = slot })

  Drains-through :
      (e d : Executor) (l l₁ l' : Locks) (rows : List Tuple)
      → ((r : Reply fetch ops ctx) (c : Executor) (k : Locks)
          → Replies fetch ops ctx d l₁ r c k
          → Replies fetch ops ctx e l r c k)
      → Drains fetch ops ctx d l₁ rows l'
      → Drains fetch ops ctx e l rows l'
  Drains-through e d l l₁ l' [] f (c, g) = (c, f (ok none) c l' g)
  Drains-through e d l l₁ l' (row ∷ rows) f (c, k, g, rest) = (c, k, f (ok (some row)) c k g, rest)

  turns :
      (page : PageId) (slot : ℕ) (turned : Option PageId) (l : Locks)
      → scan_page fetch page slot ≡ ok (end_of_page turned)
      → (r : Reply fetch ops ctx) (c : Executor) (k : Locks)
      → Replies fetch ops ctx (scanning turned 0) l r c k
      → Replies fetch ops ctx (scanning (some page) slot) l r c k
  turns page slot turned l s r c k (n, f) = (suc n, step)
    where
      step :
          (m : ℕ) → suc n ≤ m → next fetch ops ctx m (scanning (some page) slot) l ≡ some (r, c, k)
      step zero h = absurd (omega (arith, h))
      step (suc m) h = unfold next in ground (arith, s, f m (omega (arith, h)))

  same_scan :
      (page : PageId) (slot slot' : ℕ) (found : PageScan) (l : Locks)
      → scan_page fetch page slot ≡ ok found
      → scan_page fetch page slot' ≡ ok found
      → (r : Reply fetch ops ctx) (c : Executor) (k : Locks)
      → Replies fetch ops ctx (scanning (some page) slot') l r c k
      → Replies fetch ops ctx (scanning (some page) slot) l r c k
  same_scan page slot slot' found l s s' r c k (n, f) = (suc n, step found s s')
    where
      step :
          (found : PageScan)
          → scan_page fetch page slot ≡ ok found
          → scan_page fetch page slot' ≡ ok found
          → (m : ℕ) → suc n ≤ m
          → next fetch ops ctx m (scanning (some page) slot) l ≡ some (r, c, k)
      step found s s' zero h = absurd (omega (arith, h))
      step (end_of_page p) s s' (suc m) h =
          unfold next in ground (arith, s, s', f (suc m) (omega (arith, h)))
      step (tuple i t) s s' (suc m) h =
          unfold next in ground (arith, s, s', f (suc m) (omega (arith, h)))

  module _ (page : PageId) (slot i : ℕ) (bytes : List ℕ) (l l₁ : Locks)
      (s : scan_page fetch page slot ≡ ok (tuple i bytes)) where
    passes_over :
        admit ops ctx l (record { page_id = page; slot = i }) ≡ (ok false, l₁)
        → (r : Reply fetch ops ctx) (c : Executor) (k : Locks)
        → Replies fetch ops ctx (scanning (some page) (i + 1)) l₁ r c k
        → Replies fetch ops ctx (scanning (some page) slot) l r c k
    passes_over a r c k (n, f) = (suc n, step)
      where
        step :
            (m : ℕ)
            → suc n ≤ m
            → next fetch ops ctx m (scanning (some page) slot) l ≡ some (r, c, k)
        step zero h = absurd (omega (arith, h))
        step (suc m) h = unfold next in ground (arith, s, a, f m (omega (arith, h)))

    answers :
        (row : Tuple)
        → admit ops ctx l (record { page_id = page; slot = i }) ≡ (ok true, l₁)
        → decode bytes st.column_types ≡ ok row
        → Replies fetch ops ctx
            (scanning (some page) slot)
            l
            (ok (some row))
            (scanning (some page) (i + 1))
            l₁
    answers row a d = (1, step)
      where
        step :
            (m : ℕ)
            → 1 ≤ m
            → next fetch ops ctx m (scanning (some page) slot) l
              ≡ some (ok (some row), scanning (some page) (i + 1), l₁)
        step zero h = absurd (omega (arith, h))
        step (suc m) h = unfold next decoded in ground (arith, s, a, d)

  module _ (page : PageId) (bytes : List ℕ) (count : ℕ) (rest : List (Rid × List ℕ)) (l' : Locks)
      (f : fetch page ≡ ok bytes)
      (c : checked_slot_count {StorageError = StorageError} bytes ≡ ok count)
      (others : (l : Locks) (rows : List Tuple)
        → read_rows ops ctx st.column_types l rest ≡ some (rows, l')
        → Drains fetch ops ctx (scanning (next_page_id bytes) 0) l rows l') where
    at_found :
        (slot : ℕ) (found : List ℕ) (es : List (Rid × List ℕ)) (l : Locks) (rows : List Tuple)
        → scan_page fetch page slot ≡ ok (tuple slot found)
        → ((l : Locks) (rows : List Tuple)
            → read_rows ops ctx st.column_types l (es ++ rest) ≡ some (rows, l')
            → Drains fetch ops ctx (scanning (some page) (slot + 1)) l rows l')
        → read_rows ops ctx st.column_types l
            ((record { page_id = page; slot = slot }, found) ∷ es ++ rest)
          ≡ some (rows, l')
        → Drains fetch ops ctx (scanning (some page) slot) l rows l'
    at_found slot found es l rows s after h =
        let rid : Rid = record { page_id = page; slot = slot } in
        elim (read_rows-cases ops ctx st.column_types l l' rid found (es ++ rest) rows h) [
          | inl (l₁, a, k) ↦
              Drains-through (scanning (some page) slot) (scanning (some page) (slot + 1)) l l₁ l'
                rows (passes_over page slot slot found l l₁ s a) (after l₁ rows k)
          | inr (l₁, row, others, a, d, k, q) ↦
              subst (λ rows. Drains fetch ops ctx (scanning (some page) slot) l rows l') q
                (
                  scanning (some page) (slot + 1),
                  l₁,
                  answers page slot slot found l l₁ s row a d,
                  after l₁ others k,
                )
        ]

    same_slots :
        (n slot : ℕ) (found : Option (ℕ × List ℕ))
        → suc n + slot ≡ count
        → scan_slots {StorageError = StorageError} bytes (suc n) slot ≡ ok found
        → scan_slots {StorageError = StorageError} bytes n (suc slot) ≡ ok found
        → (seen : PageScan) × (scan_page fetch page slot ≡ ok seen)
          × (scan_page fetch page (suc slot) ≡ ok seen)
    same_slots n slot none q k k' = (
      end_of_page (next_page_id bytes),
      scan_page-none fetch page bytes count (suc n) slot f c q k,
      scan_page-none fetch page bytes count n (suc slot) f c (omega (arith, q)) k',
    )
    same_slots n slot (some (i, t)) q k k' = (
      tuple i t,
      scan_page-some fetch page bytes count (suc n) slot i t f c q k,
      scan_page-some fetch page bytes count n (suc slot) i t f c (omega (arith, q)) k',
    )

    Drains-page :
        (n slot : ℕ) (es : List (Rid × List ℕ)) (l : Locks) (rows : List Tuple)
        → n + slot ≡ count
        → page_entries {StorageError = StorageError} page bytes n slot ≡ ok es
        → read_rows ops ctx st.column_types l (es ++ rest) ≡ some (rows, l')
        → Drains fetch ops ctx (scanning (some page) slot) l rows l'
    unfolding page_entries scan_slots
    Drains-page zero slot es l rows q e h =
        let none_left : [] ≡ es = cc e in
        Drains-through (scanning (some page) slot) (scanning (next_page_id bytes) 0) l l l' rows
          (turns page slot (next_page_id bytes) l
            (scan_page-none fetch page bytes count 0 slot f c q refl))
          (others l rows (
            subst (λ es. read_rows ops ctx st.column_types l (es ++ rest) ≡ some (rows, l'))
              (sym none_left) h))
    Drains-page (suc n) slot es l rows q e h =
        elim (Result-cases (slotted_read {StorageError = StorageError} bytes slot)) [
          | inl (x, r) ↦ absurd (ground (arith, e, r))
          | inr (o, r) ↦ elim (Option-cases o) [
            | inl z ↦
                let e' : page_entries {StorageError = StorageError} page bytes n (suc slot)
                    ≡ ok es =
                  ground (arith, e, r, z) in
                let (found, k) = scan_slots-ok fetch page bytes n (suc slot) es e' in
                let k' : scan_slots {StorageError = StorageError} bytes (suc n) slot ≡ ok found =
                  ground (arith, r, z, k) in
                let (seen, s, s') = same_slots n slot found q k' k in
                Drains-through (scanning (some page) slot) (scanning (some page) (suc slot)) l l l'
                  rows (same_scan page slot (suc slot) seen l s s')
                  (Drains-page n (suc slot) es l rows (omega (arith, q)) e' h)
            | inr (t, z) ↦
                let k : scan_slots {StorageError = StorageError} bytes (suc n) slot
                    ≡ ok (some (slot, t)) =
                  ground (arith, r, z) in
                let s = scan_page-some fetch page bytes count (suc n) slot slot t f c q k in
                elim (Result-cases
                  (page_entries {StorageError = StorageError} page bytes n (suc slot))) [
                    | inl (x, b) ↦ absurd (ground (arith, e, r, z, b))
                    | inr (es', b) ↦
                        let first : (record { page_id = page; slot = slot }, t) ∷ es' ≡ es =
                          ground (arith, e, r, z, b) in
                        at_found slot t es' l rows s
                          (λ l rows k.
                            subst (λ i. Drains fetch ops ctx (scanning (some page) i) l rows l')
                              (next_slot slot)
                              (Drains-page n (suc slot) es' l rows (omega (arith, q)) b k))
                          (subst
                            (λ es.
                              read_rows ops ctx st.column_types l (es ++ rest) ≡ some (rows, l'))
                            (sym first) h)
                  ]
          ]
        ]

  at_end : (l : Locks) → Drains fetch ops ctx (scanning none 0) l [] l
  at_end l = (scanning none 0, (1, step))
    where
      step :
          (m : ℕ)
          → 1 ≤ m
          → next fetch ops ctx m (scanning none 0) l ≡ some (ok none, scanning none 0, l)
      step zero h = absurd (omega (arith, h))
      step (suc m) h = unfold next in refl

  nothing_read :
      (l l' : Locks) (rows : List Tuple)
      → read_rows ops ctx st.column_types l [] ≡ some (rows, l')
      → (l ≡ l') × ([] ≡ rows)
  unfolding read_rows
  nothing_read l l' rows h = (ground (arith, h), ground (arith, h))

  -- The sequential scan answers the rows of the entries that `TableIter` yields, in their order:
  -- each is admitted in turn, by its visibility in the snapshot or by a lock on it, and decoded,
  -- where no lock is refused and no page, slot or row is bad.
  pub seq_scan-Drains :
      (n : ℕ) (page : Option PageId) (es : List (Rid × List ℕ)) (l l' : Locks) (rows : List Tuple)
      → entries_from fetch n page ≡ some (ok es)
      → read_rows ops ctx st.column_types l es ≡ some (rows, l')
      → Drains fetch ops ctx (scanning page 0) l rows l'
  unfolding entries_from
  seq_scan-Drains zero page es l l' rows e h = cc
  seq_scan-Drains (suc n) none es l l' rows e h =
      let none_left : [] ≡ es = cc e in
      let (same, q) = nothing_read l l' rows (
        subst (λ es. read_rows ops ctx st.column_types l es ≡ some (rows, l')) (sym none_left) h) in
      subst (λ rows. Drains fetch ops ctx (scanning none 0) l rows l') q
        (subst (λ k. Drains fetch ops ctx (scanning none 0) l [] k) same (at_end l))
  seq_scan-Drains (suc n) (some page) es l l' rows e h = elim (Result-cases (fetch page)) [
    | inl (x, f) ↦ absurd (ground (arith, e, f))
    | inr (bytes, f) ↦
        elim (Result-cases (checked_slot_count {StorageError = StorageError} bytes)) [
          | inl (x, c) ↦ absurd (ground (arith, e, f, c))
          | inr (count, c) ↦
              elim (Result-cases (page_entries {StorageError = StorageError} page bytes count 0)) [
                | inl (x, p) ↦ absurd (ground (arith, e, f, c, p))
                | inr (here, p) ↦ elim (Option-cases (entries_from fetch n (next_page_id bytes))) [
                  | inl r ↦ absurd (ground (arith, e, f, c, p, r))
                  | inr (answer, r) ↦ elim (Result-cases answer) [
                    | inl (x, a) ↦ absurd (ground (arith, e, f, c, p, r, a))
                    | inr (rest, a) ↦
                        let whole : here ++ rest ≡ es = ground (arith, e, f, c, p, r, a) in
                        Drains-page page bytes count rest l' f c
                          (λ l₁ rows₁ k.
                            seq_scan-Drains n (next_page_id bytes) rest l₁ l' rows₁ (r ∙ ap some a)
                              k)
                          count 0 here l rows (omega arith) p
                          (subst (λ es. read_rows ops ctx st.column_types l es ≡ some (rows, l'))
                            (sym whole) h)
                  ]
                ]
              ]
        ]
  ]
