-- ===== src/Storage/Restart/Redo.antt =====
-- The redo of crates/storage/src/recovery.rs brings every page up to the end of the log.
use simple_rdbms.Common.{ℕ, ◌+◌, ◌≤◌, ◌<◌, ◌≡◌, refl, sym, ap, ◌∙◌, Bool, true, false, Option}
use simple_rdbms.Common.{none, some, List, [], ◌∷◌, ◌++◌, length, ok, inl, inr, ltb}
use simple_rdbms.Common.{◌==◌, ==_iff, if◌then◌else◌, Bool-cases, subst}
use simple_rdbms.Common.Map.{nat_eq, insert}
use simple_rdbms.Ids.{PageId, TxnId, Lsn}
use simple_rdbms.Storage.Wal.Record.{LogRecordKind, LoggedRecord, update, clr, alloc_page}
use simple_rdbms.Storage.PageWrite.{page_size}
use simple_rdbms.Storage.PageWrite.Bytes.{logged_write}
use simple_rdbms.Storage.Page.{page_lsn}
use simple_rdbms.Storage.Recovery.{Pool, page_bytes, ensure_page_allocated}
use simple_rdbms.Storage.Recovery.Bytes.{page_bytes-insert}
use simple_rdbms.Storage.Recovery.Chain.{Image}
use simple_rdbms.Storage.Recovery.Loop.{fetch_lem, stamp_write_lem}
use simple_rdbms.Storage.Restart.{redo_write, redo_record, redo}
use simple_rdbms.Storage.Restart.Replay.{image_after, with_image, replayed, redone, IsLogFrom}
use simple_rdbms.Storage.Restart.Replay.{redone-replayed}

-- The number of pages after a record.
unfoldable pub pages_after : PageId → LogRecordKind → PageId
pages_after n (alloc_page page_id) = if ltb n (page_id + 1) then page_id + 1 else n
pages_after n kind = n

abbrev pub IsThere : PageId → Option Image → Type 0
IsThere n none = Unit {0}
IsThere n (some (p, offset, x)) = p < n

-- Each record writes to a page that is there, or that a record before it has allocated.
abbrev pub IsAllocated : PageId → List LoggedRecord → Type 0
IsAllocated n [] = Unit {0}
IsAllocated n (r ∷ rs) = IsThere n (image_after r.kind) × IsAllocated (pages_after n r.kind) rs

-- What the redo of one record makes of a page.
abbrev step : PageId → List ℕ → Lsn → Option Image → List ℕ
step q bytes lsn o = if ltb (page_lsn bytes) lsn then with_image q bytes lsn o else bytes

either_way : (b : Bool) (x : List ℕ) → x ≡ (if b then x else x)
either_way true x = refl
either_way false x = refl

redo_write-step :
    (s : Pool) (p : PageId) (offset : ℕ) (x : List ℕ) (lsn : Lsn)
    → p < s.next_page_id
    → (s' : Pool) × (redo_write s p offset x lsn ≡ (ok tt, s'))
      × (s'.next_page_id ≡ s.next_page_id)
      × ((q : PageId)
          → page_bytes s'.written q ≡ step q (page_bytes s.written q) lsn (some (p, offset, x)))
unfolding redo_write with_image
redo_write-step s p offset x lsn h =
    elim (Bool-cases (ltb (page_lsn (page_bytes s.written p)) lsn)) [
      | inl b ↦
          let after = logged_write lsn offset x (page_bytes s.written p) in
          (
            record s { written = insert p after s.written },
            rw (fetch_lem s p h, b, redo_write) (stamp_write_lem s p offset x lsn h),
            refl,
            λ q. page_bytes-insert s.written p q after ∙ newer q b (p == q) refl,
          )
      | inr b ↦ (s, rw (fetch_lem s p h, b, redo_write) refl, refl, λ q. older q b (p == q) refl)
    ]
  where
    newer :
        (q : PageId)
        → ltb (page_lsn (page_bytes s.written p)) lsn ≡ true
        → (e : Bool) → (p == q) ≡ e
        → (if e then logged_write lsn offset x (page_bytes s.written p) else page_bytes s.written q)
          ≡ (if ltb (page_lsn (page_bytes s.written q)) lsn
              then (if e
                  then logged_write lsn offset x (page_bytes s.written q)
                  else page_bytes s.written q)
              else page_bytes s.written q)
    newer q b true k =
        subst
          (λ r. logged_write lsn offset x (page_bytes s.written p) ≡ (
            if ltb (page_lsn (page_bytes s.written r)) lsn
            then logged_write lsn offset x (page_bytes s.written r)
            else page_bytes s.written r))
          ((==_iff p q).0 k) (rw b refl)
    newer q b false k =
        either_way (ltb (page_lsn (page_bytes s.written q)) lsn) (page_bytes s.written q)

    older :
        (q : PageId)
        → ltb (page_lsn (page_bytes s.written p)) lsn ≡ false
        → (e : Bool) → (p == q) ≡ e
        → page_bytes s.written q ≡ (
            if ltb (page_lsn (page_bytes s.written q)) lsn
            then (if e
                then logged_write lsn offset x (page_bytes s.written q)
                else page_bytes s.written q)
            else page_bytes s.written q)
    older q b true k =
        subst
          (λ r. page_bytes s.written r ≡ (
            if ltb (page_lsn (page_bytes s.written r)) lsn
            then logged_write lsn offset x (page_bytes s.written r)
            else page_bytes s.written r))
          ((==_iff p q).0 k) (rw b refl)
    older q b false k =
        either_way (ltb (page_lsn (page_bytes s.written q)) lsn) (page_bytes s.written q)

-- The redo of one record, page by page.
redo_record-step :
    (s : Pool) (l : Lsn) (prev : Option Lsn) (u : TxnId) (kind : LogRecordKind)
    → IsThere s.next_page_id (image_after kind)
    → (s' : Pool) × (redo_record s (record { lsn = l; prev_lsn = prev; txn_id = u; kind = kind })
        ≡ (ok tt, s'))
      × (s'.next_page_id ≡ pages_after s.next_page_id kind)
      × ((q : PageId)
          → page_bytes s'.written q ≡ step q (page_bytes s.written q) l (image_after kind))
unfolding redo_record image_after with_image pages_after ensure_page_allocated
redo_record-step s l prev u (update p offset before after) h = redo_write-step s p offset after l h
redo_record-step s l prev u (clr p offset after undo_next_lsn) h =
    redo_write-step s p offset after l h
redo_record-step s l prev u (alloc_page p) h = (
  ensure_page_allocated s p,
  refl,
  refl,
  λ q. either_way (ltb (page_lsn (page_bytes s.written q)) l) (page_bytes s.written q),
)
redo_record-step s l prev u kind h = (
  s,
  refl,
  refl,
  λ q. either_way (ltb (page_lsn (page_bytes s.written q)) l) (page_bytes s.written q),
)

redo-redone :
    (s : Pool) (rs : List LoggedRecord)
    → IsAllocated s.next_page_id rs
    → (s' : Pool) × (redo s rs ≡ (ok tt, s'))
      × ((q : PageId) → page_bytes s'.written q ≡ redone q (page_bytes s.written q) rs)
unfolding redo redone
redo-redone s [] h = (s, refl, λ q. refl)
redo-redone s (r ∷ rs) (there, h) =
    let (s', e, pages, f) = redo_record-step s r.lsn r.prev_lsn r.txn_id r.kind there in
    let (s'', e', g) = redo-redone s' rs (subst (λ n. IsAllocated n rs) (sym pages) h) in
    (
      s'',
      rw (ap (λ r. r.0) e, redo) (ap (λ r. redo r.1 rs) e ∙ e'),
      λ q. g q ∙ ap (λ b. redone q b rs) (f q),
    )

-- Where the lsns of a log grow, its images lie behind the headers of pages, and each record writes
-- to a page that is there or that the log has allocated by then, the redo of the log fails on no
-- record, and a page that holds what the first records wrote to it, however many those are and
-- whatever it held before with an older lsn, then holds what all of them wrote, once each.
pub redo-replayed :
    (s : Pool) (q : PageId) (bytes : List ℕ) (l : Lsn) (xs ys : List LoggedRecord)
    → IsAllocated s.next_page_id (xs ++ ys)
    → length bytes ≡ page_size
    → page_lsn bytes ≤ l
    → IsLogFrom l (xs ++ ys)
    → page_bytes s.written q ≡ replayed q bytes xs
    → (s' : Pool) × (redo s (xs ++ ys) ≡ (ok tt, s'))
      × (page_bytes s'.written q ≡ replayed q bytes (xs ++ ys))
redo-replayed s q bytes l xs ys there sized old log holds =
    let (s', e, f) = redo-redone s (xs ++ ys) there in
    (
      s',
      e,
      f q ∙ ap (λ b. redone q b (xs ++ ys)) holds ∙ redone-replayed q bytes l xs ys sized old log,
    )
