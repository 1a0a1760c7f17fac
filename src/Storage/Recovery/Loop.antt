-- ===== src/Storage/Recovery/Loop.antt =====
-- The loop of `undo_transaction` of crates/storage/src/recovery.rs, round by round.
use simple_rdbms.Common.{ℕ, zero, suc, ◌+◌, ◌%◌, ◌^◌, ◌≤◌, ◌<◌, ◌≡◌, refl, ap, ◌∙◌, Option}
use simple_rdbms.Common.{none, some, List, [], ◌∷◌, ◌++◌, All, length, length-append, ok, arith}
use simple_rdbms.Common.{inl, inr, ◌==◌, ==_iff, Bool-cases, lt→ltb}
use simple_rdbms.Common.Map.{nat_eq, get, insert, get-insert}
use simple_rdbms.Common.Bytes.{to_le_bytes, length-to_le_bytes}
use simple_rdbms.Crc.{crc32}
use simple_rdbms.Ids.{PageId, TxnId, Lsn}
use simple_rdbms.Storage.Wal.Record.{LogRecordKind, LoggedRecord, or_zero, begin}
use simple_rdbms.Storage.Wal.Record.{update, clr}
use simple_rdbms.Storage.Wal.Record.{encode_record, encode_body}
use simple_rdbms.Storage.PageWrite.Bytes.{logged_write}
use simple_rdbms.Storage.Log.{Log, append, read_at, find_record}
use simple_rdbms.Storage.Recovery.{Pool, page_bytes, fetch, stamp_write, compensate}
use simple_rdbms.Storage.Recovery.{nonzero, undo_loop}
use simple_rdbms.Storage.Recovery.Bytes.{byte, byte-logged_write, IsSized}
use simple_rdbms.Storage.Recovery.Bytes.{IsSized-logged_write}
use simple_rdbms.Storage.Recovery.Chain.{
  Image, next_cursor, image_of, IsCursorBelow, Undoes, ends, follows,
}
use simple_rdbms.Storage.Recovery.Chain.{
  IsCursorBelow-weaken, Undoes-later, Undoes-latest, restored, IsWritable, Ranges, IsWithin,
}

pub encode_record_pos : (r : LoggedRecord) → 0 < length (encode_record r)
unfolding encode_record
encode_record_pos r =
    let body = encode_body r in
    let total_len = (4 + length body + 4 + 4) % 2 ^ 32 in
    let front = to_le_bytes 4 total_len ++ body in
    omega (
      arith,
      length-append front (to_le_bytes 4 (crc32 front) ++ to_le_bytes 4 total_len),
      length-append (to_le_bytes 4 total_len) body,
      length-to_le_bytes 4 total_len,
    )

-- The undo of a transaction from the cursor, or from its last record, will write the images, and
-- then the bytes behind the headers of the pages are `v`.
pub record IsUndoable (s : Pool) (t : TxnId) (c : Option Lsn) (images : List Image)
    (v : PageId → ℕ → ℕ) (held : Ranges) : Type 0 where
  pub sized : IsSized s.written
  pub last : Lsn
  pub last_logged : get t s.log.last_lsn_by_txn ≡ some last
  pub last_below : last < s.log.next_lsn
  pub last_chain : Undoes s.log.records (some last) images
  pub cursor_below : IsCursorBelow c s.log.next_lsn
  pub cursor_chain : Undoes s.log.records c images
  pub writable : All (IsWritable s.next_page_id) images
  pub within : All (IsWithin held) images
  pub gives : (q : PageId) (i : ℕ) → 12 ≤ i → restored images q i (byte s.written q i) ≡ v q i

-- The record that an append adds.
abbrev pub appended : Log → TxnId → LogRecordKind → LoggedRecord
appended log t kind = record {
  lsn = log.next_lsn;
  prev_lsn = get t log.last_lsn_by_txn;
  txn_id = t;
  kind = kind;
}

abbrev pub with_appended : Log → TxnId → LogRecordKind → Log
with_appended log t kind = record {
  records = appended log t kind ∷ log.records;
  next_lsn = log.next_lsn + length (encode_record (appended log t kind));
  last_lsn_by_txn = insert t log.next_lsn log.last_lsn_by_txn;
}

-- The pool after the undo of an update.
abbrev compensated : Pool → TxnId → PageId → ℕ → List ℕ → Option Lsn → Pool
compensated s t p offset before prev = record s {
  log = with_appended s.log t (clr p offset before (or_zero prev));
  written = insert p (logged_write s.log.next_lsn offset before (page_bytes s.written p)) s.written;
}

pub fetch_lem :
    (s : Pool) (p : PageId) → p < s.next_page_id → fetch s p ≡ ok (page_bytes s.written p)
unfolding fetch
fetch_lem s p h = ground (arith, lt→ltb p s.next_page_id h)

pub stamp_write_lem :
    (s : Pool) (p : PageId) (offset : ℕ) (x : List ℕ) (lsn : Lsn)
    → p < s.next_page_id
    → stamp_write s p offset x lsn ≡ (
      ok tt,
      record s {
        written = insert p (logged_write lsn offset x (page_bytes s.written p)) s.written;
      },
    )
unfolding stamp_write
stamp_write_lem s p offset x lsn h = rw (fetch_lem s p h, stamp_write) refl

compensate_lem :
    (s : Pool) (t : TxnId) (p : PageId) (offset : ℕ) (before : List ℕ) (prev : Option Lsn)
    → p < s.next_page_id
    → compensate s t p offset before prev ≡ (ok tt, compensated s t p offset before prev)
unfolding compensate append
compensate_lem s t p offset before prev h =
    stamp_write_lem (record s { log = with_appended s.log t (clr p offset before (or_zero prev)) })
      p offset before s.log.next_lsn h

nonzero-or_zero :
    (rs : List LoggedRecord) (c : Option Lsn) (images : List Image)
    → Undoes rs c images
    → nonzero (or_zero c) ≡ c
nonzero-or_zero rs none images ends = refl
nonzero-or_zero rs (some lsn) all (follows positive found below rest) =
    elim (Bool-cases (lsn == 0)) [
      | inl b ↦ absurd (omega (arith, positive, (==_iff lsn 0).0 b))
      | inr b ↦ rw b refl
    ]

module _ (s : Pool) (t : TxnId) (v : PageId → ℕ → ℕ) (held : Ranges) where
  -- A round on an update.
  compensated-IsUndoable :
      (lsn : Lsn) (prev : Option Lsn) (p : PageId) (offset : ℕ) (before : List ℕ)
      (images : List Image)
      → lsn < s.log.next_lsn
      → IsCursorBelow prev lsn
      → Undoes s.log.records prev images
      → IsUndoable s t (some lsn) ((p, offset, before) ∷ images) v held
      → IsUndoable (compensated s t p offset before prev) t prev images v held
  unfolding restored
  compensated-IsUndoable lsn prev p offset before images low below rest inv =
      let ((there, behind, fits), others) = inv.writable in
      let kind = clr p offset before (or_zero prev) in
      let same : nonzero (or_zero prev) ≡ prev = nonzero-or_zero s.log.records prev images rest in
      let under : IsCursorBelow prev s.log.next_lsn =
        IsCursorBelow-weaken prev lsn s.log.next_lsn below (omega (arith, low)) in
      let later : Undoes (appended s.log t kind ∷ s.log.records) prev images =
        Undoes-later (appended s.log t kind) s.log.records prev images under rest in
      record {
        sized = IsSized-logged_write s.written p s.log.next_lsn offset before inv.sized behind fits;
        last = s.log.next_lsn;
        last_logged =
            get-insert t t s.log.next_lsn s.log.last_lsn_by_txn ∙ rw (nat_eq.beq_refl t) refl;
        last_below = omega (arith, encode_record_pos (appended s.log t kind));
        last_chain =
            Undoes-latest (appended s.log t kind) s.log.records prev [] images (omega (arith, low))
              (unfold next_cursor in same) (unfold image_of in refl) under rest;
        cursor_below =
            IsCursorBelow-weaken prev s.log.next_lsn
              (s.log.next_lsn + length (encode_record (appended s.log t kind))) under (omega arith);
        cursor_chain = later;
        writable = others;
        within = inv.within.1;
        gives = λ q i h.
            ap (restored images q i) (
              byte-logged_write s.written p q s.log.next_lsn offset before i behind
                (omega (arith, fits, inv.sized p)) h)
            ∙ inv.gives q i h;
      }

  -- A round on a record that holds no update.
  passed-IsUndoable :
      (lsn : Lsn) (c : Option Lsn) (images : List Image)
      → lsn < s.log.next_lsn
      → IsCursorBelow c lsn
      → Undoes s.log.records c images
      → IsUndoable s t (some lsn) images v held
      → IsUndoable s t c images v held
  passed-IsUndoable lsn c images low below rest inv = record {
    sized = inv.sized;
    last = inv.last;
    last_logged = inv.last_logged;
    last_below = inv.last_below;
    last_chain = inv.last_chain;
    writable = inv.writable;
    within = inv.within;
    gives = inv.gives;
    cursor_below = IsCursorBelow-weaken c lsn s.log.next_lsn below (omega (arith, low));
    cursor_chain = rest;
  }

undo_loop-none : (n : ℕ) (s : Pool) (t : TxnId) → undo_loop n s t none ≡ (ok tt, s, none)
unfolding undo_loop
undo_loop-none zero s t = refl
undo_loop-none (suc n) s t = refl

module _ (n : ℕ) (s : Pool) (t : TxnId) (lsn : Lsn) (positive : 0 < lsn) where
  read_at_lem : read_at s.log lsn ≡ find_record lsn s.log.records
  unfolding read_at
  read_at_lem = elim (Bool-cases (lsn == 0)) [
    | inl b ↦ absurd (omega (arith, positive, (==_iff lsn 0).0 b))
    | inr b ↦ ground (arith, b)
  ]

  undo_loop-passes :
      (l : Lsn) (prev : Option Lsn) (u : TxnId) (kind : LogRecordKind)
      → find_record lsn s.log.records
        ≡ some (record { lsn = l; prev_lsn = prev; txn_id = u; kind = kind })
      → image_of kind ≡ []
      → undo_loop (suc n) s t (some lsn)
        ≡ undo_loop n s t
            (next_cursor (record { lsn = l; prev_lsn = prev; txn_id = u; kind = kind }))
  unfolding undo_loop next_cursor image_of
  undo_loop-passes l prev u begin f e = ground (arith, read_at_lem, f, undo_loop-none n s t)
  undo_loop-passes l prev u (update p offset before after) f e = cc
  undo_loop-passes l prev u kind f e = ground (arith, read_at_lem, f)

  undo_loop-compensates :
      (l : Lsn) (prev : Option Lsn) (u : TxnId) (p : PageId) (offset : ℕ) (before after : List ℕ)
      → find_record lsn s.log.records
        ≡ some
            (record { lsn = l; prev_lsn = prev; txn_id = u; kind = update p offset before after })
      → p < s.next_page_id
      → undo_loop (suc n) s t (some lsn) ≡ undo_loop n (compensated s t p offset before prev) t prev
  unfolding undo_loop
  undo_loop-compensates l prev u p offset before after f h =
      let done = compensate_lem s t p offset before prev h in
      rw (read_at_lem ∙ f, ap (λ r. r.0) done, undo_loop) (ap (λ r. undo_loop n r.1 t prev) done)

-- What any `n` rounds from a cursor come to.
abbrev Outcome : ℕ → Pool → TxnId → Option Lsn → (PageId → ℕ → ℕ) → Ranges → Type 0
Outcome n s t c v held =
    (s' : Pool) × (c' : Option Lsn) × (images : List Image) × (undo_loop n s t c ≡ (ok tt, s', c'))
    × IsUndoable s' t c' images v held
    × (IsCursorBelow c (suc n) → c' ≡ none)

module _ (n : ℕ) (t : TxnId) (v : PageId → ℕ → ℕ) (held : Ranges)
    (ih : (s : Pool) (c : Option Lsn) (images : List Image)
      → IsUndoable s t c images v held
      → Outcome n s t c v held) where
  round :
      (s : Pool) (lsn l : Lsn) (prev : Option Lsn) (u : TxnId) (kind : LogRecordKind)
      (images : List Image)
      → 0 < lsn
      → find_record lsn s.log.records
        ≡ some (record { lsn = l; prev_lsn = prev; txn_id = u; kind = kind })
      → IsCursorBelow
          (next_cursor (record { lsn = l; prev_lsn = prev; txn_id = u; kind = kind }))
          lsn
      → Undoes s.log.records
          (next_cursor (record { lsn = l; prev_lsn = prev; txn_id = u; kind = kind }))
          images
      → IsUndoable s t (some lsn) (image_of kind ++ images) v held
      → Outcome (suc n) s t (some lsn) v held
  unfolding next_cursor image_of
  round s lsn l prev u (update p offset before after) images pos f below rest inv =
      let ((there, _, _), _) = inv.writable in
      let (s', c', found, e, inv', finishes) =
        ih (compensated s t p offset before prev) prev images (
          compensated-IsUndoable s t v held lsn prev p offset before images inv.cursor_below below
            rest inv) in
      (
        s',
        c',
        found,
        undo_loop-compensates n s t lsn pos l prev u p offset before after f there ∙ e,
        inv',
        λ h. finishes (IsCursorBelow-weaken prev lsn (suc n) below (omega (arith, h))),
      )
  round s lsn l prev u kind images pos f below rest inv =
      let c = next_cursor (record { lsn = l; prev_lsn = prev; txn_id = u; kind = kind }) in
      let (s', c', found, e, inv', finishes) =
        ih s c images (passed-IsUndoable s t v held lsn c images inv.cursor_below below rest inv) in
      (
        s',
        c',
        found,
        undo_loop-passes n s t lsn pos l prev u kind f refl ∙ e,
        inv',
        λ h. finishes (IsCursorBelow-weaken c lsn (suc n) below (omega (arith, h))),
      )

-- Every number of rounds of the loop leaves a pool from which the undo will restore the same bytes,
-- and as many rounds as the lsn that it starts at bring it to its end.
pub undo_loop-IsUndoable :
    (n : ℕ) (t : TxnId) (v : PageId → ℕ → ℕ) (held : Ranges) (s : Pool) (c : Option Lsn)
    (images : List Image)
    → IsUndoable s t c images v held
    → Outcome n s t c v held
undo_loop-IsUndoable n t v held s none images inv =
    (s, none, images, undo_loop-none n s t, inv, λ _. refl)
undo_loop-IsUndoable zero t v held s (some lsn) images inv = (
  s,
  some lsn,
  images,
  unfold undo_loop in refl,
  inv,
  λ h. absurd (positive images inv.cursor_chain h),
)
  where
    positive : (images : List Image) → Undoes s.log.records (some lsn) images → lsn < 1 → ⊥
    positive all (follows pos f b r) h = omega (arith, pos, h)
undo_loop-IsUndoable (suc n) t v held s (some lsn) images inv =
    split (undo_loop-IsUndoable n t v held) images inv.cursor_chain inv
  where
    split :
        ((s : Pool) (c : Option Lsn) (images : List Image)
          → IsUndoable s t c images v held
          → Outcome n s t c v held)
        → (images : List Image) → Undoes s.log.records (some lsn) images
        → IsUndoable s t (some lsn) images v held
        → Outcome (suc n) s t (some lsn) v held
    split ih all (follows {r = r} {images = tail} pos f below rest) inv =
        round n t v held ih s lsn r.lsn r.prev_lsn r.txn_id r.kind tail pos f below rest inv
