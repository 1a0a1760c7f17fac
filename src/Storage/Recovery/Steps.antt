-- ===== src/Storage/Recovery/Steps.antt =====
-- What each step of a transaction adds to what the undo of crates/storage/src/recovery.rs will restore.
use simple_rdbms.Common.{
  ℕ, ◌+◌, ◌%◌, ◌^◌, ◌≤◌, ◌<◌, ◌≡◌, ◌≢◌, refl, sym, ap, ◌∙◌, Bool, true, false,
}
use simple_rdbms.Common.{
  Option, none, some, List, [], ◌∷◌, All, length, arith, inl, inr, ◌==◌, ==_iff,
}
use simple_rdbms.Common.{if◌then◌else◌, Bool-cases}
use simple_rdbms.Common.Map.{nat_eq, get, insert, get-insert}
use simple_rdbms.Ids.{PageId, TxnId, Lsn}
use simple_rdbms.Storage.Wal.Record.{LogRecordKind, begin, update, encode_record}
use simple_rdbms.Storage.PageWrite.{page_size, write}
use simple_rdbms.Storage.PageWrite.Bytes.{logged_write}
use simple_rdbms.Storage.Log.{append}
use simple_rdbms.Storage.Recovery.{Pool, page_bytes}
use simple_rdbms.Storage.Recovery.Bytes.{Pages, byte, written_over, byte-logged_write, IsSized}
use simple_rdbms.Storage.Recovery.Bytes.{
  IsSized-logged_write, covered, length-covered, written_over-covered,
}
use simple_rdbms.Storage.Recovery.Chain.{Image, next_cursor, image_of, Undoes, ends}
use simple_rdbms.Storage.Recovery.Chain.{Undoes-later, Undoes-latest, restored, restored-outside}
use simple_rdbms.Storage.Recovery.Chain.{IsWritable, Ranges, is_held, IsWithin}
use simple_rdbms.Storage.Recovery.Loop.{IsUndoable, encode_record_pos, appended, with_appended}
use simple_rdbms.Storage.Recovery.History.{log_append, after_write}
use simple_rdbms.Storage.Recovery.History.{}

-- The undo may start at the last record of the transaction.
pub rewound :
    (s : Pool) (t : TxnId) (c : Option Lsn) (images : List Image) (v : PageId → ℕ → ℕ)
    (held : Ranges) (inv : IsUndoable s t c images v held)
    → IsUndoable s t (some inv.last) images v held
rewound s t c images v held inv = record {
  sized = inv.sized;
  last = inv.last;
  last_logged = inv.last_logged;
  last_below = inv.last_below;
  last_chain = inv.last_chain;
  cursor_below = inv.last_below;
  cursor_chain = inv.last_chain;
  writable = inv.writable;
  within = inv.within;
  gives = inv.gives;
}

pub begins-IsUndoable :
    (s : Pool) (t : TxnId)
    → 0 < s.log.next_lsn
    → IsSized s.written
    → IsUndoable
        (record s { log = log_append s.log t begin })
        t
        (some s.log.next_lsn)
        []
        (byte s.written)
        []
unfolding append restored next_cursor image_of
begins-IsUndoable s t pos sized =
    let chain : Undoes (appended s.log t begin ∷ s.log.records) (some s.log.next_lsn) [] =
      Undoes-latest (appended s.log t begin) s.log.records none [] [] pos refl refl tt ends in
    record {
      sized = sized;
      last = s.log.next_lsn;
      last_logged =
          get-insert t t s.log.next_lsn s.log.last_lsn_by_txn ∙ rw (nat_eq.beq_refl t) refl;
      last_below = omega (arith, encode_record_pos (appended s.log t begin));
      last_chain = chain;
      cursor_below = omega (arith, encode_record_pos (appended s.log t begin));
      cursor_chain = chain;
      writable = tt;
      within = tt;
      gives = λ q i h. refl;
    }

-- The pool after a write, by what is logged and what is written.
abbrev pub written_pool : Pool → TxnId → PageId → ℕ → List ℕ → Pool
written_pool s t p offset patch = record s {
  log =
      with_appended s.log t
        (update p (offset % 2 ^ 16) (covered offset patch (page_bytes s.written p)) patch);
  written = insert p (logged_write s.log.next_lsn offset patch (page_bytes s.written p)) s.written;
}

pub after_write_lem :
    (s : Pool) (t : TxnId) (p : PageId) (offset : ℕ) (patch : List ℕ)
    → after_write s t p offset patch ≡ written_pool s t p offset patch
unfolding append write
after_write_lem s t p offset patch = refl

module _ (s : Pool) (t : TxnId) (images : List Image) (v : PageId → ℕ → ℕ) (held : Ranges) where
  IsWithin-held :
      (r : PageId × ℕ × ℕ) (images : List Image)
      → All (IsWithin held) images
      → All (IsWithin (r ∷ held)) images
  unfolding is_held
  IsWithin-held r [] h = tt
  IsWithin-held (p, offset, len) ((q, o, x) ∷ images) (h, hs) =
      ((λ i k. ground (arith, h i k)), IsWithin-held (p, offset, len) images hs)

  pub written_pool-IsUndoable :
      (last : Lsn) (p : PageId) (offset : ℕ) (patch : List ℕ)
      → IsUndoable s t (some last) images v held
      → p < s.next_page_id
      → 12 ≤ offset
      → offset + length patch ≤ page_size
      → IsUndoable
          (written_pool s t p offset patch)
          t
          (some s.log.next_lsn)
          ((p, offset, covered offset patch (page_bytes s.written p)) ∷ images)
          v
          ((p, offset, length patch) ∷ held)
  unfolding restored next_cursor image_of is_held
  written_pool-IsUndoable last p offset patch inv there low fits =
      let before = covered offset patch (page_bytes s.written p) in
      let kind = update p (offset % 2 ^ 16) before patch in
      let room : offset + length patch ≤ length (page_bytes s.written p) =
        omega (arith, fits, inv.sized p) in
      let len : length before ≡ length patch =
        length-covered offset patch (page_bytes s.written p) room in
      let small : offset % 2 ^ 16 ≡ offset = omega (arith, fits) in
      let chain : Undoes (appended s.log t kind ∷ s.log.records) (some s.log.next_lsn)
          ((p, offset, before) ∷ images) =
        Undoes-latest (appended s.log t kind) s.log.records (some inv.last)
          ((p, offset, before) ∷ []) images (omega (arith, inv.last_below)) inv.last_logged
          (ap (λ o. (p, o, before) ∷ []) small) inv.last_below inv.last_chain in
      record {
        sized = IsSized-logged_write s.written p s.log.next_lsn offset patch inv.sized low fits;
        last = s.log.next_lsn;
        last_logged =
            get-insert t t s.log.next_lsn s.log.last_lsn_by_txn ∙ rw (nat_eq.beq_refl t) refl;
        last_below = omega (arith, encode_record_pos (appended s.log t kind));
        last_chain = chain;
        cursor_below = omega (arith, encode_record_pos (appended s.log t kind));
        cursor_chain = chain;
        writable = ((there, low, omega (arith, fits, len)), inv.writable);
        within = (
          λ i k. ground (arith, nat_eq.beq_refl p, k, len),
          IsWithin-held (p, offset, length patch) images inv.within,
        );
        gives = λ q i h.
            ap (restored images q i) (taken_back q i (p == q) refl h room) ∙ inv.gives q i h;
      }
    where
      taken_back :
          (q : PageId) (i : ℕ) (e : Bool)
          → (p == q) ≡ e
          → 12 ≤ i
          → offset + length patch ≤ length (page_bytes s.written p)
          → (if e
              then written_over offset
                  (covered offset patch (page_bytes s.written p))
                  i
                  (byte (written_pool s t p offset patch).written q i)
              else byte (written_pool s t p offset patch).written q i)
            ≡ byte s.written q i
      taken_back q i true k h room =
          let before = covered offset patch (page_bytes s.written p) in
          let same : p ≡ q = (==_iff p q).0 k in
          ap (written_over offset before i)
            (byte-logged_write s.written p q s.log.next_lsn offset patch i low room h ∙ rw k refl)
          ∙ ap
              (λ r. written_over offset before i (written_over offset patch i (byte s.written r i)))
              (sym same)
          ∙ written_over-covered offset patch (page_bytes s.written p) i room
          ∙ ap (λ r. byte s.written r i) same
      taken_back q i false k h room =
          byte-logged_write s.written p q s.log.next_lsn offset patch i low room h ∙ rw k refl

  grown :
      (n m : PageId) (images : List Image)
      → n ≤ m
      → All (IsWritable n) images
      → All (IsWritable m) images
  grown n m [] le h = tt
  grown n m ((p, offset, x) ∷ images) le ((a, b, c), h) =
      ((omega (arith, a, le), b, c), grown n m images le h)

  pub others-IsUndoable :
      (last : Lsn) (u : TxnId) (kind : LogRecordKind) (next_page_id : PageId) (written : Pages)
      → IsUndoable s t (some last) images v held
      → u ≢ t
      → s.next_page_id ≤ next_page_id
      → IsSized written
      → ((q : PageId) (i : ℕ) → is_held held q i ≡ true → byte written q i ≡ byte s.written q i)
      → IsUndoable
          (record {
            next_page_id = next_page_id;
            written = written;
            log = with_appended s.log u kind;
          })
          t
          (some last)
          images
          (λ q i. if is_held held q i then v q i else byte written q i)
          held
  others-IsUndoable last u kind next_page_id written inv apart grows sized kept =
      let r = appended s.log u kind in
      let up : s.log.next_lsn ≤ s.log.next_lsn + length (encode_record r) = omega arith in
      record {
        sized = sized;
        last = inv.last;
        last_logged =
            get-insert u t s.log.next_lsn s.log.last_lsn_by_txn
            ∙ ground (arith, apart, ==_iff u t, inv.last_logged);
        last_below = omega (arith, inv.last_below);
        last_chain =
            Undoes-later r s.log.records (some inv.last) images inv.last_below inv.last_chain;
        cursor_below = omega (arith, inv.cursor_below);
        cursor_chain =
            Undoes-later r s.log.records (some last) images inv.cursor_below inv.cursor_chain;
        writable = grown s.next_page_id next_page_id images grows inv.writable;
        within = inv.within;
        gives = λ q i h. elim (Bool-cases (is_held held q i)) [
          | inl b ↦ rw b (ap (restored images q i) (kept q i b) ∙ inv.gives q i h)
          | inr b ↦ rw b (restored-outside held images q i (byte written q i) inv.within b)
        ];
      }

  -- A record of the transaction that the undo passes by.
  pub logged-IsUndoable :
      (last : Lsn) (kind : LogRecordKind) (next_page_id : PageId)
      → IsUndoable s t (some last) images v held
      → s.next_page_id ≤ next_page_id
      → image_of kind ≡ []
      → next_cursor (appended s.log t kind) ≡ get t s.log.last_lsn_by_txn
      → IsUndoable
          (record s { next_page_id = next_page_id; log = with_appended s.log t kind })
          t
          (some s.log.next_lsn)
          images
          v
          held
  logged-IsUndoable last kind next_page_id inv grows plain to_prev =
      let r = appended s.log t kind in
      let chain : Undoes (r ∷ s.log.records) (some s.log.next_lsn) images =
        Undoes-latest r s.log.records (some inv.last) [] images (omega (arith, inv.last_below))
          (to_prev ∙ inv.last_logged) plain inv.last_below inv.last_chain in
      record {
        sized = inv.sized;
        last = s.log.next_lsn;
        last_logged =
            get-insert t t s.log.next_lsn s.log.last_lsn_by_txn ∙ rw (nat_eq.beq_refl t) refl;
        last_below = omega (arith, encode_record_pos r);
        last_chain = chain;
        cursor_below = omega (arith, encode_record_pos r);
        cursor_chain = chain;
        writable = grown s.next_page_id next_page_id images grows inv.writable;
        within = inv.within;
        gives = inv.gives;
      }
