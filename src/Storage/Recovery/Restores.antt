-- ===== src/Storage/Recovery/Restores.antt =====
-- The undo of a transaction of crates/storage/src/recovery.rs takes back what it has written.
use simple_rdbms.Common.{ℕ, ◌+◌, ◌≤◌, ◌≡◌, refl, sym, ap, ◌∙◌}
use simple_rdbms.Common.{Option, none, some, List, [], ◌∷◌, length, ok, arith, inl, inr}
use simple_rdbms.Common.{if◌then◌else◌, Bool-cases, subst}
use simple_rdbms.Common.Map.{nat_eq, get}
use simple_rdbms.Ids.{PageId, TxnId, Lsn}
use simple_rdbms.Storage.Wal.Record.{begin, abort, end, alloc_page}
use simple_rdbms.Storage.Log.{append}
use simple_rdbms.Storage.Recovery.{Pool, page_bytes, undo_loop, undo_transaction}
use simple_rdbms.Storage.Recovery.Bytes.{byte}
use simple_rdbms.Storage.Recovery.Bytes.{covered}
use simple_rdbms.Storage.Recovery.Chain.{Image, next_cursor, image_of, Undoes, ends}
use simple_rdbms.Storage.Recovery.Chain.{restored, restored-outside}
use simple_rdbms.Storage.Recovery.Chain.{Ranges, is_held}
use simple_rdbms.Storage.Recovery.Loop.{IsUndoable}
use simple_rdbms.Storage.Recovery.Loop.{undo_loop-IsUndoable}
use simple_rdbms.Storage.Recovery.History.{Run, log_append, after_others}
use simple_rdbms.Storage.Recovery.History.{
  begins, writes, allocates, others, undoes, aborts, after_new_page,
}
use simple_rdbms.Storage.Recovery.Steps.{
  rewound, begins-IsUndoable, after_write_lem, written_pool, written_pool-IsUndoable,
  others-IsUndoable, logged-IsUndoable,
}

-- The undo of the transaction in the pool restores `v`.
abbrev WillRestore : TxnId → (PageId → ℕ → ℕ) → Ranges → Pool → Type 0
WillRestore t v held s =
    (lsn : Lsn) × (images : List Image) × (get t s.log.last_lsn_by_txn ≡ some lsn)
    × IsUndoable s t (some lsn) images v held

will_restore :
    (s : Pool) (t : TxnId) (c : Option Lsn) (images : List Image) (v : PageId → ℕ → ℕ)
    (held : Ranges)
    → IsUndoable s t c images v held
    → WillRestore t v held s
will_restore s t c images v held inv =
    (inv.last, images, inv.last_logged, rewound s t c images v held inv)

Run-WillRestore :
    (t : TxnId) (s : Pool) (v : PageId → ℕ → ℕ) (held : Ranges)
    → Run t s v held
    → WillRestore t v held s
unfolding append
Run-WillRestore t _ _ _ (begins s pos sized) =
    will_restore (record s { log = log_append s.log t begin }) t (some s.log.next_lsn) []
      (byte s.written) [] (begins-IsUndoable s t pos sized)
Run-WillRestore t _ v _ (writes {s = s} {held = held} p offset patch run there low fits) =
    let (lsn, images, _, inv) = Run-WillRestore t s v held run in
    subst (WillRestore t v ((p, offset, length patch) ∷ held))
      (sym (after_write_lem s t p offset patch))
      (will_restore (written_pool s t p offset patch) t (some s.log.next_lsn)
        ((p, offset, covered offset patch (page_bytes s.written p)) ∷ images) v
        ((p, offset, length patch) ∷ held)
        (written_pool-IsUndoable s t images v held lsn p offset patch inv there low fits))
Run-WillRestore t _ v held (allocates {s = s} run) =
    let (lsn, images, _, inv) = Run-WillRestore t s v held run in
    will_restore (after_new_page s t) t (some s.log.next_lsn) images v held (
      logged-IsUndoable s t images v held lsn (alloc_page s.next_page_id) (s.next_page_id + 1) inv
        (omega arith) (unfold image_of in refl) (unfold next_cursor in refl))
Run-WillRestore t _ v held (aborts {s = s} run) =
    let (lsn, images, _, inv) = Run-WillRestore t s v held run in
    will_restore (record s { log = log_append s.log t abort }) t (some s.log.next_lsn) images v held
      (logged-IsUndoable s t images v held lsn abort s.next_page_id inv (omega arith)
        (unfold image_of in refl) (unfold next_cursor in refl))
Run-WillRestore t _ _ held
      (others {s = s} {v = v} u kind next_page_id written run apart grows sized kept) =
    let (lsn, images, _, inv) = Run-WillRestore t s v held run in
    will_restore (after_others s u kind next_page_id written) t (some lsn) images
      (λ q i. if is_held held q i then v q i else byte written q i) held
      (others-IsUndoable s t images v held lsn u kind next_page_id written inv apart grows sized
        kept)
Run-WillRestore t _ v held (undoes {s = s} n lsn run logged) =
    let (last, images, same, inv) = Run-WillRestore t s v held run in
    let at : some last ≡ some lsn = sym same ∙ logged in
    let (s', c, rest, e, inv', _) =
      undo_loop-IsUndoable n t v held s (some lsn) images
        (subst (λ c. IsUndoable s t c images v held) at inv) in
    subst (WillRestore t v held) (sym (ap (λ r. r.1) e)) (will_restore s' t c rest v held inv')

-- What is to be left is what is there, where the transaction has not written.
Run-keeps :
    (t : TxnId) (s : Pool) (v : PageId → ℕ → ℕ) (held : Ranges) (q : PageId) (i : ℕ)
    → Run t s v held
    → 12 ≤ i
    → v q i ≡ (if is_held held q i then v q i else byte s.written q i)
Run-keeps t s v held q i run h =
    let (lsn, images, _, inv) = Run-WillRestore t s v held run in
    elim (Bool-cases (is_held held q i)) [
      | inl b ↦ rw b refl
      | inr b ↦ rw b (
          sym (inv.gives q i h)
          ∙ restored-outside held images q i (byte s.written q i) inv.within b)
    ]

nothing_left :
    (s : Pool) (t : TxnId) (images : List Image) (v : PageId → ℕ → ℕ) (held : Ranges) (q : PageId)
    (i : ℕ)
    → IsUndoable s t none images v held
    → Undoes s.log.records none images
    → 12 ≤ i
    → byte s.written q i ≡ v q i
unfolding restored
nothing_left s t [] v held q i inv ends h = inv.gives q i h
nothing_left s t (x ∷ xs) v held q i inv chain h = elim chain [ ]

-- The pool after the last two records of an undo.
abbrev finished : Pool → TxnId → Pool
finished s t = record s { log = log_append (log_append s.log t abort) t end }

undo_transaction-undo_loop :
    (n : ℕ) (s s' : Pool) (t : TxnId) (lsn : Lsn)
    → undo_loop n s t (some lsn) ≡ (ok tt, s', none)
    → undo_transaction n s t lsn ≡ some (ok tt, finished s' t)
unfolding undo_transaction
undo_transaction-undo_loop n s s' t lsn e =
    rw (ap (λ r. r.0) e, ap (λ r. r.2) e, undo_transaction)
      (ap (λ r. some (ok tt, finished r.1 t)) e)

-- In every run of a transaction, which allocates pages and writes to pages, in which others log
-- records and write what it has not written, and in which its undo may be cut off, also behind its
-- Abort record, and start again any number of times, `undo_transaction` from its
-- last record comes to an end within as many rounds as the lsn of the record, without an error, and
-- leaves of each byte behind the headers of the pages that the transaction has written what stood
-- there when it began, or what another wrote before it, and of each other byte what stands there.
pub undo_transaction-restores :
    (t : TxnId) (s : Pool) (v : PageId → ℕ → ℕ) (held : Ranges) (lsn : Lsn) (n : ℕ) (q : PageId)
    (i : ℕ)
    → Run t s v held
    → get t s.log.last_lsn_by_txn ≡ some lsn
    → lsn ≤ n
    → 12 ≤ i
    → (s' : Pool) × (undo_transaction n s t lsn ≡ some (ok tt, s'))
      × (byte s'.written q i ≡ (if is_held held q i then v q i else byte s.written q i))
undo_transaction-restores t s v held lsn n q i run logged enough h =
    let (last, images, same, inv) = Run-WillRestore t s v held run in
    let at : some last ≡ some lsn = sym same ∙ logged in
    let (s', c, rest, e, inv', finishes) =
      undo_loop-IsUndoable n t v held s (some lsn) images
        (subst (λ c. IsUndoable s t c images v held) at inv) in
    let done : c ≡ none = finishes (omega (arith, enough)) in
    let final : IsUndoable s' t none rest v held =
      subst (λ c. IsUndoable s' t c rest v held) done inv' in
    (
      finished s' t,
      undo_transaction-undo_loop n s s' t lsn (e ∙ ap (λ c. (ok tt, s', c)) done),
      nothing_left s' t rest v held q i final final.cursor_chain h ∙ Run-keeps t s v held q i run h,
    )
