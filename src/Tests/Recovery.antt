-- ===== src/Tests/Recovery.antt =====
-- A transaction that is undone twice, and a page that lacks the second of two writes.
use simple_rdbms.Common.{ℕ, ◌≡◌, refl, arith, none, some, List, [], ◌∷◌, ◌++◌, ok, if◌then◌else◌}
use simple_rdbms.Common.{replicate}
use simple_rdbms.Common.Map.{nat_eq, get, insert}
use simple_rdbms.Common.Bytes.{from_le_bytes}
use simple_rdbms.Ids.{PageId}
use simple_rdbms.Storage.Wal.Record.{LoggedRecord, encode_record, commit, update, alloc_page, begin}
use simple_rdbms.Storage.PageWrite.{page_size, write}
use simple_rdbms.Storage.Page.{page_lsn}
use simple_rdbms.Storage.Log.{append, read_at}
use simple_rdbms.Storage.Recovery.{
  Pool, page_bytes, fetch, stamp_write, compensate, undo_loop, undo_transaction,
}
use simple_rdbms.Storage.Recovery.Bytes.{byte}
use simple_rdbms.Storage.Recovery.Chain.{Ranges, is_held}
use simple_rdbms.Storage.Recovery.History.{
  Run, log_append, after_write, after_others, after_new_page, begins, writes,
}
use simple_rdbms.Storage.Recovery.History.{others, undoes, allocates}
use simple_rdbms.Storage.Recovery.Restores.{undo_transaction-restores}
use simple_rdbms.Storage.Restart.{redo}
use simple_rdbms.Storage.Restart.Replay.{replayed, image_after, IsLogFrom}
use simple_rdbms.Storage.Restart.Redo.{IsAllocated, pages_after, redo-replayed}

abbrev empty : Pool
empty = record {
  next_page_id = 1;
  written = [];
  log = record { records = []; next_lsn = 16; last_lsn_by_txn = [] };
}

abbrev begun : Pool
begun = record empty { log = log_append empty.log 5 begin }

abbrev beside : Pool
beside = after_others begun 6 commit 1 []

abbrev changed : Pool
changed = after_new_page (after_write beside 5 0 20 (1 ∷ 2 ∷ [])) 5

abbrev cut_off : Pool
cut_off = (undo_loop 2 changed 5 (some 145)).1

abbrev left : PageId → ℕ → ℕ
left q i = if is_held [] q i then byte empty.written q i else byte [] q i

abbrev held : Ranges
held = (0, 20, 2) ∷ []

last_change : get 5 changed.log.last_lsn_by_txn ≡ some 145
unfolding get insert append write encode_record page_bytes
last_change = refl

run : Run 5 changed left held
unfolding is_held page_bytes
run = allocates (
    writes 0 20 (1 ∷ 2 ∷ [])
      (others 6 commit 1 [] (begins empty (omega arith) (λ p. refl)) (λ q. omega (arith, q))
        (omega arith) (λ p. refl) (λ q i h. refl))
      (omega arith) (omega arith) (omega arith))

last_undo : get 5 cut_off.log.last_lsn_by_txn ≡ some 186
unfolding get insert append write encode_record undo_loop read_at compensate stamp_write fetch
    page_bytes
last_undo = refl

undo_transaction-restores_example :
    (s : Pool) × (undo_transaction 186 cut_off 5 186 ≡ some (ok tt, s))
    × (byte s.written 0 21 ≡ (if is_held held 0 21 then left 0 21 else byte cut_off.written 0 21))
undo_transaction-restores_example =
    undo_transaction-restores 5 cut_off left held 186 186 0 21 (undoes 2 145 run last_change)
      last_undo (omega arith) (omega arith)

abbrev first_records : List LoggedRecord
first_records =
    record { lsn = 20; prev_lsn = none; txn_id = 5; kind = alloc_page 1 }
    ∷ record { lsn = 61; prev_lsn = some 20; txn_id = 5; kind = update 1 16 (0 ∷ []) (7 ∷ []) }
    ∷ []

abbrev last_records : List LoggedRecord
last_records =
    record { lsn = 114; prev_lsn = some 61; txn_id = 5; kind = update 1 17 (0 ∷ []) (8 ∷ []) } ∷ []

abbrev flushed : Pool
flushed = record empty { written = (1, replayed 1 (replicate page_size 0) first_records) ∷ [] }

page_held : page_bytes flushed.written 1 ≡ replayed 1 (replicate page_size 0) first_records
unfolding page_bytes get
page_held = refl

new_lsn : page_lsn (replicate page_size 0) ≡ 0
unfolding page_lsn from_le_bytes
new_lsn = refl

pages-IsAllocated : IsAllocated 1 (first_records ++ last_records)
unfolding image_after pages_after
pages-IsAllocated = (tt, (omega arith, (omega arith, tt)))

lsns_grow : IsLogFrom 0 (first_records ++ last_records)
unfolding image_after
lsns_grow = (
  omega arith,
  omega arith,
  tt,
  (
    omega arith,
    omega arith,
    (omega arith, omega arith),
    (omega arith, omega arith, (omega arith, omega arith), tt),
  ),
)

redo-replayed_example :
    (s : Pool) × (redo flushed (first_records ++ last_records) ≡ (ok tt, s))
    × (page_bytes s.written 1 ≡ replayed 1 (replicate page_size 0) (first_records ++ last_records))
redo-replayed_example =
    redo-replayed flushed 1 (replicate page_size 0) 0 first_records last_records pages-IsAllocated
      refl (omega (arith, new_lsn)) lsns_grow page_held
