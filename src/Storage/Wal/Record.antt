-- ===== src/Storage/Wal/Record.antt =====
-- crates/storage/src/wal.rs: a record of the log and its bytes, with its length at both ends and
-- a checksum. The lengths that are cast to `u32` wrap around. A cursor is the bytes that it has
-- not taken yet, `bytes[pos..]`.
pub mod Fields
pub mod RoundTrip
use simple_rdbms.Common.{
  ℕ, zero, suc, ◌+◌, ◌-◌, ◌*◌, ◌%◌, ◌^◌, Bool, true, false, not, Option, none,
}
use simple_rdbms.Common.{some, List, [], ◌∷◌, ◌++◌, length, slice, take, drop, leb, ltb, ◌==◌}
use simple_rdbms.Common.{if◌then◌else◌}
use simple_rdbms.Common.Bytes.{to_le_bytes, from_le_bytes}
use simple_rdbms.Common.Options.{◌>>=◌, bytes_beq}
use simple_rdbms.Ids.{PageId, TxnId, Lsn}
use simple_rdbms.Crc.{crc32}

abbrev pub min_record_len : ℕ
min_record_len = 4 + 8 + 8 + 8 + 1 + 4 + 4

pub data LogRecordKind : Type 0 where
  begin commit abort end : LogRecordKind
  update : (page_id : PageId) (offset : ℕ) (before after : List ℕ) → LogRecordKind
  alloc_page : (page_id : PageId) → LogRecordKind
  clr : (page_id : PageId) (offset : ℕ) (after : List ℕ) (undo_next_lsn : Lsn) → LogRecordKind
  checkpoint_begin : LogRecordKind
  checkpoint_end : (att : List (TxnId × Lsn)) (dpt : List (PageId × Lsn)) → LogRecordKind

unfoldable pub tag : LogRecordKind → ℕ
tag begin = 0
tag commit = 1
tag abort = 2
tag end = 3
tag (update _ _ _ _) = 4
tag (alloc_page _) = 5
tag (clr _ _ _ _) = 6
tag checkpoint_begin = 7
tag (checkpoint_end _ _) = 8

-- The pairs of an id of `k` bytes and an lsn.
unfoldable pub encode_pairs : ℕ → List (ℕ × Lsn) → List ℕ
unfolding to_le_bytes
encode_pairs k [] = []
encode_pairs k ((id, lsn) ∷ pairs) = to_le_bytes k id ++ (to_le_bytes 8 lsn ++ encode_pairs k pairs)

-- A length and the bytes.
unfoldable pub encode_len_prefixed : List ℕ → List ℕ
unfolding to_le_bytes
encode_len_prefixed bytes = to_le_bytes 4 (length bytes % 2 ^ 32) ++ bytes

-- What `encode_payload` appends to the buffer.
unfoldable pub encode_payload : LogRecordKind → List ℕ
unfolding to_le_bytes encode_len_prefixed encode_pairs
encode_payload (update page_id offset before after) =
    to_le_bytes 4 page_id
    ++ (to_le_bytes 2 offset ++ (encode_len_prefixed before ++ encode_len_prefixed after))
encode_payload (alloc_page page_id) = to_le_bytes 4 page_id
encode_payload (clr page_id offset after undo_next_lsn) =
    to_le_bytes 4 page_id
    ++ (to_le_bytes 2 offset ++ (encode_len_prefixed after ++ to_le_bytes 8 undo_next_lsn))
encode_payload (checkpoint_end att dpt) =
    to_le_bytes 4 (length att % 2 ^ 32)
    ++ (encode_pairs 8 att ++ (to_le_bytes 4 (length dpt % 2 ^ 32) ++ encode_pairs 4 dpt))
encode_payload _ = []

abbrev pub Cursor : Type 0
Cursor = List ℕ

-- `take`
unfoldable pub take_bytes : ℕ → Cursor → Option (List ℕ × Cursor)
take_bytes n cursor = if leb n (length cursor) then some (take n cursor, drop n cursor) else none

-- `take_u16`, `take_u32` and `take_u64`, for a word of `k` bytes.
unfoldable pub take_word : ℕ → Cursor → Option (ℕ × Cursor)
unfolding take_bytes from_le_bytes
take_word k cursor = do (bytes, rest) ← take_bytes k cursor; some (from_le_bytes bytes, rest)

unfoldable pub take_len_prefixed : Cursor → Option (List ℕ × Cursor)
unfolding take_word take_bytes
take_len_prefixed cursor = do (len, rest) ← take_word 4 cursor; take_bytes len rest

-- The loops over the entries of a checkpoint's tables.
unfoldable pub take_pairs : ℕ → ℕ → Cursor → Option (List (ℕ × Lsn) × Cursor)
unfolding take_word
take_pairs k zero cursor = some ([], cursor)
take_pairs k (suc n) cursor = do
  (id, c₁) ← take_word k cursor
  (lsn, c₂) ← take_word 8 c₁
  (pairs, c₃) ← take_pairs k n c₂
  some ((id, lsn) ∷ pairs, c₃)

-- The arms of `decode_payload` for `Update`, `AllocPage`, `Clr` and `CheckpointEnd`.
unfoldable pub decode_update : Cursor → Option (LogRecordKind × Cursor)
unfolding take_word take_len_prefixed
decode_update c = do
  (page_id, c₁) ← take_word 4 c
  (offset, c₂) ← take_word 2 c₁
  (before, c₃) ← take_len_prefixed c₂
  (after, c₄) ← take_len_prefixed c₃
  some (update page_id offset before after, c₄)

unfoldable pub decode_alloc_page : Cursor → Option (LogRecordKind × Cursor)
unfolding take_word
decode_alloc_page c = do (page_id, c₁) ← take_word 4 c; some (alloc_page page_id, c₁)

unfoldable pub decode_clr : Cursor → Option (LogRecordKind × Cursor)
unfolding take_word take_len_prefixed
decode_clr c = do
  (page_id, c₁) ← take_word 4 c
  (offset, c₂) ← take_word 2 c₁
  (after, c₃) ← take_len_prefixed c₂
  (undo_next_lsn, c₄) ← take_word 8 c₃
  some (clr page_id offset after undo_next_lsn, c₄)

unfoldable pub decode_checkpoint_end : Cursor → Option (LogRecordKind × Cursor)
unfolding take_word take_pairs
decode_checkpoint_end c = do
  (att_len, c₁) ← take_word 4 c
  (att, c₂) ← take_pairs 8 att_len c₁
  (dpt_len, c₃) ← take_word 4 c₂
  (dpt, c₄) ← take_pairs 4 dpt_len c₃
  some (checkpoint_end att dpt, c₄)

-- The match of `decode_payload` on the tag.
unfoldable pub decode_kind : ℕ → Cursor → Option (LogRecordKind × Cursor)
unfolding decode_update decode_alloc_page decode_clr decode_checkpoint_end
decode_kind t c =
    if t == 0
    then some (begin, c)
    else if t == 1
    then some (commit, c)
    else if t == 2
    then some (abort, c)
    else if t == 3
    then some (end, c)
    else if t == 4
    then decode_update c
    else if t == 5
    then decode_alloc_page c
    else if t == 6
    then decode_clr c
    else if t == 7
    then some (checkpoint_begin, c)
    else if t == 8
    then decode_checkpoint_end c
    else none

abbrev pub is_empty : Cursor → Bool
is_empty [] = true
is_empty (b ∷ bs) = false

unfoldable pub decode_payload : ℕ → List ℕ → Option LogRecordKind
unfolding decode_kind
decode_payload t bytes = do
  (kind, rest) ← decode_kind t bytes
  if is_empty rest then some kind else none

pub record LoggedRecord : Type 0 where
  pub lsn : Lsn
  pub prev_lsn : Option Lsn
  pub txn_id : TxnId
  pub kind : LogRecordKind

abbrev pub or_zero : Option Lsn → ℕ
or_zero none = 0
or_zero (some lsn) = lsn

unfoldable pub encode_body : LoggedRecord → List ℕ
unfolding to_le_bytes tag encode_payload
encode_body r =
    to_le_bytes 8 r.lsn
    ++ (to_le_bytes 8 (or_zero r.prev_lsn)
        ++ (to_le_bytes 8 r.txn_id ++ tag r.kind ∷ encode_payload r.kind))

unfoldable pub encode_record : LoggedRecord → List ℕ
unfolding encode_body to_le_bytes crc32
encode_record r =
    let body = encode_body r in
    let total_len = (4 + length body + 4 + 4) % 2 ^ 32 in
    let front = to_le_bytes 4 total_len ++ body in
    front ++ (to_le_bytes 4 (crc32 front) ++ to_le_bytes 4 total_len)

-- `decode_record` behind the tests of the lengths and the checksum.
unfoldable pub decode_body : Cursor → Option LoggedRecord
unfolding take_word take_bytes decode_payload
decode_body cursor = do
  (lsn, c₁) ← take_word 8 cursor
  (prev_lsn_raw, c₂) ← take_word 8 c₁
  (txn_id, c₃) ← take_word 8 c₂
  (t, payload) ← take_word 1 c₃
  kind ← decode_payload t payload
  some (record {
    lsn = lsn;
    prev_lsn = if prev_lsn_raw == 0 then none else some prev_lsn_raw;
    txn_id = txn_id;
    kind = kind;
  })

unfoldable pub check_record : List ℕ → ℕ → Bool
unfolding crc32 from_le_bytes
check_record bytes total_len =
    if bytes_beq (drop (total_len - 4) bytes) (take 4 bytes)
    then crc32 (take (total_len - 8) bytes) == from_le_bytes (take 4 (drop (total_len - 8) bytes))
    else false

-- The tests of the front and the trailing length and of the checksum, then the body.
unfoldable pub decode_sized : List ℕ → ℕ → ℕ → Option (LoggedRecord × ℕ)
unfolding decode_body check_record
decode_sized bytes pos total_len = do
  bytes' ← (if ltb total_len min_record_len then none else slice bytes pos total_len)
  r ←
      (if check_record bytes' total_len
        then decode_body (take (total_len - 12) (drop 4 bytes'))
        else none)
  some (r, total_len)

unfoldable pub decode_record : List ℕ → ℕ → Option (LoggedRecord × ℕ)
unfolding decode_sized from_le_bytes
decode_record bytes pos = do front ← slice bytes pos 4; decode_sized bytes pos (from_le_bytes front)
