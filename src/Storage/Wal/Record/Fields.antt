-- ===== src/Storage/Wal/Record/Fields.antt =====
-- The fields and the payload of a log record of wal.rs read back from their bytes.
use simple_rdbms.Common.{ℕ, ◌%◌, ◌^◌, ◌<◌, ◌≡◌, refl, sym, ap, ◌∙◌}
use simple_rdbms.Common.{some, List, [], ◌∷◌, ◌++◌, length, arith}
use simple_rdbms.Common.{length-append, append_assoc, append-nil, take-length-append}
use simple_rdbms.Common.{drop-length-append, All}
use simple_rdbms.Common.Bytes.{to_le_bytes, length-to_le_bytes}
use simple_rdbms.Common.Bytes.{from_le_bytes-to_le_bytes}
use simple_rdbms.Ids.{PageId, TxnId, Lsn}
use simple_rdbms.Storage.Wal.Record.{
  LogRecordKind, begin, commit, abort, end, update, alloc_page, clr,
}
use simple_rdbms.Storage.Wal.Record.{checkpoint_begin, checkpoint_end, tag, encode_pairs}
use simple_rdbms.Storage.Wal.Record.{encode_len_prefixed, encode_payload, Cursor, take_bytes}
use simple_rdbms.Storage.Wal.Record.{take_word, take_len_prefixed, take_pairs, decode_update}
use simple_rdbms.Storage.Wal.Record.{
  decode_alloc_page, decode_clr, decode_checkpoint_end, decode_kind,
}
use simple_rdbms.Storage.Wal.Record.{decode_payload}

-- The fields fit the words that the record has for them.
abbrev pub PairsFit : ℕ → List (ℕ × Lsn) → Type 0
PairsFit k pairs = All (λ p. (p.0 < 256 ^ k) × (p.1 < 2 ^ 64)) pairs

abbrev pub KindFits : LogRecordKind → Type 0
KindFits (update page_id offset before after) =
    (page_id < 2 ^ 32) × (offset < 2 ^ 16) × (length before < 2 ^ 32) × (length after < 2 ^ 32)
KindFits (alloc_page page_id) = page_id < 2 ^ 32
KindFits (clr page_id offset after undo_next_lsn) =
    (page_id < 2 ^ 32) × (offset < 2 ^ 16) × (length after < 2 ^ 32) × (undo_next_lsn < 2 ^ 64)
KindFits (checkpoint_end att dpt) =
    (length att < 2 ^ 32) × (length dpt < 2 ^ 32) × PairsFit 8 att × PairsFit 4 dpt
KindFits _ = Unit

take_bytes-append :
    (xs rest : List ℕ) (n : ℕ) → n ≡ length xs → take_bytes n (xs ++ rest) ≡ some (xs, rest)
unfolding take_bytes
take_bytes-append xs rest n h =
    rw h (
      ground (arith, length-append xs rest, take-length-append xs rest, drop-length-append xs rest))

pub take_word-append :
    (k x : ℕ) (rest : List ℕ) → x < 256 ^ k → take_word k (to_le_bytes k x ++ rest) ≡ some (x, rest)
unfolding take_word
take_word-append k x rest h =
    rw (take_bytes-append (to_le_bytes k x) rest k (sym (length-to_le_bytes k x)))
      (ap (λ y. some (y, rest)) (from_le_bytes-to_le_bytes k x h))

take_len_prefixed_lem :
    (c c₁ : Cursor) (len : ℕ)
    → take_word 4 c ≡ some (len, c₁)
    → take_len_prefixed c ≡ take_bytes len c₁
unfolding take_len_prefixed
take_len_prefixed_lem c c₁ len e = rw e refl

encode_len_prefixed_lem :
    (bytes rest : List ℕ)
    → encode_len_prefixed bytes ++ rest ≡ to_le_bytes 4 (length bytes % 2 ^ 32) ++ (bytes ++ rest)
unfolding encode_len_prefixed
encode_len_prefixed_lem bytes rest = append_assoc (to_le_bytes 4 (length bytes % 2 ^ 32)) bytes rest

take_len_prefixed-append :
    (bytes rest : List ℕ)
    → length bytes < 2 ^ 32
    → take_len_prefixed (encode_len_prefixed bytes ++ rest) ≡ some (bytes, rest)
take_len_prefixed-append bytes rest h =
    ap take_len_prefixed (encode_len_prefixed_lem bytes rest)
    ∙ take_len_prefixed_lem _ _ _
        (take_word-append 4 (length bytes % 2 ^ 32) (bytes ++ rest) (omega arith))
    ∙ take_bytes-append bytes rest (length bytes % 2 ^ 32) (omega arith)

take_pairs-append :
    (k : ℕ) (pairs : List (ℕ × Lsn)) (rest : List ℕ)
    → PairsFit k pairs
    → take_pairs k (length pairs) (encode_pairs k pairs ++ rest) ≡ some (pairs, rest)
unfolding take_pairs encode_pairs
take_pairs-append k [] rest h = refl
take_pairs-append k ((id, lsn) ∷ pairs) rest ((hi, hl), hs) =
    rw
      (
        append_assoc (to_le_bytes k id) (to_le_bytes 8 lsn ++ encode_pairs k pairs) rest,
        append_assoc (to_le_bytes 8 lsn) (encode_pairs k pairs) rest,
        take_word-append k id (to_le_bytes 8 lsn ++ (encode_pairs k pairs ++ rest)) hi,
        take_word-append 8 lsn (encode_pairs k pairs ++ rest) hl,
        take_pairs-append k pairs rest hs,
      )
      refl

-- Four fields in a row, read one after the other.
append_four :
    (ws xs ys zs rest : List ℕ)
    → (ws ++ (xs ++ (ys ++ zs))) ++ rest ≡ ws ++ (xs ++ (ys ++ (zs ++ rest)))
append_four ws xs ys zs rest = simp append_assoc

decode_update_lem :
    (c c₁ c₂ c₃ : Cursor) {c₄ : Cursor} {page_id offset : ℕ} {before after : List ℕ}
    → take_word 4 c ≡ some (page_id, c₁)
    → take_word 2 c₁ ≡ some (offset, c₂)
    → take_len_prefixed c₂ ≡ some (before, c₃)
    → take_len_prefixed c₃ ≡ some (after, c₄)
    → decode_update c ≡ some (update page_id offset before after, c₄)
unfolding decode_update
decode_update_lem c c₁ c₂ c₃ p o b a = rw (p, o, b, a) refl

decode_update-append :
    (page_id offset : ℕ) (before after rest : List ℕ)
    → KindFits (update page_id offset before after)
    → decode_update (encode_payload (update page_id offset before after) ++ rest)
      ≡ some (update page_id offset before after, rest)
unfolding encode_payload
decode_update-append page_id offset before after rest (hp, ho, hb, ha) =
    let bytes = encode_len_prefixed before in
    let more = encode_len_prefixed after in
    ap decode_update (append_four (to_le_bytes 4 page_id) (to_le_bytes 2 offset) bytes more rest)
    ∙ decode_update_lem _ _ _ _
        (take_word-append 4 page_id (to_le_bytes 2 offset ++ (bytes ++ (more ++ rest))) hp)
        (take_word-append 2 offset (bytes ++ (more ++ rest)) ho)
        (take_len_prefixed-append before (more ++ rest) hb) (take_len_prefixed-append after rest ha)

decode_clr_lem :
    (c c₁ c₂ c₃ : Cursor) {c₄ : Cursor} {page_id offset lsn : ℕ} {after : List ℕ}
    → take_word 4 c ≡ some (page_id, c₁)
    → take_word 2 c₁ ≡ some (offset, c₂)
    → take_len_prefixed c₂ ≡ some (after, c₃)
    → take_word 8 c₃ ≡ some (lsn, c₄)
    → decode_clr c ≡ some (clr page_id offset after lsn, c₄)
unfolding decode_clr
decode_clr_lem c c₁ c₂ c₃ p o a l = rw (p, o, a, l) refl

decode_clr-append :
    (page_id offset : ℕ) (after : List ℕ) (lsn : Lsn) (rest : List ℕ)
    → KindFits (clr page_id offset after lsn)
    → decode_clr (encode_payload (clr page_id offset after lsn) ++ rest)
      ≡ some (clr page_id offset after lsn, rest)
unfolding encode_payload
decode_clr-append page_id offset after lsn rest (hp, ho, ha, hl) =
    let bytes = encode_len_prefixed after in
    let more = to_le_bytes 8 lsn in
    ap decode_clr (append_four (to_le_bytes 4 page_id) (to_le_bytes 2 offset) bytes more rest)
    ∙ decode_clr_lem _ _ _ _
        (take_word-append 4 page_id (to_le_bytes 2 offset ++ (bytes ++ (more ++ rest))) hp)
        (take_word-append 2 offset (bytes ++ (more ++ rest)) ho)
        (take_len_prefixed-append after (more ++ rest) ha) (take_word-append 8 lsn rest hl)

take_counted :
    (k : ℕ) (pairs : List (ℕ × Lsn)) (n : ℕ) (rest : List ℕ)
    → n ≡ length pairs
    → PairsFit k pairs
    → take_pairs k n (encode_pairs k pairs ++ rest) ≡ some (pairs, rest)
take_counted k pairs n rest e h = rw e (take_pairs-append k pairs rest h)

decode_checkpoint_end_lem :
    (c c₁ c₂ c₃ : Cursor) {c₄ : Cursor} (m n : ℕ) {att dpt : List (ℕ × Lsn)}
    → take_word 4 c ≡ some (m, c₁)
    → take_pairs 8 m c₁ ≡ some (att, c₂)
    → take_word 4 c₂ ≡ some (n, c₃)
    → take_pairs 4 n c₃ ≡ some (dpt, c₄)
    → decode_checkpoint_end c ≡ some (checkpoint_end att dpt, c₄)
unfolding decode_checkpoint_end
decode_checkpoint_end_lem c c₁ c₂ c₃ m n p a q d = rw (p, a, q, d) refl

decode_checkpoint_end-append :
    (att : List (TxnId × Lsn)) (dpt : List (PageId × Lsn)) (rest : List ℕ)
    → KindFits (checkpoint_end att dpt)
    → decode_checkpoint_end (encode_payload (checkpoint_end att dpt) ++ rest)
      ≡ some (checkpoint_end att dpt, rest)
unfolding encode_payload
decode_checkpoint_end-append att dpt rest (ha, hd, fa, fd) =
    let m = length att % 2 ^ 32 in
    let n = length dpt % 2 ^ 32 in
    let bytes = encode_pairs 8 att in
    let more = encode_pairs 4 dpt in
    ap decode_checkpoint_end (append_four (to_le_bytes 4 m) bytes (to_le_bytes 4 n) more rest)
    ∙ decode_checkpoint_end_lem _ _ _ _ _ _
        (take_word-append 4 m (bytes ++ (to_le_bytes 4 n ++ (more ++ rest))) (omega arith))
        (take_counted 8 att m (to_le_bytes 4 n ++ (more ++ rest)) (omega arith) fa)
        (take_word-append 4 n (more ++ rest) (omega arith))
        (take_counted 4 dpt n rest (omega arith) fd)

decode_kind-append :
    (kind : LogRecordKind) (rest : List ℕ)
    → KindFits kind
    → decode_kind (tag kind) (encode_payload kind ++ rest) ≡ some (kind, rest)
unfolding decode_kind tag
decode_kind-append (update page_id offset before after) rest h =
    decode_update-append page_id offset before after rest h
decode_kind-append (alloc_page page_id) rest h =
    unfold decode_alloc_page encode_payload in rw (take_word-append 4 page_id rest h) refl
decode_kind-append (clr page_id offset after lsn) rest h =
    decode_clr-append page_id offset after lsn rest h
decode_kind-append (checkpoint_end att dpt) rest h = decode_checkpoint_end-append att dpt rest h
decode_kind-append begin rest h = unfold encode_payload in refl
decode_kind-append commit rest h = unfold encode_payload in refl
decode_kind-append abort rest h = unfold encode_payload in refl
decode_kind-append end rest h = unfold encode_payload in refl
decode_kind-append checkpoint_begin rest h = unfold encode_payload in refl

pub decode_payload-encode_payload :
    (kind : LogRecordKind)
    → KindFits kind
    → decode_payload (tag kind) (encode_payload kind) ≡ some kind
unfolding decode_payload
decode_payload-encode_payload kind h =
    ap (decode_payload (tag kind)) (sym (append-nil (encode_payload kind)))
    ∙ rw (decode_kind-append kind [] h) refl
