-- ===== src/Storage/Wal/Record/RoundTrip.antt =====
-- `decode_record` of wal.rs reads back what `encode_record` wrote, wherever it stands.
use simple_rdbms.Common.{ℕ, ◌+◌, ◌-◌, ◌%◌, ◌^◌, ◌≤◌, ◌<◌, ◌≡◌, refl, sym, ap, ◌∙◌}
use simple_rdbms.Common.{true, false, Option, none, some, List, ◌∷◌, ◌++◌, length, arith}
use simple_rdbms.Common.{take, drop, slice, ltb, ◌==◌, ==_iff, if◌then◌else◌}
use simple_rdbms.Common.{length-append, append_assoc, take-length-append}
use simple_rdbms.Common.{drop-length-append}
use simple_rdbms.Common.Bytes.{to_le_bytes, from_le_bytes, length-to_le_bytes}
use simple_rdbms.Common.Bytes.{from_le_bytes-to_le_bytes}
use simple_rdbms.Common.Options.{bytes_beq_refl}
use simple_rdbms.Ids.{Lsn}
use simple_rdbms.Crc.{crc32}
use simple_rdbms.Crc.Bitwise.{crc32_lt}
use simple_rdbms.Storage.Wal.Record.{LogRecordKind}
use simple_rdbms.Storage.Wal.Record.{tag}
use simple_rdbms.Storage.Wal.Record.{encode_payload, Cursor, take_bytes}
use simple_rdbms.Storage.Wal.Record.{take_word}
use simple_rdbms.Storage.Wal.Record.{
  decode_payload, LoggedRecord, or_zero, encode_body, min_record_len,
}
use simple_rdbms.Storage.Wal.Record.{
  encode_record, decode_body, check_record, decode_sized, decode_record,
}
use simple_rdbms.Storage.Wal.Record.Fields.{
  KindFits, take_word-append, decode_payload-encode_payload,
}

abbrev pub PrevFits : Option Lsn → Type 0
PrevFits none = Unit
PrevFits (some lsn) = (0 < lsn) × (lsn < 2 ^ 64)

-- A record that the log can hold: an lsn of a record before it is not 0.
abbrev pub RecordFits : LoggedRecord → Type 0
RecordFits r =
    (r.lsn < 2 ^ 64)
    × PrevFits r.prev_lsn
    × (r.txn_id < 2 ^ 64)
    × KindFits r.kind
    × (12 + length (encode_body r) < 2 ^ 32)

decode_body_lem :
    (c c₁ c₂ c₃ : Cursor) (lsn prev txn_id t : ℕ) (payload : List ℕ) (kind : LogRecordKind)
    → take_word 8 c ≡ some (lsn, c₁)
    → take_word 8 c₁ ≡ some (prev, c₂)
    → take_word 8 c₂ ≡ some (txn_id, c₃)
    → take_word 1 c₃ ≡ some (t, payload)
    → decode_payload t payload ≡ some kind
    → decode_body c
      ≡ some (record {
        lsn = lsn;
        prev_lsn = if prev == 0 then none else some prev;
        txn_id = txn_id;
        kind = kind;
      })
unfolding decode_body
decode_body_lem c c₁ c₂ c₃ lsn prev txn_id t payload kind a b d e f = rw (a, b, d, e, f) refl

take_tag : (t : ℕ) (rest : List ℕ) → take_word 1 (t ∷ rest) ≡ some (t, rest)
unfolding take_word from_le_bytes take_bytes
take_tag t rest = ground arith

prev_of :
    (prev : Option Lsn)
    → PrevFits prev
    → ((if or_zero prev == 0 then none else some (or_zero prev)) ≡ prev) × (or_zero prev < 2 ^ 64)
prev_of none h = (refl, omega arith)
prev_of (some lsn) (h, k) = (ground arith, k)

decode_body-encode_body : (r : LoggedRecord) → RecordFits r → decode_body (encode_body r) ≡ some r
unfolding encode_body
decode_body-encode_body r (hl, hp, ht, hk, hn) =
    let prev = or_zero r.prev_lsn in
    let tail = tag r.kind ∷ encode_payload r.kind in
    decode_body_lem _ _ _ _ r.lsn prev r.txn_id (tag r.kind) (encode_payload r.kind) r.kind
      (take_word-append 8 r.lsn (to_le_bytes 8 prev ++ (to_le_bytes 8 r.txn_id ++ tail)) hl)
      (take_word-append 8 prev (to_le_bytes 8 r.txn_id ++ tail) (prev_of r.prev_lsn hp).1)
      (take_word-append 8 r.txn_id tail ht) (take_tag (tag r.kind) (encode_payload r.kind))
      (decode_payload-encode_payload r.kind hk)
    ∙ ap (λ p. some (record { lsn = r.lsn; prev_lsn = p; txn_id = r.txn_id; kind = r.kind }))
        (prev_of r.prev_lsn hp).0

take_front : (xs ys : List ℕ) (n : ℕ) → n ≡ length xs → take n (xs ++ ys) ≡ xs
take_front xs ys n h = rw h (take-length-append xs ys)

drop_front : (xs ys : List ℕ) (n : ℕ) → n ≡ length xs → drop n (xs ++ ys) ≡ ys
drop_front xs ys n h = rw h (drop-length-append xs ys)

slice_middle :
    (xs ys zs : List ℕ) (n : ℕ) → n ≡ length ys → slice (xs ++ (ys ++ zs)) (length xs) n ≡ some ys
slice_middle xs ys zs n h = rw h (
    ground (
      arith,
      length-append xs (ys ++ zs),
      length-append ys zs,
      drop-length-append xs (ys ++ zs),
      take-length-append ys zs,
    ))

decode_record_lem :
    (bytes : List ℕ) (pos : ℕ) (front : List ℕ) (total_len : ℕ) (bytes' : List ℕ) (r : LoggedRecord)
    → slice bytes pos 4 ≡ some front
    → from_le_bytes front ≡ total_len
    → ltb total_len min_record_len ≡ false
    → slice bytes pos total_len ≡ some bytes'
    → check_record bytes' total_len ≡ true
    → decode_body (take (total_len - 12) (drop 4 bytes')) ≡ some r
    → decode_record bytes pos ≡ some (r, total_len)
unfolding decode_record decode_sized
decode_record_lem bytes pos front total_len bytes' r a e m b c d = rw (a, e, m, b, c, d) refl

check_record_lem :
    (bytes : List ℕ) (n : ℕ) (len front crc : List ℕ)
    → drop (n - 4) bytes ≡ len
    → take 4 bytes ≡ len
    → take (n - 8) bytes ≡ front
    → take 4 (drop (n - 8) bytes) ≡ crc
    → from_le_bytes crc ≡ crc32 front
    → check_record bytes n ≡ true
unfolding check_record
check_record_lem bytes n len front crc a b c d e =
    rw (a, b, c, d, e, bytes_beq_refl len) ((==_iff (crc32 front) (crc32 front)).1 refl)

-- The bytes of a record: the length and the body, the checksum of these, and the length again.
module _ (len body crc : List ℕ) (n : ℕ) (hl : length len ≡ 4) (hc : length crc ≡ 4)
    (hn : n ≡ 12 + length body) where
  length-framed : length ((len ++ body) ++ (crc ++ len)) ≡ n
  length-framed = omega (
    arith,
    length-append (len ++ body) (crc ++ len),
    length-append len body,
    length-append crc len,
    hl,
    hc,
    hn,
  )

  framed_checks :
      from_le_bytes crc ≡ crc32 (len ++ body)
      → check_record ((len ++ body) ++ (crc ++ len)) n ≡ true
  framed_checks h =
      check_record_lem ((len ++ body) ++ (crc ++ len)) n len (len ++ body) crc
        (ap (drop (n - 4)) (sym (append_assoc (len ++ body) crc len))
          ∙ drop_front ((len ++ body) ++ crc) len (n - 4)
              (omega (arith, hn, hl, hc, length-append (len ++ body) crc, length-append len body)))
        (ap (take 4) (append_assoc len body (crc ++ len))
          ∙ take_front len (body ++ (crc ++ len)) 4 (sym hl))
        (take_front (len ++ body) (crc ++ len) (n - 8)
          (omega (arith, hn, hl, length-append len body)))
        (ap (take 4) (
            drop_front (len ++ body) (crc ++ len) (n - 8)
              (omega (arith, hn, hl, length-append len body)))
          ∙ take_front crc len 4 (sym hc))
        h

  body_of_framed : take (n - 12) (drop 4 ((len ++ body) ++ (crc ++ len))) ≡ body
  body_of_framed =
      ap (λ z. take (n - 12) (drop 4 z)) (append_assoc len body (crc ++ len))
      ∙ ap (take (n - 12)) (drop_front len (body ++ (crc ++ len)) 4 (sym hl))
      ∙ take_front body (crc ++ len) (n - 12) (omega (arith, hn))

  decode_framed :
      (before rest : List ℕ) (r : LoggedRecord)
      → from_le_bytes len ≡ n
      → from_le_bytes crc ≡ crc32 (len ++ body)
      → ltb n min_record_len ≡ false
      → decode_body body ≡ some r
      → decode_record (before ++ (((len ++ body) ++ (crc ++ len)) ++ rest)) (length before)
        ≡ some (r, n)
  decode_framed before rest r h k m d =
      decode_record_lem _ (length before) len n ((len ++ body) ++ (crc ++ len)) r
        (ap (λ z. slice (before ++ z) (length before) 4)
            (append_assoc (len ++ body) (crc ++ len) rest
              ∙ append_assoc len body ((crc ++ len) ++ rest))
          ∙ slice_middle before len (body ++ ((crc ++ len) ++ rest)) 4 (sym hl))
        h m (slice_middle before ((len ++ body) ++ (crc ++ len)) rest n (sym length-framed))
        (framed_checks k) (ap decode_body body_of_framed ∙ d)

body_long : (r : LoggedRecord) → 25 ≤ length (encode_body r)
unfolding encode_body
body_long r =
    let prev = to_le_bytes 8 (or_zero r.prev_lsn) in
    let tail = tag r.kind ∷ encode_payload r.kind in
    omega (
      arith,
      length-append (to_le_bytes 8 r.lsn) (prev ++ (to_le_bytes 8 r.txn_id ++ tail)),
      length-append prev (to_le_bytes 8 r.txn_id ++ tail),
      length-append (to_le_bytes 8 r.txn_id) tail,
      length-to_le_bytes 8 r.lsn,
      length-to_le_bytes 8 (or_zero r.prev_lsn),
      length-to_le_bytes 8 r.txn_id,
    )

-- A record whose fields fit their words is read back from its bytes, whatever stands before and
-- behind them in the log, together with the number of its bytes.
pub decode_record-encode_record :
    (before rest : List ℕ) (r : LoggedRecord)
    → RecordFits r
    → decode_record (before ++ (encode_record r ++ rest)) (length before)
      ≡ some (r, length (encode_record r))
unfolding encode_record
decode_record-encode_record before rest r fits =
    let body = encode_body r in
    let n = (4 + length body + 4 + 4) % 2 ^ 32 in
    let len = to_le_bytes 4 n in
    let crc = to_le_bytes 4 (crc32 (len ++ body)) in
    let hn : n ≡ 12 + length body = omega (arith, fits.4) in
    let hl = length-to_le_bytes 4 n in
    let hc = length-to_le_bytes 4 (crc32 (len ++ body)) in
    decode_framed len body crc n hl hc hn before rest r
      (from_le_bytes-to_le_bytes 4 n (omega arith))
      (from_le_bytes-to_le_bytes 4 (crc32 (len ++ body)) (crc32_lt (len ++ body)))
      (ground (arith, hn, body_long r)) (decode_body-encode_body r fits)
    ∙ ap (λ k. some (r, k)) (sym (length-framed len body crc n hl hc hn))
