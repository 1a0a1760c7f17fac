-- ===== src/Storage/Wal/Segment/Scan.antt =====
-- The scan of a segment of wal.rs ends, and finds the records that were written, up to the first
-- bytes that are no record.
use simple_rdbms.Common.{
  ℕ, zero, suc, ◌+◌, ◌-◌, ◌≤◌, ◌<◌, ◌≡◌, ◌≢◌, refl, sym, ap, ◌∙◌, Option, none,
}
use simple_rdbms.Common.{some, List, [], ◌∷◌, ◌++◌, length, take, slice, drop, All, arith, inl, inr}
use simple_rdbms.Common.{Option-cases, ltb, if◌then◌else◌}
use simple_rdbms.Common.{length-append, append_assoc}
use simple_rdbms.Common.Map.{Map, nat_eq, insert}
use simple_rdbms.Common.Bytes.{from_le_bytes}
use simple_rdbms.Ids.{TxnId, Lsn}
use simple_rdbms.Storage.Wal.Record.{LoggedRecord, encode_record, decode_record, min_record_len}
use simple_rdbms.Storage.Wal.Record.{check_record, decode_body, decode_sized}
use simple_rdbms.Storage.Wal.Record.RoundTrip.{RecordFits, decode_record-encode_record}
use simple_rdbms.Storage.Wal.Segment.{segment_header_len, scan_loop, scan_decoded_records}
use simple_rdbms.Common.Options.{◌>>=◌, split_some}

guarded_slice :
    (bytes : List ℕ) (pos n : ℕ) {b : List ℕ}
    → (if ltb n min_record_len then none else slice bytes pos n) ≡ some b
    → (0 < n) × (pos + n ≤ length bytes)
guarded_slice bytes pos n h = ground arith

module _ (bytes : List ℕ) (pos : ℕ) (r : LoggedRecord) (n : ℕ) where
  decode_sized-within :
      (total_len : ℕ)
      → decode_sized bytes pos total_len ≡ some (r, n)
      → (0 < n) × (pos + n ≤ length bytes)
  unfolding decode_sized
  decode_sized-within total_len h =
      let (bytes', e, h') =
        split_some (if ltb total_len min_record_len then none else slice bytes pos total_len)
          (λ b.
            (if check_record b total_len
              then decode_body (take (total_len - 12) (drop 4 b))
              else none)
            >>= λ q. some (q, total_len))
          h in
      let (q, f, g) =
        split_some
          (if check_record bytes' total_len
            then decode_body (take (total_len - 12) (drop 4 bytes'))
            else none)
          (λ q. some (q, total_len)) h' in
      sized total_len g (guarded_slice bytes pos total_len e)
    where
      sized :
          (total_len : ℕ) {q : LoggedRecord}
          → ◌≡◌ {A = Option (LoggedRecord × ℕ)} (some (q, total_len)) (some (r, n))
          → (0 < total_len) × (pos + total_len ≤ length bytes)
          → (0 < n) × (pos + n ≤ length bytes)
      sized total_len g k = ground (arith, g, k)

  -- A record lies within the bytes.
  pub decode_record-within :
      decode_record bytes pos ≡ some (r, n) → (0 < n) × (pos + n ≤ length bytes)
  unfolding decode_record
  decode_record-within h =
      let (front, e, h') =
        split_some (slice bytes pos 4) (λ b. decode_sized bytes pos (from_le_bytes b)) h in
      decode_sized-within (from_le_bytes front) h'

-- Enough fuel: a round leaves fewer bytes behind it.
scan_loop_total :
    (fuel : ℕ) (bytes : List ℕ) (pos : ℕ) (m : Map TxnId Lsn)
    → 0 < fuel
    → length bytes < pos + fuel
    → scan_loop fuel bytes pos m ≢ none
unfolding scan_loop
scan_loop_total zero bytes pos m p h e = absurd (omega (arith, p))
scan_loop_total (suc fuel) bytes pos m p h e = elim (Option-cases (decode_record bytes pos)) [
  | inl d ↦ ground (arith, d, e)
  | inr ((r, n), d) ↦
      let (k, l) = decode_record-within bytes pos r n d in
      scan_loop_total fuel bytes (pos + n) (insert r.txn_id r.lsn m) (omega (arith, h, k, l))
        (omega (arith, h, k)) (ground (arith, d, e))
]

-- The scan of any segment comes to an end.
pub scan_decoded_records_total :
    (bytes : List ℕ) (start_lsn : ℕ) → scan_decoded_records bytes start_lsn ≢ none
unfolding scan_decoded_records
scan_decoded_records_total bytes start_lsn e =
    elim (Option-cases (scan_loop (suc (length bytes)) bytes segment_header_len [])) [
      | inl d ↦
          scan_loop_total (suc (length bytes)) bytes segment_header_len [] (omega arith)
            (omega arith) d
      | inr (p, d) ↦ ground (arith, d, e)
    ]

unfoldable pub encode_records : List LoggedRecord → List ℕ
unfolding encode_record
encode_records [] = []
encode_records (r ∷ rs) = encode_record r ++ encode_records rs

-- The last lsn of each transaction after the records.
unfoldable pub last_lsns : List LoggedRecord → Map TxnId Lsn → Map TxnId Lsn
unfolding insert
last_lsns [] m = m
last_lsns (r ∷ rs) m = last_lsns rs (insert r.txn_id r.lsn m)

encode_records_cons :
    (before more : List ℕ) (r : LoggedRecord) (rs : List LoggedRecord)
    → before ++ (encode_records (r ∷ rs) ++ more)
      ≡ (before ++ encode_record r) ++ (encode_records rs ++ more)
unfolding encode_records
encode_records_cons before more r rs = simp append_assoc

pub length-encode_records_cons :
    (r : LoggedRecord) (rs : List LoggedRecord)
    → length (encode_records (r ∷ rs)) ≡ length (encode_record r) + length (encode_records rs)
unfolding encode_records
length-encode_records_cons r rs = length-append (encode_record r) (encode_records rs)

no_records : (n : ℕ) → n ≡ n + length (encode_records [])
unfolding encode_records
no_records n = omega arith

scan_loop-step :
    (fuel : ℕ) (bytes : List ℕ) (pos : ℕ) (m : Map TxnId Lsn) (r : LoggedRecord) (n : ℕ)
    → decode_record bytes pos ≡ some (r, n)
    → scan_loop (suc fuel) bytes pos m ≡ scan_loop fuel bytes (pos + n) (insert r.txn_id r.lsn m)
unfolding scan_loop
scan_loop-step fuel bytes pos m r n d = rw (d, scan_loop) refl

scan_loop-stop :
    (fuel : ℕ) (bytes : List ℕ) (pos : ℕ) (m : Map TxnId Lsn)
    → decode_record bytes pos ≡ none
    → scan_loop (suc fuel) bytes pos m ≡ some (pos, m)
unfolding scan_loop
scan_loop-stop fuel bytes pos m d = rw (d, scan_loop) refl

pub scan_loop-records :
    (rs : List LoggedRecord) (before more bytes : List ℕ) (fuel : ℕ) (m : Map TxnId Lsn)
    → All RecordFits rs
    → bytes ≡ before ++ (encode_records rs ++ more)
    → length rs < fuel
    → decode_record bytes (length before + length (encode_records rs)) ≡ none
    → scan_loop fuel bytes (length before) m
      ≡ some (length before + length (encode_records rs), last_lsns rs m)
unfolding last_lsns
scan_loop-records rs before more bytes zero m fits e f stop = absurd (omega (arith, f))
scan_loop-records [] before more bytes (suc fuel) m fits e f stop =
    scan_loop-stop fuel bytes (length before) m
      (ap (decode_record bytes) (no_records (length before)) ∙ stop)
    ∙ ap (λ p. some (p, m)) (no_records (length before))
scan_loop-records (r ∷ rs) before more bytes (suc fuel) m (h, fits) e f stop =
    let n = length (encode_record r) in
    let lens = length-append before (encode_record r) in
    let whole = length-encode_records_cons r rs in
    let place : length before + length (encode_records (r ∷ rs))
        ≡ length (before ++ encode_record r) + length (encode_records rs) =
      omega (arith, lens, whole) in
    let e' = e ∙ encode_records_cons before more r rs in
    scan_loop-step fuel bytes (length before) m r n (
      ap (λ z. decode_record z (length before))
        (e' ∙ append_assoc before (encode_record r) (encode_records rs ++ more))
      ∙ decode_record-encode_record before (encode_records rs ++ more) r h)
    ∙ ap (λ p. scan_loop fuel bytes p (insert r.txn_id r.lsn m)) (sym lens)
    ∙ scan_loop-records rs (before ++ encode_record r) more bytes fuel (insert r.txn_id r.lsn m)
        fits e' (omega (arith, f)) (ap (decode_record bytes) (sym place) ∙ stop)
    ∙ ap (λ p. some (p, last_lsns rs (insert r.txn_id r.lsn m))) (sym place)
