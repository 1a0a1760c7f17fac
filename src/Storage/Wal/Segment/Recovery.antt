-- ===== src/Storage/Wal/Segment/Recovery.antt =====
-- What opening a segment of wal.rs recovers of the records that were written to it.
use simple_rdbms.Common.{ℕ, suc, ◌+◌, ◌-◌, ◌≤◌, ◌<◌, ◌≡◌, refl, sym, ap, ◌∙◌, none}
use simple_rdbms.Common.{some, List, [], ◌∷◌, ◌++◌, length, take, slice, All, arith}
use simple_rdbms.Common.{if◌then◌else◌, ◌==◌, ok, err}
use simple_rdbms.Common.{length-append, append_assoc, take-length-append}
use simple_rdbms.Common.Map.{nat_eq}
use simple_rdbms.Storage.Wal.Record.{LoggedRecord, encode_record, decode_record}
use simple_rdbms.Storage.Wal.Record.RoundTrip.{RecordFits, decode_record-encode_record}
use simple_rdbms.Storage.Wal.Segment.{scan_loop, scan_decoded_records}
use simple_rdbms.Storage.Wal.Segment.{scan_active_segment, scan_sealed_segment}
use simple_rdbms.Storage.Wal.Segment.{corrupt_log_header}
use simple_rdbms.Storage.Wal.Segment.Scan.{encode_records, last_lsns, scan_loop-records}
use simple_rdbms.Storage.Wal.Segment.Scan.{decode_record-within}

records_long : (rs : List LoggedRecord) → All RecordFits rs → length rs ≤ length (encode_records rs)
unfolding encode_records
records_long [] h = omega arith
records_long (r ∷ rs) (h, hs) =
    let (some_bytes, within) =
      decode_record-within ([] ++ (encode_record r ++ [])) 0 r (length (encode_record r))
        (decode_record-encode_record [] [] r h) in
    omega
      (arith, some_bytes, records_long rs hs, length-append (encode_record r) (encode_records rs))

-- Nothing decodes behind the last byte.
decode_record-end : (bytes : List ℕ) (pos : ℕ) → length bytes ≤ pos → decode_record bytes pos ≡ none
unfolding decode_record
decode_record-end bytes pos h = rw (nothing_there bytes pos h) refl
  where
    nothing_there : (bytes : List ℕ) (pos : ℕ) → length bytes ≤ pos → slice bytes pos 4 ≡ none
    nothing_there bytes pos h = ground arith

module _ (header : List ℕ) (rs : List LoggedRecord) (torn : List ℕ) (sized : length header ≡ 16)
    (fits : All RecordFits rs)
    (stop : decode_record
        (header ++ (encode_records rs ++ torn))
        (length header + length (encode_records rs))
      ≡ none)
    (start_lsn : ℕ) where
  scan_lem :
      scan_loop
        (suc (length (header ++ (encode_records rs ++ torn))))
        (header ++ (encode_records rs ++ torn))
        16
        []
      ≡ some (16 + length (encode_records rs), last_lsns rs [])
  scan_lem =
      let bytes = header ++ (encode_records rs ++ torn) in
      let enough : length rs < suc (length bytes) = omega (
        arith,
        records_long rs fits,
        length-append header (encode_records rs ++ torn),
        length-append (encode_records rs) torn,
      ) in
      ap (λ p. scan_loop (suc (length bytes)) bytes p []) (sym sized)
      ∙ scan_loop-records rs header torn bytes (suc (length bytes)) [] fits refl enough stop
      ∙ ap (λ n. some (n + length (encode_records rs), last_lsns rs [])) sized

  scan_decoded_records_lem :
      scan_decoded_records (header ++ (encode_records rs ++ torn)) start_lsn
      ≡ some (
        start_lsn + (16 + length (encode_records rs) - 16),
        16 + length (encode_records rs),
        last_lsns rs [],
      )
  unfolding scan_decoded_records
  scan_decoded_records_lem = rw scan_lem refl

  -- A segment whose records fit their words and are followed by bytes that are no record, such as
  -- one that was written in part, is cut off behind the records, the next lsn is where the cut
  -- is, and the last lsn of each transaction is the one of its last record.
  pub scan_active_segment-records :
      scan_active_segment (header ++ (encode_records rs ++ torn)) start_lsn
      ≡ some (header ++ encode_records rs, start_lsn + length (encode_records rs), last_lsns rs [])
  unfolding scan_active_segment
  scan_active_segment-records =
      rw scan_decoded_records_lem
        (ap {A = List ℕ × ℕ} (λ p. some (p.0, p.1, last_lsns rs [])) (λ i. (cut i, next i)))
    where
      cut :
          take (16 + length (encode_records rs)) (header ++ (encode_records rs ++ torn))
          ≡ header ++ encode_records rs
      cut =
          ap (λ z. take (16 + length (encode_records rs)) z)
            (sym (append_assoc header (encode_records rs) torn))
          ∙ ap (λ n. take n ((header ++ encode_records rs) ++ torn))
              (omega (arith, sized, length-append header (encode_records rs)))
          ∙ take-length-append (header ++ encode_records rs) torn

      next :
          start_lsn + (16 + length (encode_records rs) - 16)
          ≡ start_lsn + length (encode_records rs)
      next = omega arith

  -- A sealed segment whose records fit their words opens with the next lsn behind them and the
  -- last lsn of each transaction if no bytes follow the records, and is an error if some do.
  pub scan_sealed_segment-records :
      scan_sealed_segment (header ++ (encode_records rs ++ torn)) start_lsn
      ≡ some (
          if length torn == 0
          then ok (start_lsn + length (encode_records rs), last_lsns rs [])
          else err corrupt_log_header)
  unfolding scan_sealed_segment
  scan_sealed_segment-records = rw scan_decoded_records_lem (
      ground (
        arith,
        sized,
        length-append header (encode_records rs ++ torn),
        length-append (encode_records rs) torn,
      ))
