-- ===== src/Tests/Log.antt =====
-- A segment with one record, and with bytes that are no record behind it.
use simple_rdbms.Common.{ℕ, ◌+◌, ◌≡◌, ◌≢◌, refl, arith, List, [], ◌∷◌, ◌++◌}
use simple_rdbms.Common.{none, some, ok, err, length, replicate, ◌==◌, if◌then◌else◌}
use simple_rdbms.Common.Xor.{xor}
use simple_rdbms.Crc.{crc32}
use simple_rdbms.Crc.Bitwise.{divide, crc32-divide}
use simple_rdbms.Storage.Wal.Record.{LoggedRecord, update, encode_body, encode_record}
use simple_rdbms.Storage.Wal.Record.{decode_record}
use simple_rdbms.Storage.Wal.Record.RoundTrip.{RecordFits, decode_record-encode_record}
use simple_rdbms.Storage.Wal.Segment.{
  scan_active_segment, scan_sealed_segment, scan_decoded_records,
}
use simple_rdbms.Storage.Wal.Segment.{corrupt_log_header}
use simple_rdbms.Storage.Wal.Segment.Scan.{encode_records, last_lsns, scan_decoded_records_total}
use simple_rdbms.Storage.Wal.Segment.Recovery.{scan_active_segment-records}
use simple_rdbms.Storage.Wal.Segment.Recovery.{scan_sealed_segment-records}

abbrev written : LoggedRecord
written = record {
  lsn = 16;
  prev_lsn = none;
  txn_id = 1;
  kind = update 2 40 (0 ∷ 0 ∷ []) (1 ∷ 2 ∷ []);
}

abbrev header : List ℕ
header = replicate 16 0

abbrev torn : List ℕ
torn = 9 ∷ 9 ∷ []

body_size : length (encode_body written) ≡ 43
unfolding encode_body
body_size = refl

written-RecordFits : RecordFits written
written-RecordFits = (
  omega arith,
  tt,
  omega arith,
  (omega arith, omega arith, omega arith, omega arith),
  omega (arith, body_size),
)

decode_record-encode_record_example :
    decode_record (header ++ (encode_record written ++ torn)) (length header)
    ≡ some (written, length (encode_record written))
decode_record-encode_record_example =
    decode_record-encode_record header torn written written-RecordFits

no_record :
    decode_record
      (header ++ (encode_records (written ∷ []) ++ torn))
      (length header + length (encode_records (written ∷ [])))
    ≡ none
unfolding decode_record encode_records encode_record
no_record = refl

scan_active_segment-records_example :
    scan_active_segment (header ++ (encode_records (written ∷ []) ++ torn)) 16
    ≡ some (
      header ++ encode_records (written ∷ []),
      16 + length (encode_records (written ∷ [])),
      last_lsns (written ∷ []) [],
    )
scan_active_segment-records_example =
    scan_active_segment-records header (written ∷ []) torn refl (written-RecordFits, tt) no_record
      16

scan_sealed_segment-records_example :
    scan_sealed_segment (header ++ (encode_records (written ∷ []) ++ torn)) 16
    ≡ some (
        if length torn == 0
        then ok (16 + length (encode_records (written ∷ [])), last_lsns (written ∷ []) [])
        else err corrupt_log_header)
scan_sealed_segment-records_example =
    scan_sealed_segment-records header (written ∷ []) torn refl (written-RecordFits, tt) no_record
      16

scan_decoded_records_total_example : scan_decoded_records torn 16 ≢ none
scan_decoded_records_total_example = scan_decoded_records_total torn 16

crc32-divide_example : crc32 (1 ∷ 2 ∷ []) ≡ xor 32 (divide (1 ∷ 2 ∷ []) 4294967295) 4294967295
crc32-divide_example = crc32-divide (1 ∷ 2 ∷ []) (omega arith, (omega arith, tt))
