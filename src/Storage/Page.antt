-- ===== src/Storage/Page.antt =====
-- crates/storage/src/page.rs: the checksum and the lsn in the header of a page.
use simple_rdbms.Common.{ℕ, ◌≡◌, sym, ap, ◌∙◌, Bool, true, List, [], ◌∷◌, ◌++◌}
use simple_rdbms.Common.{take, drop, replicate, arith, ◌==◌, ◌&&◌, ==_iff, if◌then◌else◌}
use simple_rdbms.Common.{take-length-append, drop-length-append, Bool-cases, inl, inr}
use simple_rdbms.Common.Bytes.{
  to_le_bytes, from_le_bytes, length-to_le_bytes, from_le_bytes-to_le_bytes,
}
use simple_rdbms.Crc.{crc32}
use simple_rdbms.Crc.Bitwise.{crc32_lt}
use simple_rdbms.Ids.{PageId, Lsn}
use simple_rdbms.Storage.PageWrite.{page_size, overwrite}

pub record Page : Type 0 where
  pub id : PageId
  pub bytes : List ℕ

abbrev pub new_page : PageId → Page
new_page id = record { id = id; bytes = replicate page_size 0 }

unfoldable pub page_lsn : List ℕ → Lsn
unfolding from_le_bytes
page_lsn bytes = from_le_bytes (take 8 (drop 4 bytes))

unfoldable pub checksum_of : List ℕ → ℕ
unfolding crc32
checksum_of bytes = crc32 (drop 4 bytes)

unfoldable pub stamp_checksum : List ℕ → List ℕ
unfolding overwrite to_le_bytes checksum_of
stamp_checksum bytes = overwrite 0 (to_le_bytes 4 (checksum_of bytes)) bytes

-- `bytes.iter().all(|&b| b == 0)`
abbrev pub all_zero : List ℕ → Bool
all_zero [] = true
all_zero (b ∷ bs) = b == 0 && all_zero bs

unfoldable pub checksum_ok : List ℕ → Bool
unfolding checksum_of from_le_bytes
checksum_ok bytes =
    if all_zero bytes then true else from_le_bytes (take 4 bytes) == checksum_of bytes

stamp_checksum_lem :
    (bytes : List ℕ) → stamp_checksum bytes ≡ to_le_bytes 4 (crc32 (drop 4 bytes)) ++ drop 4 bytes
unfolding stamp_checksum overwrite checksum_of
stamp_checksum_lem bytes =
    ap (λ n. to_le_bytes 4 (crc32 (drop 4 bytes)) ++ drop n bytes)
      (length-to_le_bytes 4 (crc32 (drop 4 bytes)))

pub drop-stamp_checksum : (bytes : List ℕ) → drop 4 (stamp_checksum bytes) ≡ drop 4 bytes
drop-stamp_checksum bytes =
    let word = to_le_bytes 4 (crc32 (drop 4 bytes)) in
    ap (drop 4) (stamp_checksum_lem bytes)
    ∙ ap (λ n. drop n (word ++ drop 4 bytes)) (sym (length-to_le_bytes 4 (crc32 (drop 4 bytes))))
    ∙ drop-length-append word (drop 4 bytes)

take-stamp_checksum :
    (bytes : List ℕ) → take 4 (stamp_checksum bytes) ≡ to_le_bytes 4 (crc32 (drop 4 bytes))
take-stamp_checksum bytes =
    let word = to_le_bytes 4 (crc32 (drop 4 bytes)) in
    ap (take 4) (stamp_checksum_lem bytes)
    ∙ ap (λ n. take n (word ++ drop 4 bytes)) (sym (length-to_le_bytes 4 (crc32 (drop 4 bytes))))
    ∙ take-length-append word (drop 4 bytes)

-- A page whose checksum is stamped passes the check of it, and keeps all bytes behind the checksum,
-- the lsn among them.
pub checksum_ok-stamp_checksum :
    (bytes : List ℕ)
    → (checksum_ok (stamp_checksum bytes) ≡ true)
      × (drop 4 (stamp_checksum bytes) ≡ drop 4 bytes)
      × (page_lsn (stamp_checksum bytes) ≡ page_lsn bytes)
unfolding checksum_ok checksum_of page_lsn
checksum_ok-stamp_checksum bytes = (
  (elim (Bool-cases (all_zero (stamp_checksum bytes))) [
    | inl z ↦ ground (arith, z)
    | inr n ↦ ground (
      arith,
      n,
      same,
      ==_iff (from_le_bytes (take 4 (stamp_checksum bytes)))
          (crc32 (drop 4 (stamp_checksum bytes))),
    )
  ]),
  drop-stamp_checksum bytes,
  ap (λ l. from_le_bytes (take 8 l)) (drop-stamp_checksum bytes),
)
  where
    same : from_le_bytes (take 4 (stamp_checksum bytes)) ≡ crc32 (drop 4 (stamp_checksum bytes))
    same =
        ap from_le_bytes (take-stamp_checksum bytes)
        ∙ from_le_bytes-to_le_bytes 4 (crc32 (drop 4 bytes)) (crc32_lt (drop 4 bytes))
        ∙ ap crc32 (sym (drop-stamp_checksum bytes))
