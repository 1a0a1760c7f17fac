-- ===== src/Crc.antt =====
-- crates/common/src/crc.rs: the CRC-32 that pages and log records carry, by a table of bytes.
-- `u32` words stand for themselves, with `xor` digit by digit.
pub mod Bitwise
use simple_rdbms.Common.{ℕ, zero, suc, ◌+◌, ◌/◌, ◌%◌, ◌^◌, ◌==◌, List, [], ◌∷◌, get_or}
use simple_rdbms.Common.{if◌then◌else◌}
use simple_rdbms.Common.Xor.{xor}

abbrev pub polynomial : ℕ
polynomial = 3988292384

-- The body of the loop over the bits.
unfoldable pub crc_bit : ℕ → ℕ
unfolding xor
crc_bit crc = if crc % 2 == 1 then xor 32 polynomial (crc / 2) else crc / 2

-- `n` rounds of it.
unfoldable pub crc_bits : ℕ → ℕ → ℕ
unfolding crc_bit
crc_bits zero crc = crc
crc_bits (suc n) crc = crc_bits n (crc_bit crc)

-- `n` entries of the table from `byte` on.
unfoldable pub table_from : ℕ → ℕ → List ℕ
unfolding crc_bits
table_from zero byte = []
table_from (suc n) byte = crc_bits 8 byte ∷ table_from n (suc byte)

unfoldable pub table : List ℕ
unfolding table_from
table = table_from 256 0

unfoldable pub crc_loop : List ℕ → ℕ → ℕ
unfolding table xor
crc_loop [] crc = crc
crc_loop (byte ∷ bytes) crc =
    crc_loop bytes (xor 32 (get_or table (xor 32 crc byte % 256) 0) (crc / 256))

unfoldable pub crc32 : List ℕ → ℕ
unfolding crc_loop xor
crc32 bytes = xor 32 (crc_loop bytes 4294967295) 4294967295
