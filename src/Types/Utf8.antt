-- ===== src/Types/Utf8.antt =====
-- `String::from_utf8` of the standard library, which crates/types/src/tuple.rs and memcomparable.rs
-- call: a text is its bytes, and the test on them is the automaton of well-formed UTF-8.
use simple_rdbms.Common.{
  ℕ, ◌==◌, Bool, true, false, ◌&&◌, Option, none, some, List, [], ◌∷◌, ltb, leb,
}
use simple_rdbms.Common.{if◌then◌else◌}

-- What the bytes read so far ask of the next one.
pub data Utf8State : Type 0 where
  boundary tail1 tail2 tail3 after_e0 after_ed after_f0 after_f4 invalid : Utf8State

abbrev within : ℕ → ℕ → ℕ → Bool
within lo hi b = leb lo b && leb b hi

first_byte : ℕ → Utf8State
first_byte b =
    if ltb b 0x80
    then boundary
    else if within 0xc2 0xdf b
    then tail1
    else if b == 0xe0
    then after_e0
    else if b == 0xed
    then after_ed
    else if within 0xe1 0xef b
    then tail2
    else if b == 0xf0
    then after_f0
    else if within 0xf1 0xf3 b
    then tail3
    else if b == 0xf4
    then after_f4
    else invalid

utf8_step : Utf8State → ℕ → Utf8State
unfolding first_byte
utf8_step boundary b = first_byte b
utf8_step tail1 b = if within 0x80 0xbf b then boundary else invalid
utf8_step tail2 b = if within 0x80 0xbf b then tail1 else invalid
utf8_step tail3 b = if within 0x80 0xbf b then tail2 else invalid
utf8_step after_e0 b = if within 0xa0 0xbf b then tail1 else invalid
utf8_step after_ed b = if within 0x80 0x9f b then tail1 else invalid
utf8_step after_f0 b = if within 0x90 0xbf b then tail2 else invalid
utf8_step after_f4 b = if within 0x80 0x8f b then tail2 else invalid
utf8_step invalid b = invalid

is_boundary : Utf8State → Bool
is_boundary boundary = true
is_boundary _ = false

utf8_run : Utf8State → List ℕ → Bool
unfolding utf8_step is_boundary
utf8_run s [] = is_boundary s
utf8_run s (b ∷ bs) = utf8_run (utf8_step s b) bs

-- Whether the bytes are a text.
unfoldable pub utf8_valid : List ℕ → Bool
unfolding utf8_run
utf8_valid bs = utf8_run boundary bs

unfoldable pub from_utf8 : List ℕ → Option (List ℕ)
from_utf8 bs = if utf8_valid bs then some bs else none
