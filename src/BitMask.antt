-- ===== src/BitMask.antt =====
-- src/std_bit_masks.c and inc/opx/std_bit_masks.h: bit arrays in memory. An array is the memory from
-- its pointer on, `ℕ → ℕ`, each byte below 256; what lies behind its end is there but unspecified.
mod Tables
pub mod Byte
pub mod Bounds
pub mod Update
pub mod First
pub mod Last
mod Examples
pub use Tables.*
unfoldable pub use Tables.{highest_bit, lowest_bit}
use opx_common_utils.Prelude.{
  ℕ, zero, suc, ◌+◌, ◌-◌, ◌*◌, ◌/◌, ◌%◌, ◌^◌, ◌<◌, bit_and, bit_or, ◌≡◌, Bool, true, false, not,
  Option, none, some, arith, ◌==◌, ltb, leb, if◌then◌else◌, get_or,
}
use opx_common_utils.Prelude.Int.{ℤ, negsuc, to_int}

abbrev pub Bytes : Type 0
Bytes = ℕ → ℕ

-- Every cell holds a `uint8_t`.
abbrev pub IsBytes : Bytes → Type 0
IsBytes a = (i : ℕ) → a i < 256

abbrev pub store : Bytes → ℕ → ℕ → Bytes
store a p v i = if i == p then v else a i

-- `bittobytelen`, whose argument is an `unsigned int`
unfoldable pub bit_to_byte_len : ℕ → ℕ
bit_to_byte_len len = let n = len % 2 ^ 32 in n / 8 + (if n % 8 == 0 then 0 else 1)

-- `STD_BYTES_FOR_BITS`
unfoldable pub bytes_for_bits : ℕ → ℕ
bytes_for_bits n = (if n % 8 == 0 then 0 else 1) + n / 8

-- `memset(p, pattern, n)`
unfoldable pub fill : Bytes → ℕ → ℕ → Bytes
fill a pattern n i = if ltb i n then pattern else a i

-- `malloc` is the caller's: the block that it returns, or none
unfoldable pub create_array_with_pattern : (malloc : ℕ → Option Bytes) → ℕ → ℕ → Option Bytes
unfolding bit_to_byte_len fill
create_array_with_pattern malloc len pattern =
    let n = bit_to_byte_len len in
    elim (malloc n) [ none ↦ none | some p ↦ some (fill p pattern n) ]

unfoldable pub create_array_clear_bits : (malloc : ℕ → Option Bytes) → ℕ → Option Bytes
unfolding create_array_with_pattern
create_array_clear_bits malloc len = create_array_with_pattern malloc len 0

unfoldable pub create_array : (malloc : ℕ → Option Bytes) → ℕ → Option Bytes
unfolding create_array_with_pattern
create_array malloc len = create_array_with_pattern malloc len 0xff

-- The loop of `std_complement_bitmaparray`, by the rounds left.
unfoldable pub complement_loop : ℕ → ℕ → Bytes → Bytes
complement_loop zero ix a = a
complement_loop (suc n) ix a = complement_loop n (ix + 1) (store a ix (255 - a ix))

unfoldable pub complement_bitmaparray : Bytes → ℕ → Bytes
unfolding bit_to_byte_len complement_loop
complement_bitmaparray a mx = complement_loop (bit_to_byte_len mx) 0 a

-- `STD_BIT_ARRAY_SET`, `STD_BIT_ARRAY_CLR`, `STD_BIT_ARRAY_TEST`
unfoldable pub array_set : Bytes → ℕ → Bytes
array_set a i = store a (i / 8) (bit_or (a (i / 8)) (2 ^ (i % 8)) % 256)

-- the complement is that of an `int`, of which the byte keeps the low eight bits
unfoldable pub array_clr : Bytes → ℕ → Bytes
array_clr a i = store a (i / 8) (bit_and (a (i / 8)) (2 ^ 32 - 1 - 2 ^ (i % 8) % 256) % 256)

unfoldable pub array_test : Bytes → ℕ → Bool
array_test a i = not (bit_and (a (i / 8)) (2 ^ (i % 8)) == 0)

-- `std_find_first_bit8` and `std_find_last_bit8`, with their 32-bit masks
unfoldable pub find_first_bit8 : ℕ → ℕ → ℕ
unfolding lowest_bit
find_first_bit8 byte from =
    let mask = 0xffff_ffff * 2 ^ from % 2 ^ 32 in get_or lowest_bit (bit_and byte mask) 0

unfoldable pub find_last_bit8 : ℕ → ℕ → ℕ
unfolding highest_bit
find_last_bit8 byte from =
    let mask = 0xffff_ffff / 2 ^ from in get_or highest_bit (bit_and byte mask) 0

-- `for (; ix < mx; ++ix)`, by the rounds left
unfoldable pub first_loop : Bytes → ℕ → ℕ → ℤ
first_loop a zero ix = negsuc 0
first_loop a (suc n) ix =
    let rest = first_loop a n (ix + 1) in
    if a ix == 0 then rest else to_int (find_first_bit8 (a ix) 0 - 1 + ix * 8)

unfoldable pub find_first_bit : Bytes → ℕ → ℕ → ℤ
unfolding first_loop
find_first_bit a len from =
    if leb len from
    then negsuc 0
    else (let ix = from / 8 in
        let mx = len / 8 + (if len % 8 == 0 then 0 else 1) in
        let bit = from % 8 in
        let pos = find_first_bit8 (a ix) bit in
        if bit == 0
        then first_loop a (mx - ix) ix
        else if pos == 0
        then first_loop a (mx - (ix + 1)) (ix + 1)
        else to_int (pos - 1 + ix * 8))

-- `for (; mx >= 0; --mx)`: the argument is `mx + 1`. `mx` is an `int`, and `mx*8` gives no result where it
-- overflows.
unfoldable pub last_loop : Bytes → ℕ → Option ℤ
last_loop a zero = some (negsuc 0)
last_loop a (suc mx) =
    let rest = last_loop a mx in
    if a mx == 0
    then rest
    else if ltb (mx * 8) (2 ^ 31)
    then some (to_int (find_last_bit8 (a mx) 0 - 1 + mx * 8))
    else none

-- The number of bytes is converted to an `int`; where that is negative, the search reads in front of the
-- array, which gives no result, or does not search.
unfoldable pub find_last_bit : Bytes → ℕ → ℕ → Option ℤ
unfolding last_loop
find_last_bit a len from =
    if leb len from
    then some (negsuc 0)
    else (let n = len - from in
        let mx = (n / 8 + (if n % 8 == 0 then 0 else 1)) % 2 ^ 32 in
        let bit = n % 8 in
        let pos = find_last_bit8 (a (mx - 1)) bit in
        if mx == 0
        then some (negsuc 0)
        else if leb (2 ^ 31) mx
        then (if mx == 2 ^ 31 then none else if bit == 0 then some (negsuc 0) else none)
        else if bit == 0
        then last_loop a mx
        else if pos == 0
        then last_loop a (mx - 1)
        else if ltb ((mx - 1) * 8) (2 ^ 31)
        then some (to_int (pos - 1 + (mx - 1) * 8))
        else none)
