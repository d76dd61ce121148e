-- ===== src/Tlv.antt =====
-- inc/opx/std_tlv.h and inc/opx/std_tlv_internal.h: tags, lengths and values in memory. A memory has
-- a byte at every address; `size_t` and `std_tlv_len_t` have 64 bits, and the conversions of endian.h
-- make the order of the bytes in memory little-endian on every host.
pub mod Words
pub mod Add
pub mod Layout
pub mod Find
pub mod Nested
mod Examples
unfoldable pub use Words.{read_le, write_le}
use opx_common_utils.Prelude.{
  ℕ, zero, suc, ◌+◌, ◌-◌, ◌/◌, ◌%◌, ◌^◌, ◌≡◌, Bool, true, false, not, ◌&&◌, ◌||◌, List, [], ◌∷◌,
  Option, none, some, ◌==◌, ltb, leb, if◌then◌else◌,
}
use opx_common_utils.BitMask.{Bytes, store}

abbrev pub Ptr : Type 0
Ptr = ℕ

abbrev pub null : Ptr
null = 0

abbrev pub hdr_len : ℕ
hdr_len = 16

-- `std_tlv_offset` at the positions of the length, the tag and the content
abbrev pub tlv_offset : Ptr → ℕ → Ptr
tlv_offset tlv offset = tlv + offset

-- `std_tlv_set_tag`, `std_tlv_set_len`
unfoldable pub tlv_set_tag : Bytes → Ptr → ℕ → Bytes
tlv_set_tag mem tlv tag = write_le mem (tlv_offset tlv 0) 8 tag

unfoldable pub tlv_set_len : Bytes → Ptr → ℕ → Bytes
tlv_set_len mem tlv len = write_le mem (tlv_offset tlv 8) 8 len

-- `std_tlv_len`, `std_tlv_tag`
unfoldable pub tlv_len : Bytes → Ptr → ℕ
tlv_len mem tlv = read_le mem (tlv_offset tlv 8) 8

unfoldable pub tlv_tag : Bytes → Ptr → ℕ
tlv_tag mem tlv = read_le mem (tlv_offset tlv 0) 8

unfoldable pub tlv_total_len : Bytes → Ptr → ℕ
tlv_total_len mem tlv = (tlv_len mem tlv + hdr_len) % 2 ^ 64

unfoldable pub tlv_data : Ptr → Ptr
tlv_data tlv = tlv_offset tlv hdr_len

unfoldable pub tlv_data_u16 : Bytes → Ptr → ℕ
unfolding tlv_data
tlv_data_u16 mem tlv = read_le mem (tlv_data tlv) 2

unfoldable pub tlv_data_u32 : Bytes → Ptr → ℕ
unfolding tlv_data
tlv_data_u32 mem tlv = read_le mem (tlv_data tlv) 4

unfoldable pub tlv_data_u64 : Bytes → Ptr → ℕ
unfolding tlv_data
tlv_data_u64 mem tlv = read_le mem (tlv_data tlv) 8

-- `memcpy(p, content, n)` from memory that does not overlap
unfoldable pub memcpy : Bytes → Ptr → Bytes → ℕ → Bytes
memcpy mem p content n a = if leb p a && ltb a (p + n) then content (a - p) else mem a

-- What `std_tlv_add` leaves: the pointer that it returns, the space that is left, and the memory.
pub record Added : Type 0 where
  pub result : Ptr
  pub data_len : ℕ
  pub mem : Bytes

unfoldable pub tlv_add : Bytes → Ptr → ℕ → (tag len : ℕ) → Bytes → Added
tlv_add mem tlv data_len tag len content =
    let total = (len + hdr_len) % 2 ^ 64 in
    let mem1 = tlv_set_tag mem tlv tag in
    let mem2 = tlv_set_len mem1 tlv len in
    let mem3 = memcpy mem2 (tlv + hdr_len) content len in
    if ltb data_len total
    then record { result = null; data_len = data_len; mem = mem }
    else record { result = tlv_offset tlv (len + hdr_len); data_len = data_len - total; mem = mem3 }

-- `std_tlv_add_u16`, `std_tlv_add_u32`, `std_tlv_add_u64`: the bytes of the value are copied
unfoldable pub tlv_add_u16 : Bytes → Ptr → ℕ → (tag content : ℕ) → Added
tlv_add_u16 mem tlv data_len tag content =
    tlv_add mem tlv data_len tag 2 (write_le (λ _. 0) 0 2 content)

unfoldable pub tlv_add_u32 : Bytes → Ptr → ℕ → (tag content : ℕ) → Added
tlv_add_u32 mem tlv data_len tag content =
    tlv_add mem tlv data_len tag 4 (write_le (λ _. 0) 0 4 content)

unfoldable pub tlv_add_u64 : Bytes → Ptr → ℕ → (tag content : ℕ) → Added
tlv_add_u64 mem tlv data_len tag content =
    tlv_add mem tlv data_len tag 8 (write_le (λ _. 0) 0 8 content)

unfoldable pub tlv_valid : Bytes → Ptr → ℕ → Bool
tlv_valid mem tlv len = if tlv == null || len == 0 then false else leb (tlv_total_len mem tlv) len

-- `std_tlv_next`: the pointer, and the length that is left
unfoldable pub tlv_next : Bytes → Ptr → ℕ → Ptr × ℕ
tlv_next mem tlv len =
    let tlen = tlv_total_len mem tlv in
    if tlv == null
    then (null, len)
    else if ltb len tlen
    then (null, len)
    else (tlv_offset tlv tlen, len - tlen)

-- `std_tlv_find_next` on fuel: each round goes on to the next TLV.
unfoldable pub tlv_find_next : ℕ → Bytes → Ptr → ℕ → (tag : ℕ) → Option (Ptr × ℕ)
tlv_find_next zero mem tlv dlen tag = none
tlv_find_next (suc fuel) mem tlv dlen tag =
    let after = tlv_next mem tlv dlen in
    let rest = tlv_find_next fuel mem after.0 after.1 tag in
    if tlv_valid mem tlv dlen
    then (if tlv_tag mem tlv == tag
        then some (tlv, dlen)
        else if after.0 == null
        then some (null, after.1)
        else rest)
    else some (null, dlen)

-- The loop of `std_tlv_efind` over the tags, and the length that it stores on success.
unfoldable pub tlv_efind_loop : ℕ → Bytes → Ptr → ℕ → List ℕ → Option (Ptr × ℕ)
tlv_efind_loop fuel mem tlv len [] = some (tlv, len)
tlv_efind_loop fuel mem tlv len (tag ∷ tags) = elim (tlv_find_next fuel mem tlv len tag) [
  | none ↦ none
  | some (p, left) ↦
      let inner = tlv_efind_loop fuel mem (tlv_data p) (tlv_len mem p) tags in
      if p == null then some (null, left) else (elim tags [ [] ↦ some (p, left) | _ ↦ inner ])
]

-- `*dlen` changes only where a TLV is found.
unfoldable pub tlv_efind : ℕ → Bytes → Ptr → ℕ → List ℕ → Option (Ptr × ℕ)
unfolding tlv_efind_loop
tlv_efind fuel mem tlv dlen tags = elim (tlv_efind_loop fuel mem tlv dlen tags) [
  | none ↦ none
  | some (p, len) ↦ some (p, if p == null then dlen else len)
]
