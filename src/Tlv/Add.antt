-- ===== src/Tlv/Add.antt =====
-- `std_tlv_add` and its variants: what they write and what reads back.
use opx_common_utils.Prelude.{
  ℕ, ◌+◌, ◌-◌, ◌%◌, ◌^◌, ◌≤◌, ◌<◌, ◌≡◌, ◌⊎◌, inl, ap, ◌∙◌, true, false, arith, ltb, leb,
}
use opx_common_utils.BitMask.{Bytes}
use opx_common_utils.Tlv.{
  Ptr, null, hdr_len, tlv_set_tag, tlv_set_len, tlv_len, tlv_tag, tlv_data, tlv_data_u16,
  tlv_data_u32, tlv_data_u64, memcpy, Added, tlv_add, tlv_add_u16, tlv_add_u32, tlv_add_u64,
  read_le, write_le,
}
use opx_common_utils.Tlv.Words.{write_le_outside, read_le-congr, read_le-shift, read_le-write_le}

pub memcpy_outside :
    (mem : Bytes) (p : ℕ) (content : Bytes) (n a : ℕ)
    → (a < p) ⊎ (p + n ≤ a)
    → memcpy mem p content n a ≡ mem a
unfolding memcpy
memcpy_outside mem p content n a h = ground arith

pub memcpy_inside :
    (mem : Bytes) (p : ℕ) (content : Bytes) (n i : ℕ)
    → i < n
    → memcpy mem p content n (p + i) ≡ content i
unfolding memcpy
memcpy_inside mem p content n i h =
    let e : p + i - p ≡ i = omega arith in
    let l : leb p (p + i) ≡ true = ground arith in
    let k : ltb (p + i) (p + n) ≡ true = ground arith in rw (l, k, e)

-- The memory after a TLV is written at `p`.
abbrev pub written : Bytes → Ptr → (tag len : ℕ) → Bytes → Bytes
written mem p tag len content =
    memcpy (tlv_set_len (tlv_set_tag mem p tag) p len) (p + hdr_len) content len

pub tlv_add-room :
    (mem : Bytes) (p data_len tag len : ℕ) (content : Bytes)
    → len + 16 < 2 ^ 64
    → len + 16 ≤ data_len
    → tlv_add mem p data_len tag len content ≡ record {
      result = p + (len + 16);
      data_len = data_len - (len + 16);
      mem = written mem p tag len content;
    }
unfolding tlv_add
tlv_add-room mem p data_len tag len content h k =
    let total : (len + 16) % 2 ^ 64 ≡ len + 16 = omega arith in
    let room : ltb data_len (len + 16) ≡ false = ground arith in rw (total, room)

-- Nothing outside of the TLV changes.
pub written_outside :
    (mem : Bytes) (p tag len : ℕ) (content : Bytes) (a : ℕ)
    → (a < p) ⊎ (p + (len + 16) ≤ a)
    → written mem p tag len content a ≡ mem a
unfolding tlv_set_tag tlv_set_len
written_outside mem p tag len content a h =
    let m1 = write_le mem (p + 0) 8 tag in
    memcpy_outside (write_le m1 (p + 8) 8 len) (p + 16) content len a (omega arith)
    ∙ write_le_outside m1 (p + 8) 8 len a (omega arith)
    ∙ write_le_outside mem (p + 0) 8 tag a (omega arith)

pub tlv_tag-written :
    (mem : Bytes) (p tag len : ℕ) (content : Bytes)
    → tag < 2 ^ 64
    → tlv_tag (written mem p tag len content) p ≡ tag
unfolding tlv_set_tag tlv_set_len tlv_tag
tlv_tag-written mem p tag len content h =
    let m1 = write_le mem (p + 0) 8 tag in
    let m2 = write_le m1 (p + 8) 8 len in
    read_le-congr (memcpy m2 (p + 16) content len) m1 (p + 0) 8 (λ a l k.
      memcpy_outside m2 (p + 16) content len a (inl (omega arith))
      ∙ write_le_outside m1 (p + 8) 8 len a (inl (omega arith)))
    ∙ read_le-write_le mem (p + 0) 8 tag (omega arith)

pub tlv_len-written :
    (mem : Bytes) (p tag len : ℕ) (content : Bytes)
    → len < 2 ^ 64
    → tlv_len (written mem p tag len content) p ≡ len
unfolding tlv_set_tag tlv_set_len tlv_len
tlv_len-written mem p tag len content h =
    let m1 = write_le mem (p + 0) 8 tag in
    let m2 = write_le m1 (p + 8) 8 len in
    read_le-congr (memcpy m2 (p + 16) content len) m2 (p + 8) 8
      (λ a l k. memcpy_outside m2 (p + 16) content len a (inl (omega arith)))
    ∙ read_le-write_le m1 (p + 8) 8 len (omega arith)

-- For a tag of 64 bits, and a content whose length with the header is below 2^64, `std_tlv_add` with
-- room for the header and the content moves on by both, and the tag, the length and the bytes of the
-- content, which may have none, read back from the TLV. No byte outside of the TLV changes.
pub tlv_add_roundtrip :
    (mem : Bytes) (p data_len tag len : ℕ) (content : Bytes)
    → tag < 2 ^ 64
    → len + 16 < 2 ^ 64
    → len + 16 ≤ data_len
    → let r = tlv_add mem p data_len tag len content in
      (r.result ≡ p + (len + 16))
      × (r.data_len + (len + 16) ≡ data_len)
      × (tlv_tag (r.mem) p ≡ tag)
      × (tlv_len (r.mem) p ≡ len)
      × ((i : ℕ) → i < len → r.mem (tlv_data p + i) ≡ content i)
      × ((a : ℕ) → (a < p) ⊎ (p + (len + 16) ≤ a) → r.mem a ≡ mem a)
unfolding tlv_data
tlv_add_roundtrip mem p data_len tag len content t h k =
    let e = tlv_add-room mem p data_len tag len content h k in
    let m2 = tlv_set_len (tlv_set_tag mem p tag) p len in
    (
      ap Added.result e,
      ap (λ r. Added.data_len r + (len + 16)) e ∙ omega arith,
      ap (λ r. tlv_tag (Added.mem r) p) e ∙ tlv_tag-written mem p tag len content t,
      ap (λ r. tlv_len (Added.mem r) p) e ∙ tlv_len-written mem p tag len content (omega arith),
      λ i inside.
          ap (λ r. Added.mem r (p + 16 + i)) e ∙ memcpy_inside m2 (p + 16) content len i inside,
      λ a outside. ap (λ r. Added.mem r a) e ∙ written_outside mem p tag len content a outside,
    )

-- For a content whose length with the header is below 2^64, `std_tlv_add` without room for the header
-- and the content returns NULL and changes nothing.
pub tlv_add_no_room :
    (mem : Bytes) (p data_len tag len : ℕ) (content : Bytes)
    → len + 16 < 2 ^ 64
    → data_len < len + 16
    → tlv_add mem p data_len tag len content
      ≡ record { result = null; data_len = data_len; mem = mem }
unfolding tlv_add
tlv_add_no_room mem p data_len tag len content h k =
    let total : (len + 16) % 2 ^ 64 ≡ len + 16 = omega arith in
    let room : ltb data_len (len + 16) ≡ true = ground arith in rw (total, room)

-- A number that is added as content reads back from the data of the TLV.
word-written :
    (mem : Bytes) (p tag n v : ℕ)
    → v < 256 ^ n
    → read_le (written mem p tag n (write_le (λ _. 0) 0 n v)) (p + 16) n ≡ v
word-written mem p tag n v h =
    let m2 = tlv_set_len (tlv_set_tag mem p tag) p n in
    let content = write_le (λ _. 0) 0 n v in
    read_le-shift (memcpy m2 (p + 16) content n) content (p + 16) 0 n
      (λ i l. memcpy_inside m2 (p + 16) content n i l ∙ ap content (omega arith))
    ∙ read_le-write_le (λ _. 0) 0 n v h

-- With 24 bytes of room, a number of 16, 32 or 64 bits that `std_tlv_add_u16`, `std_tlv_add_u32` or
-- `std_tlv_add_u64` adds is what `std_tlv_data_u16`, `std_tlv_data_u32` or `std_tlv_data_u64` reads.
pub tlv_data-tlv_add :
    (mem : Bytes) (p data_len tag u v w : ℕ)
    → 24 ≤ data_len
    → u < 2 ^ 16
    → v < 2 ^ 32
    → w < 2 ^ 64
    → (tlv_data_u16 (Added.mem (tlv_add_u16 mem p data_len tag u)) p ≡ u)
      × (tlv_data_u32 (Added.mem (tlv_add_u32 mem p data_len tag v)) p ≡ v)
      × (tlv_data_u64 (Added.mem (tlv_add_u64 mem p data_len tag w)) p ≡ w)
unfolding tlv_add_u16 tlv_add_u32 tlv_add_u64 tlv_data tlv_data_u16 tlv_data_u32 tlv_data_u64
tlv_data-tlv_add mem p data_len tag u v w k a b c = (
  reads 2 u (omega arith) (omega arith) (omega arith),
  reads 4 v (omega arith) (omega arith) (omega arith),
  reads 8 w (omega arith) (omega arith) (omega arith),
)
  where
    reads :
        (n x : ℕ)
        → n + 16 < 2 ^ 64
        → n + 16 ≤ data_len
        → x < 256 ^ n
        → read_le (Added.mem (tlv_add mem p data_len tag n (write_le (λ _. 0) 0 n x))) (p + 16) n
          ≡ x
    reads n x a b h =
        let content = write_le (λ _. 0) 0 n x in
        ap (λ r. read_le (Added.mem r) (p + 16) n) (tlv_add-room mem p data_len tag n content a b)
        ∙ word-written mem p tag n x h
