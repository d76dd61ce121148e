-- ===== src/Tlv/Examples.antt =====
-- Runs of the TLV functions, and the theorems at concrete buffers.
use opx_common_utils.Prelude.{
  ℕ, ◌+◌, ◌-◌, ◌^◌, ◌≤◌, ◌<◌, ◌≡◌, ◌≢◌, ◌⊎◌, refl, sym, subst, List, [], ◌∷◌, none, some, arith,
}
use opx_common_utils.BitMask.{Bytes}
use opx_common_utils.Tlv.{
  Ptr, null, Added, tlv_set_tag, tlv_set_len, tlv_len, tlv_tag, tlv_total_len, tlv_valid, tlv_next,
  tlv_data, memcpy, tlv_data_u16, tlv_data_u32, tlv_data_u64, tlv_add, tlv_add_u16, tlv_add_u32,
  tlv_add_u64, tlv_find_next, tlv_efind, read_le, write_le,
}
use opx_common_utils.Tlv.Add.{tlv_add_roundtrip, tlv_data-tlv_add}
use opx_common_utils.Tlv.Layout.{Entry, Layout, Fits, add_all, add_all-Layout}
use opx_common_utils.Tlv.Find.{
  first_entry, find_next-first_entry, find_next-ends, find_next-endless, find_next-inside,
}
use opx_common_utils.Tlv.Nested.{Reaches, found, enter, efind-Reaches, efind-missing}

abbrev empty : Bytes
empty a = 0

abbrev letters : Bytes
letters a = 97 + a

-- A TLV with the tag 7 and three bytes, and after it one with the tag 9 and none.
abbrev entries : List Entry
entries =
    record { tag = 7; len = 3; content = letters }
    ∷ record { tag = 9; len = 0; content = empty }
    ∷ []

entries-Fits : Fits entries
unfolding Fits
entries-Fits = (omega arith, omega arith, (omega arith, omega arith, _))

-- The buffer at 100 with the entries in it.
abbrev buffer : Bytes
buffer = Added.mem (add_all empty 100 40 entries)

buffer_runs :
    (tlv_find_next 41 buffer 100 35 9 ≡ some (119, 16))
    × (tlv_find_next 41 buffer 100 35 8 ≡ some (null, 0))
unfolding tlv_find_next tlv_next tlv_valid tlv_tag tlv_len tlv_total_len read_le write_le
    tlv_set_tag tlv_set_len memcpy tlv_add add_all
buffer_runs = (refl, refl)

tlv_add_roundtrip_example :
    let r = tlv_add empty 100 40 7 3 letters in
    (r.result ≡ 119)
    × (r.data_len + 19 ≡ 40)
    × (tlv_tag (r.mem) 100 ≡ 7)
    × (tlv_len (r.mem) 100 ≡ 3)
    × ((i : ℕ) → i < 3 → r.mem (tlv_data 100 + i) ≡ letters i)
    × ((a : ℕ) → (a < 100) ⊎ (119 ≤ a) → r.mem a ≡ empty a)
tlv_add_roundtrip_example =
    tlv_add_roundtrip empty 100 40 7 3 letters (omega arith) (omega arith) (omega arith)

tlv_data-tlv_add_example :
    (tlv_data_u16 (Added.mem (tlv_add_u16 empty 100 24 7 513)) 100 ≡ 513)
    × (tlv_data_u32 (Added.mem (tlv_add_u32 empty 100 24 7 70000)) 100 ≡ 70000)
    × (tlv_data_u64 (Added.mem (tlv_add_u64 empty 100 24 7 5000000000)) 100 ≡ 5000000000)
tlv_data-tlv_add_example =
    tlv_data-tlv_add empty 100 24 7 513 70000 5000000000 (omega arith) (omega arith) (omega arith)
      (omega arith)

add_all-Layout_example :
    let r = add_all empty 100 40 entries in
    Layout (r.mem) 100 entries × (r.result ≡ 135) × (r.data_len + 35 ≡ 40)
add_all-Layout_example = add_all-Layout empty 100 40 entries entries-Fits (omega arith)

buffer-Layout : Layout buffer 100 entries
buffer-Layout = (add_all-Layout empty 100 40 entries entries-Fits (omega arith)).0

find_next-first_entry_example : tlv_find_next 3 buffer 100 35 9 ≡ some (first_entry 100 entries 9)
find_next-first_entry_example =
    find_next-first_entry 3 buffer 100 entries 9 (λ e. omega (arith, e)) buffer-Layout (omega arith)

empty_total_len : (a : ℕ) → tlv_total_len empty a ≢ 0
unfolding tlv_total_len tlv_len read_le
empty_total_len a e = omega (arith, e)

find_next-ends_example : (q : Ptr) × (left : ℕ) × (tlv_find_next 41 empty 100 40 9 ≡ some (q, left))
find_next-ends_example = find_next-ends 41 empty 100 40 9 empty_total_len (omega arith)

-- A length field of 2^64 - 16.
abbrev endless : Bytes
endless = write_le empty 108 8 (2 ^ 64 - 16)

endless_len : tlv_len endless 100 ≡ 2 ^ 64 - 16
unfolding tlv_len read_le write_le
endless_len = refl

endless_tag : tlv_tag endless 100 ≡ 0
unfolding tlv_tag read_le write_le
endless_tag = refl

find_next-endless_example : tlv_find_next 1000 endless 100 40 9 ≡ none
find_next-endless_example =
    find_next-endless 1000 endless 100 40 9 (λ e. omega (arith, e)) (λ e. omega (arith, e))
      endless_len (λ e. omega (arith, e, endless_tag))

buffer_len : tlv_len buffer 119 ≡ 0
unfolding tlv_len read_le add_all tlv_add memcpy tlv_set_len write_le
buffer_len = refl

find_next-inside_example :
    (tlv_tag buffer 119 ≡ 9)
    × (100 ≤ 119)
    × (tlv_data 119 + tlv_len buffer 119 ≤ 100 + 35)
    × (119 + 16 ≡ 100 + 35)
find_next-inside_example =
    find_next-inside 41 buffer 100 35 9 119 16 (buffer_runs.0) (λ e. omega (arith, e))
      (omega (arith, buffer_len))

-- A TLV with the tag 1 whose content is a TLV with the tag 2 and two bytes.
abbrev inner : List Entry
inner = record { tag = 2; len = 2; content = letters } ∷ []

abbrev outer : List Entry
outer = record { tag = 1; len = 18; content = Added.mem (add_all empty 0 18 inner) } ∷ []

abbrev nested : Bytes
nested = Added.mem (add_all empty 100 40 outer)

nested-outer : Layout nested 100 outer
unfolding Layout tlv_tag tlv_len read_le write_le tlv_set_tag tlv_set_len memcpy tlv_add add_all
nested-outer = (refl, refl, omega arith, _)

nested-inner : Layout nested (tlv_data 100) inner
unfolding Layout tlv_data tlv_tag tlv_len read_le write_le tlv_set_tag tlv_set_len memcpy tlv_add
    add_all
nested-inner = (refl, refl, omega arith, _)

inner_len : tlv_len nested 100 ≡ 18
unfolding tlv_len read_le write_le tlv_set_tag tlv_set_len memcpy tlv_add add_all
inner_len = refl

nested-Reaches : Reaches nested 100 34 (1 ∷ 2 ∷ []) 116 18
unfolding first_entry tlv_data
nested-Reaches =
    enter 100 outer 1 100 34 2 [] 116 18 (λ e. omega (arith, e)) nested-outer refl
      (λ e. omega (arith, e))
      (subst (λ n. Reaches nested 116 n (2 ∷ []) 116 18) (sym inner_len)
        (found 116 inner 2 116 18 (λ e. omega (arith, e)) nested-inner refl
          (λ e. omega (arith, e))))

efind-Reaches_example : tlv_efind 35 nested 100 34 (1 ∷ 2 ∷ []) ≡ some (116, 18)
efind-Reaches_example =
    efind-Reaches 35 nested 100 34 (1 ∷ 2 ∷ []) 116 18 nested-Reaches (omega arith)

missing : first_entry 100 outer 3 ≡ (null, 0)
unfolding first_entry
missing = refl

efind-missing_example : tlv_efind 35 nested 100 34 (3 ∷ 2 ∷ []) ≡ some (null, 34)
efind-missing_example =
    efind-missing 35 nested 100 outer 3 (2 ∷ []) (λ e. omega (arith, e)) nested-outer (omega arith)
      missing
