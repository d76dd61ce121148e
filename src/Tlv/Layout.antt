-- ===== src/Tlv/Layout.antt =====
-- A buffer as a sequence of TLVs: the independent description that the searches are measured by, and
-- that the additions build.
use opx_common_utils.Prelude.{
  ℕ, ◌+◌, ◌-◌, ◌^◌, ◌≤◌, ◌<◌, ◌≡◌, inl, refl, ap, sym, subst, ◌∙◌, List, [], ◌∷◌, arith,
}
use opx_common_utils.BitMask.{Bytes}
use opx_common_utils.Tlv.{Ptr, Added, tlv_len, tlv_tag, tlv_add}
use opx_common_utils.Tlv.Add.{
  tlv_add-room, written, written_outside, tlv_tag-written, tlv_len-written,
}
use opx_common_utils.Tlv.Words.{read_le-congr}

-- A TLV with its tag, the length of its content, and the content.
pub record Entry : Type 0 where
  pub tag : ℕ
  pub len : ℕ
  pub content : Bytes

abbrev pub size : List Entry → ℕ
size [] = 0
size (e ∷ es) = e.len + 16 + size es

-- The tags and the lengths of the entries follow each other from `p` on.
unfoldable pub Layout : Bytes → Ptr → List Entry → Type 0
Layout mem p [] = Unit
Layout mem p (e ∷ es) =
    (tlv_tag mem p ≡ e.tag)
    × (tlv_len mem p ≡ e.len)
    × (e.len + 16 < 2 ^ 64)
    × Layout mem (p + (e.len + 16)) es

-- Each tag fits its field, and each length with the header a `size_t`.
unfoldable pub Fits : List Entry → Type 0
Fits [] = Unit
Fits (e ∷ es) = (e.tag < 2 ^ 64) × (e.len + 16 < 2 ^ 64) × Fits es

-- One `std_tlv_add` for each entry, each at the pointer that the one before returned.
unfoldable pub add_all : Bytes → Ptr → ℕ → List Entry → Added
add_all mem p data_len [] = record { result = p; data_len = data_len; mem = mem }
add_all mem p data_len (e ∷ es) =
    let r = tlv_add mem p data_len (e.tag) (e.len) (e.content) in
    add_all (r.mem) (r.result) (r.data_len) es

pub Layout-congr :
    (m m' : Bytes) (p : ℕ) (es : List Entry)
    → ((a : ℕ) → p ≤ a → a < p + size es → m a ≡ m' a)
    → Layout m p es
    → Layout m' p es
unfolding Layout tlv_tag tlv_len
Layout-congr m m' p [] h l = l
Layout-congr m m' p (e ∷ es) h (t, n, b, l) = (
  sym (read_le-congr m m' (p + 0) 8 (λ a x y. h a (omega arith) (omega arith))) ∙ t,
  sym (read_le-congr m m' (p + 8) 8 (λ a x y. h a (omega arith) (omega arith))) ∙ n,
  b,
  Layout-congr m m' (p + (e.len + 16)) es (λ a x y. h a (omega arith) (omega arith)) l,
)

pub add_all_outside :
    (mem : Bytes) (p data_len : ℕ) (es : List Entry) (a : ℕ)
    → Fits es
    → size es ≤ data_len
    → a < p
    → Added.mem (add_all mem p data_len es) a ≡ mem a
unfolding add_all Fits
add_all_outside mem p data_len [] a f k h = refl
add_all_outside mem p data_len (e ∷ es) a (t, b, f) k h =
    let step = tlv_add-room mem p data_len (e.tag) (e.len) (e.content) b (omega arith) in
    let m = written mem p (e.tag) (e.len) (e.content) in
    ap (λ r. Added.mem (add_all (Added.mem r) (Added.result r) (Added.data_len r) es) a) step
    ∙ add_all_outside m (p + (e.len + 16)) (data_len - (e.len + 16)) es a f (omega arith)
        (omega arith)
    ∙ written_outside mem p (e.tag) (e.len) (e.content) a (inl h)

-- TLVs of tags and lengths that fit their fields, added one after the other with room for all, lie in the buffer one after the
-- other, each with its tag and length, and the pointer and the room that are left are those after them.
pub add_all-Layout :
    (mem : Bytes) (p data_len : ℕ) (es : List Entry)
    → Fits es
    → size es ≤ data_len
    → let r = add_all mem p data_len es in
      Layout (r.mem) p es × (r.result ≡ p + size es) × (r.data_len + size es ≡ data_len)
unfolding add_all Fits Layout tlv_tag tlv_len
add_all-Layout mem p data_len [] f k = (_, omega arith, omega arith)
add_all-Layout mem p data_len (e ∷ es) (t, b, f) k =
    let step = tlv_add-room mem p data_len (e.tag) (e.len) (e.content) b (omega arith) in
    let m = written mem p (e.tag) (e.len) (e.content) in
    let q = p + (e.len + 16) in
    let left = data_len - (e.len + 16) in
    let (lay, ptr, room) = add_all-Layout m q left es f (omega arith) in
    let final = Added.mem (add_all m q left es) in
    let same = λ (a : ℕ) (h : a < q). add_all_outside m q left es a f (omega arith) h in
    let head_tag =
      read_le-congr final m (p + 0) 8 (λ a x y. same a (omega arith))
      ∙ tlv_tag-written mem p (e.tag) (e.len) (e.content) t in
    let head_len =
      read_le-congr final m (p + 8) 8 (λ a x y. same a (omega arith))
      ∙ tlv_len-written mem p (e.tag) (e.len) (e.content) (omega arith) in
    subst
      (λ r.
        let s = add_all (Added.mem r) (Added.result r) (Added.data_len r) es in
        Layout (Added.mem s) p (e ∷ es)
        × (Added.result s ≡ p + size (e ∷ es))
        × (Added.data_len s + size (e ∷ es) ≡ data_len))
      (sym step) ((head_tag, head_len, b, lay), omega arith, omega arith)
