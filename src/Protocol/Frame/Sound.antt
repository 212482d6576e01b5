-- ===== src/Protocol/Frame/Sound.antt =====
-- core/qr-protocol/src/frame.rs: the byte strings that `from_bytes` accepts.
use air_ferry_i_os_source.Prelude.{
  ℕ, ◌+◌, ◌-◌, ◌≤◌, ◌≡◌, ◌↔◌, refl, sym, ◌∙◌, arith, List, ◌∷◌, ◌++◌, length, take, drop, get_or,
  All, ok, inl, inr, Result-cases, length-take, length-drop, All-take, All-drop, take-append-drop,
  take_all, take_add, drop_add,
}
use air_ferry_i_os_source.Bytes.{
  to_be, from_be, read_be, to_be-read_be, to_be-read_be_end, read_be-lt, to_be-from_be, from_be-lt,
  length-read_be, read_be-IsByte, IsByte, IsU32,
}
use air_ferry_i_os_source.Protocol.Frame.{
  FrameHeader, Frame, write_bytes, read_fields, read_bytes, check_body, to_bytes, from_bytes,
}
use air_ferry_i_os_source.Protocol.Frame.RoundTrip.{
  HeaderInRange, IsValidFrame, from_bytes-to_bytes, fields, write_bytes-fields,
}

-- One step of the cursor.
module _ (n : ℕ) (r : List ℕ) (h : n ≤ length r) (b : All IsByte r) where
  after : List ℕ
  after = (read_be n r).1

  length-after : length after ≡ length r - n
  unfolding after
  length-after = length-read_be n r

  after-IsByte : All IsByte after
  unfolding after
  after-IsByte = read_be-IsByte n r b

module _ (flags : ℕ) (r : List ℕ) (l : length r ≡ 56) (b : All IsByte r) where
  read_fields_sound :
      IsByte flags → HeaderInRange (read_fields flags r) × (fields (read_fields flags r) ≡ r)
  unfolding read_fields
  read_fields_sound f =
      let r1 = (read_be 16 r).1 in
      let r2 = (read_be 4 r1).1 in
      let r3 = (read_be 4 r2).1 in
      let r4 = (read_be 4 r3).1 in
      let r5 = (read_be 4 r4).1 in
      let r6 = (read_be 4 r5).1 in
      let r7 = (read_be 8 r6).1 in
      let r8 = (read_be 8 r7).1 in
      let l1 : length r1 ≡ 40 = omega (arith, length-read_be 16 r) in
      let l2 : length r2 ≡ 36 = omega (arith, length-read_be 4 r1) in
      let l3 : length r3 ≡ 32 = omega (arith, length-read_be 4 r2) in
      let l4 : length r4 ≡ 28 = omega (arith, length-read_be 4 r3) in
      let l5 : length r5 ≡ 24 = omega (arith, length-read_be 4 r4) in
      let l6 : length r6 ≡ 20 = omega (arith, length-read_be 4 r5) in
      let l7 : length r7 ≡ 12 = omega (arith, length-read_be 8 r6) in
      let l8 : length r8 ≡ 4 = omega (arith, length-read_be 8 r7) in
      let b1 = read_be-IsByte 16 r b in
      let b2 = read_be-IsByte 4 r1 b1 in
      let b3 = read_be-IsByte 4 r2 b2 in
      let b4 = read_be-IsByte 4 r3 b3 in
      let b5 = read_be-IsByte 4 r4 b4 in
      let b6 = read_be-IsByte 4 r5 b5 in
      let b7 = read_be-IsByte 8 r6 b6 in
      let b8 = read_be-IsByte 8 r7 b7 in
      (
        record {
          session_id = read_be-lt 16 r (omega arith) b;
          flags = f;
          sbn = read_be-lt 4 r1 (omega arith) b1;
          esi = read_be-lt 4 r2 (omega arith) b2;
          total_blocks = read_be-lt 4 r3 (omega arith) b3;
          total_symbols = read_be-lt 4 r4 (omega arith) b4;
          symbol_size = read_be-lt 4 r5 (omega arith) b5;
          frame_index = read_be-lt 8 r6 (omega arith) b6;
          timestamp_ms = read_be-lt 8 r7 (omega arith) b7;
          payload_crc32 = read_be-lt 4 r8 (omega arith) b8;
        },
        rw (
          to_be-read_be_end 4 r8 l8 b8,
          to_be-read_be 8 r7 (omega arith) b7,
          to_be-read_be 8 r6 (omega arith) b6,
          to_be-read_be 4 r5 (omega arith) b5,
          to_be-read_be 4 r4 (omega arith) b4,
          to_be-read_be 4 r3 (omega arith) b3,
          to_be-read_be 4 r2 (omega arith) b2,
          to_be-read_be 4 r1 (omega arith) b1,
          to_be-read_be 16 r (omega arith) b,
        ),
      )

-- Four bytes and what follows them, put together again.
four_bytes :
    (h : List ℕ)
    → 4 ≤ length h
    → {x y z : ℕ} → get_or h 0 0 ≡ x
    → get_or h 1 0 ≡ y
    → get_or h 2 0 ≡ z
    → x ∷ (y ∷ (z ∷ (get_or h 3 0 ∷ drop 4 h))) ≡ h
four_bytes List.[] l = absurd (omega arith)
four_bytes (a ∷ List.[]) l = absurd (omega arith)
four_bytes (a ∷ (b ∷ List.[])) l = absurd (omega arith)
four_bytes (a ∷ (b ∷ (c ∷ List.[]))) l = absurd (omega arith)
four_bytes (a ∷ (b ∷ (c ∷ (d ∷ r)))) l = λ p q s. rw (← p, ← q, ← s)

get_or-IsByte : (h : List ℕ) (i : ℕ) → All IsByte h → IsByte (get_or h i 0)
get_or-IsByte List.[] i b = omega arith
get_or-IsByte (x ∷ h) ℕ.zero b = b.0
get_or-IsByte (x ∷ h) (ℕ.suc i) b = get_or-IsByte h i b.1

magic_digits :
    (x y : ℕ) → IsByte x → IsByte y → from_be (x ∷ (y ∷ List.[])) ≡ 0x4554 → (x ≡ 0x45) × (y ≡ 0x54)
unfolding from_be
magic_digits x y hx hy e = omega arith

module _ (bytes : List ℕ) where
  abbrev head : List ℕ
  head = take 60 bytes

  read_bytes_inv :
      (h : FrameHeader)
      → read_bytes bytes ≡ ok h
      → (from_be (get_or head 0 0 ∷ (get_or head 1 0 ∷ List.[])) ≡ 0x4554)
        × (get_or head 2 0 ≡ 1)
        × (read_fields (get_or head 3 0) (drop 4 head) ≡ h)
  unfolding read_bytes
  read_bytes_inv h e = ground arith

  -- What `read_bytes` accepts is what `write_bytes` writes.
  pub read_bytes_sound :
      (h : FrameHeader)
      → 60 ≤ length bytes
      → All IsByte bytes
      → read_bytes bytes ≡ ok h
      → HeaderInRange h × (write_bytes h ≡ take 60 bytes)
  unfolding read_fields
  read_bytes_sound h l b e =
      let (em, ev, ef) = read_bytes_inv h e in
      let lh : length head ≡ 60 = length-take 60 bytes l in
      let bh = All-take IsByte 60 bytes b in
      let digits = magic_digits _ _ (get_or-IsByte head 0 bh) (get_or-IsByte head 1 bh) em in
      let l4 : length (drop 4 head) ≡ 56 = omega (arith, length-drop 4 head) in
      let (range, same) =
        read_fields_sound (get_or head 3 0) (drop 4 head) l4 (All-drop IsByte 4 head bh)
          (get_or-IsByte head 3 bh) in
      rw (← ef)
        (range, write_bytes-fields _ ∙ rw same (four_bytes head (omega arith) digits.0 digits.1 ev))

module _ (usize_max : ℕ) (crc32 : List ℕ → ℕ) (bytes : List ℕ) where
  abbrev payload_of : FrameHeader → List ℕ
  payload_of h = take h.symbol_size (drop 60 bytes)

  abbrev footer_of : FrameHeader → ℕ
  footer_of h = from_be (take 4 (drop (60 + h.symbol_size) bytes))

  abbrev frame_of : FrameHeader → Frame
  frame_of h = record { header = h; payload = payload_of h; frame_crc32 = footer_of h }

  check_body_inv :
      (h : FrameHeader) (f : Frame)
      → check_body usize_max crc32 bytes h ≡ ok f
      → (h.symbol_size ≡ length bytes - 64)
        × (crc32 (payload_of h) ≡ h.payload_crc32)
        × (crc32 (take (60 + h.symbol_size) bytes) ≡ footer_of h)
        × (frame_of h ≡ f)
  unfolding check_body
  check_body_inv h f e = ground arith

  from_bytes_inv :
      (f : Frame)
      → from_bytes usize_max crc32 bytes ≡ ok f
      → (h : FrameHeader) × (64 ≤ length bytes)
        × (read_bytes bytes ≡ ok h)
        × (check_body usize_max crc32 bytes h ≡ ok f)
  unfolding from_bytes
  from_bytes_inv f e = elim (Result-cases (read_bytes bytes)) [
    | inl (h, r) ↦ (h, ground arith, r, ground (arith, r))
    | inr (x, r) ↦ ground (arith, r)
  ]

  module _ (b : All IsByte bytes) (h : FrameHeader) (l : 64 + h.symbol_size ≡ length bytes) where
    footer_bytes : to_be 4 (footer_of h) ≡ drop (60 + h.symbol_size) bytes
    footer_bytes =
        let rest = drop (60 + h.symbol_size) bytes in
        let four : length rest ≡ 4 = omega (arith, length-drop (60 + h.symbol_size) bytes) in
        rw (take_all 4 rest (omega arith))
          (rw four at (to_be-from_be rest (All-drop IsByte (60 + h.symbol_size) bytes b)))

    pieces :
        write_bytes h ≡ take 60 bytes
        → (to_bytes (frame_of h) ≡ bytes)
          × (write_bytes h ++ payload_of h ≡ take (60 + h.symbol_size) bytes)
          × (h.symbol_size ≡ length (payload_of h))
          × IsU32 (footer_of h)
    unfolding to_bytes
    pieces head = (
      rw (
        head,
        footer_bytes,
        ← drop_add 60 h.symbol_size (60 + h.symbol_size) bytes refl,
        take-append-drop h.symbol_size (drop 60 bytes),
        take-append-drop 60 bytes,
      ),
      rw head (sym (take_add 60 h.symbol_size (60 + h.symbol_size) bytes refl)),
      sym (length-take h.symbol_size (drop 60 bytes) (omega (arith, length-drop 60 bytes))),
      from_be-lt 4 (drop (60 + h.symbol_size) bytes)
          (omega (arith, length-drop (60 + h.symbol_size) bytes)) (All-drop IsByte _ bytes b),
    )

  from_bytes_sound :
      (f : Frame)
      → All IsByte bytes
      → from_bytes usize_max crc32 bytes ≡ ok f
      → IsValidFrame crc32 f × (to_bytes f ≡ bytes)
  from_bytes_sound f b e =
      let (h, l, r, c) = from_bytes_inv f e in
      let (size, pcrc, fcrc, same) = check_body_inv h f c in
      let (range, head) = read_bytes_sound bytes h (omega arith) b r in
      let (whole, body, len, width) = pieces b h (omega arith) head in
      rw (← same) (
        record {
          header = range;
          size = len;
          payload_crc = sym pcrc;
          frame_crc = rw body (sym fcrc);
          crc_width = width;
        },
        whole,
      )

-- A byte string is accepted as `f` exactly when `f` is valid and the string is its serialization.
pub from_bytes_iff :
    (usize_max : ℕ) (crc32 : List ℕ → ℕ) (bytes : List ℕ) (f : Frame)
    → All IsByte bytes
    → (from_bytes usize_max crc32 bytes ≡ ok f) ↔ (IsValidFrame crc32 f × (to_bytes f ≡ bytes))
from_bytes_iff usize_max crc32 bytes f b = (
  from_bytes_sound usize_max crc32 bytes f b,
  λ (v, e). rw (← e) (from_bytes-to_bytes usize_max crc32 f v),
)
