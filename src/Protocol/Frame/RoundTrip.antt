-- ===== src/Protocol/Frame/RoundTrip.antt =====
-- core/qr-protocol/src/frame.rs: frames with fields in range, written and read.
use mathlib.Core.List.{append_assoc, append-nil}
use air_ferry_i_os_source.Prelude.{
  ℕ, ◌+◌, ◌≡◌, refl, sym, arith, List, ◌∷◌, ◌++◌, length, take, drop, ok, length-append,
  take-append, drop-append,
}
use air_ferry_i_os_source.Bytes.{
  to_be, from_be, from_be-to_be, length-to_be, read_be-to_be, read_be-to_be_end, IsByte, IsU32,
  IsU64, IsU128,
}
use air_ferry_i_os_source.Protocol.Frame.{
  FrameHeader, Frame, write_bytes, read_fields, read_bytes, build, to_bytes, from_bytes,
}

-- The widths of the Rust field types.
pub record HeaderInRange (h : FrameHeader) : Type 0 where
  pub session_id : IsU128 h.session_id
  pub flags : IsByte h.flags
  pub sbn : IsU32 h.sbn
  pub esi : IsU32 h.esi
  pub total_blocks : IsU32 h.total_blocks
  pub total_symbols : IsU32 h.total_symbols
  pub symbol_size : IsU32 h.symbol_size
  pub frame_index : IsU64 h.frame_index
  pub timestamp_ms : IsU64 h.timestamp_ms
  pub payload_crc32 : IsU32 h.payload_crc32

-- The header behind the magic, the version and the flags.
abbrev pub fields : FrameHeader → List ℕ
fields h =
    to_be 16 h.session_id
    ++ (to_be 4 h.sbn
        ++ (to_be 4 h.esi
            ++ (to_be 4 h.total_blocks
                ++ (to_be 4 h.total_symbols
                    ++ (to_be 4 h.symbol_size
                        ++ (to_be 8 h.frame_index
                            ++ (to_be 8 h.timestamp_ms ++ to_be 4 h.payload_crc32)))))))

pub write_bytes-fields :
    (h : FrameHeader) → write_bytes h ≡ 0x45 ∷ (0x54 ∷ (1 ∷ (h.flags ∷ fields h)))
unfolding write_bytes to_be
write_bytes-fields h = refl

pub length-write_bytes : (h : FrameHeader) → length (write_bytes h) ≡ 60
unfolding write_bytes
length-write_bytes h = simp (length-append, length-to_be)

read_fields-fields : (h : FrameHeader) → HeaderInRange h → read_fields h.flags (fields h) ≡ h
unfolding read_fields
read_fields-fields h r = rw (
  read_be-to_be, r.session_id, read_be-to_be, r.sbn, read_be-to_be, r.esi, read_be-to_be,
  r.total_blocks, read_be-to_be, r.total_symbols, read_be-to_be, r.symbol_size, read_be-to_be,
  r.frame_index, read_be-to_be, r.timestamp_ms, read_be-to_be_end, r.payload_crc32,
)

pub read_bytes-write_bytes :
    (h : FrameHeader) (rest : List ℕ) → HeaderInRange h → read_bytes (write_bytes h ++ rest) ≡ ok h
unfolding read_bytes from_be
read_bytes-write_bytes h rest r = rw (
  take-append 60 (write_bytes h) rest (sym (length-write_bytes h)),
  write_bytes-fields h,
  read_fields-fields h r,
)

-- What `build` makes: fields of their widths, the payload's size, and both checksums.
pub record IsValidFrame (crc32 : List ℕ → ℕ) (f : Frame) : Type 0 where
  pub header : HeaderInRange f.header
  pub size : f.header.symbol_size ≡ length f.payload
  pub payload_crc : f.header.payload_crc32 ≡ crc32 f.payload
  pub frame_crc : f.frame_crc32 ≡ crc32 (write_bytes f.header ++ f.payload)
  pub crc_width : IsU32 f.frame_crc32

pub length-to_bytes : (f : Frame) → length (to_bytes f) ≡ 64 + length f.payload
unfolding to_bytes
length-to_bytes f = omega (
  arith,
  length-append (write_bytes f.header) (f.payload ++ to_be 4 f.frame_crc32),
  length-append f.payload (to_be 4 f.frame_crc32),
  length-write_bytes f.header,
  length-to_be 4 f.frame_crc32,
)

-- The three slices that `from_bytes` takes of a serialized frame.
module _ (f : Frame) (size : f.header.symbol_size ≡ length f.payload) where
  body : length (write_bytes f.header ++ f.payload) ≡ 60 + f.header.symbol_size
  body = omega (arith, length-append (write_bytes f.header) f.payload, length-write_bytes f.header)

  regroup : to_bytes f ≡ (write_bytes f.header ++ f.payload) ++ to_be 4 f.frame_crc32
  unfolding to_bytes
  regroup = sym (append_assoc (write_bytes f.header) f.payload (to_be 4 f.frame_crc32))

  payload_slice : take f.header.symbol_size (drop 60 (to_bytes f)) ≡ f.payload
  unfolding to_bytes
  payload_slice =
      rw (drop-append 60 (write_bytes f.header) _ (sym (length-write_bytes f.header)))
        (take-append _ f.payload _ size)

  body_slice : take (60 + f.header.symbol_size) (to_bytes f) ≡ write_bytes f.header ++ f.payload
  body_slice = rw regroup (take-append _ (write_bytes f.header ++ f.payload) _ (sym body))

  footer_slice :
      IsU32 f.frame_crc32
      → from_be (take 4 (drop (60 + f.header.symbol_size) (to_bytes f))) ≡ f.frame_crc32
  footer_slice fits = rw (
    regroup,
    drop-append _ (write_bytes f.header ++ f.payload) (to_be 4 f.frame_crc32) (sym body),
    ← append-nil (to_be 4 f.frame_crc32),
    take-append 4 (to_be 4 f.frame_crc32) List.[] (sym (length-to_be 4 f.frame_crc32)),
    from_be-to_be 4 f.frame_crc32 fits,
  )

module _ (usize_max : ℕ) (crc32 : List ℕ → ℕ) where
  -- A valid frame is read back from its bytes.
  pub from_bytes-to_bytes :
      (f : Frame) → IsValidFrame crc32 f → from_bytes usize_max crc32 (to_bytes f) ≡ ok f
  unfolding from_bytes
  from_bytes-to_bytes f v =
      let head : read_bytes (to_bytes f) ≡ ok f.header =
        unfold to_bytes in
        read_bytes-write_bytes f.header (f.payload ++ to_be 4 f.frame_crc32) v.header in
      ground (
        arith,
        length-to_bytes f,
        head,
        payload_slice f v.size,
        body_slice f v.size,
        footer_slice f v.size v.crc_width,
      )

  -- What `build` makes from fields of their widths is a valid frame.
  pub build-IsValidFrame :
      (session_id flags sbn esi total_blocks total_symbols symbol_size : ℕ)
      (frame_index timestamp_ms : ℕ) (payload : List ℕ)
      → ((bs : List ℕ) → IsU32 (crc32 bs))
      → IsU128 session_id
      → IsByte flags
      → IsU32 sbn
      → IsU32 esi
      → IsU32 total_blocks
      → IsU32 total_symbols
      → IsU32 symbol_size
      → IsU64 frame_index
      → IsU64 timestamp_ms
      → symbol_size ≡ length payload
      → IsValidFrame crc32 (
          build crc32 session_id flags sbn esi total_blocks total_symbols symbol_size frame_index
            timestamp_ms payload)
  unfolding build
  build-IsValidFrame i f s e tb ts z n t p crc_u32 hi hf hs he htb hts hz hn ht size = record {
    header = record {
      session_id = hi;
      flags = hf;
      sbn = hs;
      esi = he;
      total_blocks = htb;
      total_symbols = hts;
      symbol_size = hz;
      frame_index = hn;
      timestamp_ms = ht;
      payload_crc32 = crc_u32 p;
    };
    size = size;
    payload_crc = refl;
    frame_crc = refl;
    crc_width = crc_u32 _;
  }
