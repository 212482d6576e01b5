-- ===== src/Protocol/Frame.antt =====
-- core/qr-protocol/src/frame.rs: the 60-byte header, the frame and its two checksums.
-- `crc32` is the third-party hasher `crc32fast`; `usize_max` is the platform's `usize::MAX`.
pub mod RoundTrip
pub mod Sound
use air_ferry_i_os_source.Prelude.{
  ℕ, ◌+◌, ◌-◌, min, List, ◌∷◌, ◌++◌, Bool, not, length, take, drop, get_or, ltb, ◌==◌,
  if◌then◌else◌, Result, ok, err, ◌>>=◌,
}
use air_ferry_i_os_source.Bytes.{to_be, from_be, read_be}
use air_ferry_i_os_source.Protocol.{
  Error, buffer_too_short, bad_magic, bad_version, frame_crc_mismatch, payload_crc_mismatch,
  length_mismatch,
}

abbrev pub magic : ℕ
magic = 0x4554

abbrev pub protocol_version : ℕ
protocol_version = 1

abbrev pub frame_header_size : ℕ
frame_header_size = 60

abbrev pub frame_footer_size : ℕ
frame_footer_size = 4

abbrev pub flag_descriptor : ℕ
flag_descriptor = 1

pub record FrameHeader : Type 0 where
  pub session_id : ℕ
  pub flags : ℕ
  pub sbn : ℕ
  pub esi : ℕ
  pub total_blocks : ℕ
  pub total_symbols : ℕ
  pub symbol_size : ℕ
  pub frame_index : ℕ
  pub timestamp_ms : ℕ
  pub payload_crc32 : ℕ

pub record Frame : Type 0 where
  pub header : FrameHeader
  pub payload : List ℕ
  pub frame_crc32 : ℕ

unfoldable pub write_bytes : FrameHeader → List ℕ
write_bytes h =
    to_be 2 magic
    ++ (protocol_version
        ∷ (h.flags
            ∷ (to_be 16 h.session_id
                ++ (to_be 4 h.sbn
                    ++ (to_be 4 h.esi
                        ++ (to_be 4 h.total_blocks
                            ++ (to_be 4 h.total_symbols
                                ++ (to_be 4 h.symbol_size
                                    ++ (to_be 8 h.frame_index
                                        ++ (to_be 8 h.timestamp_ms
                                            ++ to_be 4 h.payload_crc32))))))))))

-- The fields behind the magic, the version and the flags, read by a cursor over `r`.
unfoldable pub read_fields : ℕ → List ℕ → FrameHeader
read_fields flags r =
    let (session_id, r1) = read_be 16 r in
    let (sbn, r2) = read_be 4 r1 in
    let (esi, r3) = read_be 4 r2 in
    let (total_blocks, r4) = read_be 4 r3 in
    let (total_symbols, r5) = read_be 4 r4 in
    let (symbol_size, r6) = read_be 4 r5 in
    let (frame_index, r7) = read_be 8 r6 in
    let (timestamp_ms, r8) = read_be 8 r7 in
    let (payload_crc32, r9) = read_be 4 r8 in
    record {
      session_id = session_id;
      flags = flags;
      sbn = sbn;
      esi = esi;
      total_blocks = total_blocks;
      total_symbols = total_symbols;
      symbol_size = symbol_size;
      frame_index = frame_index;
      timestamp_ms = timestamp_ms;
      payload_crc32 = payload_crc32;
    }

-- The caller has seen to it that 60 bytes are there.
unfoldable pub read_bytes : List ℕ → Result Error FrameHeader
read_bytes bytes =
    let h = take frame_header_size bytes in
    let got = from_be (get_or h 0 0 ∷ (get_or h 1 0 ∷ List.[])) in
    let version = get_or h 2 0 in
    if not (got == magic)
    then err (bad_magic magic got)
    else if not (version == protocol_version)
    then err (bad_version version)
    else ok (read_fields (get_or h 3 0) (drop 4 h))

module _ (usize_max : ℕ) where
  abbrev pub saturating_add : ℕ → ℕ → ℕ
  saturating_add a b = min usize_max (a + b)

  unfoldable pub wire_size : ℕ → ℕ
  wire_size symbol_size =
      saturating_add (saturating_add frame_header_size symbol_size) frame_footer_size

module _ (crc32 : List ℕ → ℕ) where
  unfoldable pub build :
      (session_id flags sbn esi total_blocks total_symbols symbol_size : ℕ)
      → (frame_index timestamp_ms : ℕ) (payload : List ℕ) → Frame
  build session_id flags sbn esi total_blocks total_symbols symbol_size frame_index timestamp_ms
        payload =
      let header : FrameHeader = record {
        session_id = session_id;
        flags = flags;
        sbn = sbn;
        esi = esi;
        total_blocks = total_blocks;
        total_symbols = total_symbols;
        symbol_size = symbol_size;
        frame_index = frame_index;
        timestamp_ms = timestamp_ms;
        payload_crc32 = crc32 payload;
      } in
      record {
        header = header;
        payload = payload;
        frame_crc32 = crc32 (write_bytes header ++ payload);
      }

unfoldable pub to_bytes : Frame → List ℕ
to_bytes f = write_bytes f.header ++ (f.payload ++ to_be 4 f.frame_crc32)

module _ (usize_max : ℕ) (crc32 : List ℕ → ℕ) where
  -- `from_bytes` behind the header: `bytes` holds the 64 bytes of header and footer at least.
  unfoldable pub check_body : List ℕ → FrameHeader → Result Error Frame
  check_body bytes header =
      let need = frame_header_size + frame_footer_size in
      let payload_end = frame_header_size + header.symbol_size in
      let payload = take header.symbol_size (drop frame_header_size bytes) in
      let expected_frame_crc = from_be (take 4 (drop payload_end bytes)) in
      if not (header.symbol_size == length bytes - need)
      then err (length_mismatch (min usize_max (header.symbol_size + need)) (length bytes))
      else if not (crc32 payload == header.payload_crc32)
      then err payload_crc_mismatch
      else if not (crc32 (take payload_end bytes) == expected_frame_crc)
      then err frame_crc_mismatch
      else ok (record { header = header; payload = payload; frame_crc32 = expected_frame_crc })

  unfoldable pub from_bytes : List ℕ → Result Error Frame
  unfolding check_body
  from_bytes bytes =
      let need = frame_header_size + frame_footer_size in
      if ltb (length bytes) need
      then err (buffer_too_short need (length bytes))
      else do header ← read_bytes bytes; check_body bytes header
