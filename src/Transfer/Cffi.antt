-- ===== src/Transfer/Cffi.antt =====
-- core/transfer-engine/src/cffi.rs: the sender behind the C ABI, which cuts a payload into segments.
-- `usize` is 64 bits wide, so that no `usize::try_from` fails. `Sha256::digest` and `crc32fast::hash` are parameters.
pub mod Segments
pub mod SenderAbi
pub mod ReceiverAbi
use air_ferry_i_os_source.Prelude.{
  ℕ, ◌+◌, ◌-◌, ◌*◌, ◌/◌, ◌^◌, min, List, none, Bool, true, ◌||◌, length, take, drop, ltb, leb, ◌==◌,
  if◌then◌else◌, Result, ok, err, ◌>>=◌, ◌>>◌, reject_if, map_err,
}
use air_ferry_i_os_source.Codec.Config
use air_ferry_i_os_source.Codec.Meta.{max_original_bytes, checked_u64}
use air_ferry_i_os_source.Codec.Encoder.{RqEncoder}
use air_ferry_i_os_source.Protocol.Session.{derive, derive_segment, content_fingerprint}
use air_ferry_i_os_source.Protocol.Compress.{compression_none}
use air_ferry_i_os_source.Transfer.{Error, raptorq, no_payload, invalid_segment}
use air_ferry_i_os_source.Transfer.Types.{FileMeta, SegmentMeta}
use air_ferry_i_os_source.Transfer.Segment.{segment_raw_bytes, try_u32}
use air_ferry_i_os_source.Transfer.Sender
use air_ferry_i_os_source.Transfer.Sender.{SenderConfig, SenderSession}

pub record CffiSender : Type 0 where
  pub payload : List ℕ
  pub filename : List ℕ
  pub config : SenderConfig
  pub root_session_id : ℕ
  pub crc32 : ℕ
  pub root_sha256 : List ℕ
  pub segment_count : ℕ
  pub segment_index : ℕ
  pub session : SenderSession

-- `payload.get(start..end)`
abbrev pub slice : List ℕ → ℕ → ℕ → Result Error (List ℕ)
slice payload start end =
    if ltb end start || ltb (length payload) end
    then err (invalid_segment "segment range outside payload")
    else ok (take (end - start) (drop start payload))

abbrev pub file_meta_of : List ℕ → ℕ → ℕ → ℕ → FileMeta
file_meta_of filename original_size crc32 compressed_size = record {
  filename = filename;
  original_size = original_size;
  crc32 = crc32;
  compression = compression_none;
  compressed_size = compressed_size;
  compressed_size_known = true;
  crc32_known = true;
}

module _ (with_defaults : List ℕ → ℕ → RqEncoder) (sha256 : List ℕ → List ℕ) where
  -- The metadata of the segment of `bytes` that starts at `start`.
  abbrev pub segment_meta_of : ℕ → ℕ → ℕ → ℕ → ℕ → List ℕ → List ℕ → SegmentMeta
  segment_meta_of root segment_index segment_count start original_size root_sha256 bytes = record {
    root_session_id = root;
    segment_index = segment_index;
    segment_count = segment_count;
    original_offset = start;
    root_original_size = original_size;
    root_sha256 = root_sha256;
    raw_sha256 = sha256 bytes;
  }

  -- The bytes of a segment, with where they start.
  unfoldable pub segment_slice : List ℕ → ℕ → Result Error (ℕ × List ℕ)
  segment_slice payload segment_index = do
    start ←
        map_err invalid_segment
          (checked_u64 (segment_index * segment_raw_bytes) "segment offset overflow")
    bytes ←
        slice payload start (min (min (start + segment_raw_bytes) (2 ^ 64 - 1)) (length payload))
    ok (start, bytes)

  unfoldable pub build_session :
      (payload filename : List ℕ) (config : SenderConfig) (root_session_id crc32 : ℕ)
      (root_sha256 : List ℕ) (segment_count segment_index : ℕ)
      → Result Error SenderSession
  unfolding Sender.new Sender.new_segment segment_slice
  build_session payload filename config root crc32 root_sha256 segment_count segment_index =
      let original_size = length payload in
      if leb segment_count 1
      then Sender.new with_defaults payload root config
          (file_meta_of filename original_size crc32 original_size)
      else do
        (start, bytes) ← segment_slice payload segment_index
        Sender.new_segment with_defaults bytes (derive_segment root segment_index) config
            (file_meta_of filename original_size crc32 (length bytes))
            (segment_meta_of root segment_index segment_count start original_size root_sha256 bytes)

  -- `payload.len().saturating_sub(1) / SEGMENT_RAW_BYTES + 1`
  abbrev pub segment_count_of : List ℕ → Result Error ℕ
  segment_count_of payload = do
    count ←
        map_err invalid_segment
          (checked_u64 ((length payload - 1) / segment_raw_bytes + 1) "segment count overflow")
    map_err invalid_segment (try_u32 count "segment count exceeds protocol budget")

  abbrev pub root_id : List ℕ → List ℕ → ℕ → ℕ
  unfolding derive content_fingerprint
  root_id payload filename modified_ms = derive filename (length payload) modified_ms (
      content_fingerprint (take (min (length payload) 1024) payload)
        (drop (length payload - 1024) payload))

  unfoldable pub new :
      (crc32 : List ℕ → ℕ) (payload filename : List ℕ) (modified_ms redundancy_pct symbol_size : ℕ)
      → Result Error CffiSender
  unfolding build_session Config.new Sender.validate root_id
  new crc32 payload filename modified_ms redundancy_pct symbol_size = do
    reject_if ((length payload == 0) || ltb max_original_bytes (length payload)) no_payload
    codec ← map_err raptorq (Config.new symbol_size)
    Sender.validate (record { codec = codec; redundancy_pct = redundancy_pct })
    segment_count ← segment_count_of payload
    session ←
        build_session payload filename (record { codec = codec; redundancy_pct = redundancy_pct })
          (root_id payload filename modified_ms) (crc32 payload) (sha256 payload) segment_count 0
    ok (record {
      payload = payload;
      filename = filename;
      config = record { codec = codec; redundancy_pct = redundancy_pct };
      root_session_id = root_id payload filename modified_ms;
      crc32 = crc32 payload;
      root_sha256 = sha256 payload;
      segment_count = segment_count;
      segment_index = 0;
      session = session;
    })

  -- The sender is changed in place, if at all.
  unfoldable pub select_segment : CffiSender → ℕ → CffiSender × Result Error (Unit {0})
  unfolding build_session
  select_segment s segment_index =
      if leb s.segment_count segment_index
      then (s, err (invalid_segment "segment index out of range"))
      else elim (build_session s.payload s.filename s.config s.root_session_id s.crc32 s.root_sha256
          s.segment_count segment_index) [
            | err e ↦ (s, err e)
            | ok next ↦ (record s { segment_index = segment_index; session = next }, ok tt)
          ]
