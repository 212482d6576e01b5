-- ===== src/Transfer/Segment.antt =====
-- core/transfer-engine/src/segment.rs: one segment of a compressed root stream.
pub mod Canonical
use air_ferry_i_os_source.Prelude.{
  ℕ, ◌+◌, ◌-◌, ◌*◌, ◌/◌, ◌^◌, min, not, ◌||◌, ltb, leb, ◌==◌, if◌then◌else◌, String, Result, ok,
  err, ◌>>=◌, ◌>>◌, reject_if,
}
use air_ferry_i_os_source.Codec.Config.{max_symbol_size}
use air_ferry_i_os_source.Codec.Meta.{max_object_bytes, checked_u64}
use air_ferry_i_os_source.Protocol.Session.{derive_segment}
use air_ferry_i_os_source.Transfer.Types.{FileMeta, SegmentMeta}

abbrev pub segment_raw_bytes : ℕ
segment_raw_bytes = max_object_bytes - max_symbol_size

abbrev pub max_segment_count : ℕ
max_segment_count = 131072

-- `u32::try_from`
abbrev pub try_u32 : ℕ → String → Result String ℕ
try_u32 n e = if ltb n (2 ^ 32) then ok n else err e

-- `u64::checked_sub` with `ok_or`
abbrev checked_sub : ℕ → ℕ → String → Result String ℕ
checked_sub a b e = if ltb a b then err e else ok (a - b)

unfoldable pub validate : SegmentMeta → ℕ → FileMeta → Result String (Unit {0})
validate s child_session_id file_meta = do
  reject_if (s.segment_count == 0 || ltb max_segment_count s.segment_count)
      "segment count out of range"
  reject_if (leb s.segment_count s.segment_index) "segment index out of range"
  reject_if (s.root_original_size == 0) "root compressed size must be non-zero"
  n ← checked_sub s.root_original_size 1 "segment count overflow"
  expected_count_u64 ← checked_u64 (n / segment_raw_bytes + 1) "segment count overflow"
  expected_count ← try_u32 expected_count_u64 "segment count exceeds protocol budget"
  reject_if (not (expected_count == s.segment_count))
      "segment count inconsistent with compressed root size"
  expected_offset ← checked_u64 (s.segment_index * segment_raw_bytes) "segment offset overflow"
  reject_if (not (s.original_offset == expected_offset)) "segment offset is not canonical"
  remaining ←
      checked_sub s.root_original_size expected_offset "segment offset exceeds compressed root size"
  reject_if (not file_meta.compressed_size_known || file_meta.compressed_size == 0)
      "segment compressed size missing or empty"
  reject_if (ltb (min remaining segment_raw_bytes) file_meta.compressed_size)
      "segment compressed length exceeds canonical compressed range"
  reject_if (not (derive_segment s.root_session_id s.segment_index == child_session_id))
      "segment child session id mismatch"
