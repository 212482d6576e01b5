-- ===== src/Transfer/Segment/Canonical.antt =====
-- core/transfer-engine/src/segment.rs: the segments that `validate` accepts.
use air_ferry_i_os_source.Prelude.{ℕ, ◌+◌, ◌*◌, ◌≤◌, ◌<◌, ◌≡◌, ◌↔◌, arith, true, ok}
use air_ferry_i_os_source.Protocol.Session.{derive_segment}
use air_ferry_i_os_source.Transfer.Types.{FileMeta, SegmentMeta}
use air_ferry_i_os_source.Transfer.Segment.{validate, segment_raw_bytes}

-- The segment's place in the root stream: `segment_count` slots of `segment_raw_bytes` just cover it.
pub record IsCanonical (s : SegmentMeta) (id : ℕ) (f : FileMeta) : Type 0 where
  pub index_in_range : s.segment_index < s.segment_count
  pub count_in_range : s.segment_count ≤ 131072
  pub covers : s.root_original_size ≤ s.segment_count * segment_raw_bytes
  pub tight : s.segment_count * segment_raw_bytes < s.root_original_size + segment_raw_bytes
  pub offset : s.original_offset ≡ s.segment_index * segment_raw_bytes
  pub known : f.compressed_size_known ≡ true
  pub some_bytes : 0 < f.compressed_size
  pub in_slot : f.compressed_size ≤ segment_raw_bytes
  pub in_stream : s.original_offset + f.compressed_size ≤ s.root_original_size
  pub child : derive_segment s.root_session_id s.segment_index ≡ id

-- `validate` accepts a segment exactly when it sits canonically in its root stream, has bytes of a known
-- number that fit its slot, and goes by the child id that its root and its index determine.
pub validate-IsCanonical :
    (s : SegmentMeta) (child : ℕ) (f : FileMeta)
    → (validate s child f ≡ ok tt) ↔ IsCanonical s child f
unfolding validate
validate-IsCanonical s child f = (λ e. ground arith, λ h. ground arith)
