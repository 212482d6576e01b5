-- ===== src/Transfer/Examples.antt =====
-- The theorems on segments and on their assembly at a root stream of three bytes, which is one segment.
mod Wire
mod Sessions
mod Sending
mod Recovery
mod Native
mod Files
mod Counting
mod Browser
use air_ferry_i_os_source.Prelude.{
  ℕ, ◌+◌, ◌*◌, ◌^◌, ◌<◌, ◌≡◌, ◌↔◌, refl, arith, inl, List, [], ◌∷◌, Option, none, some, Bool, true,
  false, ok, replicate, length, All, bytes_eq,
}
use air_ferry_i_os_source.Protocol.Session.{derive_segment}
use air_ferry_i_os_source.Transfer.Types.{FileMeta, SegmentMeta}
use air_ferry_i_os_source.Transfer.Segment
use air_ferry_i_os_source.Transfer.Segment.Canonical.{IsCanonical, validate-IsCanonical}
use air_ferry_i_os_source.Transfer.Assembler.{
  TransferAssembler, new, add_segment, reassemble, expected_segment_count, validate_segment_range,
  segment_raw_len, store,
}
use air_ferry_i_os_source.Transfer.Assembler.Invariant.{IsValid, new-IsValid, add_segment-IsValid}
use air_ferry_i_os_source.Transfer.Assembler.Stream.{Root, IsRoot, seg_of, file_of, slice}
use air_ferry_i_os_source.Transfer.Assembler.RoundTrip.{Elem, feed, transfer_roundtrip}
use air_ferry_i_os_source.Transfer.Assembler.Short.{Arrival, arrive, short_segment_blocks}

abbrev file : FileMeta
file = record {
  filename = b'a' ∷ [];
  original_size = 10;
  crc32 = 0;
  compression = 1;
  compressed_size = 3;
  compressed_size_known = true;
  crc32_known = true;
}

abbrev digest : List ℕ → List ℕ
digest bytes = length bytes ∷ replicate 31 0

abbrev root : Root
root = record {
  stream = 1 ∷ (2 ∷ (3 ∷ []));
  session_id = 77;
  sha256 = replicate 32 9;
  count = 1;
  file = file;
}

abbrev granted : ℕ → Bool
granted n = true

root_ok : IsRoot root
root_ok = record {
  some_bytes = omega arith;
  in_budget = omega arith;
  covers = omega arith;
  tight = omega arith;
}

only_first : (i : ℕ) → i < 1 → Elem i (0 ∷ (0 ∷ []))
only_first i h = inl (omega arith)

transfer_roundtrip_example :
    (a : TransferAssembler) × (new granted (seg_of digest root 0) (file_of digest root 0) ≡ ok a)
    × (reassemble (2 ^ 64) granted (feed digest root a (0 ∷ (0 ∷ []))) ≡ some (1 ∷ (2 ∷ (3 ∷ []))))
transfer_roundtrip_example =
    transfer_roundtrip digest root (2 ^ 64) granted 0 (0 ∷ (0 ∷ [])) (λ n. refl) root_ok
      (omega arith) (omega arith, (omega arith, tt)) only_first (omega arith) (omega arith)

abbrev segment : SegmentMeta
segment = record {
  root_session_id = 77;
  segment_index = 0;
  segment_count = 1;
  original_offset = 0;
  root_original_size = 3;
  root_sha256 = replicate 32 9;
  raw_sha256 = digest (1 ∷ (2 ∷ (3 ∷ [])));
}

validate-IsCanonical_example :
    (Segment.validate segment 5 file ≡ ok tt) ↔ IsCanonical segment 5 file
validate-IsCanonical_example = validate-IsCanonical segment 5 file

abbrev opened : TransferAssembler
opened = record {
  root_session_id = 77;
  filename = b'a' ∷ [];
  total_segments = 1;
  root_compressed_size = 3;
  root_original_size = 10;
  root_sha256 = replicate 32 9;
  segments = none ∷ [];
  meta = none ∷ [];
  received_count = 0;
}

new-opened : new granted segment file ≡ ok opened
unfolding new expected_segment_count validate_segment_range segment_raw_len
new-opened = refl

abbrev filled : TransferAssembler
filled = record opened {
  segments = some (1 ∷ (2 ∷ (3 ∷ []))) ∷ [];
  meta = some segment ∷ [];
  received_count = 1;
}

opened-IsValid : IsValid opened
opened-IsValid = new-IsValid granted segment file opened new-opened

added : add_segment digest opened segment file (1 ∷ (2 ∷ (3 ∷ []))) ≡ ok (filled, true)
unfolding bytes_eq add_segment validate_segment_range expected_segment_count segment_raw_len store
added = refl

add_segment-IsValid_example : IsValid filled
add_segment-IsValid_example =
    add_segment-IsValid digest opened segment file (1 ∷ (2 ∷ (3 ∷ []))) opened-IsValid added

-- A segment of one byte in a slot of three.
abbrev short_segment : SegmentMeta
short_segment = record segment { raw_sha256 = digest (1 ∷ []) }

abbrev short_file : FileMeta
short_file = record file { compressed_size = 1 }

abbrev short_filled : TransferAssembler
short_filled = record opened {
  segments = some (1 ∷ []) ∷ [];
  meta = some short_segment ∷ [];
  received_count = 1;
}

short_added : add_segment digest opened short_segment short_file (1 ∷ []) ≡ ok (short_filled, true)
unfolding bytes_eq add_segment validate_segment_range expected_segment_count segment_raw_len store
short_added = refl

short_room : 1 < segment_raw_len 3 0
unfolding segment_raw_len
short_room = omega arith

short_segment_blocks_example : reassemble (2 ^ 64) granted (arrive digest short_filled []) ≡ none
short_segment_blocks_example =
    short_segment_blocks digest (2 ^ 64) granted opened short_filled short_segment short_file
      (1 ∷ []) [] opened-IsValid tt short_added short_room
