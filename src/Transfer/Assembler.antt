-- ===== src/Transfer/Assembler.antt =====
-- core/transfer-engine/src/assembler.rs: the segments of one root transfer, put together in memory.
-- `sha256` is the third-party digest, `reserve n` says whether the allocator grants `n` more slots
-- or bytes, and `usize_max` is the platform's `usize::MAX`.
pub mod Invariant
pub mod Stream
pub mod RoundTrip
pub mod Short
use air_ferry_i_os_source.Prelude.{
  ℕ, ◌+◌, ◌-◌, ◌*◌, ◌/◌, ◌^◌, min, List, ◌∷◌, ◌++◌, Option, none, some, Bool, true, false, not,
  ◌||◌, ltb, leb, ◌==◌, bytes_eq, if◌then◌else◌, length, get_or, replicate, set, String, Result, ok,
  err, ◌>>=◌, ◌>>◌, reject_if, map_err,
}
use air_ferry_i_os_source.Codec.Meta.{checked_u64}
use air_ferry_i_os_source.Transfer.{Error, invalid_segment}
use air_ferry_i_os_source.Transfer.Types.{FileMeta, SegmentMeta, segment_eq}
use air_ferry_i_os_source.Transfer.Segment.{segment_raw_bytes, max_segment_count}

abbrev pub max_in_memory_assembly_bytes : ℕ
max_in_memory_assembly_bytes = 256 * 1024 * 1024

pub record TransferAssembler : Type 0 where
  pub root_session_id : ℕ
  pub filename : List ℕ
  pub total_segments : ℕ
  pub root_compressed_size : ℕ
  pub root_original_size : ℕ
  pub root_sha256 : List ℕ
  pub segments : List (Option (List ℕ))
  pub meta : List (Option SegmentMeta)
  pub received_count : ℕ

unfoldable pub expected_segment_count : ℕ → Option ℕ
expected_segment_count root_compressed_size =
    let count = (root_compressed_size - 1) / segment_raw_bytes + 1 in
    if root_compressed_size == 0 then some 0 else if ltb count (2 ^ 32) then some count else none

unfoldable pub segment_raw_len : ℕ → ℕ → ℕ
segment_raw_len root_size segment_index =
    min (root_size - segment_index * segment_raw_bytes) segment_raw_bytes

-- `x == Some(n)`
abbrev is_some_of : Option ℕ → ℕ → Bool
is_some_of none n = false
is_some_of (some m) n = m == n

unfoldable pub validate_segment_range : SegmentMeta → FileMeta → ℕ → Result String (Unit {0})
validate_segment_range seg file_meta root_compressed_size = do
  reject_if (seg.segment_count == 0 || ltb max_segment_count seg.segment_count)
      "segment count out of range"
  reject_if (not (is_some_of (expected_segment_count root_compressed_size) seg.segment_count))
      "segment count inconsistent with compressed root size"
  reject_if (leb seg.segment_count seg.segment_index) "segment index out of range"
  reject_if (not (seg.root_original_size == root_compressed_size))
      "segment root size does not match assembler"
  expected_offset ← checked_u64 (seg.segment_index * segment_raw_bytes) "segment offset overflow"
  reject_if (not (seg.original_offset == expected_offset)) "segment offset is not canonical"
  reject_if (ltb (segment_raw_len root_compressed_size seg.segment_index) file_meta.compressed_size)
      "segment compressed length exceeds canonical compressed range"

-- `.ok_or(…)`
abbrev or_error : Option ℕ → String → Result String ℕ
or_error none e = err e
or_error (some n) e = ok n

unfoldable pub new : (ℕ → Bool) → SegmentMeta → FileMeta → Result Error TransferAssembler
new reserve seg file_meta = map_err invalid_segment do
  reject_if (seg.segment_count == 0 || ltb max_segment_count seg.segment_count)
      "segment count out of range"
  reject_if (seg.root_original_size == 0) "segment compressed root size is empty"
  expected ← or_error (expected_segment_count seg.root_original_size) "segment count overflow"
  reject_if (not (expected == seg.segment_count))
      "segment count inconsistent with compressed root size"
  validate_segment_range seg file_meta seg.root_original_size
  reject_if (not (reserve seg.segment_count)) "segment slot allocation failed"
  reject_if (not (reserve seg.segment_count)) "segment metadata allocation failed"
  ok (record {
    root_session_id = seg.root_session_id;
    filename = file_meta.filename;
    total_segments = seg.segment_count;
    root_compressed_size = seg.root_original_size;
    root_original_size = file_meta.original_size;
    root_sha256 = seg.root_sha256;
    segments = replicate seg.segment_count none;
    meta = replicate seg.segment_count none;
    received_count = 0;
  })

unfoldable pub is_complete : TransferAssembler → Bool
is_complete a = a.received_count == a.total_segments

abbrev is_some {ℓ} : {A : Type ℓ} → Option A → Bool
is_some none = false
is_some (some x) = true

unfoldable pub has_segment : TransferAssembler → ℕ → Bool
has_segment a segment_index = is_some (get_or a.segments segment_index none)

-- `self.meta[idx].as_ref() != Some(seg)`, negated
abbrev same_meta : Option SegmentMeta → SegmentMeta → Bool
same_meta none seg = false
same_meta (some old) seg = segment_eq old seg

-- The writes of `add_segment` behind its tests: `Ok(false)` for a repeat that agrees.
unfoldable pub store :
    TransferAssembler
    → SegmentMeta
    → List ℕ
    → Option (List ℕ)
    → Result String (TransferAssembler × Bool)
store a seg bytes (some old) =
    if same_meta (get_or a.meta seg.segment_index none) seg
    then ok (a, false)
    else err "duplicate segment metadata conflicts with stored segment"
store a seg bytes none = ok (
  record a {
    segments = set a.segments seg.segment_index (some bytes);
    meta = set a.meta seg.segment_index (some seg);
    received_count = a.received_count + 1;
  },
  true,
)

module _ (sha256 : List ℕ → List ℕ) where
  -- An error leaves the assembler as it was.
  unfoldable pub add_segment :
      TransferAssembler → SegmentMeta → FileMeta → List ℕ → Result Error (TransferAssembler × Bool)
  add_segment a seg file_meta bytes = map_err invalid_segment do
    reject_if (not (seg.root_session_id == a.root_session_id))
        "segment root id does not match assembler"
    reject_if (not (seg.segment_count == a.total_segments)) "segment count does not match assembler"
    reject_if (not (bytes_eq seg.root_sha256 a.root_sha256))
        "segment root sha256 does not match assembler"
    reject_if (not (bytes_eq file_meta.filename a.filename))
        "segment filename does not match assembler"
    validate_segment_range seg file_meta a.root_compressed_size
    reject_if (not (length bytes == file_meta.compressed_size)) "segment length mismatch"
    reject_if (ltb (segment_raw_len a.root_compressed_size seg.segment_index) (length bytes))
        "segment length exceeds canonical range"
    reject_if (not (bytes_eq (sha256 bytes) seg.raw_sha256)) "segment sha256 mismatch"
    store a seg bytes (get_or a.segments seg.segment_index none)

-- `for slot in segments { let bytes = slot.as_ref()?; out.extend_from_slice(bytes); }`
unfoldable pub concat_slots : List (Option (List ℕ)) → List ℕ → Option (List ℕ)
concat_slots List.[] out = some out
concat_slots (none ∷ slots) out = none
concat_slots (some bytes ∷ slots) out = concat_slots slots (out ++ bytes)

-- The last test of `reassemble`.
abbrev of_length : ℕ → Option (List ℕ) → Option (List ℕ)
of_length n none = none
of_length n (some out) = if length out == n then some out else none

unfoldable pub reassemble : ℕ → (ℕ → Bool) → TransferAssembler → Option (List ℕ)
unfolding is_complete
reassemble usize_max reserve a =
    if not (is_complete a)
    then none
    else if ltb max_in_memory_assembly_bytes a.root_compressed_size
    then none
    else if not (leb a.root_compressed_size usize_max)
    then none
    else if not (reserve a.root_compressed_size)
    then none
    else of_length a.root_compressed_size (concat_slots a.segments List.[])

-- The loop of `segment_ranges` over the known segments.
unfoldable pub ranges : ℕ → List (Option SegmentMeta) → List (ℕ × ℕ × ℕ × List ℕ)
ranges root_compressed_size List.[] = List.[]
ranges root_compressed_size (none ∷ rest) = ranges root_compressed_size rest
ranges root_compressed_size (some seg ∷ rest) =
    (
      seg.segment_index,
      seg.original_offset,
      segment_raw_len root_compressed_size seg.segment_index,
      seg.raw_sha256,
    )
    ∷ ranges root_compressed_size rest

unfoldable pub segment_ranges : TransferAssembler → List (ℕ × ℕ × ℕ × List ℕ)
unfolding ranges
segment_ranges a = ranges a.root_compressed_size a.meta
