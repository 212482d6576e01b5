-- ===== src/Transfer/Descriptor.antt =====
-- core/transfer-engine/src/descriptor.rs: the payload of a descriptor frame, written and parsed.
-- A field is read at a cursor, the bytes that are left; lengths do not come near `usize::MAX`.
pub mod Fields
pub mod RoundTrip
pub mod Sound
use air_ferry_i_os_source.Prelude.{
  ℕ, zero, suc, ◌+◌, ◌-◌, ◌*◌, ◌%◌, ◌^◌, min, List, ◌∷◌, ◌++◌, Option, none, some, Bool, true,
  false, not, ◌&&◌, ◌||◌, length, take, drop, get_or, replicate, ltb, leb, ◌==◌, if◌then◌else◌,
  Result, ok, err, ◌>>=◌, ◌>>◌, reject_if, map_err,
}
use air_ferry_i_os_source.Bytes.{to_be, read_be}
use air_ferry_i_os_source.Codec.Meta.{SourceBlockMeta, ObjectMeta}
use air_ferry_i_os_source.Protocol.{buffer_too_short}
use air_ferry_i_os_source.Protocol.Frame
use air_ferry_i_os_source.Protocol.Frame.{Frame}
use air_ferry_i_os_source.Transfer.{Error, protocol, invalid_segment}
use air_ferry_i_os_source.Transfer.Types.{FileMeta, default_file_meta, SegmentMeta, DescriptorInfo}
use air_ferry_i_os_source.Transfer.Segment
use air_ferry_i_os_source.Transfer.Utf8.{is_utf8, char_floor}

abbrev pub desc_magic : ℕ
desc_magic = 0xD5

abbrev pub desc_version : ℕ
desc_version = 5

abbrev pub desc_legacy_v4 : ℕ
desc_legacy_v4 = 4

abbrev pub desc_v3_version : ℕ
desc_v3_version = 3

abbrev pub desc_fixed_overhead : ℕ
desc_fixed_overhead = 28

abbrev pub desc_v2_tail_fixed : ℕ
desc_v2_tail_fixed = 13

abbrev pub desc_v3_tail_fixed : ℕ
desc_v3_tail_fixed = 9

abbrev pub desc_segment_tail_fixed : ℕ
desc_segment_tail_fixed = 16 + 4 + 4 + 8 + 8 + 32 + 32

abbrev pub segment_tail : Option SegmentMeta → ℕ
segment_tail none = 0
segment_tail (some s) = desc_segment_tail_fixed

abbrev pub version_of : Option SegmentMeta → ℕ
version_of none = desc_v3_version
version_of (some s) = desc_version

-- The bytes in front of the filename's length, and the fixed ones behind the filename.
unfoldable pub kept_len : ObjectMeta → FileMeta → Option SegmentMeta → ℕ
kept_len meta file_meta segment =
    let available =
      meta.symbol_size
      - (desc_fixed_overhead
          + length meta.blocks * 16
          + desc_v2_tail_fixed
          + desc_v3_tail_fixed
          + segment_tail segment) in
    char_floor file_meta.filename (min (min (length file_meta.filename) available) 255)

unfoldable pub write_blocks : List SourceBlockMeta → List ℕ
write_blocks List.[] = List.[]
write_blocks (b ∷ blocks) =
    to_be 4 b.sbn
    ++ (to_be 4 b.num_source_symbols ++ (to_be 8 b.block_length ++ write_blocks blocks))

unfoldable pub write_segment : Option SegmentMeta → List ℕ → List ℕ
write_segment none rest = rest
write_segment (some s) rest =
    to_be 16 s.root_session_id
    ++ (to_be 4 s.segment_index
        ++ (to_be 4 s.segment_count
            ++ (to_be 8 s.original_offset
                ++ (to_be 8 s.root_original_size ++ (s.root_sha256 ++ (s.raw_sha256 ++ rest))))))

-- The v2 and v3 extensions, with the filename `name`.
unfoldable pub write_file_meta : FileMeta → List ℕ → List ℕ → List ℕ
write_file_meta f name rest =
    (length name % 256)
    ∷ (name
        ++ (to_be 8 f.original_size
            ++ (to_be 4 f.crc32 ++ ((f.compression % 256) ∷ (to_be 8 f.compressed_size ++ rest)))))

unfoldable pub write_meta : ObjectMeta → List ℕ → List ℕ
unfolding write_blocks
write_meta m rest =
    to_be 2 (length m.blocks)
    ++ (to_be 8 m.transfer_length
        ++ (to_be 4 m.symbol_size ++ (m.oti_bytes ++ (write_blocks m.blocks ++ rest))))

unfoldable pub body_len : ObjectMeta → FileMeta → Option SegmentMeta → ℕ
unfolding kept_len
body_len meta file_meta segment =
    desc_fixed_overhead
    + length meta.blocks * 16
    + 1
    + kept_len meta file_meta segment
    + desc_v2_tail_fixed
    - 1
    + desc_v3_tail_fixed
    + segment_tail segment

unfoldable pub build_payload_inner :
    ObjectMeta → FileMeta → Option SegmentMeta → Result Error (List ℕ)
unfolding kept_len body_len write_meta write_file_meta write_segment
build_payload_inner meta file_meta segment =
    let need = body_len meta file_meta segment in
    let filename = take (kept_len meta file_meta segment) file_meta.filename in
    if ltb meta.symbol_size need
    then err (protocol (buffer_too_short need meta.symbol_size))
    else ok (
        desc_magic
        ∷ (version_of segment
            ∷ write_meta meta (
                write_file_meta file_meta filename
                  (write_segment segment (replicate (meta.symbol_size - need) 0)))))

unfoldable pub build_payload : ObjectMeta → FileMeta → Result Error (List ℕ)
unfolding build_payload_inner
build_payload meta file_meta = build_payload_inner meta file_meta none

unfoldable pub build_segment_payload : ObjectMeta → FileMeta → SegmentMeta → Result Error (List ℕ)
unfolding build_payload_inner
build_segment_payload meta file_meta segment = build_payload_inner meta file_meta (some segment)

-- The block table: `n` entries of 16 bytes.
unfoldable pub parse_blocks : ℕ → List ℕ → List SourceBlockMeta × List ℕ
parse_blocks zero r = (List.[], r)
parse_blocks (suc n) r =
    let (sbn, r1) = read_be 4 r in
    let (num_source_symbols, r2) = read_be 4 r1 in
    let (block_length, r3) = read_be 8 r2 in
    let (blocks, rest) = parse_blocks n r3 in
    (
      record { sbn = sbn; num_source_symbols = num_source_symbols; block_length = block_length }
          ∷ blocks,
      rest,
    )

-- The v2 and v3 extensions behind the filename: the sizes, the checksum and the compression.
unfoldable pub parse_sizes : ℕ → List ℕ → List ℕ → Option (FileMeta × List ℕ)
parse_sizes version filename r =
    let (original_size, r1) = read_be 8 r in
    let (crc32, r2) = read_be 4 r1 in
    let compression = get_or r2 0 0 in
    let (compressed_size, r3) = read_be 8 (drop 1 r2) in
    if leb desc_v3_version version
    then if ltb (length r2) desc_v3_tail_fixed
      then none
      else some (
        record {
          filename = filename;
          original_size = original_size;
          crc32 = crc32;
          compression = compression;
          compressed_size = compressed_size;
          compressed_size_known = true;
          crc32_known = true;
        },
        r3,
      )
    else some (
      record {
        filename = filename;
        original_size = original_size;
        crc32 = crc32;
        compression = 0;
        compressed_size = original_size;
        compressed_size_known = true;
        crc32_known = true;
      },
      r2,
    )

unfoldable pub parse_file_meta : ℕ → List ℕ → Option (FileMeta × List ℕ)
unfolding is_utf8 parse_sizes
parse_file_meta version r =
    if version == 1
    then some (default_file_meta, r)
    else if length r == 0
    then none
    else let fn_len = get_or r 0 0 in
      let r1 = drop 1 r in
      let filename = take fn_len r1 in
      if ltb (length r1) (fn_len + 12)
      then none
      else if not (is_utf8 filename)
      then none
      else parse_sizes version filename (drop fn_len r1)

unfoldable pub read_segment : List ℕ → SegmentMeta
read_segment r =
    let (root_session_id, r1) = read_be 16 r in
    let (segment_index, r2) = read_be 4 r1 in
    let (segment_count, r3) = read_be 4 r2 in
    let (original_offset, r4) = read_be 8 r3 in
    let (root_original_size, r5) = read_be 8 r4 in
    record {
      root_session_id = root_session_id;
      segment_index = segment_index;
      segment_count = segment_count;
      original_offset = original_offset;
      root_original_size = root_original_size;
      root_sha256 = take 32 r5;
      raw_sha256 = take 32 (drop 32 r5);
    }

-- The outer option is the early return of `parse_payload`.
unfoldable pub parse_segment : ℕ → List ℕ → Option (Option SegmentMeta)
unfolding read_segment
parse_segment version r =
    if version == desc_version
    then if ltb (length r) desc_segment_tail_fixed then none else some (some (read_segment r))
    else some none

-- `?` on an option.
abbrev pub and_then : {A B : Type 0} → Option A → (A → Option B) → Option B
and_then none f = none
and_then (some a) f = f a

-- What follows the block table.
unfoldable pub parse_extensions : ℕ → ObjectMeta → List ℕ → Option DescriptorInfo
unfolding parse_file_meta parse_segment
parse_extensions version meta r = and_then (parse_file_meta version r) λ (file_meta, r').
    and_then (parse_segment version r')
      λ segment. some (record { meta = meta; file_meta = file_meta; segment = segment })

-- The payload behind the magic and the version.
unfoldable pub parse_body : ℕ → List ℕ → Option DescriptorInfo
unfolding parse_blocks parse_extensions
parse_body version r =
    let (num_blocks, r1) = read_be 2 r in
    let (transfer_length, r2) = read_be 8 r1 in
    let (symbol_size, r3) = read_be 4 r2 in
    let r4 = drop 12 r3 in
    let (blocks, r5) = parse_blocks num_blocks r4 in
    if ltb (length r4) (num_blocks * 16)
    then none
    else parse_extensions version
        (record {
          transfer_length = transfer_length;
          symbol_size = symbol_size;
          oti_bytes = take 12 r3;
          blocks = blocks;
        })
        r5

unfoldable pub parse_payload : List ℕ → Option DescriptorInfo
unfolding parse_body
parse_payload payload =
    let version = get_or payload 1 0 in
    if ltb (length payload) desc_fixed_overhead || not (get_or payload 0 0 == desc_magic)
    then none
    else if not (leb 1 version && leb version desc_version)
    then none
    else if version == desc_legacy_v4
    then none
    else parse_body version (drop 2 payload)

-- `.map(|b| b.num_source_symbols).sum()` in `u32`, which wraps in a release build.
unfoldable pub symbol_sum : List SourceBlockMeta → ℕ
symbol_sum List.[] = 0
symbol_sum (b ∷ blocks) = (b.num_source_symbols + symbol_sum blocks) % 2 ^ 32

module _ (crc32 : List ℕ → ℕ) where
  abbrev pub frame_of : ObjectMeta → ℕ → ℕ → ℕ → List ℕ → Frame
  unfolding Frame.build
  frame_of meta session_id frame_index timestamp_ms payload =
      Frame.build crc32 session_id Frame.flag_descriptor 0 0 (length meta.blocks % 2 ^ 32)
        (symbol_sum meta.blocks) meta.symbol_size frame_index timestamp_ms payload

  unfoldable pub build_frame : ObjectMeta → FileMeta → ℕ → ℕ → ℕ → Result Error Frame
  unfolding build_payload
  build_frame meta file_meta session_id frame_index timestamp_ms = do
    payload ← build_payload meta file_meta
    ok (frame_of meta session_id frame_index timestamp_ms payload)

  unfoldable pub build_segment_frame :
      ObjectMeta → FileMeta → SegmentMeta → ℕ → ℕ → ℕ → Result Error Frame
  unfolding build_segment_payload Segment.validate
  build_segment_frame meta file_meta segment child_session_id frame_index timestamp_ms = do
    map_err invalid_segment (Segment.validate segment child_session_id file_meta)
    payload ← build_segment_payload meta file_meta segment
    ok (frame_of meta child_session_id frame_index timestamp_ms payload)
