-- ===== src/Transfer/Receiver/Gate.antt =====
-- core/transfer-engine/src/receiver.rs, `ingest`: the tests that a descriptor has to pass.
use air_ferry_i_os_source.Prelude.{
  ℕ, ◌+◌, ◌%◌, ◌^◌, List, ◌∷◌, Option, none, some, Bool, true, false, not, ◌&&◌, ◌||◌, length, ltb,
  ◌==◌, if◌then◌else◌, is_err,
}
use air_ferry_i_os_source.Codec.Meta.{
  SourceBlockMeta, ObjectMeta, validate, max_original_bytes, Oti,
}
use air_ferry_i_os_source.Protocol.Compress.{is_known_compression_tag, compression_none}
use air_ferry_i_os_source.Protocol.Frame.{Frame}
use air_ferry_i_os_source.Transfer.Types.{SegmentMeta, DescriptorInfo}
use air_ferry_i_os_source.Transfer.Segment

-- `try_fold(0u32, |sum, block| sum.checked_add(block.num_source_symbols))` from `sum` on
unfoldable pub checked_sum : ℕ → List SourceBlockMeta → Option ℕ
checked_sum sum List.[] = some sum
checked_sum sum (b ∷ blocks) =
    let rest = checked_sum (sum + b.num_source_symbols) blocks in
    if ltb (sum + b.num_source_symbols) (2 ^ 32) then rest else none

abbrev is_some_of : Option ℕ → ℕ → Bool
is_some_of none n = false
is_some_of (some m) n = m == n

abbrev is_none : Option SegmentMeta → Bool
is_none none = true
is_none (some s) = false

unfoldable pub frame_geometry_invalid : Frame → ObjectMeta → Bool
unfolding checked_sum
frame_geometry_invalid frame meta =
    not (frame.header.symbol_size == meta.symbol_size)
    || (not (frame.header.total_blocks == length meta.blocks % 2 ^ 32)
        || not (is_some_of (checked_sum 0 meta.blocks) frame.header.total_symbols))

unfoldable pub segment_invalid : ℕ → DescriptorInfo → Bool
unfolding Segment.validate
segment_invalid session_id info = elim info.segment [
  | none ↦ false
  | some segment ↦ is_err (Segment.validate segment session_id info.file_meta)
]

unfoldable pub file_meta_invalid : DescriptorInfo → Bool
file_meta_invalid info =
    let f = info.file_meta in
    not (is_known_compression_tag f.compression)
    || ((is_none info.segment && ltb max_original_bytes f.original_size)
        || ((f.compressed_size_known && ltb info.meta.transfer_length f.compressed_size)
            || (is_none info.segment
                && (not (f.compression == compression_none) && (f.original_size == 0)))))

module _ (deserialize : List ℕ → Oti) where
  unfoldable pub descriptor_invalid : Frame → DescriptorInfo → Bool
  unfolding frame_geometry_invalid file_meta_invalid segment_invalid
  descriptor_invalid frame info =
      is_err (validate deserialize info.meta)
      || (frame_geometry_invalid frame info.meta
          || (file_meta_invalid info || segment_invalid frame.header.session_id info))
