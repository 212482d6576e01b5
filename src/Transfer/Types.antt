-- ===== src/Transfer/Types.antt =====
-- The structs that descriptors carry: `FileMeta` and `DescriptorInfo` of
-- core/transfer-engine/src/descriptor.rs, `SegmentMeta` of core/transfer-engine/src/segment.rs.
-- A string is its UTF-8 bytes, a digest its 32 bytes.
use air_ferry_i_os_source.Prelude.{
  ℕ, ◌≡◌, arith, List, Option, none, some, Bool, true, false, not, ◌&&◌, ◌==◌, bytes_eq,
  bytes_eq→eq, bytes_eq_refl,
}
use air_ferry_i_os_source.Codec.Meta.{ObjectMeta}

pub record FileMeta : Type 0 where
  pub filename : List ℕ
  pub original_size : ℕ
  pub crc32 : ℕ
  pub compression : ℕ
  pub compressed_size : ℕ
  pub compressed_size_known : Bool
  pub crc32_known : Bool

-- `FileMeta::default()`
abbrev pub default_file_meta : FileMeta
default_file_meta = record {
  filename = List.[];
  original_size = 0;
  crc32 = 0;
  compression = 0;
  compressed_size = 0;
  compressed_size_known = false;
  crc32_known = false;
}

pub record SegmentMeta : Type 0 where
  pub root_session_id : ℕ
  pub segment_index : ℕ
  pub segment_count : ℕ
  pub original_offset : ℕ
  pub root_original_size : ℕ
  pub root_sha256 : List ℕ
  pub raw_sha256 : List ℕ

pub record DescriptorInfo : Type 0 where
  pub meta : ObjectMeta
  pub file_meta : FileMeta
  pub segment : Option SegmentMeta

-- The derived `==` of `SegmentMeta`.
unfoldable pub segment_eq : SegmentMeta → SegmentMeta → Bool
segment_eq a b =
    (a.root_session_id == b.root_session_id)
    && ((a.segment_index == b.segment_index)
        && ((a.segment_count == b.segment_count)
            && ((a.original_offset == b.original_offset)
                && ((a.root_original_size == b.root_original_size)
                    && (bytes_eq a.root_sha256 b.root_sha256
                        && bytes_eq a.raw_sha256 b.raw_sha256)))))

pub segment_eq_refl : (a : SegmentMeta) → segment_eq a a ≡ true
unfolding segment_eq
segment_eq_refl a = ground (arith, bytes_eq_refl a.root_sha256, bytes_eq_refl a.raw_sha256)

pub segment_eq→eq : (a b : SegmentMeta) → segment_eq a b ≡ true → a ≡ b
unfolding segment_eq
segment_eq→eq a b h =
    ground (arith, bytes_eq→eq a.root_sha256 b.root_sha256, bytes_eq→eq a.raw_sha256 b.raw_sha256)

abbrev pub bool_eq : Bool → Bool → Bool
bool_eq true b = b
bool_eq false b = not b

unfoldable pub file_meta_eq : FileMeta → FileMeta → Bool
file_meta_eq a b =
    bytes_eq a.filename b.filename
    && ((a.original_size == b.original_size)
        && ((a.crc32 == b.crc32)
            && ((a.compression == b.compression)
                && ((a.compressed_size == b.compressed_size)
                    && (bool_eq a.compressed_size_known b.compressed_size_known
                        && bool_eq a.crc32_known b.crc32_known)))))

unfoldable pub option_segment_eq : Option SegmentMeta → Option SegmentMeta → Bool
option_segment_eq none none = true
option_segment_eq (some a) (some b) = segment_eq a b
option_segment_eq _ _ = false
