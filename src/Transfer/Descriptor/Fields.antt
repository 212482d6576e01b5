-- ===== src/Transfer/Descriptor/Fields.antt =====
-- core/transfer-engine/src/descriptor.rs: the block table and the segment extension; the widths of all fields.
use mathlib.Core.List.{append_assoc}
use air_ferry_i_os_source.Prelude.{
  ℕ, ◌+◌, ◌*◌, ◌<◌, ◌≡◌, refl, sym, arith, List, [], ◌∷◌, ◌++◌, Option, none, some, true, false,
  length, All, ltb, length-append, take-append, drop-append,
}
use air_ferry_i_os_source.Bytes.{read_be-to_be, length-to_be, IsByte, IsU32, IsU64, IsU128}
use air_ferry_i_os_source.Codec.Meta.{SourceBlockMeta, ObjectMeta}
use air_ferry_i_os_source.Transfer.Types.{FileMeta, SegmentMeta}
use air_ferry_i_os_source.Transfer.Utf8.{is_utf8}
use air_ferry_i_os_source.Transfer.Descriptor.{
  write_blocks, write_segment, parse_blocks, read_segment, parse_segment, version_of,
}

-- The widths of the Rust field types.
abbrev pub BlockInRange : SourceBlockMeta → Type 0
BlockInRange b = IsU32 b.sbn × IsU32 b.num_source_symbols × IsU64 b.block_length

pub record SegmentInRange (s : SegmentMeta) : Type 0 where
  pub root_session_id : IsU128 s.root_session_id
  pub segment_index : IsU32 s.segment_index
  pub segment_count : IsU32 s.segment_count
  pub original_offset : IsU64 s.original_offset
  pub root_original_size : IsU64 s.root_original_size
  pub root_sha256 : length s.root_sha256 ≡ 32
  pub raw_sha256 : length s.raw_sha256 ≡ 32

pub data TailInRange : Option SegmentMeta → Type 0 where
  none_in_range : TailInRange none
  some_in_range : (s : SegmentMeta) → SegmentInRange s → TailInRange (some s)

pub record MetaInRange (m : ObjectMeta) : Type 0 where
  pub transfer_length : IsU64 m.transfer_length
  pub symbol_size : IsU32 m.symbol_size
  pub oti_bytes : length m.oti_bytes ≡ 12
  pub blocks : All BlockInRange m.blocks
  pub block_count : length m.blocks < 65536

pub record FileMetaInRange (f : FileMeta) : Type 0 where
  pub filename : is_utf8 f.filename ≡ true
  pub original_size : IsU64 f.original_size
  pub crc32 : IsU32 f.crc32
  pub compression : IsByte f.compression
  pub compressed_size : IsU64 f.compressed_size

-- What a receiver learns of `f`: the filename is `name`, and the sizes and the checksum are known.
abbrev pub learned : FileMeta → List ℕ → FileMeta
learned f name = record f { filename = name; compressed_size_known = true; crc32_known = true }

pub length-write_blocks : (bs : List SourceBlockMeta) → length (write_blocks bs) ≡ length bs * 16
unfolding write_blocks
length-write_blocks [] = omega arith
length-write_blocks (b ∷ bs) =
    rw (length-append, length-to_be, length-append, length-to_be, length-append, length-to_be)
      (omega (arith, length-write_blocks bs))

pub parse_blocks-write_blocks :
    (bs : List SourceBlockMeta) (rest : List ℕ)
    → All BlockInRange bs
    → parse_blocks (length bs) (write_blocks bs ++ rest) ≡ (bs, rest)
unfolding parse_blocks write_blocks
parse_blocks-write_blocks [] rest h = refl
parse_blocks-write_blocks (b ∷ bs) rest ((hs, hk, hl), h) =
    rw
      (
        append_assoc,
        append_assoc,
        append_assoc,
        read_be-to_be,
        hs,
        read_be-to_be,
        hk,
        read_be-to_be,
        hl,
        parse_blocks-write_blocks bs rest h,
      )
      refl

pub read_segment-write_segment :
    (s : SegmentMeta) (rest : List ℕ)
    → SegmentInRange s
    → read_segment (write_segment (some s) rest) ≡ s
unfolding read_segment write_segment
read_segment-write_segment s rest h =
    rw
      (
        read_be-to_be,
        h.root_session_id,
        read_be-to_be,
        h.segment_index,
        read_be-to_be,
        h.segment_count,
        read_be-to_be,
        h.original_offset,
        read_be-to_be,
        h.root_original_size,
        take-append 32 s.root_sha256 (s.raw_sha256 ++ rest) (sym h.root_sha256),
        drop-append 32 s.root_sha256 (s.raw_sha256 ++ rest) (sym h.root_sha256),
        take-append 32 s.raw_sha256 rest (sym h.raw_sha256),
      )
      refl

pub length-write_segment :
    (s : SegmentMeta) (rest : List ℕ)
    → SegmentInRange s
    → length (write_segment (some s) rest) ≡ 104 + length rest
unfolding write_segment
length-write_segment s rest h =
    let a = h.root_sha256 in
    let b = h.raw_sha256 in
    rw
      (
        length-append,
        length-to_be,
        length-append,
        length-to_be,
        length-append,
        length-to_be,
        length-append,
        length-to_be,
        length-append,
        length-to_be,
        length-append s.root_sha256,
        length-append s.raw_sha256,
      )
      (omega arith)

pub parse_segment-write_segment :
    (s : Option SegmentMeta) (rest : List ℕ)
    → TailInRange s
    → parse_segment (version_of s) (write_segment s rest) ≡ some s
unfolding parse_segment
parse_segment-write_segment none rest h = refl
parse_segment-write_segment (some s) rest (some_in_range _ h) =
    let l = length-write_segment s rest h in
    let long : ltb (length (write_segment (some s) rest)) 104 ≡ false = ground arith in
    rw (long, read_segment-write_segment s rest h) refl
