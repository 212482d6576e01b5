-- ===== src/Transfer/Examples/Wire.antt =====
-- The theorems on descriptors at one object of one block.
use air_ferry_i_os_source.Prelude.{
  ℕ, ◌+◌, ◌-◌, ◌*◌, ◌≤◌, ◌≡◌, refl, arith, List, [], ◌∷◌, ◌++◌, none, some, true, ok, replicate,
  length, take, get_or, ◌==◌,
}
use air_ferry_i_os_source.Bytes.{to_be, to_le}
use air_ferry_i_os_source.Codec.Meta.{ObjectMeta}
use air_ferry_i_os_source.Transfer.Types.{FileMeta, DescriptorInfo}
use air_ferry_i_os_source.Transfer.Utf8.{is_utf8, valid_from, lead, char_floor, is_char_boundary}
use air_ferry_i_os_source.Transfer.Descriptor.{
  build_payload_inner, parse_payload, kept_len, body_len, write_meta, write_blocks, write_file_meta,
  write_segment, segment_tail,
}
use air_ferry_i_os_source.Transfer.Descriptor.Fields.{
  MetaInRange, FileMetaInRange, none_in_range, learned,
}
use air_ferry_i_os_source.Transfer.Descriptor.RoundTrip.{
  parse_payload-build_payload_inner, length-build_payload_inner,
}
use air_ferry_i_os_source.Transfer.Descriptor.Sound.{
  parse_payload-version, kept_len_lem, IsReadable, is_segment,
}

abbrev meta : ObjectMeta
meta = record {
  transfer_length = 60;
  symbol_size = 72;
  oti_bytes = replicate 12 1;
  blocks = record { sbn = 0; num_source_symbols = 1; block_length = 72 } ∷ [];
}

-- A name of ten bytes. Six would fit; they would end within a character, so five are sent.
abbrev file : FileMeta
file = record {
  filename =
      b'a' ∷ (b'b' ∷ (0xE6 ∷ (0x96 ∷ (0x87 ∷ (0xE4 ∷ (0xBB ∷ (0xB6 ∷ (b'.' ∷ (b'x' ∷ [])))))))));
  original_size = 60;
  crc32 = 99;
  compression = 0;
  compressed_size = 60;
  compressed_size_known = true;
  crc32_known = true;
}

abbrev payload : List ℕ
unfolding to_be to_le
payload =
    0xD5
    ∷ (3
        ∷ (to_be 2 1
            ++ (to_be 8 60
                ++ (to_be 4 72
                    ++ (replicate 12 1
                        ++ (to_be 4 0
                            ++ (to_be 4 1
                                ++ (to_be 8 72
                                    ++ (5
                                        ∷ (take 5 file.filename
                                            ++ (to_be 8 60
                                                ++ (to_be 4 99
                                                    ++ (0
                                                        ∷ (to_be 8 60 ++ replicate 1 0))))))))))))))

built : build_payload_inner meta file none ≡ ok payload
unfolding build_payload_inner body_len kept_len char_floor is_char_boundary write_meta write_blocks
    write_file_meta write_segment to_be to_le payload
built = refl

meta_in_range : MetaInRange meta
meta_in_range = record {
  transfer_length = omega arith;
  symbol_size = omega arith;
  oti_bytes = refl;
  blocks = ((omega arith, omega arith, omega arith), tt);
  block_count = omega arith;
}

file_in_range : FileMetaInRange file
unfolding is_utf8 valid_from lead
file_in_range = record {
  filename = refl;
  original_size = omega arith;
  crc32 = omega arith;
  compression = omega arith;
  compressed_size = omega arith;
}

parse_payload-build_payload_inner_example :
    parse_payload payload
    ≡ some (record {
      meta = meta;
      file_meta = learned file (take (kept_len meta file none) file.filename);
      segment = none;
    })
parse_payload-build_payload_inner_example =
    parse_payload-build_payload_inner meta file none payload meta_in_range file_in_range
      none_in_range built

length-build_payload_inner_example : length payload ≡ 72
length-build_payload_inner_example =
    length-build_payload_inner meta file none payload meta_in_range none_in_range built

abbrev learned_info : DescriptorInfo
unfolding kept_len char_floor is_char_boundary
learned_info = record {
  meta = meta;
  file_meta = learned file (take (kept_len meta file none) file.filename);
  segment = none;
}

parsed : parse_payload payload ≡ some learned_info
unfolding learned_info
parsed =
    parse_payload-build_payload_inner meta file none payload meta_in_range file_in_range
      none_in_range built

parse_payload-version_example :
    28 ≤ length payload
    × get_or payload 0 0 ≡ 0xD5
    × IsReadable (get_or payload 1 0)
    × is_segment learned_info.segment ≡ (get_or payload 1 0 == 5)
parse_payload-version_example = parse_payload-version payload learned_info parsed

name_utf8 : is_utf8 file.filename ≡ true
name_utf8 = file_in_range.filename

kept_len_lem_example :
    is_utf8 (take (kept_len meta file none) file.filename) ≡ true
    × kept_len meta file none ≤ 255
    × kept_len meta file none ≤ 72 - (50 + 1 * 16 + segment_tail none)
    × ((n : ℕ)
        → n ≤ 255
        → n ≤ 72 - (50 + 1 * 16 + segment_tail none)
        → n ≤ 10
        → is_char_boundary file.filename n ≡ true
        → n ≤ kept_len meta file none)
kept_len_lem_example = kept_len_lem meta file none name_utf8
