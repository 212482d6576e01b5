-- ===== src/Transfer/Descriptor/RoundTrip.antt =====
-- core/transfer-engine/src/descriptor.rs: `parse_payload` on what `build_payload_inner` writes.
use air_ferry_i_os_source.Prelude.{
  ℕ, suc, ◌+◌, ◌-◌, ◌*◌, ◌%◌, ◌≤◌, ◌<◌, min, ◌≡◌, refl, sym, ap, ◌∙◌, ◌⊎◌, inl, inr, arith, List,
  ◌∷◌, ◌++◌, Option, none, some, true, false, length, take, replicate, ltb, leb, ◌==◌, Bool-cases,
  ok, length-append, take-append, drop-append, length-take, length-replicate, ok-injective,
}
use air_ferry_i_os_source.Bytes.{to_be, read_be-to_be, length-to_be}
use air_ferry_i_os_source.Codec.Meta.{ObjectMeta}
use air_ferry_i_os_source.Transfer.Types.{FileMeta, SegmentMeta}
use air_ferry_i_os_source.Transfer.Utf8.{
  is_utf8, char_floor, is_utf8-take, char_floor_boundary, char_floor-le,
}
use air_ferry_i_os_source.Transfer.Descriptor.{
  write_blocks, write_segment, write_file_meta, write_meta, kept_len, body_len, build_payload_inner,
  parse_sizes, parse_file_meta, parse_body, parse_extensions, parse_payload, version_of,
  segment_tail,
}
use air_ferry_i_os_source.Transfer.Descriptor.Fields.{
  TailInRange, some_in_range, MetaInRange, FileMetaInRange, learned, length-write_blocks,
  parse_blocks-write_blocks, length-write_segment, parse_segment-write_segment,
}

pub length-write_segment_tail :
    (s : Option SegmentMeta) (rest : List ℕ)
    → TailInRange s
    → length (write_segment s rest) ≡ segment_tail s + length rest
unfolding write_segment
length-write_segment_tail none rest h = omega arith
length-write_segment_tail (some s) rest (some_in_range _ h) = length-write_segment s rest h

parse_sizes-written :
    (f : FileMeta) (name rest : List ℕ) (version : ℕ)
    → FileMetaInRange f
    → 3 ≤ version
    → parse_sizes version name (
        to_be 8 f.original_size
        ++ (to_be 4 f.crc32 ++ ((f.compression % 256) ∷ (to_be 8 f.compressed_size ++ rest))))
      ≡ some (learned f name, rest)
unfolding parse_sizes
parse_sizes-written f name rest version h v =
    let c : f.compression % 256 ≡ f.compression = (let k = h.compression in omega arith) in
    let l : length (to_be 8 f.compressed_size ++ rest) ≡ 8 + length rest =
      length-append _ _ ∙ ap (λ t. t + length rest) (length-to_be 8 f.compressed_size) in
    let new : leb 3 version ≡ true = ground arith in
    let long : ltb (suc (length (to_be 8 f.compressed_size ++ rest))) 9 ≡ false = ground arith in
    rw
      (
        read_be-to_be, h.original_size, read_be-to_be, h.crc32, new, long, c, read_be-to_be,
        h.compressed_size,
      )
      refl

parse_file_meta-write_file_meta :
    (f : FileMeta) (name rest : List ℕ) (version : ℕ)
    → FileMetaInRange f
    → is_utf8 name ≡ true
    → length name < 256
    → 3 ≤ version
    → parse_file_meta version (write_file_meta f name rest) ≡ some (learned f name, rest)
unfolding parse_file_meta write_file_meta
parse_file_meta-write_file_meta f name rest version h utf8 short v =
    let sizes =
      to_be 8 f.original_size
      ++ (to_be 4 f.crc32 ++ ((f.compression % 256) ∷ (to_be 8 f.compressed_size ++ rest))) in
    let n : length name % 256 ≡ length name = omega arith in
    let later : (version == 1) ≡ false = ground arith in
    let l : length (name ++ sizes) ≡ length name + (21 + length rest) =
      rw
        (
          length-append, length-append, length-to_be, length-append, length-to_be, length-append,
          length-to_be,
        )
        (omega arith) in
    let long : ltb (length (name ++ sizes)) (length name + 12) ≡ false = ground arith in
    let nonempty : (length (write_file_meta f name rest) == 0) ≡ false = ground arith in
    rw
      (
        later,
        nonempty,
        n,
        long,
        take-append (length name) name sizes refl,
        utf8,
        drop-append (length name) name sizes refl,
        parse_sizes-written f name rest version h v,
      )
      refl

version-le : (s : Option SegmentMeta) → 3 ≤ version_of s
version-le none = omega arith
version-le (some s) = omega arith

parse_body-write_meta :
    (m : ObjectMeta) (f : FileMeta) (s : Option SegmentMeta) (name rest : List ℕ)
    → MetaInRange m
    → FileMetaInRange f
    → TailInRange s
    → is_utf8 name ≡ true
    → length name < 256
    → parse_body (version_of s) (write_meta m (write_file_meta f name (write_segment s rest)))
      ≡ some (record { meta = m; file_meta = learned f name; segment = s })
unfolding parse_body parse_extensions write_meta
parse_body-write_meta m f s name rest hm hf hs utf8 short =
    let tail = write_file_meta f name (write_segment s rest) in
    let l : length (write_blocks m.blocks ++ tail) ≡ length m.blocks * 16 + length tail =
      length-append _ _ ∙ ap (λ t. t + length tail) (length-write_blocks m.blocks) in
    let long : ltb (length (write_blocks m.blocks ++ tail)) (length m.blocks * 16) ≡ false =
      ground arith in
    let v : 3 ≤ version_of s = version-le s in
    rw
      (
        read_be-to_be,
        hm.block_count,
        read_be-to_be,
        hm.transfer_length,
        read_be-to_be,
        hm.symbol_size,
        take-append 12 m.oti_bytes (write_blocks m.blocks ++ tail) (sym hm.oti_bytes),
        drop-append 12 m.oti_bytes (write_blocks m.blocks ++ tail) (sym hm.oti_bytes),
        parse_blocks-write_blocks m.blocks tail hm.blocks,
        long,
        parse_file_meta-write_file_meta f name (write_segment s rest) (version_of s) hf utf8 short
            v,
        parse_segment-write_segment s rest hs,
      )
      refl

-- Long enough, and with the magic and a version that is read.
parse_payload-version :
    (version : ℕ) (r : List ℕ)
    → 28 ≤ 2 + length r
    → (version ≡ 3) ⊎ (version ≡ 5)
    → parse_payload (0xD5 ∷ (version ∷ r)) ≡ parse_body version r
unfolding parse_payload
parse_payload-version version r l v =
    let long : ltb (suc (suc (length r))) 28 ≡ false = ground arith in
    elim v [ inl e ↦ rw (long, e) refl | inr e ↦ rw (long, e) refl ]

length-write_meta :
    (m : ObjectMeta) (rest : List ℕ)
    → MetaInRange m
    → length (write_meta m rest) ≡ 26 + length m.blocks * 16 + length rest
unfolding write_meta
length-write_meta m rest h =
    let o = h.oti_bytes in
    let w = length-write_blocks m.blocks in
    rw
      (
        length-append,
        length-to_be,
        length-append,
        length-to_be,
        length-append,
        length-to_be,
        length-append m.oti_bytes,
        length-append (write_blocks m.blocks),
      )
      (omega arith)

version_of-cases : (s : Option SegmentMeta) → (version_of s ≡ 3) ⊎ (version_of s ≡ 5)
version_of-cases none = inl refl
version_of-cases (some s) = inr refl

pub char_floor-IsUtf8 :
    (name : List ℕ) (n : ℕ) → is_utf8 name ≡ true → is_utf8 (take (char_floor name n) name) ≡ true
char_floor-IsUtf8 name n h = is_utf8-take name (char_floor name n) h (char_floor_boundary name n)

kept_len-le :
    (m : ObjectMeta) (f : FileMeta) (s : Option SegmentMeta)
    → kept_len m f s ≤ length f.filename × kept_len m f s ≤ 255
unfolding kept_len
kept_len-le m f s =
    let bound = char_floor-le f.filename (
      min
        (min (length f.filename)
          (m.symbol_size - (28 + length m.blocks * 16 + 13 + 9 + segment_tail s)))
        255) in
    (omega arith, omega arith)

kept_len-IsUtf8 :
    (m : ObjectMeta) (f : FileMeta) (s : Option SegmentMeta)
    → is_utf8 f.filename ≡ true
    → is_utf8 (take (kept_len m f s) f.filename) ≡ true
unfolding kept_len
kept_len-IsUtf8 m f s h = char_floor-IsUtf8 f.filename _ h

built_bytes :
    (m : ObjectMeta) (f : FileMeta) (s : Option SegmentMeta) (payload : List ℕ)
    → build_payload_inner m f s ≡ ok payload
    → payload
      ≡ 0xD5
        ∷ (version_of s
            ∷ write_meta m (
                write_file_meta f
                  (take (kept_len m f s) f.filename)
                  (write_segment s (replicate (m.symbol_size - body_len m f s) 0))))
unfolding build_payload_inner
built_bytes m f s payload built = elim (Bool-cases (ltb m.symbol_size (body_len m f s))) [
  | inl y ↦ absurd (let b = rw y at built in cc)
  | inr y ↦ let b = rw y at built in sym (ok-injective b)
]

-- A descriptor that is built from fields in range is parsed into the same object, segment and file
-- metadata, but for the filename, which is cut, and with its sizes and checksum marked known.
pub parse_payload-build_payload_inner :
    (m : ObjectMeta) (f : FileMeta) (s : Option SegmentMeta) (payload : List ℕ)
    → MetaInRange m
    → FileMetaInRange f
    → TailInRange s
    → build_payload_inner m f s ≡ ok payload
    → parse_payload payload
      ≡ some (record {
        meta = m;
        file_meta = learned f (take (kept_len m f s) f.filename);
        segment = s;
      })
parse_payload-build_payload_inner m f s payload hm hf hs built =
    let le = kept_len-le m f s in
    let name = take (kept_len m f s) f.filename in
    let l : length name ≡ kept_len m f s = length-take (kept_len m f s) f.filename le.0 in
    let rest =
      write_meta m
        (write_file_meta f name (write_segment s (replicate (m.symbol_size - body_len m f s) 0))) in
    let long =
      length-write_meta m
        (write_file_meta f name (write_segment s (replicate (m.symbol_size - body_len m f s) 0)))
        hm in
    rw
      (
        built_bytes m f s payload built,
        parse_payload-version (version_of s) rest (omega arith) (version_of-cases s),
      )
      (parse_body-write_meta m f s name (replicate (m.symbol_size - body_len m f s) 0) hm hf hs
        (kept_len-IsUtf8 m f s hf.filename) (omega arith))

length-write_file_meta :
    (f : FileMeta) (name rest : List ℕ)
    → length (write_file_meta f name rest) ≡ 22 + length name + length rest
unfolding write_file_meta
length-write_file_meta f name rest =
    rw
      (
        length-append name,
        length-append,
        length-to_be,
        length-append,
        length-to_be,
        length-append,
        length-to_be,
      )
      (omega arith)

body_len-kept :
    (m : ObjectMeta) (f : FileMeta) (s : Option SegmentMeta)
    → body_len m f s ≡ 50 + length m.blocks * 16 + kept_len m f s + segment_tail s
unfolding body_len
body_len-kept m f s = omega arith

build-fits :
    (m : ObjectMeta) (f : FileMeta) (s : Option SegmentMeta) (payload : List ℕ)
    → build_payload_inner m f s ≡ ok payload
    → body_len m f s ≤ m.symbol_size
unfolding build_payload_inner
build-fits m f s payload built = elim (Bool-cases (ltb m.symbol_size (body_len m f s))) [
  | inl y ↦ absurd (let b = rw y at built in cc)
  | inr y ↦ ground arith
]

-- A descriptor payload that is built from an object and a segment with fields in range is exactly one
-- symbol long.
pub length-build_payload_inner :
    (m : ObjectMeta) (f : FileMeta) (s : Option SegmentMeta) (payload : List ℕ)
    → MetaInRange m
    → TailInRange s
    → build_payload_inner m f s ≡ ok payload
    → length payload ≡ m.symbol_size
length-build_payload_inner m f s payload hm hs built =
    let pad : List ℕ = replicate (m.symbol_size - body_len m f s) 0 in
    let name = take (kept_len m f s) f.filename in
    rw
      (
        built_bytes m f s payload built,
        length-write_meta m (write_file_meta f name (write_segment s pad)) hm,
        length-write_file_meta f name (write_segment s pad),
        length-write_segment_tail s pad hs,
        length-replicate {A = ℕ} (m.symbol_size - body_len m f s) 0,
        length-take (kept_len m f s) f.filename (kept_len-le m f s).0,
      )
      (omega (arith, body_len-kept m f s, build-fits m f s payload built))
