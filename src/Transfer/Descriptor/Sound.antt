-- ===== src/Transfer/Descriptor/Sound.antt =====
-- core/transfer-engine/src/descriptor.rs: the payloads that are read, and the part of a filename that is sent.
use mathlib.Core.Option.{some-injective}
use air_ferry_i_os_source.Prelude.{
  ℕ, ◌+◌, ◌-◌, ◌*◌, ◌≤◌, min, ◌≡◌, ◌⊎◌, refl, sym, ap, ◌∙◌, inl, inr, arith, List, Option, none,
  some, Bool, true, false, length, take, drop, get_or, ltb, leb, ◌==◌, not, ◌||◌, ◌&&◌, Bool-cases,
  Option-cases,
}
use air_ferry_i_os_source.Bytes.{read_be}
use air_ferry_i_os_source.Codec.Meta.{ObjectMeta}
use air_ferry_i_os_source.Transfer.Types.{FileMeta, SegmentMeta, DescriptorInfo}
use air_ferry_i_os_source.Transfer.Utf8.{
  is_utf8, is_char_boundary, char_floor-le, char_floor-greatest,
}
use air_ferry_i_os_source.Transfer.Descriptor.{
  kept_len, parse_file_meta, parse_segment, parse_body, parse_extensions, parse_payload,
  segment_tail,
}
use air_ferry_i_os_source.Transfer.Descriptor.RoundTrip.{char_floor-IsUtf8}

-- The versions that are read: the three of a single object, and the one of a segment.
abbrev pub IsReadable : ℕ → Type 0
IsReadable version = (1 ≤ version × version ≤ 3) ⊎ (version ≡ 5)

abbrev pub is_segment : Option SegmentMeta → Bool
is_segment none = false
is_segment (some s) = true

parse_segment-version :
    (version : ℕ) (r : List ℕ) (s : Option SegmentMeta)
    → parse_segment version r ≡ some s
    → is_segment s ≡ (version == 5)
unfolding parse_segment
parse_segment-version version r s h = elim (Bool-cases (version == 5)) [
  | inl y ↦ elim (Bool-cases (ltb (length r) 104)) [
    | inl short ↦ absurd (let k = rw (y, short) at h in cc)
    | inr long ↦ let k = rw (y, long) at h in rw (y, ← some-injective _ _ k) refl
  ]
  | inr n ↦ let k = rw n at h in rw (n, ← some-injective _ _ k) refl
]

parse_extensions-version :
    (version : ℕ) (meta : ObjectMeta) (r : List ℕ) (info : DescriptorInfo)
    → parse_extensions version meta r ≡ some info
    → is_segment info.segment ≡ (version == 5)
unfolding parse_extensions
parse_extensions-version version meta r info h = elim (Option-cases (parse_file_meta version r)) [
  | inl e ↦ absurd (let k = rw e at h in cc)
  | inr (f, e) ↦ elim (Option-cases (parse_segment version f.1)) [
    | inl n ↦ absurd (let k = rw (e, n) at h in cc)
    | inr (s, y) ↦
        let k = rw (e, y) at h in
        let same = some-injective _ _ k in
        ap (λ i. is_segment i.segment) (sym same) ∙ parse_segment-version version f.1 s y
  ]
]

parse_body-version :
    (version : ℕ) (r : List ℕ) (info : DescriptorInfo)
    → parse_body version r ≡ some info
    → is_segment info.segment ≡ (version == 5)
unfolding parse_body
parse_body-version version r info h =
    let r3 = (read_be 4 (read_be 8 (read_be 2 r).1).1).1 in
    elim (Bool-cases (ltb (length (drop 12 r3)) ((read_be 2 r).0 * 16))) [
      | inl y ↦ absurd (let k = rw y at h in cc)
      | inr n ↦ let k = rw n at h in parse_extensions-version version _ _ info k
    ]

readable : (v : ℕ) → not (leb 1 v && leb v 5) ≡ false → (v == 4) ≡ false → IsReadable v
readable v range not4 = ground arith

-- A payload that is read has the magic, at least 28 bytes and a version among 1, 2, 3 and 5; version 4
-- is not read. It describes a segment exactly in version 5.
pub parse_payload-version :
    (payload : List ℕ) (info : DescriptorInfo)
    → parse_payload payload ≡ some info
    → 28 ≤ length payload
      × get_or payload 0 0 ≡ 0xD5
      × IsReadable (get_or payload 1 0)
      × is_segment info.segment ≡ (get_or payload 1 0 == 5)
unfolding parse_payload
parse_payload-version payload info h =
    let version = get_or payload 1 0 in
    elim (Bool-cases (ltb (length payload) 28 || not (get_or payload 0 0 == 0xD5))) [
      | inl y ↦ absurd (let k = rw y at h in cc)
      | inr n ↦ elim (Bool-cases (not (leb 1 version && leb version 5))) [
        | inl y ↦ absurd (let k = rw (n, y) at h in cc)
        | inr range ↦ elim (Bool-cases (version == 4)) [
          | inl y ↦ absurd (let k = rw (n, range, y) at h in cc)
          | inr not4 ↦
              let k = rw (n, range, not4) at h in
              (
                ground arith,
                ground arith,
                readable version range not4,
                parse_body-version version (drop 2 payload) info k,
              )
        ]
      ]
    ]

-- The part of a well-formed filename that is sent is well-formed UTF-8, at most 255 bytes, fits into the room that the other fields
-- leave, and is the longest such prefix that ends between two characters.
pub kept_len_lem :
    (m : ObjectMeta) (f : FileMeta) (s : Option SegmentMeta)
    → is_utf8 f.filename ≡ true
    → is_utf8 (take (kept_len m f s) f.filename) ≡ true
      × kept_len m f s ≤ 255
      × kept_len m f s ≤ m.symbol_size - (50 + length m.blocks * 16 + segment_tail s)
      × ((n : ℕ)
          → n ≤ 255
          → n ≤ m.symbol_size - (50 + length m.blocks * 16 + segment_tail s)
          → n ≤ length f.filename
          → is_char_boundary f.filename n ≡ true
          → n ≤ kept_len m f s)
unfolding kept_len
kept_len_lem m f s h =
    let room =
      min
        (min (length f.filename)
          (m.symbol_size - (28 + length m.blocks * 16 + 13 + 9 + segment_tail s)))
        255 in
    let le = char_floor-le f.filename room in
    (
      char_floor-IsUtf8 f.filename room h,
      omega arith,
      omega arith,
      λ n a b c d. char_floor-greatest f.filename room n (omega arith) d,
    )
