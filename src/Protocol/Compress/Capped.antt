-- ===== src/Protocol/Compress/Capped.antt =====
-- core/qr-protocol/src/compress.rs: the cap of `read_capped` and of `decompress_with_limit`.
use air_ferry_i_os_source.Prelude.{
  ℕ, zero, suc, ◌+◌, ◌-◌, ◌^◌, ◌≤◌, ◌<◌, min, ◌≡◌, refl, sym, ap, ◌∙◌, arith, ◌↔◌, ◌⊎◌, inl, inr,
  List, [], ◌++◌, not, ◌&&◌, length, take, ltb, ◌==◌, ok, reject_if, map_err, passed, Bool-cases,
  le-or-lt, length-append, length-take, map_err_ok, ok-injective, bind_ok,
}
use air_ferry_i_os_source.Protocol.{compress}
use air_ferry_i_os_source.Protocol.Compress.{
  Stream, done, failed, chunk, limited, read_to_end, read_capped, Library, zstd_decoder, decompress,
  decompress_with, decompress_with_limit, compression_xz, xz_decoder_memory_limit, copy_with_limit,
  is_known_compression_tag,
}

pub chunk_ends :
    (bytes : List ℕ) (s : Stream) → length bytes ≡ 0 → read_to_end (chunk bytes s) ≡ ok []
unfolding read_to_end
chunk_ends bytes s h = ground arith

pub chunk_goes_on :
    (bytes : List ℕ) (s : Stream) (more : List ℕ)
    → 0 < length bytes
    → read_to_end s ≡ ok more
    → read_to_end (chunk bytes s) ≡ ok (bytes ++ more)
unfolding read_to_end
chunk_goes_on bytes s more h e = rw e (ground arith)

chunk-cases :
    (bytes : List ℕ) (s : Stream) (out : List ℕ)
    → read_to_end (chunk bytes s) ≡ ok out
    → ((length bytes ≡ 0) × (out ≡ []))
      ⊎ ((more : List ℕ) × (0 < length bytes) × (read_to_end s ≡ ok more) × (bytes ++ more ≡ out))
unfolding read_to_end
chunk-cases bytes s out e = elim (Bool-cases (length bytes == 0)) [
  | inl y ↦ let e' = rw y at e in inl (ground arith, sym (ok-injective e'))
  | inr n ↦
      let e' = rw n at e in
      let (more, r, last) = bind_ok (read_to_end s) (λ more. ok (bytes ++ more)) e' in
      inr (more, ground arith, r, ok-injective last)
]

limited_within :
    (bytes : List ℕ) (s : Stream) (limit : ℕ)
    → 0 < limit
    → length bytes ≤ limit
    → limited limit (chunk bytes s) ≡ chunk bytes (limited (limit - length bytes) s)
unfolding limited
limited_within bytes s limit pos h = ground arith

limited_cut :
    (bytes : List ℕ) (s : Stream) (limit : ℕ)
    → 0 < limit
    → limit < length bytes
    → limited limit (chunk bytes s) ≡ chunk (take limit bytes) done
unfolding limited
limited_cut bytes s limit pos h = ground arith

-- A reader that is cut behind `limit` bytes and answers fewer has been read to its own end.
pub limited-short :
    (s : Stream) (limit : ℕ) (out : List ℕ)
    → length out < limit
    → read_to_end (limited limit s) ≡ ok out
    → read_to_end s ≡ ok out
unfolding limited read_to_end
limited-short done limit out h e = e
limited-short (failed x) limit out h e = ground arith
limited-short (chunk bytes rest) limit out h e = elim (le-or-lt (length bytes) limit) [
  | inl le ↦
      let e' = sym (ap read_to_end (limited_within bytes rest limit (omega arith) le)) ∙ e in
      elim (chunk-cases bytes (limited (limit - length bytes) rest) out e') [
        | inl (z, n) ↦ chunk_ends bytes rest z ∙ ap ok (sym n)
        | inr (more, pos, r, o) ↦
            let len = ap length o in
            chunk_goes_on bytes rest more pos (
              limited-short rest (limit - length bytes) more
                (omega (arith, len, length-append bytes more)) r)
            ∙ ap ok o
      ]
  | inr lt ↦
      let e' = sym (ap read_to_end (limited_cut bytes rest limit (omega arith) lt)) ∙ e in
      let len = length-take limit bytes (omega arith) in
      elim (chunk-cases (take limit bytes) done out e') [
        | inl (z, n) ↦ absurd (omega (arith, len))
        | inr (more, pos, r, o) ↦
            absurd (omega (arith, len, ap length o, length-append (take limit bytes) more))
      ]
]

limited-long :
    (s : Stream) (limit : ℕ) (out : List ℕ)
    → length out < limit
    → read_to_end s ≡ ok out
    → read_to_end (limited limit s) ≡ ok out
unfolding limited read_to_end
limited-long done limit out h e = e
limited-long (failed x) limit out h e = ground arith
limited-long (chunk bytes rest) limit out h e = elim (chunk-cases bytes rest out e) [
  | inl (z, n) ↦
      ap read_to_end (limited_within bytes rest limit (omega arith) (omega arith))
      ∙ chunk_ends bytes (limited (limit - length bytes) rest) z
      ∙ ap ok (sym n)
  | inr (more, pos, r, o) ↦
      let len = ap length o in
      let app = length-append bytes more in
      ap read_to_end (limited_within bytes rest limit (omega arith) (omega (arith, len, app)))
      ∙ chunk_goes_on bytes (limited (limit - length bytes) rest) more pos
          (limited-long rest (limit - length bytes) more (omega (arith, len, app)) r)
      ∙ ap ok o
]

pub read_capped_iff :
    (s : Stream) (max_output : ℕ) (out : List ℕ)
    → max_output < 2 ^ 64 - 1
    → (read_capped s max_output ≡ ok out) ↔ ((read_to_end s ≡ ok out) × (length out ≤ max_output))
unfolding read_capped
read_capped_iff s max_output out h =
    let limit : ℕ = min (max_output + 1) (2 ^ 64 - 1) in
    (
      λ e.
          let (got, r, k) = bind_ok (map_err compress (read_to_end (limited limit s))) _ e in
          let (fits, got_eq) = passed (ltb max_output (length got)) _ got k in
          let le : length out ≤ max_output = ground (arith, ap length got_eq) in
          (limited-short s limit out (omega (arith, le)) (map_err_ok _ _ r ∙ ap ok got_eq), le),
      λ (e, le). rw (limited-long s limit out (omega (arith, le)) e) (ground (arith, le)),
    )

read_capped_bound :
    (s : Stream) (max_output : ℕ) (out : List ℕ)
    → read_capped s max_output ≡ ok out
    → length out ≤ max_output
unfolding read_capped
read_capped_bound s max_output out e =
    let limit : ℕ = min (max_output + 1) (2 ^ 64 - 1) in
    let (got, r, k) = bind_ok (map_err compress (read_to_end (limited limit s))) _ e in
    let (fits, same) = passed (ltb max_output (length got)) _ got k in
    ground (arith, ap length same)

copied :
    {Z : Type 0} (lib : Library Z) (bytes : List ℕ) (tag max_output : ℕ) (out : List ℕ)
    → copy_with_limit lib bytes tag max_output ≡ ok out
    → length out ≤ max_output
copied lib bytes tag max_output out e =
    let (_, _, k) =
      bind_ok (reject_if (not (is_known_compression_tag tag) && not (length bytes == 0)) _) _ e in
    let (fits, same) = passed (ltb max_output (length bytes)) _ bytes k in
    ground (arith, ap length same)

-- With a known tag other than xz, `decompress_with_limit` answers `out` exactly when `decompress_with`
-- answers `out` and `out` is not longer than the cap.
pub decompress_with_limit_iff :
    {Z : Type 0} (lib : Library Z) (bytes : List ℕ) (tag max_output : ℕ) (out : List ℕ)
    → tag < compression_xz
    → max_output < 2 ^ 64 - 1
    → (decompress_with_limit lib bytes tag max_output ≡ ok out)
      ↔ ((decompress_with lib bytes tag ≡ ok out) × (length out ≤ max_output))
unfolding decompress_with_limit decompress_with decompress
decompress_with_limit_iff lib bytes zero max_output out known h = (
  λ e.
      let (fits, same) = passed (ltb max_output (length bytes)) _ bytes e in
      (ap ok same, ground (arith, ap length same)),
  λ (e, le). ground (arith, ap length (ok-injective e)),
)
decompress_with_limit_iff lib bytes (suc zero) max_output out known h = (
  λ e.
      let (dec, opened, read) = bind_ok (zstd_decoder lib bytes) _ e in
      let (all, le) = (read_capped_iff (lib.zstd_stream dec) max_output out h).0 read in
      (rw (opened, all) refl, le),
  λ (e, le).
      let (dec, opened, read) = bind_ok (zstd_decoder lib bytes) _ e in
      let all = map_err_ok _ _ read in
      rw opened ((read_capped_iff (lib.zstd_stream dec) max_output out h).1 (all, le)),
)
decompress_with_limit_iff lib bytes (suc (suc n)) max_output out known h = absurd (omega arith)

-- Whatever the input and the tag, what `decompress_with_limit` answers is not longer than the cap.
pub decompress_with_limit_bound :
    {Z : Type 0} (lib : Library Z) (bytes : List ℕ) (tag max_output : ℕ) (out : List ℕ)
    → decompress_with_limit lib bytes tag max_output ≡ ok out
    → length out ≤ max_output
unfolding decompress_with_limit
decompress_with_limit_bound lib bytes zero max_output out e = copied lib bytes 0 max_output out e
decompress_with_limit_bound lib bytes (suc zero) max_output out e =
    let (dec, opened, read) = bind_ok (zstd_decoder lib bytes) _ e in
    read_capped_bound (lib.zstd_stream dec) max_output out read
decompress_with_limit_bound lib bytes (suc (suc zero)) max_output out e =
    let (dec, opened, read) =
      bind_ok (map_err compress (lib.xz_stream_decoder xz_decoder_memory_limit)) _ e in
    read_capped_bound (dec bytes) max_output out read
decompress_with_limit_bound lib bytes (suc (suc (suc n))) max_output out e =
    let tag : ℕ = suc (suc (suc n)) in
    let other : decompress_with_limit lib bytes tag max_output
        ≡ copy_with_limit lib bytes tag max_output =
      ground arith in
    copied lib bytes tag max_output out (sym other ∙ e)
