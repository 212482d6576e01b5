-- ===== src/Protocol/Compress/File/Cleanup.antt =====
-- core/qr-protocol/src/compress.rs, `decompress_stream_to_file`: what it leaves on the disk when it fails.
use air_ferry_i_os_source.Prelude.{
  ℕ, ◌≡◌, refl, sym, ap, ◌∙◌, ◌⊎◌, inl, inr, List, [], none, some, false, Result, ok, err, bytes_eq,
  Bool-cases, Option-cases,
}
use air_ferry_i_os_source.Protocol.{Error}
use air_ferry_i_os_source.Protocol.Compress.{Library}
use air_ferry_i_os_source.Protocol.Compress.File.{
  Disk, put, Os, Hasher, Sink, decode_with, discard, settle, contents, decompress_stream_to_file,
}
use air_ferry_i_os_source.Protocol.Compress.File.Sound.{put_same, put_other}

module _ {C S Z : Type 0} (os : Os) (crc : Hasher C ℕ) (sha : Hasher S (List ℕ)) (max_output : ℕ)
    (lib : Library Z) where
  discard-none :
      (disk : Disk) (output : List ℕ) (sink : Sink C S)
      → os.remove_fails ≡ none
      → discard os crc sha max_output lib disk output sink output ≡ none
  discard-none disk output sink can =
      rw can (put_same (put disk output (some (os.left sink.output))) output none)

  discard_other :
      (disk : Disk) (output path : List ℕ) (sink : Sink C S)
      → bytes_eq path output ≡ false
      → discard os crc sha max_output lib disk output sink path ≡ disk path
  discard_other disk output path sink apart =
      let written = put_other disk output path (some (os.left sink.output)) apart in
      elim (Option-cases os.remove_fails) [
        | inl w ↦ rw w (
            put_other (put disk output (some (os.left sink.output))) output path none apart
            ∙ written)
        | inr (y, w) ↦ rw w written
      ]

  removed :
      (disk disk' : Disk) (output : List ℕ) (r : Sink C S × Result Error (Unit {0})) (x : Error)
      → os.remove_fails ≡ none
      → settle os crc sha max_output lib disk output r ≡ (disk', err x)
      → disk' output ≡ none
  removed disk disk' output (sink, err y) x can e =
      sym (ap (λ p. p.0 output) e) ∙ discard-none disk output sink can
  removed disk disk' output (sink, ok tt) x can e = elim (Bool-cases sink.over) [
    | inl y ↦
        let e' = rw y at e in sym (ap (λ p. p.0 output) e') ∙ discard-none disk output sink can
    | inr n ↦ elim (Option-cases os.flush_fails) [
      | inr (y, w) ↦
          let e' = rw (n, w) at e in
          sym (ap (λ p. p.0 output) e') ∙ discard-none disk output sink can
      | inl w ↦ let e' = rw (n, w) at e in absurd (let k = ap (λ p. p.1) e' in cc)
    ]
  ]

  -- If files can be removed, a call that fails, whatever else fails with it, has touched no file at all, or leaves no
  -- output file: never a part of one.
  pub stream_err :
      (disk disk' : Disk) (input output : List ℕ) (tag : ℕ) (x : Error)
      → os.remove_fails ≡ none
      → decompress_stream_to_file os crc sha max_output lib disk input output tag ≡ (disk', err x)
      → (disk ≡ disk') ⊎ (disk' output ≡ none)
  unfolding decompress_stream_to_file
  stream_err disk disk' input output tag x can e = elim (Option-cases (disk input)) [
    | inl n ↦ let e' = rw (decompress_stream_to_file, n) at e in inl (ap (λ p. p.0) e')
    | inr (source, found) ↦ elim (Option-cases os.create_fails) [
      | inr (y, w) ↦
          let e' = rw (decompress_stream_to_file, found, w) at e in inl (ap (λ p. p.0) e')
      | inl w ↦
          let disk1 : Disk = put disk output (some []) in
          let e' = rw (decompress_stream_to_file, found, w) at e in
          inr (
            removed disk1 disk' output
              (decode_with os crc sha max_output lib tag
                (contents os crc sha max_output lib (disk1 input)))
              x can e')
    ]
  ]

  untouched :
      (disk : Disk) (output path : List ℕ) (r : Sink C S × Result Error (Unit {0}))
      → bytes_eq path output ≡ false
      → (settle os crc sha max_output lib disk output r).0 path ≡ disk path
  untouched disk output path (sink, err y) apart = discard_other disk output path sink apart
  untouched disk output path (sink, ok tt) apart = elim (Bool-cases sink.over) [
    | inl y ↦ rw y (discard_other disk output path sink apart)
    | inr n ↦ elim (Option-cases os.flush_fails) [
      | inr (y, w) ↦ rw (n, w) (discard_other disk output path sink apart)
      | inl w ↦ rw (n, w) (put_other disk output path (some sink.output) apart)
    ]
  ]

  -- Whether it succeeds or fails, and whatever the input, the call changes no file but its output.
  pub stream_untouched :
      (disk : Disk) (input output path : List ℕ) (tag : ℕ)
      → bytes_eq path output ≡ false
      → (decompress_stream_to_file os crc sha max_output lib disk input output tag).0 path
        ≡ disk path
  unfolding decompress_stream_to_file
  stream_untouched disk input output path tag apart = elim (Option-cases (disk input)) [
    | inl n ↦ rw (decompress_stream_to_file, n) refl
    | inr (source, found) ↦ elim (Option-cases os.create_fails) [
      | inr (y, w) ↦ rw (decompress_stream_to_file, found, w) refl
      | inl w ↦
          let disk1 : Disk = put disk output (some []) in
          rw (decompress_stream_to_file, found, w)
            (untouched disk1 output path
                (decode_with os crc sha max_output lib tag
                  (contents os crc sha max_output lib (disk1 input)))
                apart
              ∙ put_other disk output path (some []) apart)
    ]
  ]
