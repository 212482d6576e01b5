-- ===== src/Protocol/Compress/File/Sound.antt =====
-- core/qr-protocol/src/compress.rs, `decompress_stream_to_file`: the file, the size and the digests that it leaves.
use mathlib.Core.Path.{subst}
use mathlib.Core.List.{append_assoc, append-nil}
use air_ferry_i_os_source.Prelude.{
  ℕ, zero, suc, ◌+◌, ◌-◌, ◌^◌, ◌≤◌, ◌<◌, min, ◌≡◌, refl, sym, ap, ◌∙◌, arith, inl, inr, List, [],
  ◌++◌, Option, some, false, ◌||◌, length, ltb, ◌==◌, Result, ok, err, bytes_eq, bytes_eq_refl,
  Bool-cases, Option-cases, Result-cases, length-append, ok-injective,
}
use air_ferry_i_os_source.Protocol.{Error}
use air_ferry_i_os_source.Protocol.Compress.{
  Stream, done, failed, chunk, limited, read_to_end, read_capped, Library, zstd_decoder,
  decompress_with_limit, xz_decoder_memory_limit, copy_with_limit, is_known_compression_tag,
}
use air_ferry_i_os_source.Protocol.Compress.Capped.{limited-short, chunk_ends, chunk_goes_on}
use air_ferry_i_os_source.Protocol.Compress.File.{
  Disk, put, Os, Hasher, DecompressStreamOutcome, Sink, hashed, decode, fresh, run, run_copy,
  decode_with, settle, contents, decompress_stream_to_file,
}

-- The documented behaviour of an incremental digest: only the bytes count, not how they are cut.
pub record IsIncremental {H D : Type 0} (h : Hasher H D) : Type 0 where
  pub update_nothing : (s : H) → h.update s [] ≡ s
  pub update_twice : (s : H) (a b : List ℕ) → h.update (h.update s a) b ≡ h.update s (a ++ b)

pub put_same :
    (disk : Disk) (path : List ℕ) (content : Option (List ℕ)) → put disk path content path ≡ content
put_same disk path content = rw (bytes_eq_refl path) refl

pub put_other :
    (disk : Disk) (path q : List ℕ) (content : Option (List ℕ))
    → bytes_eq q path ≡ false
    → put disk path content q ≡ disk q
put_other disk path q content h = rw h refl

module _ {C S : Type 0} (os : Os) (crc : Hasher C ℕ) (sha : Hasher S (List ℕ))
    (max_output : ℕ) where
  -- The sink has taken in the bytes `out`, which fit.
  record Took (sink sink' : Sink C S) (out : List ℕ) : Type 0 where
    output : sink'.output ≡ sink.output ++ out
    written : sink'.written ≡ sink.written + length out
    fits : sink'.written ≤ max_output
    crc_of : sink'.crc ≡ crc.update sink.crc out
    sha_of : sink'.sha ≡ sha.update sink.sha out

  abbrev outcome : Sink C S → DecompressStreamOutcome
  outcome sink = record {
    output_size = sink.written;
    crc32 = crc.finalize sink.crc;
    sha256 = sha.finalize sink.sha;
  }

  -- The size and the digests of some bytes.
  abbrev pub outcome_of : List ℕ → DecompressStreamOutcome
  outcome_of bytes = record {
    output_size = length bytes;
    crc32 = crc.finalize (crc.update crc.start bytes);
    sha256 = sha.finalize (sha.update sha.start bytes);
  }

  outcome-of_bytes :
      (sink : Sink C S) (out : List ℕ)
      → Took (fresh os crc sha max_output) sink out
      → outcome sink ≡ outcome_of out
  outcome-of_bytes sink out t =
      rw (t.crc_of, t.sha_of)
        (ap
          (λ (n : ℕ). record {
            output_size = n;
            crc32 = crc.finalize (crc.update crc.start out);
            sha256 = sha.finalize (sha.update sha.start out);
          })
          (omega (arith, t.written)))

  module _ (crc_laws : IsIncremental crc) (sha_laws : IsIncremental sha)
      (room : max_output < 2 ^ 64 - 1) where
    Took-nothing : (sink : Sink C S) → sink.written ≤ max_output → Took sink sink []
    Took-nothing sink le = record {
      output = sym (append-nil sink.output);
      written = omega arith;
      fits = le;
      crc_of = sym (crc_laws.update_nothing sink.crc);
      sha_of = sym (sha_laws.update_nothing sink.sha);
    }

    Took-more :
        (sink sink' : Sink C S) (bytes out : List ℕ)
        → sink.written + length bytes ≤ max_output
        → Took (hashed os crc sha max_output sink bytes) sink' out
        → Took sink sink' (bytes ++ out)
    Took-more sink sink' bytes out le t = record {
      output = t.output ∙ append_assoc sink.output bytes out;
      written = omega (arith, t.written, length-append bytes out);
      fits = t.fits;
      crc_of = t.crc_of ∙ crc_laws.update_twice sink.crc bytes out;
      sha_of = t.sha_of ∙ sha_laws.update_twice sink.sha bytes out;
    }

    decode-Took :
        (s : Stream) (n : ℕ) (sink sink' : Sink C S)
        → sink.written ≤ max_output
        → decode os crc sha max_output n sink s ≡ (sink', ok tt)
        → sink'.over ≡ false
        → (out : List ℕ) × (read_to_end s ≡ ok out) × Took sink sink' out
    unfolding decode read_to_end
    decode-Took done n sink sink' le e fair =
        ([], refl, subst (λ k. Took sink k []) (ap (λ p. p.0) e) (Took-nothing sink le))
    decode-Took (failed x) n sink sink' le e fair = absurd (let k = ap (λ p. p.1) e in cc)
    decode-Took (chunk bytes rest) n sink sink' le e fair = elim (Bool-cases (length bytes == 0)) [
      | inl y ↦
          let e' = rw y at e in
          (
            [],
            chunk_ends bytes rest (ground arith),
            subst (λ k. Took sink k []) (ap (λ p. p.0) e') (Took-nothing sink le),
          )
      | inr n' ↦
          elim (Bool-cases (ltb max_output (min (sink.written + length bytes) (2 ^ 64 - 1)))) [
            | inl y ↦ let e' = rw (n', y) at e in absurd (let k = ap (λ p. p.0.over) e' in cc)
            | inr f ↦ elim (Option-cases (os.write_fails n)) [
              | inr (x, w) ↦ let e' = rw (n', f, w) at e in absurd (let k = ap (λ p. p.1) e' in cc)
              | inl w ↦
                  let e' = rw (n', f, w) at e in
                  let (more, r, t) =
                    decode-Took rest (suc n) (hashed os crc sha max_output sink bytes) sink'
                      (ground arith) e' fair in
                  (
                    bytes ++ more,
                    chunk_goes_on bytes rest more (ground arith) r,
                    Took-more sink sink' bytes more (ground arith) t,
                  )
            ]
          ]
    ]

    -- `run` answers what `read_capped` answers.
    run-Took :
        (s : Stream) (sink : Sink C S)
        → run os crc sha max_output s ≡ (sink, ok tt)
        → sink.over ≡ false
        → (out : List ℕ) × (read_capped s max_output ≡ ok out)
          × (read_to_end s ≡ ok out)
          × (length out ≤ max_output)
          × Took (fresh os crc sha max_output) sink out
    unfolding run read_capped
    run-Took s sink e fair =
        let limit : ℕ = min (max_output + 1) (2 ^ 64 - 1) in
        let (out, r, t) =
          decode-Took (limited limit s) 0 (fresh os crc sha max_output) sink (omega arith) e fair in
        let le : length out ≤ max_output = omega (arith, t.written, t.fits) in
        (out, rw r (ground arith), limited-short s limit out (omega arith) r, le, t)

    module _ {Z : Type 0} (lib : Library Z)
        (reads_all : (bytes out : List ℕ)
          → read_to_end (os.reads bytes) ≡ ok out
          → out ≡ bytes) where
      copies :
          (tag : ℕ) (bytes : List ℕ) (sink : Sink C S)
          → run_copy os crc sha max_output tag bytes ≡ (sink, ok tt)
          → sink.over ≡ false
          → (out : List ℕ) × (copy_with_limit lib bytes tag max_output ≡ ok out)
            × Took (fresh os crc sha max_output) sink out
      unfolding run_copy
      copies tag bytes sink e fair =
          elim (Bool-cases (is_known_compression_tag tag || (length bytes == 0))) [
            | inr n ↦ let e' = rw n at e in absurd (let k = ap (λ p. p.1) e' in cc)
            | inl y ↦
                let e' = rw y at e in
                let (out, _, all, le, t) = run-Took (os.reads bytes) sink e' fair in
                let same = reads_all bytes out all in
                (bytes, ground (arith, ap length same), subst (Took _ sink) same t)
          ]

      decode_with-Took :
          (tag : ℕ) (bytes : List ℕ) (sink : Sink C S)
          → decode_with os crc sha max_output lib tag bytes ≡ (sink, ok tt)
          → sink.over ≡ false
          → (out : List ℕ) × (decompress_with_limit lib bytes tag max_output ≡ ok out)
            × Took (fresh os crc sha max_output) sink out
      unfolding decode_with decompress_with_limit
      decode_with-Took zero bytes sink e fair = copies 0 bytes sink e fair
      decode_with-Took (suc zero) bytes sink e fair = elim (Result-cases (zstd_decoder lib bytes)) [
        | inl (dec, o) ↦
            let e' = rw o at e in
            let (out, r, _, _, t) = run-Took (lib.zstd_stream dec) sink e' fair in
            (out, rw (o, r) refl, t)
        | inr (x, o) ↦ let e' = rw o at e in absurd (let k = ap (λ p. p.1) e' in cc)
      ]
      decode_with-Took (suc (suc zero)) bytes sink e fair =
          elim (Result-cases (lib.xz_stream_decoder xz_decoder_memory_limit)) [
            | inl (dec, o) ↦
                let e' = rw o at e in
                let (out, r, _, _, t) = run-Took (dec bytes) sink e' fair in
                (out, rw (o, r) refl, t)
            | inr (x, o) ↦ let e' = rw o at e in absurd (let k = ap (λ p. p.1) e' in cc)
          ]
      decode_with-Took (suc (suc (suc n))) bytes sink e fair =
          let tag : ℕ = suc (suc (suc n)) in
          let other : decode_with os crc sha max_output lib tag bytes
              ≡ run_copy os crc sha max_output tag bytes =
            ground arith in
          let same : decompress_with_limit lib bytes tag max_output
              ≡ copy_with_limit lib bytes tag max_output =
            ground arith in
          let (out, r, t) = copies tag bytes sink (sym other ∙ e) fair in (out, same ∙ r, t)

      -- The call behind `File::create`.
      settled :
          (disk disk' : Disk) (output : List ℕ) (r : Sink C S × Result Error (Unit {0}))
          (o : DecompressStreamOutcome)
          → settle os crc sha max_output lib disk output r ≡ (disk', ok o)
          → (sink : Sink C S) × (r ≡ (sink, ok tt))
            × (sink.over ≡ false)
            × (disk' output ≡ some sink.output)
            × (o ≡ outcome sink)
      settled disk disk' output (sink, err x) o e = absurd (let k = ap (λ p. p.1) e in cc)
      settled disk disk' output (sink, ok tt) o e = elim (Bool-cases sink.over) [
        | inl y ↦ let e' = rw y at e in absurd (let k = ap (λ p. p.1) e' in cc)
        | inr n ↦ elim (Option-cases os.flush_fails) [
          | inr (x, w) ↦ let e' = rw (n, w) at e in absurd (let k = ap (λ p. p.1) e' in cc)
          | inl w ↦
              let e' = rw (n, w) at e in
              (
                sink,
                refl,
                n,
                sym (ap (λ p. p.0 output) e') ∙ put_same disk output (some sink.output),
                sym (ok-injective (ap (λ p. p.1) e')),
              )
        ]
      ]

      -- If the call succeeds, whatever fails inside it, then `decompress_with_limit` succeeds on the contents of
      -- the input with some bytes, the output file holds just these, and the size and the digests that are
      -- answered are theirs.
      pub stream_ok :
          (disk disk' : Disk) (input output : List ℕ) (tag : ℕ) (o : DecompressStreamOutcome)
          → bytes_eq input output ≡ false
          → decompress_stream_to_file os crc sha max_output lib disk input output tag
            ≡ (disk', ok o)
          → (source out : List ℕ) × (disk input ≡ some source)
            × (decompress_with_limit lib source tag max_output ≡ ok out)
            × (disk' output ≡ some out)
            × (o ≡ outcome_of out)
      unfolding decompress_stream_to_file
      stream_ok disk disk' input output tag o apart e = elim (Option-cases (disk input)) [
        | inl n ↦
            let e' = rw (decompress_stream_to_file, n) at e in
            absurd (let k = ap (λ p. p.1) e' in cc)
        | inr (source, found) ↦ elim (Option-cases os.create_fails) [
          | inr (x, w) ↦
              let e' = rw (decompress_stream_to_file, found, w) at e in
              absurd (let k = ap (λ p. p.1) e' in cc)
          | inl w ↦
              let disk1 : Disk = put disk output (some []) in
              let kept : contents os crc sha max_output lib (disk1 input) ≡ source =
                rw (put_other disk output input (some []) apart, found) refl in
              let e' = rw (decompress_stream_to_file, found, w) at e in
              let (sink, run_to, fair, left, answered) =
                settled disk1 disk' output
                  (decode_with os crc sha max_output lib tag
                    (contents os crc sha max_output lib (disk1 input)))
                  o e' in
              let (out, r, t) =
                decode_with-Took tag source sink
                  (sym (ap (decode_with os crc sha max_output lib tag) kept) ∙ run_to) fair in
              (
                source,
                out,
                found,
                r,
                left ∙ ap some t.output,
                answered ∙ outcome-of_bytes sink out t,
              )
        ]
      ]
