-- ===== src/Transfer/Cffi/ReceiverAbi/Verified.antt =====
-- core/transfer-engine/src/cffi.rs, `airferry_decompress_stream_to_file`: what its answer says of the output file.
use mathlib.Core.Path.{subst}
use air_ferry_i_os_source.Prelude.{
  ℕ, ◌-◌, ◌^◌, ◌<◌, ◌≡◌, ◌≢◌, sym, ap, ◌∙◌, arith, inl, inr, List, some, Bool, true, false, not,
  ◌&&◌, bytes_eq, length, ◌==◌, ok, err, Bool-cases, Result-cases,
}
use air_ferry_i_os_source.Protocol.Compress.{Library, read_to_end, decompress_with_limit}
use air_ferry_i_os_source.Protocol.Compress.File.{
  Disk, Os, Hasher, DecompressStreamOutcome, decompress_stream_to_file,
}
use air_ferry_i_os_source.Protocol.Compress.File.Sound.{IsIncremental, stream_ok}
use air_ferry_i_os_source.Transfer.Cffi.ReceiverAbi.Stream.{
  hex, eq_ignore_ascii_case, checks, verify, airferry_decompress_stream_to_file,
}

no_one : ◌≢◌ {A = ℕ} 0 1
no_one h = omega arith

pair : {A B : Type 0} (p : A × B) (b : B) → p.1 ≡ b → p ≡ (p.0, b)
pair p b h = ap (λ y. (p.0, y)) h

checks-one :
    (os : Os) (disk disk' : Disk) (output : List ℕ) (size crc : ℕ) (known : Bool) (sha : List ℕ)
    (o : DecompressStreamOutcome)
    → checks os disk output size crc known sha o ≡ (disk', 1)
    → (disk ≡ disk')
      × (o.output_size ≡ size)
      × (known ≡ true → o.crc32 ≡ crc)
      × (eq_ignore_ascii_case (hex o.sha256) sha ≡ true)
unfolding checks
checks-one os disk disk' output size crc known sha o e =
    elim (Bool-cases (not (o.output_size == size))) [
      | inl y ↦ absurd (let k = rw y at e in no_one (ap (λ p. p.1) k))
      | inr a ↦ elim (Bool-cases (known && not (o.crc32 == crc))) [
        | inl y ↦ absurd (let k = rw (a, y) at e in no_one (ap (λ p. p.1) k))
        | inr b ↦ elim (Bool-cases (eq_ignore_ascii_case (hex o.sha256) sha)) [
          | inr y ↦ absurd (let k = rw (a, b, y) at e in no_one (ap (λ p. p.1) k))
          | inl c ↦
              let k = rw (a, b, c) at e in (ap (λ p. p.0) k, ground arith, λ h. ground arith, c)
        ]
      ]
    ]

-- If the answer is 1, whatever fails inside the call, then the output file holds exactly what `decompress_with_limit`
-- answers for the input's contents, and these bytes have the expected size, the expected CRC-32, if it is known, and
-- the expected SHA-256, up to the case of its digits. This takes that the two paths name different files, that the limit is
-- below `u64::MAX`, that the checksums are incremental, and that a file that is read to its end gives its contents.
pub verified_stream :
    {C H Z : Type 0} (os : Os) (crc : Hasher C ℕ) (sha : Hasher H (List ℕ)) (lib : Library Z)
    → IsIncremental crc
    → IsIncremental sha
    → ((bytes out : List ℕ) → read_to_end (os.reads bytes) ≡ ok out → out ≡ bytes)
    → (disk disk' : Disk) (input output expected_sha : List ℕ) (tag max_output size crc32 : ℕ)
      (known : Bool)
    → max_output < 2 ^ 64 - 1
    → bytes_eq input output ≡ false
    → airferry_decompress_stream_to_file os crc sha lib disk
        (some input)
        (some output)
        tag
        max_output
        size
        crc32
        known
        (some expected_sha)
      ≡ (disk', 1)
    → (source out : List ℕ) × (disk input ≡ some source)
      × (decompress_with_limit lib source tag max_output ≡ ok out)
      × (disk' output ≡ some out)
      × (length out ≡ size)
      × (known ≡ true → crc.finalize (crc.update crc.start out) ≡ crc32)
      × (eq_ignore_ascii_case (hex (sha.finalize (sha.update sha.start out))) expected_sha ≡ true)
unfolding airferry_decompress_stream_to_file verify
verified_stream os crc sha lib crc_laws sha_laws reads_all disk disk' input output expected_sha tag
      max_output size crc32 known room apart e =
    let call = decompress_stream_to_file os crc sha max_output lib disk input output tag in
    elim (Result-cases call.1) [
      | inr (x, r) ↦ absurd (
          let k =
            subst (λ c. verify os c output size crc32 known expected_sha ≡ (disk', 1))
              (pair call (err x) r) e in
          no_one (ap (λ p. p.1) k))
      | inl (o, r) ↦
          let k =
            subst (λ c. verify os c output size crc32 known expected_sha ≡ (disk', 1))
              (pair call (ok o) r) e in
          let (same, sized, crc_ok, sha_ok) =
            checks-one os call.0 disk' output size crc32 known expected_sha o k in
          let (source, out, found, answered, left, outcome) =
            stream_ok os crc sha max_output crc_laws sha_laws room lib reads_all disk disk' input
              output tag o apart (pair call (ok o) r ∙ ap (λ d. (d, ok o)) same) in
          (
            source,
            out,
            found,
            answered,
            left,
            sym (ap (λ (q : DecompressStreamOutcome). q.output_size) outcome) ∙ sized,
            λ h. sym (ap (λ (q : DecompressStreamOutcome). q.crc32) outcome) ∙ crc_ok h,
            ap (λ (q : DecompressStreamOutcome). eq_ignore_ascii_case (hex q.sha256) expected_sha)
                  (sym outcome)
                ∙ sha_ok,
          )
    ]
