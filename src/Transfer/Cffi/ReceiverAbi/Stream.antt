-- ===== src/Transfer/Cffi/ReceiverAbi/Stream.antt =====
-- core/transfer-engine/src/cffi.rs, `airferry_decompress_stream_to_file`. A path or a digest in hexadecimal is `none` for
-- null and else the string that `String::from_utf8_lossy` makes of it.
use air_ferry_i_os_source.Prelude.{
  ℕ, ◌+◌, ◌/◌, ◌%◌, List, ◌∷◌, Option, some, Bool, not, ◌&&◌, bytes_eq, map, ltb, leb, ◌==◌,
  if◌then◌else◌, Result, ok, err,
}
use air_ferry_i_os_source.Protocol
use air_ferry_i_os_source.Protocol.Compress.{Library}
use air_ferry_i_os_source.Protocol.Compress.File.{
  Disk, remove, Os, Hasher, DecompressStreamOutcome, decompress_stream_to_file,
}

-- `format!("{b:02x}")`
abbrev hex_digit : ℕ → ℕ
hex_digit n = if ltb n 10 then n + 48 else n + 87

unfoldable pub hex : List ℕ → List ℕ
hex List.[] = List.[]
hex (b ∷ bytes) = hex_digit (b / 16) ∷ (hex_digit (b % 16) ∷ hex bytes)

abbrev lower : ℕ → ℕ
lower b = if leb 65 b && leb b 90 then b + 32 else b

unfoldable pub eq_ignore_ascii_case : List ℕ → List ℕ → Bool
unfolding bytes_eq
eq_ignore_ascii_case a b = bytes_eq (map lower a) (map lower b)

module _ (os : Os) (disk : Disk) (output : List ℕ) (expected_size expected_crc : ℕ)
    (crc_known : Bool) (expected_sha : List ℕ) where
  -- The tests behind the call, each of which removes the output.
  unfoldable pub checks : DecompressStreamOutcome → Disk × ℕ
  unfolding hex eq_ignore_ascii_case
  checks o =
      if not (o.output_size == expected_size)
      then (remove os disk output, 0)
      else if crc_known && not (o.crc32 == expected_crc)
      then (remove os disk output, 0)
      else if not (eq_ignore_ascii_case (hex o.sha256) expected_sha)
      then (remove os disk output, 0)
      else (disk, 1)

unfoldable pub verify :
    Os
    → Disk × Result Protocol.Error DecompressStreamOutcome
    → List ℕ
    → ℕ
    → ℕ
    → Bool
    → List ℕ
    → Disk × ℕ
unfolding checks
verify os (disk, err e) output size crc known sha = (disk, 0)
verify os (disk, ok o) output size crc known sha = checks os disk output size crc known sha o

module _ {C H Z : Type 0} (os : Os) (crc : Hasher C ℕ) (sha : Hasher H (List ℕ))
    (lib : Library Z) where
  unfoldable pub airferry_decompress_stream_to_file :
      Disk
      → (input_path output_path : Option (List ℕ))
      → (compression max_output expected_size expected_crc : ℕ) → Bool
      → Option (List ℕ)
      → Disk × ℕ
  unfolding decompress_stream_to_file verify
  airferry_decompress_stream_to_file disk (some input) (some output) compression max_output size
        crc32 known (some expected_sha) =
      verify os (decompress_stream_to_file os crc sha max_output lib disk input output compression)
        output size crc32 known expected_sha
  airferry_decompress_stream_to_file disk _ _ compression max_output size crc32 known _ = (disk, 0)
