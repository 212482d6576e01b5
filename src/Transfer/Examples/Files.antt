-- ===== src/Transfer/Examples/Files.antt =====
-- The theorems on decompression at a zstd stream of two bytes, `1 2`, in a file with the name `1`.
use mathlib.Core.List.{append_assoc, append-nil}
use air_ferry_i_os_source.Prelude.{
  ℕ, ◌+◌, ◌≤◌, ◌≡◌, ◌↔◌, ◌⊎◌, refl, sym, ◌∙◌, arith, List, [], ◌∷◌, ◌++◌, none, some, true, length,
  ok, err, bytes_eq, if◌then◌else◌, length-append, ok-injective,
}
use air_ferry_i_os_source.Protocol
use air_ferry_i_os_source.Protocol.Compress.{
  Library, done, chunk, limited, read_to_end, decompress_with, decompress_with_limit,
}
use air_ferry_i_os_source.Protocol.Compress.Capped.{chunk_goes_on, decompress_with_limit_iff}
use air_ferry_i_os_source.Protocol.Compress.File.{
  Disk, Os, Hasher, decode, decode_with, decompress_stream_to_file,
}
use air_ferry_i_os_source.Protocol.Compress.File.Sound.{IsIncremental}
use air_ferry_i_os_source.Protocol.Compress.File.Cleanup.{stream_err}
use air_ferry_i_os_source.Transfer.Cffi.ReceiverAbi.Stream.{
  hex, eq_ignore_ascii_case, airferry_decompress_stream_to_file,
}
use air_ferry_i_os_source.Transfer.Cffi.ReceiverAbi.Verified.{verified_stream}

abbrev pub lib : Library (Unit {0})
lib = record {
  zstd_with_buffer = λ bytes. ok tt;
  zstd_set_window_log_max = λ z n. ok tt;
  zstd_stream = λ z. chunk (1 ∷ []) (chunk (2 ∷ []) done);
  zstd_encode = λ level window bytes. ok bytes;
  xz_stream_decoder = λ limit. err "no xz";
  xz_new = λ bytes. done;
  xz_encode = λ preset bytes. ok bytes;
}

abbrev os : Os
os = record {
  reads = λ bytes. chunk bytes done;
  create_fails = none;
  write_fails = λ n. none;
  flush_fails = none;
  remove_fails = none;
  left = λ bytes. bytes;
}

reads_all : (bytes out : List ℕ) → read_to_end (chunk bytes done) ≡ ok out → out ≡ bytes
unfolding read_to_end
reads_all [] out h = ok-injective (sym h)
reads_all (x ∷ xs) out h =
    ok-injective (sym h ∙ chunk_goes_on (x ∷ xs) done [] (omega arith) refl) ∙ append-nil (x ∷ xs)

-- As a checksum the number of bytes, as a digest the bytes themselves.
abbrev crc : Hasher ℕ ℕ
crc = record { start = 0; update = λ s bytes. s + length bytes; finalize = λ s. s }

abbrev sha : Hasher (List ℕ) (List ℕ)
sha = record { start = []; update = λ s bytes. s ++ bytes; finalize = λ s. s }

crc_laws : IsIncremental crc
crc_laws = record {
  update_nothing = λ s. omega arith;
  update_twice = λ s a b. omega (arith, length-append a b);
}

sha_laws : IsIncremental sha
sha_laws = record { update_nothing = append-nil; update_twice = append_assoc }

abbrev disk : Disk
unfolding bytes_eq
disk path = if bytes_eq path (1 ∷ []) then some (9 ∷ []) else none

-- "0102"
abbrev digest : List ℕ
digest = 48 ∷ (49 ∷ (48 ∷ (50 ∷ [])))

abbrev after : Disk
unfolding airferry_decompress_stream_to_file
after =
    (airferry_decompress_stream_to_file os crc sha lib disk (some (1 ∷ [])) (some (2 ∷ [])) 1 10 2 2
      true (some digest)).0

answered :
    airferry_decompress_stream_to_file os crc sha lib disk
      (some (1 ∷ []))
      (some (2 ∷ []))
      1
      10
      2
      2
      true
      (some digest)
    ≡ (after, 1)
unfolding airferry_decompress_stream_to_file after decompress_stream_to_file decode_with decode
    limited hex eq_ignore_ascii_case bytes_eq disk
answered = refl

verified_stream_example :
    (source out : List ℕ) × (disk (1 ∷ []) ≡ some source)
    × (decompress_with_limit lib source 1 10 ≡ ok out)
    × (after (2 ∷ []) ≡ some out)
    × (length out ≡ 2)
    × (true ≡ true → crc.finalize (crc.update crc.start out) ≡ 2)
    × (eq_ignore_ascii_case (hex (sha.finalize (sha.update sha.start out))) digest ≡ true)
unfolding bytes_eq
verified_stream_example =
    verified_stream os crc sha lib crc_laws sha_laws reads_all disk after (1 ∷ []) (2 ∷ []) digest 1
      10 2 2 true (omega arith) refl answered

-- A cap of one byte.
abbrev capped : Disk
unfolding decompress_stream_to_file
capped = (decompress_stream_to_file os crc sha 1 lib disk (1 ∷ []) (2 ∷ []) 1).0

over_cap :
    decompress_stream_to_file os crc sha 1 lib disk (1 ∷ []) (2 ∷ []) 1
    ≡ (capped, err (Protocol.compress "decompressed output exceeds expected size"))
unfolding capped decompress_stream_to_file decode_with decode limited bytes_eq disk
over_cap = refl

stream_err_example : (disk ≡ capped) ⊎ (capped (2 ∷ []) ≡ none)
stream_err_example =
    stream_err os crc sha 1 lib disk capped (1 ∷ []) (2 ∷ []) 1
      (Protocol.compress "decompressed output exceeds expected size") refl over_cap

decompress_with_limit_iff_example :
    (decompress_with_limit lib (9 ∷ []) 1 10 ≡ ok (1 ∷ (2 ∷ [])))
    ↔ ((decompress_with lib (9 ∷ []) 1 ≡ ok (1 ∷ (2 ∷ []))) × (2 ≤ 10))
decompress_with_limit_iff_example =
    decompress_with_limit_iff lib (9 ∷ []) 1 10 (1 ∷ (2 ∷ [])) (omega arith) (omega arith)
