-- ===== src/Protocol/Compress.antt =====
-- core/qr-protocol/src/compress.rs: compression behind a tag, and decompression under a cap.
-- The third-party zstd and xz2 crates are the parameter `Library`; what a reader answers is a `Stream`.
pub mod Capped
pub mod File
use air_ferry_i_os_source.Prelude.{
  ℕ, ◌+◌, ◌-◌, ◌*◌, ◌^◌, min, List, ◌++◌, Bool, not, ◌&&◌, ◌||◌, length, take, ltb, leb, ◌==◌,
  if◌then◌else◌, String, Result, ok, err, ◌>>=◌, ◌>>◌, reject_if, map_err,
}
use air_ferry_i_os_source.Protocol.{Error, compress}

abbrev pub default_level : ℕ
default_level = 22

abbrev pub compression_none : ℕ
compression_none = 0

abbrev pub compression_zstd : ℕ
compression_zstd = 1

abbrev pub compression_xz : ℕ
compression_xz = 2

abbrev pub is_known_compression_tag : ℕ → Bool
is_known_compression_tag tag =
    (tag == compression_none) || ((tag == compression_zstd) || (tag == compression_xz))

-- `6 | LZMA_PRESET_EXTREME`
abbrev pub xz_preset : ℕ
xz_preset = 6 + 0x80000000

abbrev pub xz_decoder_memory_limit : ℕ
xz_decoder_memory_limit = 128 * 1024 * 1024

abbrev pub zstd_window_log_max : ℕ
zstd_window_log_max = 23

-- What the reads of a reader answer one after another; a read of no bytes is the end.
pub data Stream : Type 0 where
  done : Stream
  failed : String → Stream
  chunk : List ℕ → Stream → Stream

-- `Read::take`: behind `limit` bytes the reader is not read again.
unfoldable pub limited : ℕ → Stream → Stream
limited limit done = done
limited limit (failed e) = if limit == 0 then done else failed e
limited limit (chunk bytes rest) =
    let later = limited (limit - length bytes) rest in
    if limit == 0
    then done
    else if leb (length bytes) limit
    then chunk bytes later
    else chunk (take limit bytes) done

-- `Read::read_to_end`
unfoldable pub read_to_end : Stream → Result String (List ℕ)
read_to_end done = ok List.[]
read_to_end (failed e) = err e
read_to_end (chunk bytes rest) =
    let later = read_to_end rest in
    if length bytes == 0 then ok List.[] else (later >>= λ more. ok (bytes ++ more))

-- `Z` is a zstd decoder over its input.
pub record Library (Z : Type 0) : Type 0 where
  pub zstd_with_buffer : List ℕ → Result String Z
  pub zstd_set_window_log_max : Z → ℕ → Result String Z
  pub zstd_stream : Z → Stream
  pub zstd_encode : (level : ℕ) → (window_log : ℕ) → List ℕ → Result String (List ℕ)
  pub xz_stream_decoder : (memory_limit : ℕ) → Result String (List ℕ → Stream)
  pub xz_new : List ℕ → Stream
  pub xz_encode : (preset : ℕ) → List ℕ → Result String (List ℕ)

-- Read a decoder fully but refuse to produce more than `max_output` bytes.
unfoldable pub read_capped : Stream → ℕ → Result Error (List ℕ)
unfolding read_to_end limited
read_capped r max_output = do
  out ← map_err compress (read_to_end (limited (min (max_output + 1) (2 ^ 64 - 1)) r))
  reject_if (ltb max_output (length out)) (compress "decompressed output exceeds expected size")
  ok out

module _ {Z : Type 0} (lib : Library Z) where
  abbrev pub zstd_decoder : List ℕ → Result Error Z
  zstd_decoder reader = do
    dec ← map_err compress (lib.zstd_with_buffer reader)
    map_err compress (lib.zstd_set_window_log_max dec zstd_window_log_max)

  unfoldable pub compress_zstd : List ℕ → ℕ → Result Error (List ℕ)
  compress_zstd bytes level = map_err compress (lib.zstd_encode level zstd_window_log_max bytes)

  unfoldable pub decompress : List ℕ → Result Error (List ℕ)
  unfolding read_to_end
  decompress bytes = do
    dec ← zstd_decoder bytes
    map_err compress (read_to_end (lib.zstd_stream dec))

  unfoldable pub xz_compress : List ℕ → Result Error (List ℕ)
  xz_compress bytes = map_err compress (lib.xz_encode xz_preset bytes)

  unfoldable pub xz_decompress : List ℕ → Result Error (List ℕ)
  unfolding read_to_end
  xz_decompress bytes = map_err compress (read_to_end (lib.xz_new bytes))

  unfoldable pub compress_with : List ℕ → ℕ → Result Error (List ℕ)
  unfolding compress_zstd xz_compress
  compress_with bytes compression =
      if compression == compression_zstd
      then compress_zstd bytes default_level
      else if compression == compression_xz
      then xz_compress bytes
      else ok bytes

  unfoldable pub decompress_with : List ℕ → ℕ → Result Error (List ℕ)
  unfolding decompress xz_decompress
  decompress_with bytes compression =
      if compression == compression_zstd
      then decompress bytes
      else if compression == compression_xz
      then xz_decompress bytes
      else ok bytes

  -- The arms of `decompress_with_limit`.
  abbrev pub zstd_with_limit : List ℕ → ℕ → Result Error (List ℕ)
  unfolding read_capped
  zstd_with_limit bytes max_output = do
    dec ← zstd_decoder bytes
    read_capped (lib.zstd_stream dec) max_output

  abbrev pub xz_with_limit : List ℕ → ℕ → Result Error (List ℕ)
  unfolding read_capped
  xz_with_limit bytes max_output = do
    decoder ← map_err compress (lib.xz_stream_decoder xz_decoder_memory_limit)
    read_capped (decoder bytes) max_output

  abbrev pub copy_with_limit : List ℕ → ℕ → ℕ → Result Error (List ℕ)
  copy_with_limit bytes compression max_output = do
    reject_if (not (is_known_compression_tag compression) && not (length bytes == 0))
        (compress "unknown compression algorithm tag")
    reject_if (ltb max_output (length bytes)) (compress "payload exceeds size limit")
    ok bytes

  unfoldable pub decompress_with_limit : List ℕ → ℕ → ℕ → Result Error (List ℕ)
  unfolding zstd_with_limit xz_with_limit
  decompress_with_limit bytes compression max_output =
      if compression == compression_zstd
      then zstd_with_limit bytes max_output
      else if compression == compression_xz
      then xz_with_limit bytes max_output
      else copy_with_limit bytes compression max_output
