-- ===== src/Protocol/Compress/File.antt =====
-- core/qr-protocol/src/compress.rs: `decompress_stream_to_file`.
-- A disk is a map from paths to contents, where two paths are two files, and `Os` says how a file is read and which of its calls fail; `crc32fast::Hasher` and
-- `Sha256` are the parameters `Hasher`. The text that a message adds in front of a cause is left out.
pub mod Sound
pub mod Cleanup
use air_ferry_i_os_source.Prelude.{
  ℕ, suc, ◌+◌, ◌-◌, ◌^◌, min, List, ◌++◌, Option, none, some, Bool, true, false, not, ◌&&◌, ◌||◌,
  bytes_eq, length, ltb, ◌==◌, if◌then◌else◌, String, Result, ok, err, ◌>>=◌, ◌>>◌, reject_if,
  map_err,
}
use air_ferry_i_os_source.Protocol.{Error, compress}
use air_ferry_i_os_source.Protocol.Compress.{
  Stream, done, failed, chunk, limited, Library, zstd_decoder, compression_zstd, compression_xz,
  is_known_compression_tag, xz_decoder_memory_limit,
}

abbrev pub Disk : Type 0
Disk = List ℕ → Option (List ℕ)

abbrev pub put : Disk → List ℕ → Option (List ℕ) → Disk
put disk path content p = if bytes_eq p path then content else disk p

-- How the contents of a file are read, and the calls that fail, with the error: `write_fails n` is for the
-- write behind `n` others. Of the bytes that a writer was handed, those on the disk when it is dropped are `left`.
pub record Os : Type 0 where
  pub reads : List ℕ → Stream
  pub create_fails : Option String
  pub write_fails : ℕ → Option String
  pub flush_fails : Option String
  pub remove_fails : Option String
  pub left : List ℕ → List ℕ

-- `let _ = std::fs::remove_file(path)`
abbrev pub remove : Os → Disk → List ℕ → Disk
remove os disk path = elim os.remove_fails [ some e ↦ disk | none ↦ put disk path none ]

pub record Hasher (H D : Type 0) : Type 0 where
  pub start : H
  pub update : H → List ℕ → H
  pub finalize : H → D

pub record DecompressStreamOutcome : Type 0 where
  pub output_size : ℕ
  pub crc32 : ℕ
  pub sha256 : List ℕ

-- What the closure `decode` captures: `output` is what it has handed to the writer.
pub record Sink (C S : Type 0) : Type 0 where
  pub crc : C
  pub sha : S
  pub written : ℕ
  pub over : Bool
  pub output : List ℕ

abbrev pub or_ok : Option String → Result Error (Unit {0})
or_ok none = ok tt
or_ok (some e) = err (compress e)

module _ {C S : Type 0} (os : Os) (crc : Hasher C ℕ) (sha : Hasher S (List ℕ))
    (max_output : ℕ) where
  abbrev pub hashed : Sink C S → List ℕ → Sink C S
  hashed sink bytes = record sink {
    crc = crc.update sink.crc bytes;
    sha = sha.update sink.sha bytes;
    written = min (sink.written + length bytes) (2 ^ 64 - 1);
    output = sink.output ++ bytes;
  }

  -- The loop of `decode`, behind `n` writes.
  unfoldable pub decode : ℕ → Sink C S → Stream → Sink C S × Result Error (Unit {0})
  decode n sink done = (sink, ok tt)
  decode n sink (failed e) = (sink, err (compress e))
  decode n sink (chunk bytes rest) =
      let later = decode (suc n) (hashed sink bytes) rest in
      if length bytes == 0
      then (sink, ok tt)
      else if ltb max_output (min (sink.written + length bytes) (2 ^ 64 - 1))
      then (
        record sink { written = min (sink.written + length bytes) (2 ^ 64 - 1); over = true },
        ok tt,
      )
      else elim (os.write_fails n) [ some e ↦ (hashed sink bytes, err (compress e)) | none ↦ later ]

  abbrev pub fresh : Sink C S
  fresh = record { crc = crc.start; sha = sha.start; written = 0; over = false; output = List.[] }

  abbrev pub run : Stream → Sink C S × Result Error (Unit {0})
  unfolding decode limited
  run reader = decode 0 fresh (limited (min (max_output + 1) (2 ^ 64 - 1)) reader)

  abbrev pub failed_open : Error → Sink C S × Result Error (Unit {0})
  failed_open e = (fresh, err e)

  -- Without a decoder: the input is the original, unless its tag is unknown.
  abbrev pub run_copy : ℕ → List ℕ → Sink C S × Result Error (Unit {0})
  unfolding run
  run_copy compression bytes =
      if is_known_compression_tag compression || (length bytes == 0)
      then run (os.reads bytes)
      else failed_open (compress "unknown compression algorithm tag")

  module _ {Z : Type 0} (lib : Library Z) where
    -- The match on the tag, over the contents of the input file.
    unfoldable pub decode_with : ℕ → List ℕ → Sink C S × Result Error (Unit {0})
    unfolding run run_copy
    decode_with compression bytes =
        if compression == compression_zstd
        then elim (zstd_decoder lib bytes) [
          | err e ↦ failed_open e
          | ok dec ↦ run (lib.zstd_stream dec)
        ]
        else if compression == compression_xz
        then elim (lib.xz_stream_decoder xz_decoder_memory_limit) [
          | err e ↦ failed_open (compress e)
          | ok decoder ↦ run (decoder bytes)
        ]
        else run_copy compression bytes

    -- `drop(writer)` and `let _ = std::fs::remove_file(output_path)`
    abbrev pub discard : Disk → List ℕ → Sink C S → Disk
    discard disk output_path sink =
        remove os (put disk output_path (some (os.left sink.output))) output_path

    -- Behind `decode`, in the order of the source: failure, too much output, and the flush of the writer.
    abbrev pub settle :
        Disk
        → List ℕ
        → Sink C S × Result Error (Unit {0})
        → Disk × Result Error DecompressStreamOutcome
    settle disk output_path (sink, err e) = (discard disk output_path sink, err e)
    settle disk output_path (sink, ok _) =
        if sink.over
        then (
          discard disk output_path sink,
          err (compress "decompressed output exceeds expected size"),
        )
        else elim os.flush_fails [
          | some e ↦ (discard disk output_path sink, err (compress e))
          | none ↦ (
            put disk output_path (some sink.output),
            ok (record {
              output_size = sink.written;
              crc32 = crc.finalize sink.crc;
              sha256 = sha.finalize sink.sha;
            }),
          )
        ]

    -- The output is created, empty, before the input is read.
    abbrev pub created : Disk → List ℕ → ℕ → List ℕ → Disk × Result Error DecompressStreamOutcome
    unfolding decode_with
    created disk output_path compression input =
        settle disk output_path (decode_with compression input)

    abbrev pub contents : Option (List ℕ) → List ℕ
    contents none = List.[]
    contents (some bytes) = bytes

    unfoldable pub decompress_stream_to_file :
        Disk → List ℕ → List ℕ → ℕ → Disk × Result Error DecompressStreamOutcome
    unfolding created
    decompress_stream_to_file disk input_path output_path compression = elim (disk input_path) [
      | none ↦ (disk, err (compress "open input"))
      | some old ↦ elim os.create_fails [
        | some e ↦ (disk, err (compress e))
        | none ↦
            let disk' = put disk output_path (some List.[]) in
            created disk' output_path compression (contents (disk' input_path))
      ]
    ]
