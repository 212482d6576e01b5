-- ===== src/Transfer/Receiver/Finish.antt =====
-- core/transfer-engine/src/receiver.rs: from the decoded object to the file.
-- `describe` is the text of an error; the numbers in a message are left out. `usize` is 64 bits wide, so that the
-- two `usize::try_from` of sizes that a descriptor carries do not fail.
pub mod Size
use air_ferry_i_os_source.Prelude.{
  ℕ, ◌%◌, ◌^◌, List, Option, none, some, Bool, true, false, not, ◌&&◌, length, take, ltb, leb, ◌==◌,
  if◌then◌else◌, String, Result, ok, err,
}
use air_ferry_i_os_source.Codec.Meta.{max_original_bytes}
use air_ferry_i_os_source.Codec.Decoder
use air_ferry_i_os_source.Codec.Decoder.{Decoder}
use air_ferry_i_os_source.Protocol
use air_ferry_i_os_source.Protocol.Compress.{Library, compression_none, decompress_with_limit}
use air_ferry_i_os_source.Transfer.{Error, compress}
use air_ferry_i_os_source.Transfer.Types.{FileMeta}
use air_ferry_i_os_source.Transfer.Receiver.{ReceiverSession}

module _ {S : Type 0} where
  unfoldable pub assembled : Option (Decoder S) → Option (List ℕ)
  unfolding Decoder.assemble
  assembled none = none
  assembled (some dec) = Decoder.assemble dec

  unfoldable pub assemble_raw : ReceiverSession S → Option (List ℕ)
  unfolding assembled
  assemble_raw rx = assembled rx.decoder

-- The payload without the padding of the symbols, or the message that it is too short.
unfoldable pub trimmed : FileMeta → List ℕ → Result String (List ℕ)
trimmed f raw =
    if not f.compressed_size_known
    then ok raw
    else if leb f.compressed_size (length raw)
    then ok (take f.compressed_size raw)
    else err "descriptor compressed_size exceeds recovered payload"

module _ {Z : Type 0} (lib : Library Z) (describe : Protocol.Error → String) where
  -- What the decompressor answered, against the size that the descriptor promises.
  abbrev pub check_size : ℕ → Result Protocol.Error (List ℕ) → Result String (List ℕ)
  check_size original_size (err e) = err (describe e)
  check_size original_size (ok v) =
      if ltb 0 original_size && not (length v % 2 ^ 64 == original_size)
      then err "decompressed size mismatch"
      else ok v

  unfoldable pub decompressed : FileMeta → List ℕ → Result String (List ℕ)
  unfolding decompress_with_limit
  decompressed f raw =
      if f.compression == compression_none
      then ok raw
      else if ltb 0 f.original_size && ltb max_original_bytes f.original_size
      then err "descriptor original_size exceeds receiver limit"
      else check_size f.original_size (
          decompress_with_limit lib raw f.compression
            (if ltb 0 f.original_size then f.original_size else max_original_bytes))

  -- Either outcome is kept in `last_assemble_error`.
  abbrev pub report :
      {S : Type 0}
      → ReceiverSession S
      → Result String (List ℕ)
      → ReceiverSession S × Result Error (Option (List ℕ))
  report rx (ok v) = (record rx { last_assemble_error = none }, ok (some v))
  report rx (err e) = (record rx { last_assemble_error = some e }, err (compress e))

  abbrev pub finish : FileMeta → List ℕ → Result String (List ℕ)
  unfolding trimmed decompressed
  finish f raw = elim (trimmed f raw) [ err e ↦ err e | ok payload ↦ decompressed f payload ]

  unfoldable pub assemble_result :
      {S : Type 0} → ReceiverSession S → ReceiverSession S × Result Error (Option (List ℕ))
  unfolding assemble_raw finish
  assemble_result rx = elim (assemble_raw rx) [
    | none ↦ (record rx { last_assemble_error = none }, ok none)
    | some raw ↦ report rx (finish rx.file_meta raw)
  ]

  abbrev flatten : Result Error (Option (List ℕ)) → Option (List ℕ)
  flatten (ok v) = v
  flatten (err e) = none

  unfoldable pub assemble : {S : Type 0} → ReceiverSession S → ReceiverSession S × Option (List ℕ)
  unfolding assemble_result
  assemble rx = let (rx', r) = assemble_result rx in (rx', flatten r)
