-- ===== src/Transfer/Cffi/ReceiverAbi.antt =====
-- core/transfer-engine/src/cffi.rs: the C ABI of the receiver. A handle is `none` for null, and so is a pointer to
-- bytes; an allocated buffer is answered as its bytes. `usize` is 64 bits wide.
pub mod Status
pub mod Stream
pub mod Verified
use Prim.Native.Nat.{bit_or}
use air_ferry_i_os_source.Prelude.{
  ℕ, ◌+◌, ◌-◌, ◌*◌, ◌/◌, ◌%◌, ◌^◌, min, List, [], ◌∷◌, ◌++◌, Option, none, some, Bool, true, false,
  ◌&&◌, ◌||◌, length, take, ltb, leb, ◌==◌, if◌then◌else◌, String, Result, ok, err,
}
use air_ferry_i_os_source.Codec.Meta.{max_original_bytes}
use air_ferry_i_os_source.Codec.Decoder.{Raptor}
use air_ferry_i_os_source.Protocol
use air_ferry_i_os_source.Protocol.Frame
use air_ferry_i_os_source.Protocol.Frame.{Frame}
use air_ferry_i_os_source.Protocol.Compress.{Library, decompress_with_limit}
use air_ferry_i_os_source.Transfer.{Error}
use air_ferry_i_os_source.Transfer.Types.{FileMeta, SegmentMeta, default_file_meta}
use air_ferry_i_os_source.Transfer.IngestStatus.{pack, ingest_error}
use air_ferry_i_os_source.Transfer.Receiver
use air_ferry_i_os_source.Transfer.Receiver.{
  ReceiverSession, Cache, Progress, new_pending, from_first_frame, is_complete, progress_of,
}
use air_ferry_i_os_source.Transfer.Receiver.Ingest.{ingest}
use air_ferry_i_os_source.Transfer.Receiver.Finish.{assemble_result, assemble_raw}
use air_ferry_i_os_source.Transfer.Cffi.SenderAbi.{usize_max}

abbrev pub int_of : Bool → ℕ
int_of true = 1
int_of false = 0

module _ {S : Type 0} where
  abbrev pub bootstrap : Result Protocol.Error Frame → Option (ReceiverSession S)
  unfolding from_first_frame
  bootstrap (ok frame) = some (from_first_frame frame)
  bootstrap (err e) = none

  unfoldable pub airferry_receiver_create_from_frame :
      (crc32 : List ℕ → ℕ) → Option (List ℕ) → Option (ReceiverSession S)
  unfolding bootstrap Frame.from_bytes
  airferry_receiver_create_from_frame crc32 none = none
  airferry_receiver_create_from_frame crc32 (some bytes) =
      if length bytes == 0 then none else bootstrap (Frame.from_bytes usize_max crc32 bytes)

  unfoldable pub airferry_receiver_create : ℕ → ℕ → Option (ReceiverSession S)
  unfolding new_pending
  airferry_receiver_create sid_lo sid_hi = some (new_pending (bit_or (sid_hi * 2 ^ 64) sid_lo))

  unfoldable pub airferry_receiver_is_complete : Option (ReceiverSession S) → ℕ
  unfolding is_complete
  airferry_receiver_is_complete none = 0
  airferry_receiver_is_complete (some rx) = int_of (is_complete rx)

-- A frame that is parsed: the session after it, and its status.
module _ {S : Type 0} (rq : Raptor S) (crc32 : List ℕ → ℕ) (iteration : Cache → Cache) where
  abbrev pub status_of : ReceiverSession S → ReceiverSession S → ℕ
  unfolding pack progress_of is_complete
  status_of before rx =
      let p = progress_of rx in
      pack (is_complete rx) (ltb (progress_of before).received_symbols p.received_symbols)
        p.session_mismatch_streak p.received_symbols

  abbrev pub ingested :
      ReceiverSession S → Result Protocol.Error Frame → Option (ReceiverSession S) × ℕ
  unfolding ingest status_of
  ingested rx (err e) = (some rx, ingest_error)
  ingested rx (ok frame) =
      let (rx', r) = ingest rq iteration rx frame in (some rx', status_of rx rx')

  unfoldable pub airferry_receiver_ingest :
      Option (ReceiverSession S) → Option (List ℕ) → Option (ReceiverSession S) × ℕ
  unfolding ingested Frame.from_bytes
  airferry_receiver_ingest (some rx) (some bytes) =
      if length bytes == 0
      then (some rx, ingest_error)
      else ingested rx (Frame.from_bytes usize_max crc32 bytes)
  airferry_receiver_ingest handle _ = (handle, ingest_error)

-- The answer of the `assemble` calls: `none` for 0.
module _ {S Z : Type 0} (lib : Library Z) (describe : Protocol.Error → String) where
  abbrev pub kept :
      ReceiverSession S × Result Error (Option (List ℕ))
      → Option (ReceiverSession S) × Option (List ℕ)
  kept (rx, ok out) = (some rx, out)
  kept (rx, err e) = (some rx, none)

  -- `outs` is true when both output pointers are not null.
  unfoldable pub airferry_receiver_assemble :
      Option (ReceiverSession S) → Bool → Option (ReceiverSession S) × Option (List ℕ)
  unfolding assemble_result
  airferry_receiver_assemble (some rx) true = kept (assemble_result lib describe rx)
  airferry_receiver_assemble handle _ = (handle, none)

abbrev pub trim_to : FileMeta → List ℕ → List ℕ
trim_to f bytes =
    if f.compressed_size_known && leb f.compressed_size (length bytes)
    then take f.compressed_size bytes
    else bytes

abbrev pub trim_option : FileMeta → Option (List ℕ) → Option (List ℕ)
trim_option f none = none
trim_option f (some bytes) = some (trim_to f bytes)

unfoldable pub airferry_receiver_assemble_raw :
    {S : Type 0} → Option (ReceiverSession S) → Bool → Option (List ℕ)
unfolding assemble_raw
airferry_receiver_assemble_raw (some rx) true = trim_option rx.file_meta (assemble_raw rx)
airferry_receiver_assemble_raw handle _ = none

abbrev pub nonempty : Result Protocol.Error (List ℕ) → Option (List ℕ)
nonempty (err e) = none
nonempty (ok out) = if length out == 0 then none else some out

unfoldable pub airferry_decompress_bytes :
    {Z : Type 0} → Library Z → Option (List ℕ) → ℕ → ℕ → Bool → Option (List ℕ)
unfolding decompress_with_limit
airferry_decompress_bytes lib (some bytes) compression max_output true =
    if length bytes == 0
    then none
    else nonempty (decompress_with_limit lib bytes compression (min max_output max_original_bytes))
airferry_decompress_bytes lib bytes compression max_output _ = none

-- `write_cstr`: the length that is needed, and what is written.
unfoldable pub write_cstr : List ℕ → Bool → ℕ → ℕ × List ℕ
write_cstr s out cap =
    let needed = length s + 1 in
    if out then (if ltb cap needed then (needed, []) else (needed, s ++ (0 ∷ []))) else (needed, [])

abbrev field_or : Option SegmentMeta → (SegmentMeta → ℕ) → ℕ → ℕ
field_or none field d = d
field_or (some s) field d = field s

-- The 32 bytes of a digest.
abbrev copy_digest : Option SegmentMeta → (SegmentMeta → List ℕ) → Bool → ℕ → ℕ × List ℕ
copy_digest none digest out room = (0, [])
copy_digest (some s) digest false room = (32, [])
copy_digest (some s) digest true room = if ltb room 32 then (32, []) else (32, take 32 (digest s))

-- The getters of the file's metadata.
module _ {S : Type 0} where
  abbrev pub file_of : Option (ReceiverSession S) → FileMeta
  file_of none = default_file_meta
  file_of (some rx) = rx.file_meta

  unfoldable pub airferry_receiver_compression : Option (ReceiverSession S) → ℕ
  airferry_receiver_compression none = 0
  airferry_receiver_compression (some rx) = rx.file_meta.compression

  unfoldable pub airferry_receiver_compressed_size : Option (ReceiverSession S) → ℕ
  airferry_receiver_compressed_size none = 0
  airferry_receiver_compressed_size (some rx) = rx.file_meta.compressed_size

  unfoldable pub airferry_receiver_original_size : Option (ReceiverSession S) → ℕ
  airferry_receiver_original_size none = 0
  airferry_receiver_original_size (some rx) = rx.file_meta.original_size

  unfoldable pub airferry_receiver_file_name : Option (ReceiverSession S) → Bool → ℕ → ℕ × List ℕ
  unfolding write_cstr
  airferry_receiver_file_name none out cap = (0, [])
  airferry_receiver_file_name (some rx) out cap = write_cstr rx.file_meta.filename out cap

  unfoldable pub airferry_receiver_file_size : Option (ReceiverSession S) → ℕ
  airferry_receiver_file_size none = 0
  airferry_receiver_file_size (some rx) = rx.file_meta.original_size

  unfoldable pub airferry_receiver_crc32 : Option (ReceiverSession S) → ℕ
  airferry_receiver_crc32 none = 0
  airferry_receiver_crc32 (some rx) = rx.file_meta.crc32

  unfoldable pub airferry_receiver_crc32_known : Option (ReceiverSession S) → ℕ
  airferry_receiver_crc32_known none = 0
  airferry_receiver_crc32_known (some rx) = int_of rx.file_meta.crc32_known

  -- The getters of the segment's metadata, which a null handle and an object without segments answer alike, but
  -- for the number of segments.
  abbrev pub segment_of : Option (ReceiverSession S) → Option SegmentMeta
  segment_of none = none
  segment_of (some rx) = rx.segment_meta

  unfoldable pub airferry_receiver_is_segmented : Option (ReceiverSession S) → ℕ
  airferry_receiver_is_segmented handle = field_or (segment_of handle) (λ s. 1) 0

  unfoldable pub airferry_receiver_segment_index : Option (ReceiverSession S) → ℕ
  airferry_receiver_segment_index handle = field_or (segment_of handle) (λ s. s.segment_index) 0

  unfoldable pub airferry_receiver_segment_count : Option (ReceiverSession S) → ℕ
  airferry_receiver_segment_count none = 0
  airferry_receiver_segment_count (some rx) = field_or rx.segment_meta (λ s. s.segment_count) 1

  unfoldable pub airferry_receiver_root_original_size : Option (ReceiverSession S) → ℕ
  airferry_receiver_root_original_size handle =
      field_or (segment_of handle) (λ s. s.root_original_size) 0

  unfoldable pub airferry_receiver_original_offset : Option (ReceiverSession S) → ℕ
  airferry_receiver_original_offset handle = field_or (segment_of handle) (λ s. s.original_offset) 0

  unfoldable pub airferry_receiver_root_session_id_lo : Option (ReceiverSession S) → ℕ
  airferry_receiver_root_session_id_lo handle =
      field_or (segment_of handle) (λ s. s.root_session_id % 2 ^ 64) 0

  unfoldable pub airferry_receiver_root_session_id_hi : Option (ReceiverSession S) → ℕ
  airferry_receiver_root_session_id_hi handle =
      field_or (segment_of handle) (λ s. s.root_session_id / 2 ^ 64 % 2 ^ 64) 0

  unfoldable pub airferry_receiver_raw_sha256 : Option (ReceiverSession S) → Bool → ℕ → ℕ × List ℕ
  airferry_receiver_raw_sha256 handle out cap =
      copy_digest (segment_of handle) (λ s. s.raw_sha256) out cap

  unfoldable pub airferry_receiver_root_sha256 : Option (ReceiverSession S) → Bool → ℕ → ℕ × List ℕ
  airferry_receiver_root_sha256 handle out cap =
      copy_digest (segment_of handle) (λ s. s.root_sha256) out cap
