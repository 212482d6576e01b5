-- ===== src/Transfer/Wasm/Sessions.antt =====
-- core/transfer-engine/src/wasm.rs: the constructors of both sessions, and the calls of the receiver. `usize` is 32
-- bits wide in the browser.
use Prim.Native.Nat.{bit_or, bit_and}
use air_ferry_i_os_source.Prelude.{
  ℕ, ◌*◌, ◌-◌, ◌^◌, List, none, some, true, not, ◌&&◌, ◌||◌, length, take, replicate, ltb, leb,
  ◌==◌, if◌then◌else◌, Result, ok, err, ◌>>=◌, ◌>>◌, reject_if, map_err, ◌%◌, ◌/◌,
}
use air_ferry_i_os_source.Codec.Config
use air_ferry_i_os_source.Codec.Decoder.{Raptor}
use air_ferry_i_os_source.Codec.Encoder.{RqEncoder}
use air_ferry_i_os_source.Protocol.Frame
use air_ferry_i_os_source.Protocol.Frame.{Frame, flag_descriptor}
use air_ferry_i_os_source.Protocol.Session.{derive_segment}
use air_ferry_i_os_source.Transfer.{Error}
use air_ferry_i_os_source.Transfer.Types.{FileMeta}
use air_ferry_i_os_source.Transfer.IngestStatus.{pack, ingest_error}
use air_ferry_i_os_source.Transfer.Sender
use air_ferry_i_os_source.Transfer.Sender.{SenderConfig, SenderSession}
use air_ferry_i_os_source.Transfer.Receiver.{
  ReceiverSession, Cache, new_pending, is_complete, progress_of,
}
use air_ferry_i_os_source.Transfer.Receiver.Ingest.{ingest}
use air_ferry_i_os_source.Transfer.Receiver.Finish.{assemble_raw}
use air_ferry_i_os_source.Transfer.Wasm.{
  JsError, engine, codec, protocol, message, qr_scratch_bytes,
}

abbrev pub usize_max : ℕ
usize_max = 2 ^ 32 - 1

-- `((hi as u128) << 64) | lo as u128`
abbrev pub id_of : ℕ → ℕ → ℕ
id_of lo hi = bit_or (hi * 2 ^ 64) lo

pub record SenderSessionWasm : Type 0 where
  pub inner : SenderSession
  pub qr_scratch : List ℕ

abbrev wrapped : Result Error SenderSession → Result JsError SenderSessionWasm
wrapped (err e) = err (engine e)
wrapped (ok inner) = ok (record { inner = inner; qr_scratch = replicate qr_scratch_bytes 0 })

abbrev pub file_meta_of : List ℕ → ℕ → ℕ → ℕ → ℕ → FileMeta
file_meta_of filename original_size crc32 compression compressed_size = record {
  filename = filename;
  original_size = original_size;
  crc32 = crc32;
  compression = compression;
  compressed_size = compressed_size;
  compressed_size_known = true;
  crc32_known = true;
}

module _ (with_defaults : List ℕ → ℕ → RqEncoder) where
  unfoldable pub new :
      (payload : List ℕ) (sid_lo sid_hi redundancy_pct symbol_size : ℕ) (filename : List ℕ)
      (original_file_size crc32 compression : ℕ)
      → Result JsError SenderSessionWasm
  unfolding Config.new Sender.new
  new payload sid_lo sid_hi redundancy_pct symbol_size filename original_file_size crc32
        compression =
      do
        c ← map_err codec (Config.new symbol_size)
        wrapped (
            Sender.new with_defaults payload (id_of sid_lo sid_hi)
              (record { codec = c; redundancy_pct = redundancy_pct })
              (file_meta_of filename original_file_size crc32 compression (length payload)))

  unfoldable pub new_segment :
      (payload : List ℕ)
      (root_lo root_hi segment_index segment_count original_offset root_original_size : ℕ)
      (root_sha256 raw_sha256 : List ℕ) (redundancy_pct symbol_size : ℕ) (filename : List ℕ)
      (original_size crc32 compression : ℕ)
      → Result JsError SenderSessionWasm
  unfolding Config.new Sender.new_segment derive_segment
  new_segment payload root_lo root_hi segment_index segment_count original_offset root_original_size
        root_sha256 raw_sha256 redundancy_pct symbol_size filename original_size crc32 compression =
      do
        c ← map_err codec (Config.new symbol_size)
        reject_if (not (length root_sha256 == 32) || not (length raw_sha256 == 32))
            (message "root_sha256 and raw_sha256 must be exactly 32 bytes")
        wrapped (
            Sender.new_segment with_defaults payload
              (derive_segment (id_of root_lo root_hi) segment_index)
              (record { codec = c; redundancy_pct = redundancy_pct })
              (file_meta_of filename original_size crc32 compression (length payload))
              (record {
                root_session_id = id_of root_lo root_hi;
                segment_index = segment_index;
                segment_count = segment_count;
                original_offset = original_offset;
                root_original_size = root_original_size;
                root_sha256 = root_sha256;
                raw_sha256 = raw_sha256;
              }))

module _ {S : Type 0} where
  unfoldable pub new_receiver : ℕ → ℕ → ReceiverSession S
  unfolding new_pending
  new_receiver sid_lo sid_hi = new_pending (id_of sid_lo sid_hi)

  -- The recovered bytes, cut to `compressed_size` where it is known and fits the platform.
  unfoldable pub assemble_bytes : ReceiverSession S → List ℕ
  unfolding assemble_raw
  assemble_bytes rx = elim (assemble_raw rx) [
    | none ↦ List.[]
    | some raw ↦
        let f = rx.file_meta in
        if f.compressed_size_known
          && (leb f.compressed_size usize_max && leb f.compressed_size (length raw))
        then take f.compressed_size raw
        else raw
  ]

module _ {S : Type 0} (rq : Raptor S) (crc32 : List ℕ → ℕ) (iteration : Cache → Cache) where
  abbrev status_of : ReceiverSession S → ReceiverSession S → ℕ
  unfolding pack progress_of is_complete
  status_of before rx =
      let p = progress_of rx in
      pack (is_complete rx) (ltb (progress_of before).received_symbols p.received_symbols)
        p.session_mismatch_streak p.received_symbols

  unfoldable pub ingest_bytes : ReceiverSession S → List ℕ → ReceiverSession S × ℕ
  unfolding ingest status_of Frame.from_bytes
  ingest_bytes rx bytes = elim (Frame.from_bytes usize_max crc32 bytes) [
    | err e ↦ (rx, ingest_error)
    | ok frame ↦ let rx' = (ingest rq iteration rx frame).0 in (rx', status_of rx rx')
  ]

  unfoldable pub from_descriptor : List ℕ → Result JsError (ReceiverSession S)
  unfolding Frame.from_bytes new_receiver ingest_bytes
  from_descriptor bytes = do
    frame ← map_err protocol (Frame.from_bytes usize_max crc32 bytes)
    reject_if (bit_and frame.header.flags flag_descriptor == 0)
        (message "from_descriptor: frame is not a descriptor (FLAG_DESCRIPTOR clear)")
    let id = frame.header.session_id
    let rx = (ingest_bytes (new_receiver (id % 2 ^ 64) (id / 2 ^ 64 % 2 ^ 64)) bytes).0
    reject_if (not rx.meta_confirmed) (
        message
          "from_descriptor: descriptor rejected (corrupt/hostile payload); meta not confirmed")
    ok rx
