-- ===== src/Transfer/Sender.antt =====
-- core/transfer-engine/src/sender.rs: the sender's session and its endless sequence of frames.
-- `start` and `now` are the two readings of the clock; statistics are left out.
pub mod Cadence
use air_ferry_i_os_source.Prelude.{
  ℕ, ◌+◌, ◌-◌, ◌%◌, ◌^◌, max, List, ◌∷◌, Option, none, some, Bool, true, false, not, ◌||◌, ◌&&◌,
  length, get_elem?, ltb, leb, ◌==◌, if◌then◌else◌, Result, ok, err, ◌>>=◌, ◌>>◌, reject_if,
  map_err,
}
use air_ferry_i_os_source.Codec.Config.{Config}
use air_ferry_i_os_source.Codec.Meta.{ObjectMeta}
use air_ferry_i_os_source.Codec.Symbol.{Symbol}
use air_ferry_i_os_source.Codec.Encoder
use air_ferry_i_os_source.Codec.Encoder.{Encoder, RqEncoder}
use air_ferry_i_os_source.Protocol.Chunker.{pad_to_symbols}
use air_ferry_i_os_source.Protocol.Frame
use air_ferry_i_os_source.Protocol.Frame.{Frame}
use air_ferry_i_os_source.Transfer.{
  Error, raptorq, no_payload, invalid_redundancy, symbol_id_space_exhausted, invalid_segment,
}
use air_ferry_i_os_source.Transfer.Types.{FileMeta, SegmentMeta}
use air_ferry_i_os_source.Transfer.Segment
use air_ferry_i_os_source.Transfer.Descriptor.{
  build_payload, build_segment_payload, build_frame, build_segment_frame, symbol_sum,
}
use air_ferry_i_os_source.Transfer.Schedule.{Pair, Cursors, build_source_plan, next_symbol_id}

pub record SenderConfig : Type 0 where
  pub codec : Config
  pub redundancy_pct : ℕ

unfoldable pub validate : SenderConfig → Result Error (Unit {0})
validate c =
    if not (leb 5 c.redundancy_pct && leb c.redundancy_pct 50)
    then err (invalid_redundancy c.redundancy_pct)
    else ok tt

pub record SenderSession : Type 0 where
  pub config : SenderConfig
  pub session_id : ℕ
  pub encoder : Encoder
  pub meta : ObjectMeta
  pub file_meta : FileMeta
  pub segment_meta : Option SegmentMeta
  pub total_k : ℕ
  pub source_plan : List Pair
  pub cursors : Cursors
  pub frame_index : ℕ
  pub descriptor_interval : ℕ
  pub started : Bool
  pub start_ms : ℕ

-- The descriptor that the first frame will need.
abbrev descriptor_payload : ObjectMeta → FileMeta → Option SegmentMeta → Result Error (List ℕ)
unfolding build_payload build_segment_payload
descriptor_payload meta file_meta none = build_payload meta file_meta
descriptor_payload meta file_meta (some segment) = build_segment_payload meta file_meta segment

module _ (with_defaults : List ℕ → ℕ → RqEncoder) where
  unfoldable pub new_inner :
      List ℕ → ℕ → SenderConfig → FileMeta → Option SegmentMeta → Result Error SenderSession
  unfolding validate pad_to_symbols Encoder.new descriptor_payload symbol_sum build_source_plan
  new_inner compressed_payload session_id config file_meta segment_meta = do
    validate config
    encoder ←
        map_err raptorq
          (Encoder.new with_defaults (pad_to_symbols compressed_payload config.codec) config.codec)
    payload ← descriptor_payload encoder.meta file_meta segment_meta
    ok (record {
      config = config;
      session_id = session_id;
      encoder = encoder;
      meta = encoder.meta;
      file_meta = file_meta;
      segment_meta = segment_meta;
      total_k = symbol_sum encoder.meta.blocks;
      source_plan = build_source_plan encoder.meta;
      cursors = record { source_cursor = 0; repair_cursor = 0 };
      frame_index = 0;
      descriptor_interval = 17;
      started = false;
      start_ms = 0;
    })

  unfoldable pub new : List ℕ → ℕ → SenderConfig → FileMeta → Result Error SenderSession
  unfolding new_inner
  new compressed_payload session_id config file_meta =
      new_inner compressed_payload session_id config file_meta none

  unfoldable pub new_segment :
      List ℕ → ℕ → SenderConfig → FileMeta → SegmentMeta → Result Error SenderSession
  unfolding new_inner Segment.validate
  new_segment compressed_payload child_session_id config file_meta segment_meta = do
    reject_if
        (not (file_meta.compressed_size == length compressed_payload % 2 ^ 64)
          || not file_meta.compressed_size_known)
        (invalid_segment "segment compressed size does not match payload")
    map_err invalid_segment (Segment.validate segment_meta child_session_id file_meta)
    new_inner compressed_payload child_session_id config file_meta (some segment_meta)

unfoldable pub set_descriptor_interval : SenderSession → ℕ → SenderSession
set_descriptor_interval s interval = record s { descriptor_interval = max interval 1 }

-- `syms.remove(0)`, which panics on an empty list; the encoder answers as many packets as it is asked for.
abbrev pub first_of : List Symbol → Result Error Symbol
first_of List.[] = err no_payload
first_of (s ∷ symbols) = ok s

abbrev pub k_of : ObjectMeta → ℕ → ℕ
k_of meta sbn = elim (get_elem? meta.blocks sbn) [ none ↦ 0 | some b ↦ b.num_source_symbols ]

unfoldable pub fetch_symbol : SenderSession → ℕ → ℕ → Result Error Symbol
unfolding Encoder.source_symbol Encoder.repair_symbols
fetch_symbol s sbn esi =
    let k = k_of s.meta sbn in
    if ltb esi k
    then map_err raptorq (Encoder.source_symbol s.encoder sbn esi)
    else map_err raptorq (Encoder.repair_symbols s.encoder sbn (esi - k) 1) >>= first_of

-- `self.started`, with the clock read for it.
abbrev pub start_clock : SenderSession → ℕ → SenderSession
start_clock s start = record s {
  start_ms = if s.started then s.start_ms else start;
  started = true;
}

abbrev pub advance : SenderSession → SenderSession
advance s = record s { frame_index = (s.frame_index + 1) % 2 ^ 64 }

module _ (crc32 : List ℕ → ℕ) where
  unfoldable pub descriptor_for : SenderSession → ℕ → Option SegmentMeta → Result Error Frame
  unfolding build_frame build_segment_frame
  descriptor_for s now none = build_frame crc32 s.meta s.file_meta s.session_id s.frame_index now
  descriptor_for s now (some segment) =
      build_segment_frame crc32 s.meta s.file_meta segment s.session_id s.frame_index now

  unfoldable pub descriptor_frame : SenderSession → ℕ → Result Error Frame
  unfolding descriptor_for
  descriptor_frame s now = descriptor_for s now s.segment_meta

  unfoldable pub data_frame : SenderSession → ℕ → ℕ → ℕ → Symbol → Frame
  unfolding Frame.build
  data_frame s sbn esi now symbol =
      Frame.build crc32 s.session_id 0 sbn esi (length s.meta.blocks % 2 ^ 32) s.total_k
        s.config.codec.symbol_size s.frame_index now symbol.bytes

  -- Behind the descriptor: the next symbol. The cursors move on also when the symbol is not to be had.
  unfoldable pub next_data : SenderSession → ℕ → SenderSession × Result Error Frame
  unfolding next_symbol_id fetch_symbol data_frame
  next_data s now = elim (next_symbol_id s.source_plan s.meta.blocks s.cursors) [
    | none ↦ (s, err symbol_id_space_exhausted)
    | some ((sbn, esi), cursors) ↦
        let s' = record s { cursors = cursors } in
        elim (fetch_symbol s sbn esi) [
          | err e ↦ (s', err e)
          | ok symbol ↦ (advance s', ok (data_frame (advance s') sbn esi now symbol))
        ]
  ]

  unfoldable pub is_due : SenderSession → Bool
  is_due s = (s.frame_index == 0) || (s.frame_index % max s.descriptor_interval 1 == 0)

  unfoldable pub next_frame : SenderSession → ℕ → ℕ → SenderSession × Result Error Frame
  unfolding is_due descriptor_frame next_data
  next_frame s start now =
      let s1 = start_clock s start in
      if length s.source_plan == 0
      then (s, err no_payload)
      else if is_due s1
      then (advance s1, descriptor_frame (advance s1) now)
      else next_data s1 now
