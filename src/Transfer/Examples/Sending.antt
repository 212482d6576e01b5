-- ===== src/Transfer/Examples/Sending.antt =====
-- The sender's cadence at its second frame, which carries the one source symbol of the object.
use air_ferry_i_os_source.Prelude.{
  ℕ, ◌+◌, ◌%◌, ◌^◌, ◌≡◌, refl, List, [], ◌∷◌, none, true, ok, length, replicate, ◌==◌,
  if◌then◌else◌,
}
use air_ferry_i_os_source.Codec.Meta.{ObjectMeta}
use air_ferry_i_os_source.Codec.Encoder
use air_ferry_i_os_source.Codec.Encoder.{Encoder}
use air_ferry_i_os_source.Codec.Symbol
use air_ferry_i_os_source.Protocol.Frame
use air_ferry_i_os_source.Protocol.Frame.{Frame}
use air_ferry_i_os_source.Transfer.Types.{default_file_meta}
use air_ferry_i_os_source.Transfer.Schedule.{next_symbol_id}
use air_ferry_i_os_source.Transfer.Sender.{
  SenderSession, next_frame, is_due, next_data, fetch_symbol, data_frame,
}
use air_ferry_i_os_source.Transfer.Sender.Cadence.{stamp, next_frame-stamp}

abbrev meta : ObjectMeta
meta = record {
  transfer_length = 64;
  symbol_size = 64;
  oti_bytes = replicate 12 0;
  blocks = record { sbn = 0; num_source_symbols = 1; block_length = 64 } ∷ [];
}

abbrev encoder : Encoder
encoder = record {
  config = record { symbol_size = 64 };
  meta = meta;
  blocks = record { source_packets = replicate 64 5 ∷ []; repair_packets = λ start count. [] } ∷ [];
}

-- Behind the first frame, which was a descriptor.
abbrev pub sender : SenderSession
sender = record {
  config = record { codec = record { symbol_size = 64 }; redundancy_pct = 25 };
  session_id = 77;
  encoder = encoder;
  meta = meta;
  file_meta = default_file_meta;
  segment_meta = none;
  total_k = 1;
  source_plan = (0, 0) ∷ [];
  cursors = record { source_cursor = 0; repair_cursor = 0 };
  frame_index = 1;
  descriptor_interval = 17;
  started = true;
  start_ms = 4;
}

abbrev later : SenderSession
later = record sender { cursors = record { source_cursor = 1; repair_cursor = 0 }; frame_index = 2 }

abbrev pub checksum : List ℕ → ℕ
checksum bytes = length bytes % 2 ^ 32

abbrev frame : Frame
unfolding data_frame Frame.build
frame = data_frame checksum later 0 0 6 (Symbol.new 0 0 (replicate 64 5))

emits : next_frame checksum sender 5 6 ≡ (later, ok frame)
unfolding next_frame is_due next_data next_symbol_id fetch_symbol Encoder.source_symbol
    Encoder.block Encoder.source_of frame
emits = refl

next_frame-stamp_example :
    stamp checksum frame ≡ (77, (if 1 % 17 == 0 then 1 else 0), (1 + 1) % 2 ^ 64)
    × later.frame_index ≡ (1 + 1) % 2 ^ 64
next_frame-stamp_example = next_frame-stamp checksum sender later 5 6 frame emits
