-- ===== src/Transfer/Examples/Native.antt =====
-- The theorems on the C ABI of the sender: a payload of two segments, and a frame of the session of one symbol.
use air_ferry_i_os_source.Prelude.{
  get_elem?, ℕ, ◌≤◌, ◌≡◌, ◌⊎◌, refl, arith, List, [], ◌∷◌, some, true, ok, length, replicate,
  length-replicate, zero, suc,
}
use mathlib.Core.Option.{some-injective}
use air_ferry_i_os_source.Codec.Encoder
use air_ferry_i_os_source.Codec.Encoder.{RqEncoder, SourceBlock}
use air_ferry_i_os_source.Protocol.Session.{derive_segment}
use air_ferry_i_os_source.Transfer.Sender.{SenderConfig, new_inner}
use air_ferry_i_os_source.Transfer.Cffi.{
  CffiSender, file_meta_of, segment_meta_of, segment_count_of, build_session,
}
use air_ferry_i_os_source.Transfer.Cffi.Segments.{
  piece, pieces, pieces_lem, build_session-new_inner,
}
use air_ferry_i_os_source.Transfer.Cffi.SenderAbi.{
  airferry_sender_next_frame, airferry_sender_frame_capacity,
}
use air_ferry_i_os_source.Transfer.Cffi.SenderAbi.Buffer.{IsSized, next_frame-fits}
use air_ferry_i_os_source.Transfer.Descriptor.Fields.{none_in_range}
use air_ferry_i_os_source.Transfer.Examples.Sending.{sender, checksum}

abbrev with_defaults : List ℕ → ℕ → RqEncoder
with_defaults bytes mtu = record { oti_bytes = replicate 12 0; block_encoders = [] }

abbrev sha256 : List ℕ → List ℕ
sha256 bytes = replicate 32 1

of_length : (n : ℕ) → (p : List ℕ) × (length p ≡ n)
of_length n = (replicate n 7, length-replicate n 7)

-- One byte more than a segment holds.
unfoldable payload : List ℕ
payload = (of_length 33488905).0

length-payload : length payload ≡ 33488905
unfolding payload
length-payload = (of_length 33488905).1

counted : segment_count_of with_defaults sha256 payload ≡ ok 2
counted = rw length-payload refl

pieces_lem_example : pieces with_defaults sha256 payload 0 2 ≡ ok payload
pieces_lem_example =
    pieces_lem with_defaults sha256 payload 2 (omega (arith, length-payload))
      (omega (arith, length-payload)) counted

abbrev config : SenderConfig
config = record { codec = record { symbol_size = 64 }; redundancy_pct = 25 }

build_session-new_inner_example :
    build_session with_defaults sha256 payload (b'a' ∷ []) config 77 5 (replicate 32 9) 2 1
    ≡ new_inner with_defaults
        (piece with_defaults sha256 payload 1)
        (derive_segment 77 1)
        config
        (file_meta_of
          (b'a' ∷ [])
          (length payload)
          5
          (length (piece with_defaults sha256 payload 1)))
        (some (
          segment_meta_of with_defaults sha256 77 1 2 33488904
            (length payload)
            (replicate 32 9)
            (piece with_defaults sha256 payload 1)))
build_session-new_inner_example =
    build_session-new_inner with_defaults sha256 payload (b'a' ∷ []) config 77 5 (replicate 32 9) 2
      1 (omega (arith, length-payload)) counted (omega arith) (omega arith)

-- The session of one symbol behind the C ABI.
abbrev native : CffiSender
native = record {
  payload = replicate 64 5;
  filename = b'a' ∷ [];
  config = config;
  root_session_id = 77;
  crc32 = 5;
  root_sha256 = replicate 32 9;
  segment_count = 1;
  segment_index = 0;
  session = sender;
}

enough :
    (i : ℕ) (b : SourceBlock)
    → get_elem? sender.encoder.blocks i ≡ some b
    → Encoder.k_of (get_elem? sender.encoder.meta.blocks i) ≤ length b.source_packets
enough zero b e = rw (← some-injective _ b e) (omega arith)
enough (suc i) b e = absurd (let k = e in cc)

sized : IsSized sender
sized = record {
  size = refl;
  in_range = record {
    transfer_length = omega arith;
    symbol_size = omega arith;
    oti_bytes = refl;
    blocks = ((omega arith, omega arith, omega arith), tt);
    block_count = omega arith;
  };
  tail = none_in_range;
  packets = (record { source_size = (refl, tt); repair_size = λ start count. tt }, tt);
  enough = enough;
}

next_frame-fits_example :
    ((airferry_sender_next_frame with_defaults sha256 checksum (some native) true 200 5 6).1 ≡ [])
    ⊎ ((length
            (airferry_sender_next_frame with_defaults sha256 checksum (some native) true 200 5 6).1
          ≡ airferry_sender_frame_capacity with_defaults sha256 checksum (some native))
        × (length
              (airferry_sender_next_frame with_defaults sha256 checksum
                (some native)
                true
                200
                5
                6).1
            ≤ 200))
next_frame-fits_example =
    next_frame-fits checksum with_defaults sha256 native 200 5 6 sized refl (omega arith)
