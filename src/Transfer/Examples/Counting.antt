-- ===== src/Transfer/Examples/Counting.antt =====
-- The theorems on the status word, the statistics and the size of the assembled file.
use air_ferry_i_os_source.Prelude.{
  ℕ, ◌-◌, ◌/◌, ◌%◌, ◌^◌, ◌<◌, ◌≡◌, refl, arith, List, [], ◌∷◌, ◌++◌, none, some, true, false,
  length, replicate, String, ok, ◌==◌,
}
use air_ferry_i_os_source.Bytes.{to_be}
use air_ferry_i_os_source.Codec.Decoder
use air_ferry_i_os_source.Codec.Decoder.{Raptor, Decoder}
use air_ferry_i_os_source.Protocol
use air_ferry_i_os_source.Protocol.Frame
use air_ferry_i_os_source.Protocol.Frame.{Frame}
use air_ferry_i_os_source.Protocol.Frame.RoundTrip.{from_bytes-to_bytes, build-IsValidFrame}
use air_ferry_i_os_source.Protocol.Compress.{
  limited, read_to_end, read_capped, decompress_with_limit,
}
use air_ferry_i_os_source.Transfer.Types.{default_file_meta}
use air_ferry_i_os_source.Transfer.Receiver.{ReceiverSession, build, new_pending}
use air_ferry_i_os_source.Transfer.Receiver.Finish.{
  assemble_result, assemble_raw, assembled, trimmed, decompressed,
}
use air_ferry_i_os_source.Transfer.Receiver.Finish.Size.{HasSize, assemble_result-HasSize}
use air_ferry_i_os_source.Transfer.Stats.{Stats, push_sample_at, window_rates}
use air_ferry_i_os_source.Transfer.Stats.Window.{live, push_sample_at-live}
use air_ferry_i_os_source.Transfer.Stats.Rates.{
  first_of, last_of, or_zero, sum_bytes, window_rates_lem,
}
use air_ferry_i_os_source.Transfer.IngestStatus.{pack}
use air_ferry_i_os_source.Transfer.IngestStatus.Fields.{bit, pack_lem}
use air_ferry_i_os_source.Transfer.Cffi.SenderAbi.{usize_max}
use air_ferry_i_os_source.Transfer.Cffi.ReceiverAbi.{airferry_receiver_ingest}
use air_ferry_i_os_source.Transfer.Cffi.ReceiverAbi.Status.{Answers, airferry_receiver_ingest_lem}
use air_ferry_i_os_source.Transfer.Examples.Files.{lib}
use air_ferry_i_os_source.Transfer.Examples.Sending.{checksum}
use air_ferry_i_os_source.Transfer.Examples.Sessions.{receiver, toy, as_stored}

pack_lem_example :
    (pack true false 65537 9 % 2 ≡ bit true)
    × (pack true false 65537 9 / 2 % 2 ≡ bit false)
    × (pack true false 65537 9 / 2 ^ 8 % 2 ^ 16 ≡ 65537 % 2 ^ 16)
    × (pack true false 65537 9 / 2 ^ 32 ≡ 9)
pack_lem_example = pack_lem true false 65537 9

-- One sample is too old at 5000 ms, two are not.
abbrev stats : Stats
stats = record {
  bytes = 30;
  frames = 3;
  elapsed_ms = 4900;
  window =
      record { t_ms = 100; bytes = 10 }
      ∷ (record { t_ms = 4000; bytes = 10 } ∷ (record { t_ms = 4900; bytes = 10 } ∷ []));
}

window_rates_lem_example : window_rates stats 5000 ≡ (
  or_zero (last_of (live 2000 stats.window)) - or_zero (first_of (live 2000 stats.window)),
  length (live 2000 stats.window) % 2 ^ 64,
  sum_bytes (live 2000 stats.window) % 2 ^ 64,
)
window_rates_lem_example = window_rates_lem stats 5000

push_sample_at-live_example :
    live 2000 (push_sample_at stats 5000 7).window
    ≡ live 2000 stats.window ++ (record { t_ms = 5000; bytes = 7 } ∷ [])
push_sample_at-live_example = push_sample_at-live stats 5000 7 (omega arith)

-- A receiver that has its object, which is a zstd stream of two bytes.
abbrev packed : ReceiverSession (Unit {0})
unfolding receiver build
packed = record receiver {
  file_meta = record default_file_meta { compression = 1; original_size = 2 };
}

abbrev describe : Protocol.Error → String
describe e = "error"

assembled_ok :
    assemble_result lib describe packed
    ≡ (record packed { last_assemble_error = none }, ok (some (1 ∷ (2 ∷ []))))
unfolding packed receiver build assemble_result assemble_raw assembled trimmed decompressed
    decompress_with_limit read_capped read_to_end limited Decoder.assemble Decoder.is_complete
    Decoder.all_decoded Decoder.concat_decoded
assembled_ok = refl

compressed : (packed.file_meta.compression == 0) ≡ false
unfolding packed
compressed = refl

assemble_result-HasSize_example : HasSize lib describe packed.file_meta (1 ∷ (2 ∷ []))
assemble_result-HasSize_example =
    assemble_result-HasSize lib describe packed (record packed { last_assemble_error = none })
      (1 ∷ (2 ∷ [])) compressed assembled_ok

abbrev bytes : List ℕ
unfolding Frame.build Frame.to_bytes
bytes = Frame.to_bytes (Frame.build checksum 77 0 0 0 1 1 64 0 0 (replicate 64 5))

abbrev frame : Frame
unfolding Frame.build
frame = Frame.build checksum 77 0 0 0 1 1 64 0 0 (replicate 64 5)

some_bytes : 0 < length bytes
unfolding bytes Frame.to_bytes Frame.build Frame.write_bytes to_be
some_bytes = omega arith

parsed : Frame.from_bytes usize_max checksum bytes ≡ ok frame
unfolding bytes frame
parsed = from_bytes-to_bytes usize_max checksum frame (
    build-IsValidFrame usize_max checksum 77 0 0 0 1 1 64 0 0 (replicate 64 5) (λ bs. omega arith)
      (omega arith) (omega arith) (omega arith) (omega arith) (omega arith) (omega arith)
      (omega arith) (omega arith) (omega arith) refl)

airferry_receiver_ingest_lem_example :
    Answers toy checksum as_stored
      (new_pending 77)
      (airferry_receiver_ingest toy checksum as_stored (some (new_pending 77)) (some bytes))
      (ok frame)
airferry_receiver_ingest_lem_example =
    airferry_receiver_ingest_lem toy checksum as_stored (new_pending 77) bytes (ok frame) some_bytes
      parsed
