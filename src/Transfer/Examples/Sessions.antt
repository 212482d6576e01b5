-- ===== src/Transfer/Examples/Sessions.antt =====
-- The theorems on the schedule and on the receiver at an object of two blocks with two and one symbols.
use air_ferry_i_os_source.Prelude.{
  ℕ, ◌≤◌, ◌≡◌, refl, arith, List, [], ◌∷◌, some, true, replicate, length, ltb, if◌then◌else◌,
}
use air_ferry_i_os_source.Codec.Meta.{SourceBlockMeta, ObjectMeta}
use air_ferry_i_os_source.Codec.Meta.Valid.{CanonicalBlocks}
use air_ferry_i_os_source.Codec.Decoder
use air_ferry_i_os_source.Codec.Decoder.{Raptor, BlockState, Decoder, all_decoded}
use air_ferry_i_os_source.Protocol.Frame.{Frame}
use air_ferry_i_os_source.Transfer.Schedule.{build_source_plan, repair_symbol_id, repair_in_block}
use air_ferry_i_os_source.Transfer.Schedule.Source.{count, k_at, source_plan_exact}
use air_ferry_i_os_source.Transfer.Schedule.Unique.{emitted, Distinct, emitted-Distinct}
use air_ferry_i_os_source.Transfer.Schedule.Repair.{repair_id_unique}
use air_ferry_i_os_source.Transfer.Receiver.{
  ReceiverSession, Cache, build, is_complete, new_pending,
}
use air_ferry_i_os_source.Transfer.Receiver.Ingest.{ingest}
use air_ferry_i_os_source.Transfer.Receiver.Stable.{fixed, fixed-ingest}
use air_ferry_i_os_source.Transfer.Receiver.Final.{work, work-ingest}
use air_ferry_i_os_source.Transfer.Receiver.Bounds.{ingest_all, ingest_all-new_pending}

abbrev blocks : List SourceBlockMeta
blocks =
    record { sbn = 0; num_source_symbols = 2; block_length = 128 }
    ∷ (record { sbn = 1; num_source_symbols = 1; block_length = 64 } ∷ [])

abbrev meta : ObjectMeta
meta = record {
  transfer_length = 190;
  symbol_size = 64;
  oti_bytes = replicate 12 0;
  blocks = blocks;
}

canonical : CanonicalBlocks 64 0 blocks
canonical = ((refl, omega arith, omega arith, refl), ((refl, omega arith, omega arith, refl), tt))

source_plan_exact_example :
    count 0 1 (build_source_plan meta) ≡ (if ltb 1 (k_at blocks 0) then 1 else 0)
source_plan_exact_example = source_plan_exact 64 meta 0 1 canonical

-- The fourth repair symbol is the second of block 1.
fourth : repair_symbol_id blocks 3 ≡ some (1, 2)
unfolding repair_symbol_id repair_in_block
fourth = refl

repair_id_unique_example : ◌≡◌ {A = ℕ} 3 3
repair_id_unique_example = repair_id_unique 64 blocks canonical 3 3 1 2 fourth fourth

abbrev pub toy : Raptor (Unit {0})
toy = record {
  deserialize = λ bytes. record {
    transfer_length = 190;
    symbol_size = 64;
    source_blocks = 2;
    sub_blocks = 1;
    symbol_alignment = 8;
  };
  start = λ sbn oti len. tt;
  decode = λ s sbn esi bytes. (tt, some bytes);
}

abbrev solved : BlockState (Unit {0})
solved = record { decoder = tt; decoded = some (replicate 64 7) }

abbrev decoder : Decoder (Unit {0})
decoder = record { meta = meta; blocks = solved ∷ (solved ∷ []) }

unfoldable pub receiver : ReceiverSession (Unit {0})
unfolding build
receiver = record (build 77 (some meta) (some decoder) true) { descriptor_seen = true }

-- A data frame with a repair symbol of block 1.
abbrev frame : Frame
frame = record {
  header = record {
    session_id = 77;
    flags = 0;
    sbn = 1;
    esi = 9;
    total_blocks = 2;
    total_symbols = 3;
    symbol_size = 64;
    frame_index = 5;
    timestamp_ms = 6;
    payload_crc32 = 0;
  };
  payload = replicate 64 3;
  frame_crc32 = 0;
}

abbrev pub as_stored : Cache → Cache
as_stored cache = cache

seen_before : receiver.descriptor_seen ≡ true
unfolding receiver
seen_before = refl

confirmed : receiver.meta_confirmed ≡ true
unfolding receiver build
confirmed = refl

done : is_complete receiver ≡ true
unfolding receiver build is_complete Decoder.is_complete all_decoded
done = refl

fixed-ingest_example : fixed toy (ingest toy as_stored receiver frame).0 ≡ fixed toy receiver
fixed-ingest_example = fixed-ingest toy as_stored receiver frame seen_before confirmed

work-ingest_example : work toy (ingest toy as_stored receiver frame).0 ≡ work toy receiver
work-ingest_example = work-ingest toy as_stored receiver frame seen_before confirmed done

ingest_all-new_pending_example :
    length (ingest_all toy as_stored (new_pending 77) (frame ∷ (frame ∷ []))).symbol_cache ≤ 524288
ingest_all-new_pending_example = ingest_all-new_pending toy as_stored 77 (frame ∷ (frame ∷ []))

emitted-Distinct_example :
    Distinct
      (emitted (build_source_plan meta) blocks 5 (record { source_cursor = 0; repair_cursor = 0 }))
emitted-Distinct_example = emitted-Distinct 64 meta canonical 5
