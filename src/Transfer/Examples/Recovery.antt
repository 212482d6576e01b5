-- ===== src/Transfer/Examples/Recovery.antt =====
-- The theorems on a receiver from its first frame to the object, at an object of one block of two symbols: first the
-- symbols, in the reverse order, which are cached, then the descriptor.
use air_ferry_i_os_source.Prelude.{
  ℕ, ◌+◌, ◌≡◌, refl, List, [], ◌∷◌, ◌++◌, none, some, Bool, true, false, ok, replicate, take, All,
}
use air_ferry_i_os_source.Bytes.{to_be, to_le, read_be}
use air_ferry_i_os_source.Codec.Collector.{Slots, collector, joined, systematic, collector-IsSound}
use air_ferry_i_os_source.Codec.Meta.{
  ObjectMeta, Oti, validate, check_oti, check_counts, check_blocks, check_totals,
}
use air_ferry_i_os_source.Codec.Config
use air_ferry_i_os_source.Codec.Decoder
use air_ferry_i_os_source.Codec.Decoder.{Raptor, Decoder}
use air_ferry_i_os_source.Codec.Decoder.Genuine.{Object, IsSound, sources}
use air_ferry_i_os_source.Protocol.Frame.{Frame}
use air_ferry_i_os_source.Transfer.Resume
use air_ferry_i_os_source.Transfer.Resume.{ResumeState}
use air_ferry_i_os_source.Transfer.Utf8.{is_utf8, valid_from, lead}
use air_ferry_i_os_source.Transfer.Descriptor.{
  parse_payload, parse_body, parse_blocks, parse_extensions, parse_file_meta, parse_sizes,
  parse_segment, symbol_sum,
}
use air_ferry_i_os_source.Transfer.Receiver.{
  ReceiverSession, Cache, new_pending, new_confirmed, build, is_complete, completed, contains,
  contains_key, pre_meta_cache_max, decoded_counts, refresh_decoded_counts, insert_esi, bump_source,
  received_sum,
}
use air_ferry_i_os_source.Transfer.Receiver.Gate.{
  descriptor_invalid, frame_geometry_invalid, checked_sum, file_meta_invalid, segment_invalid,
}
use air_ferry_i_os_source.Transfer.Receiver.Ingest.{
  ingest, seen, ingest_data, take_in, ingest_descriptor, ingest_pending, cache_symbol, adopt,
  adopt_over, apply_meta, reset, replay, replay_one, feed, mark, answer,
}
use air_ferry_i_os_source.Transfer.Receiver.Bounds.{ingest_all}
use air_ferry_i_os_source.Transfer.Receiver.Finish.{assemble_raw}
use air_ferry_i_os_source.Transfer.Receiver.Checkpoint.{restore, restore_all, restore_one, recount}
use air_ferry_i_os_source.Transfer.Receiver.Recovers.Session.{IsGenuineFrame}
use air_ferry_i_os_source.Transfer.Receiver.Recovers.Whole.{receiver_recovers}
use air_ferry_i_os_source.Transfer.Receiver.Recovers.Restore.{restored_recovers}

abbrev meta : ObjectMeta
meta = record {
  transfer_length = 130;
  symbol_size = 72;
  oti_bytes = replicate 12 0;
  blocks = record { sbn = 0; num_source_symbols = 2; block_length = 144 } ∷ [];
}

abbrev packet : ℕ → ℕ → List ℕ
packet i esi = replicate 72 (esi + 7)

abbrev oti_of : List ℕ → Oti
oti_of bytes = record {
  transfer_length = 130;
  symbol_size = 72;
  source_blocks = 1;
  sub_blocks = 1;
  symbol_alignment = 8;
}

abbrev toy : Raptor Slots
toy = collector oti_of

abbrev object : Object
object = systematic oti_of meta packet

-- A descriptor of version 3 for a file `a` of 130 bytes, which is not compressed.
abbrev payload : List ℕ
unfolding to_be to_le
payload =
    0xD5
    ∷ (3
        ∷ (to_be 2 1
            ++ (to_be 8 130
                ++ (to_be 4 72
                    ++ (replicate 12 0
                        ++ (to_be 4 0
                            ++ (to_be 4 2
                                ++ (to_be 8 144
                                    ++ (1
                                        ∷ (b'a'
                                            ∷ (to_be 8 130
                                                ++ (to_be 4 99
                                                    ++ (0
                                                        ∷ (to_be 8 130
                                                            ++ replicate 5 0))))))))))))))

abbrev frame_with : ℕ → ℕ → List ℕ → Frame
frame_with flags esi bytes = record {
  header = record {
    session_id = 77;
    flags = flags;
    sbn = 0;
    esi = esi;
    total_blocks = 1;
    total_symbols = 2;
    symbol_size = 72;
    frame_index = 5;
    timestamp_ms = 6;
    payload_crc32 = 0;
  };
  payload = bytes;
  frame_crc32 = 0;
}

abbrev frames : List Frame
unfolding payload
frames = frame_with 0 1 (packet 0 1) ∷ (frame_with 0 0 (packet 0 0) ∷ (frame_with 1 0 payload ∷ []))

abbrev as_stored : Cache → Cache
as_stored cache = cache

learned : (ingest_all toy as_stored (new_pending 77) frames).meta ≡ some meta
unfolding collector joined frames payload ingest_all ingest new_pending build seen ingest_descriptor
    ingest_pending cache_symbol adopt adopt_over apply_meta reset replay replay_one feed mark answer
    parse_payload parse_body parse_blocks parse_extensions parse_file_meta parse_sizes parse_segment
    symbol_sum is_utf8 valid_from lead read_be contains contains_key pre_meta_cache_max
    decoded_counts refresh_decoded_counts insert_esi bump_source received_sum descriptor_invalid
    frame_geometry_invalid checked_sum file_meta_invalid segment_invalid validate check_oti
    check_counts check_blocks check_totals Config.new Decoder.new Decoder.add_symbol Decoder.offer
    Decoder.feed_block Decoder.is_complete Decoder.all_decoded Decoder.block_progress
learned = refl

complete : is_complete (ingest_all toy as_stored (new_pending 77) frames) ≡ true
unfolding collector joined frames payload ingest_all ingest is_complete completed new_pending build
    seen ingest_descriptor ingest_pending cache_symbol adopt adopt_over apply_meta reset replay
    replay_one feed mark answer parse_payload parse_body parse_blocks parse_extensions
    parse_file_meta parse_sizes parse_segment symbol_sum is_utf8 valid_from lead read_be contains
    contains_key pre_meta_cache_max decoded_counts refresh_decoded_counts insert_esi bump_source
    received_sum descriptor_invalid frame_geometry_invalid checked_sum file_meta_invalid
    segment_invalid validate check_oti check_counts check_blocks check_totals Config.new Decoder.new
    Decoder.add_symbol Decoder.offer Decoder.feed_block Decoder.is_complete Decoder.all_decoded
    Decoder.block_progress
complete = refl

sound : IsSound toy object
sound = collector-IsSound oti_of meta packet

genuine : All (IsGenuineFrame toy object 77 sound) frames
unfolding frames systematic
genuine = (
  (λ e d. refl),
  ((λ e d. refl), ((λ e d. absurd (let k : ◌≡◌ {A = Bool} false true = d in cc)), tt)),
)

receiver_recovers_example :
    assemble_raw (ingest_all toy as_stored (new_pending 77) frames)
    ≡ some (take 130 (sources object 0 1))
unfolding systematic
receiver_recovers_example =
    receiver_recovers toy object 77 sound as_stored (λ c h. h) frames genuine learned complete

abbrev state : ResumeState
state = record {
  session_id = 77;
  meta = meta;
  received = (1 ∷ []) ∷ [];
  symbols = (0, 1, packet 0 1) ∷ [];
}

abbrev start : ReceiverSession Slots
unfolding build
start =
    build 77 (some meta)
      (some (record {
        meta = meta;
        blocks = record { decoder = none ∷ (none ∷ []); decoded = none } ∷ [];
      }))
      true

abbrev restored : ReceiverSession Slots
unfolding start restore_all recount
restored = recount toy (restore_all toy start state.symbols)

restored_ok : restore toy state ≡ ok restored
unfolding collector joined restored start build restore restore_all restore_one recount
    new_confirmed Resume.validate Resume.check_sets Resume.any_large Resume.check_symbols validate
    check_oti check_counts check_blocks check_totals Config.new feed mark Decoder.new
    Decoder.add_symbol Decoder.offer Decoder.feed_block Decoder.is_complete Decoder.all_decoded
    Decoder.block_progress refresh_decoded_counts decoded_counts received_sum contains insert_esi
    bump_source symbol_sum
restored_ok = refl

-- The symbol that the checkpoint lacks.
abbrev rest : List Frame
rest = frame_with 0 0 (packet 0 0) ∷ []

restored_learned : (ingest_all toy as_stored restored rest).meta ≡ some meta
unfolding collector joined restored start build restore_all restore_one recount feed mark
    Decoder.add_symbol Decoder.offer Decoder.feed_block Decoder.is_complete Decoder.all_decoded
    refresh_decoded_counts decoded_counts received_sum contains insert_esi bump_source symbol_sum
    ingest_all ingest seen ingest_data take_in
restored_learned = refl

restored_complete : is_complete (ingest_all toy as_stored restored rest) ≡ true
unfolding collector joined is_complete completed restored start build restore_all restore_one
    recount feed mark Decoder.add_symbol Decoder.offer Decoder.feed_block Decoder.is_complete
    Decoder.all_decoded refresh_decoded_counts decoded_counts received_sum contains insert_esi
    bump_source symbol_sum ingest_all ingest seen ingest_data take_in
restored_complete = refl

restored_recovers_example :
    assemble_raw (ingest_all toy as_stored restored rest) ≡ some (take 130 (sources object 0 1))
unfolding systematic
restored_recovers_example =
    restored_recovers toy object 77 sound as_stored (λ c h. h) state restored rest refl (refl, tt)
      restored_ok ((λ e d. refl), tt) restored_learned restored_complete
