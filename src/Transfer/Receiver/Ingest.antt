-- ===== src/Transfer/Receiver/Ingest.antt =====
-- core/transfer-engine/src/receiver.rs: `ingest` and what it calls. A handler answers the session after the
-- frame and the `Result` of the call, since a refused frame changes the session too.
use air_ferry_i_os_source.Prelude.{
  ℕ, ◌+◌, ◌%◌, ◌^◌, List, ◌∷◌, Option, none, some, Bool, true, false, not, ◌&&◌, ◌||◌, length,
  get_or, replicate, leb, ◌==◌, if◌then◌else◌, Result, ok, err,
}
use air_ferry_i_os_source.Codec
use air_ferry_i_os_source.Codec.Meta.{SourceBlockMeta, ObjectMeta, meta_eq}
use air_ferry_i_os_source.Codec.Symbol
use air_ferry_i_os_source.Codec.Symbol.{Symbol}
use air_ferry_i_os_source.Codec.Decoder
use air_ferry_i_os_source.Codec.Decoder.{Raptor, Decoder}
use air_ferry_i_os_source.Protocol.Frame.{Frame}
use air_ferry_i_os_source.Transfer.{Error, raptorq, session_mismatch}
use air_ferry_i_os_source.Transfer.Types.{DescriptorInfo, file_meta_eq, option_segment_eq}
use air_ferry_i_os_source.Transfer.Descriptor.{parse_payload, symbol_sum}
use air_ferry_i_os_source.Transfer.Receiver.Gate.{descriptor_invalid}
use air_ferry_i_os_source.Transfer.Receiver.{
  ReceiverSession, Cache, pre_meta_cache_max, contains, contains_key, is_complete, count_corrupt,
  count_duplicate, refresh_decoded_counts, insert_esi, bump_source, received_sum, empty_sets,
  blocks_of, symbol_size_of,
}

module _ {S : Type 0} (rq : Raptor S) where
  -- `dec.add_symbol(&symbol)`, if there is a decoder, which it changes in place.
  abbrev pub fed :
      ReceiverSession S → Result Codec.Error (Decoder S × Bool) → Result Error (ReceiverSession S)
  fed rx (err e) = err (raptorq e)
  fed rx (ok (dec, _)) = ok (record rx { decoder = some dec })

  abbrev pub feed_into :
      ReceiverSession S → Symbol → Option (Decoder S) → Result Error (ReceiverSession S)
  feed_into rx symbol none = ok rx
  feed_into rx symbol (some dec) = fed rx (Decoder.add_symbol rq dec symbol)

  unfoldable pub feed : ReceiverSession S → Symbol → Result Error (ReceiverSession S)
  unfolding Decoder.add_symbol
  feed rx symbol = feed_into rx symbol rx.decoder

  -- `received[bi].insert(esi)` with the count of source symbols, which only a new entry changes.
  unfoldable pub mark : List SourceBlockMeta → ReceiverSession S → ℕ → ℕ → ReceiverSession S
  unfolding contains insert_esi bump_source
  mark blocks rx bi esi = if contains (get_or rx.received bi List.[]) esi then rx else record rx {
    received = insert_esi rx.received bi esi;
    source_recv = bump_source blocks rx.source_recv bi esi;
  }

  -- One cached symbol, against the layout that the descriptor has brought.
  unfoldable pub replay_one :
      ObjectMeta
      → ReceiverSession S
      → (ℕ × ℕ) × List ℕ
      → ReceiverSession S × Result Error (Unit {0})
  unfolding feed mark
  replay_one meta rx ((sbn, esi), bytes) =
      if leb (length rx.received) sbn
        || (leb (2 ^ 24) esi || not (length bytes == meta.symbol_size))
      then (count_corrupt rx, ok tt)
      else elim (feed rx (Symbol.new sbn esi bytes)) [
        | err e ↦ (rx, err e)
        | ok rx' ↦ (mark meta.blocks rx' sbn esi, ok tt)
      ]

  unfoldable pub replay :
      ObjectMeta → ReceiverSession S → Cache → ReceiverSession S × Result Error (Unit {0})
  unfolding replay_one
  replay meta rx List.[] = (rx, ok tt)
  replay meta rx (entry ∷ cache) =
      let (rx', r) = replay_one meta rx entry in
      elim r [ err e ↦ (rx', err e) | ok _ ↦ replay meta rx' cache ]

  abbrev pub confirm : ReceiverSession S → DescriptorInfo → ReceiverSession S
  confirm rx info = record rx {
    meta_confirmed = true;
    descriptor_seen = true;
    symbol_cache = List.[];
    file_meta = info.file_meta;
    segment_meta = info.segment;
  }

  unfoldable pub answer : ReceiverSession S → ReceiverSession S × Result Error Bool
  unfolding is_complete
  answer rx = (rx, ok (is_complete rx))

  module _ (iteration : Cache → Cache) where
    -- The session that `apply_meta` replays into.
    unfoldable pub reset : ReceiverSession S → ObjectMeta → Decoder S → ReceiverSession S
    unfolding symbol_sum
    reset rx meta decoder = record rx {
      symbol_cache = List.[];
      meta = some meta;
      pending_symbol_size = meta.symbol_size;
      progress = record rx.progress {
        total_symbols = symbol_sum meta.blocks;
        total_blocks = length meta.blocks % 2 ^ 32;
      };
      received = empty_sets meta.blocks;
      source_recv = replicate (length meta.blocks) 0;
      decoder = some decoder;
    }

    unfoldable pub apply_meta :
        ReceiverSession S → ObjectMeta → ReceiverSession S × Result Error (Unit {0})
    unfolding Decoder.new reset replay received_sum refresh_decoded_counts
    apply_meta rx meta = elim (Decoder.new rq meta) [
      | err e ↦ (rx, err (raptorq e))
      | ok decoder ↦
          let (rx', r) = replay meta (reset rx meta decoder) (iteration rx.symbol_cache) in
          elim r [
            | err e ↦ (rx', err e)
            | ok _ ↦ (
              refresh_decoded_counts (record rx' {
                progress = record rx'.progress { received_symbols = received_sum rx'.received };
              }),
              ok tt,
            )
          ]
    ]

    -- The first descriptor that is valid, by the metadata that the session has.
    unfoldable pub adopt_over :
        ReceiverSession S
        → DescriptorInfo
        → Option ObjectMeta
        → ReceiverSession S × Result Error Bool
    unfolding apply_meta meta_eq answer
    adopt_over rx info none =
        let (rx', r) = apply_meta rx info.meta in
        elim r [ err e ↦ (rx', err e) | ok _ ↦ answer (confirm rx' info) ]
    adopt_over rx info (some cur) =
        if not (meta_eq cur info.meta) then answer (count_corrupt rx) else answer (confirm rx info)

    unfoldable pub adopt :
        ReceiverSession S → DescriptorInfo → ReceiverSession S × Result Error Bool
    unfolding adopt_over
    adopt rx info = adopt_over rx info rx.meta

    unfoldable pub same_descriptor : ReceiverSession S → DescriptorInfo → Bool
    unfolding meta_eq file_meta_eq option_segment_eq
    same_descriptor rx info =
        elim rx.meta [ none ↦ false | some cur ↦ meta_eq cur info.meta ]
        && (file_meta_eq rx.file_meta info.file_meta
            && option_segment_eq rx.segment_meta info.segment)

    unfoldable pub ingest_descriptor :
        ReceiverSession S → Frame → ReceiverSession S × Result Error Bool
    unfolding parse_payload descriptor_invalid same_descriptor adopt answer
    ingest_descriptor rx frame = elim (parse_payload frame.payload) [
      | none ↦ answer (count_corrupt rx)
      | some info ↦
          if descriptor_invalid rq.deserialize frame info
          then answer (count_corrupt rx)
          else if rx.descriptor_seen
          then answer (if same_descriptor rx info then rx else count_corrupt rx)
          else adopt rx info
    ]

  -- A data frame while the layout is unknown.
  unfoldable pub cache_symbol : ReceiverSession S → Frame → ReceiverSession S
  unfolding contains_key pre_meta_cache_max
  cache_symbol rx frame =
      let h = frame.header in
      if contains_key rx.symbol_cache h.sbn h.esi
      then count_duplicate rx
      else if leb (pre_meta_cache_max h.symbol_size) (length rx.symbol_cache)
      then count_corrupt rx
      else record rx { symbol_cache = ((h.sbn, h.esi), frame.payload) ∷ rx.symbol_cache }

  unfoldable pub ingest_pending : ReceiverSession S → Frame → ReceiverSession S × Result Error Bool
  unfolding cache_symbol
  ingest_pending rx frame =
      let rx' = cache_symbol (record rx { pending_symbol_size = frame.header.symbol_size }) frame in
      (
        record rx' {
          progress = record rx'.progress {
            received_symbols = length rx'.symbol_cache % 2 ^ 32;
            decoded_symbols = 0;
          };
        },
        ok false,
      )

  -- A symbol of a block of the object, well-formed, and not seen before.
  unfoldable pub take_in : ReceiverSession S → Frame → ReceiverSession S × Result Error Bool
  unfolding mark feed refresh_decoded_counts is_complete
  take_in rx frame =
      let h = frame.header in
      let rx1 = mark (blocks_of rx.meta) rx h.sbn h.esi in
      let rx2 = record rx1 {
        progress = record rx1.progress { received_symbols = rx1.progress.received_symbols + 1 };
      } in
      elim (feed rx2 (Symbol.new h.sbn h.esi frame.payload)) [
        | err e ↦ (rx2, err e)
        | ok rx3 ↦ let rx4 = refresh_decoded_counts rx3 in (rx4, ok (is_complete rx4))
      ]

  unfoldable pub ingest_data : ReceiverSession S → Frame → ReceiverSession S × Result Error Bool
  unfolding contains take_in is_complete
  ingest_data rx frame =
      let h = frame.header in
      if leb (length rx.received) h.sbn
      then (count_corrupt rx, ok (is_complete rx))
      else if leb (2 ^ 24) h.esi || not (length frame.payload % 2 ^ 32 == symbol_size_of rx.meta)
      then (count_corrupt rx, ok (is_complete rx))
      else if is_complete rx
      then (count_duplicate rx, ok true)
      else if contains (get_or rx.received h.sbn List.[]) h.esi
      then (count_duplicate rx, ok (is_complete rx))
      else take_in rx frame

  -- A frame of this session, which ends a streak of foreign ones.
  unfoldable pub seen : ReceiverSession S → ReceiverSession S
  seen rx = record rx {
    session_mismatch_streak = 0;
    progress = record rx.progress {
      session_mismatch_streak = 0;
      frames_seen = rx.progress.frames_seen + 1;
    };
  }

  unfoldable pub mismatch : ReceiverSession S → Frame → ReceiverSession S × Result Error Bool
  mismatch rx frame = (
    record rx {
      session_mismatch_streak = rx.session_mismatch_streak + 1;
      progress = record rx.progress { session_mismatch_streak = rx.session_mismatch_streak + 1 };
    },
    err (session_mismatch rx.session_id frame.header.session_id),
  )

  unfoldable pub ingest :
      (Cache → Cache) → ReceiverSession S → Frame → ReceiverSession S × Result Error Bool
  unfolding mismatch seen ingest_descriptor ingest_pending ingest_data
  ingest iteration rx frame =
      if not (frame.header.session_id == rx.session_id)
      then mismatch rx frame
      else if not (frame.header.flags % 2 == 0)
      then ingest_descriptor iteration (seen rx) frame
      else if not rx.meta_confirmed
      then ingest_pending (seen rx) frame
      else ingest_data (seen rx) frame
