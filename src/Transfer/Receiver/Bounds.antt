-- ===== src/Transfer/Receiver/Bounds.antt =====
-- core/transfer-engine/src/receiver.rs: the size of the replay cache.
use mathlib.Core.Path.{subst}
use air_ferry_i_os_source.Prelude.{
  ℕ, ◌%◌, ◌^◌, ◌≤◌, ◌<◌, ◌≡◌, sym, ap, arith, inl, inr, List, ◌∷◌, Option, none, some, Bool, true,
  false, not, ◌||◌, length, get_or, leb, ◌==◌, Result, ok, if◌then◌else◌, Bool-cases, Option-cases,
  Result-cases, ok-injective,
}
use air_ferry_i_os_source.Codec.Meta.{SourceBlockMeta, ObjectMeta, meta_eq}
use air_ferry_i_os_source.Codec.Decoder
use air_ferry_i_os_source.Codec.Decoder.{Raptor, Decoder}
use air_ferry_i_os_source.Codec.Symbol
use air_ferry_i_os_source.Codec.Symbol.{Symbol}
use air_ferry_i_os_source.Protocol.Frame.{Frame}
use air_ferry_i_os_source.Transfer.{Error}
use air_ferry_i_os_source.Transfer.Types.{DescriptorInfo}
use air_ferry_i_os_source.Transfer.Descriptor.{parse_payload}
use air_ferry_i_os_source.Transfer.Receiver.{
  ReceiverSession, Cache, pre_meta_cache_max, contains_key, contains, new_pending, count_corrupt,
  refresh_decoded_counts,
}
use air_ferry_i_os_source.Transfer.Receiver.Gate.{descriptor_invalid}
use air_ferry_i_os_source.Transfer.Receiver.Ingest.{
  answer, feed_into, feed, mark, replay_one, replay, reset, apply_meta, adopt, adopt_over,
  ingest_descriptor, cache_symbol, ingest_pending, ingest_data, seen, mismatch, ingest,
  same_descriptor,
}
use air_ferry_i_os_source.Transfer.Receiver.Stable.{
  pre_meta_cache_max_le, if_true, if_false, fixed-ingest_data,
}

module _ {S : Type 0} (rq : Raptor S) where
  abbrev pub IsBounded : ReceiverSession S → Type 0
  IsBounded rx = length rx.symbol_cache ≤ 524288

  feed-IsBounded :
      (rx rx' : ReceiverSession S) (symbol : Symbol) (dec : Option (Decoder S))
      → IsBounded rx
      → feed_into rq rx symbol dec ≡ ok rx'
      → IsBounded rx'
  feed-IsBounded rx rx' symbol none b h = rw (← ok-injective h) b
  feed-IsBounded rx rx' symbol (some dec) b h =
      elim (Result-cases (Decoder.add_symbol rq dec symbol)) [
        | inl (a, y) ↦ let k = ok-injective (rw y at h) in rw (← k) b
        | inr (e, y) ↦ absurd (let k = rw y at h in cc)
      ]

  mark-IsBounded :
      (rx : ReceiverSession S) (blocks : List SourceBlockMeta) (bi esi : ℕ)
      → IsBounded rx
      → IsBounded (mark rq blocks rx bi esi)
  unfolding mark
  mark-IsBounded rx blocks bi esi b =
      elim (Bool-cases (contains (get_or rx.received bi List.[]) esi)) [
        | inl y ↦ rw y b
        | inr n ↦ rw n b
      ]

  replay_one-IsBounded :
      (meta : ObjectMeta) (rx : ReceiverSession S) (sbn esi : ℕ) (bytes : List ℕ)
      → IsBounded rx
      → IsBounded (replay_one rq meta rx ((sbn, esi), bytes)).0
  unfolding replay_one feed
  replay_one-IsBounded meta rx sbn esi bytes b =
      elim (Bool-cases (
        leb (length rx.received) sbn
        || (leb (2 ^ 24) esi || not (length bytes == meta.symbol_size)))) [
          | inl y ↦ rw y b
          | inr n ↦ elim (Result-cases (feed rq rx (Symbol.new sbn esi bytes))) [
            | inl (rx', y) ↦
                rw (replay_one, n, y)
                  (mark-IsBounded rx' meta.blocks sbn esi
                    (feed-IsBounded rx rx' (Symbol.new sbn esi bytes) rx.decoder b y))
            | inr (e, y) ↦ rw (replay_one, n, y) b
          ]
        ]

  replay-IsBounded :
      (meta : ObjectMeta) (rx : ReceiverSession S) (cache : Cache)
      → IsBounded rx
      → IsBounded (replay rq meta rx cache).0
  unfolding replay
  replay-IsBounded meta rx List.[] b = b
  replay-IsBounded meta rx (((sbn, esi), bytes) ∷ cache) b =
      let one = replay_one-IsBounded meta rx sbn esi bytes b in
      elim (Result-cases (replay_one rq meta rx ((sbn, esi), bytes)).1) [
        | inl (u, y) ↦
            rw (replay, y)
              (replay-IsBounded meta (replay_one rq meta rx ((sbn, esi), bytes)).0 cache one)
        | inr (e, y) ↦ rw (replay, y) one
      ]

  apply_meta-IsBounded :
      (iteration : Cache → Cache) (rx : ReceiverSession S) (meta : ObjectMeta)
      → IsBounded rx
      → IsBounded (apply_meta rq iteration rx meta).0
  unfolding apply_meta reset refresh_decoded_counts
  apply_meta-IsBounded iteration rx meta b = elim (Result-cases (Decoder.new rq meta)) [
    | inr (e, y) ↦ rw (apply_meta, y) b
    | inl (dec, y) ↦
        let start = reset rq iteration rx meta dec in
        let played = replay-IsBounded meta start (iteration rx.symbol_cache) (omega arith) in
        elim (Result-cases (replay rq meta start (iteration rx.symbol_cache)).1) [
          | inl (u, z) ↦ rw (apply_meta, y, z) played
          | inr (e, z) ↦ rw (apply_meta, y, z) played
        ]
  ]

  adopt-IsBounded :
      (iteration : Cache → Cache) (rx : ReceiverSession S) (info : DescriptorInfo)
      → (meta : Option ObjectMeta) → IsBounded rx
      → IsBounded (adopt_over rq iteration rx info meta).0
  unfolding adopt_over answer
  adopt-IsBounded iteration rx info (some cur) b = elim (Bool-cases (not (meta_eq cur info.meta))) [
    | inl z ↦ rw z b
    | inr z ↦ rw z (omega arith)
  ]
  adopt-IsBounded iteration rx info none b =
      let applied = apply_meta-IsBounded iteration rx info.meta b in
      elim (Result-cases (apply_meta rq iteration rx info.meta).1) [
        | inl (u, z) ↦ rw (adopt_over, z) (omega arith)
        | inr (e, z) ↦ rw (adopt_over, z) applied
      ]

  cache_symbol-IsBounded :
      (rx : ReceiverSession S) (frame : Frame) → IsBounded rx → IsBounded (cache_symbol rq rx frame)
  unfolding cache_symbol
  cache_symbol-IsBounded rx frame b =
      let h = frame.header in
      elim (Bool-cases (contains_key rx.symbol_cache h.sbn h.esi)) [
        | inl y ↦ rw y b
        | inr n ↦
            elim (Bool-cases (leb (pre_meta_cache_max h.symbol_size) (length rx.symbol_cache))) [
              | inl y ↦ rw (n, y) b
              | inr y ↦
                  let cap = pre_meta_cache_max_le h.symbol_size in
                  let room : length rx.symbol_cache < pre_meta_cache_max h.symbol_size =
                    ground arith in
                  rw (n, y) (omega arith)
            ]
      ]

  kept-IsBounded :
      (rx : ReceiverSession S) (c : Bool)
      → IsBounded rx
      → IsBounded (if c then rx else count_corrupt rx)
  kept-IsBounded rx true b = b
  kept-IsBounded rx false b = b

  ingest_descriptor-IsBounded :
      (iteration : Cache → Cache) (rx : ReceiverSession S) (frame : Frame)
      → IsBounded rx
      → IsBounded (ingest_descriptor rq iteration rx frame).0
  unfolding ingest_descriptor answer adopt
  ingest_descriptor-IsBounded iteration rx frame b =
      elim (Option-cases (parse_payload frame.payload)) [
        | inl n ↦ rw (ingest_descriptor, n) b
        | inr (info, e) ↦ elim (Bool-cases (descriptor_invalid rq.deserialize frame info)) [
          | inl y ↦ rw (ingest_descriptor, e, y) b
          | inr n ↦ elim (Bool-cases rx.descriptor_seen) [
            | inl known ↦
                rw (ingest_descriptor, e, n)
                  (subst (λ (p : ReceiverSession S × Result Error Bool). IsBounded p.0)
                    (sym (if_true rx.descriptor_seen _ _ known))
                    (kept-IsBounded rx (same_descriptor rq iteration rx info) b))
            | inr fresh ↦
                rw (ingest_descriptor, e, n)
                  (subst (λ (p : ReceiverSession S × Result Error Bool). IsBounded p.0)
                    (sym (if_false rx.descriptor_seen _ _ fresh))
                    (adopt-IsBounded iteration rx info rx.meta b))
          ]
        ]
      ]

  ingest_pending-IsBounded :
      (rx : ReceiverSession S) (frame : Frame)
      → IsBounded rx
      → IsBounded (ingest_pending rq rx frame).0
  unfolding ingest_pending
  ingest_pending-IsBounded rx frame b =
      cache_symbol-IsBounded (record rx { pending_symbol_size = frame.header.symbol_size }) frame b

  ingest_data-IsBounded :
      (rx : ReceiverSession S) (frame : Frame)
      → IsBounded rx
      → IsBounded (ingest_data rq rx frame).0
  ingest_data-IsBounded rx frame b =
      let same = ap (λ t. length t.0) (fixed-ingest_data rq rx frame) in omega arith

  pub ingest-IsBounded :
      (iteration : Cache → Cache) (rx : ReceiverSession S) (frame : Frame)
      → IsBounded rx
      → IsBounded (ingest rq iteration rx frame).0
  unfolding ingest seen mismatch
  ingest-IsBounded iteration rx frame b =
      elim (Bool-cases (not (frame.header.session_id == rx.session_id))) [
        | inl y ↦ rw y b
        | inr n ↦ elim (Bool-cases (not (frame.header.flags % 2 == 0))) [
          | inl y ↦ rw (n, y) (ingest_descriptor-IsBounded iteration (seen rq rx) frame b)
          | inr d ↦ elim (Bool-cases (not rx.meta_confirmed)) [
            | inl y ↦
                rw (n, d)
                  (subst (λ (p : ReceiverSession S × Result Error Bool). IsBounded p.0)
                    (sym (if_true (not rx.meta_confirmed) _ _ y))
                    (ingest_pending-IsBounded (seen rq rx) frame b))
            | inr c ↦
                rw (n, d)
                  (subst (λ (p : ReceiverSession S × Result Error Bool). IsBounded p.0)
                    (sym (if_false (not rx.meta_confirmed) _ _ c))
                    (ingest_data-IsBounded (seen rq rx) frame b))
          ]
        ]
      ]

  -- The session after a sequence of frames.
  unfoldable pub ingest_all : (Cache → Cache) → ReceiverSession S → List Frame → ReceiverSession S
  unfolding ingest
  ingest_all iteration rx List.[] = rx
  ingest_all iteration rx (frame ∷ frames) =
      ingest_all iteration (ingest rq iteration rx frame).0 frames

  run-IsBounded :
      (iteration : Cache → Cache) (rx : ReceiverSession S) (frames : List Frame)
      → IsBounded rx
      → IsBounded (ingest_all iteration rx frames)
  unfolding ingest_all
  run-IsBounded iteration rx List.[] b = b
  run-IsBounded iteration rx (frame ∷ frames) b =
      run-IsBounded iteration (ingest rq iteration rx frame).0 frames
        (ingest-IsBounded iteration rx frame b)

  -- From a session that waits for its descriptor, no sequence of frames makes the replay cache hold more than
  -- 524288 symbols.
  pub ingest_all-new_pending :
      (iteration : Cache → Cache) (session_id : ℕ) (frames : List Frame)
      → length (ingest_all iteration (new_pending session_id) frames).symbol_cache ≤ 524288
  unfolding new_pending
  ingest_all-new_pending iteration session_id frames =
      run-IsBounded iteration (new_pending session_id) frames (omega arith)
