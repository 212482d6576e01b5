-- ===== src/Transfer/Receiver/Stable.antt =====
-- core/transfer-engine/src/receiver.rs: `ingest` in a session that has its descriptor.
use native.Mathlib.Nat.{div-lt_iff_lt-mul}
use air_ferry_i_os_source.Prelude.{
  ℕ, ◌+◌, ◌-◌, ◌*◌, ◌/◌, ◌%◌, ◌^◌, ◌≤◌, ◌<◌, max, ◌≡◌, refl, sym, ap, ◌∙◌, arith, inl, inr, List,
  Option, none, some, Bool, true, false, not, ◌||◌, length, get_or, leb, ◌==◌, Result, ok, err,
  if◌then◌else◌, Bool-cases, Option-cases, Result-cases, ok-injective,
}
use air_ferry_i_os_source.Codec
use air_ferry_i_os_source.Codec.Meta.{SourceBlockMeta, ObjectMeta}
use air_ferry_i_os_source.Codec.Decoder
use air_ferry_i_os_source.Codec.Decoder.{Raptor, Decoder}
use air_ferry_i_os_source.Codec.Symbol
use air_ferry_i_os_source.Codec.Symbol.{Symbol}
use air_ferry_i_os_source.Protocol.Frame.{Frame}
use air_ferry_i_os_source.Transfer.{Error}
use air_ferry_i_os_source.Transfer.Types.{FileMeta, SegmentMeta}
use air_ferry_i_os_source.Transfer.Descriptor.{parse_payload}
use air_ferry_i_os_source.Transfer.Receiver.{
  ReceiverSession, Cache, pre_meta_cache_max, contains, is_complete, count_corrupt,
  refresh_decoded_counts, blocks_of, symbol_size_of,
}
use air_ferry_i_os_source.Transfer.Receiver.Gate.{descriptor_invalid}
use air_ferry_i_os_source.Transfer.Receiver.Ingest.{
  answer, fed, feed_into, feed, mark, ingest_descriptor, take_in, ingest_data, seen, mismatch,
  ingest, same_descriptor,
}

pub pre_meta_cache_max_le : (n : ℕ) → pre_meta_cache_max n ≤ 524288
unfolding pre_meta_cache_max
pre_meta_cache_max_le n =
    let p = max n 64 in
    let m : 33554432 + p - 1 < 524289 * p = omega arith in
    let q : (33554432 + p - 1) / p < 524289 = (div-lt_iff_lt-mul {k = p} (omega arith)).1 m in
    ground arith

pub if_true {ℓ} : {A : Type ℓ} (b : Bool) (x y : A) → b ≡ true → (if b then x else y) ≡ x
if_true b x y h = rw h refl

pub if_false {ℓ} : {A : Type ℓ} (b : Bool) (x y : A) → b ≡ false → (if b then x else y) ≡ y
if_false b x y h = rw h refl

module _ {S : Type 0} (rq : Raptor S) where
  -- What the descriptor fixes: the layout, the file, the segment, that they are known, and the replay cache.
  abbrev pub fixed :
      ReceiverSession S
      → Cache × ℕ × Option ObjectMeta × FileMeta × Option SegmentMeta × Bool × Bool
  fixed rx = (
    rx.symbol_cache, rx.session_id, rx.meta, rx.file_meta, rx.segment_meta, rx.descriptor_seen,
    rx.meta_confirmed,
  )

  fixed-fed :
      (rx rx' : ReceiverSession S) (r : Result Codec.Error (Decoder S × Bool))
      → fed rq rx r ≡ ok rx'
      → fixed rx' ≡ fixed rx
  fixed-fed rx rx' (err e) h = cc
  fixed-fed rx rx' (ok (dec, done)) h = ap fixed (sym (ok-injective h))

  fixed-feed_into :
      (rx rx' : ReceiverSession S) (symbol : Symbol) (dec : Option (Decoder S))
      → feed_into rq rx symbol dec ≡ ok rx'
      → fixed rx' ≡ fixed rx
  fixed-feed_into rx rx' symbol none h = ap fixed (sym (ok-injective h))
  fixed-feed_into rx rx' symbol (some dec) h = fixed-fed rx rx' (Decoder.add_symbol rq dec symbol) h

  fixed-feed :
      (rx rx' : ReceiverSession S) (symbol : Symbol)
      → feed rq rx symbol ≡ ok rx'
      → fixed rx' ≡ fixed rx
  unfolding feed
  fixed-feed rx rx' symbol h = fixed-feed_into rx rx' symbol rx.decoder h

  fixed-mark :
      (rx : ReceiverSession S) (blocks : List SourceBlockMeta) (bi esi : ℕ)
      → fixed (mark rq blocks rx bi esi) ≡ fixed rx
  unfolding mark
  fixed-mark rx blocks bi esi = elim (Bool-cases (contains (get_or rx.received bi List.[]) esi)) [
    | inl y ↦ rw y refl
    | inr n ↦ rw n refl
  ]

  fixed-refresh : (rx : ReceiverSession S) → fixed (refresh_decoded_counts rx) ≡ fixed rx
  unfolding refresh_decoded_counts
  fixed-refresh rx = refl

  fixed-take_in :
      (rx : ReceiverSession S) (frame : Frame) → fixed (take_in rq rx frame).0 ≡ fixed rx
  unfolding take_in
  fixed-take_in rx frame =
      let rx1 = mark rq (blocks_of rx.meta) rx frame.header.sbn frame.header.esi in
      let rx2 = record rx1 {
        progress = record rx1.progress { received_symbols = rx1.progress.received_symbols + 1 };
      } in
      let m : fixed rx2 ≡ fixed rx =
        fixed-mark rx (blocks_of rx.meta) frame.header.sbn frame.header.esi in
      let symbol = Symbol.new frame.header.sbn frame.header.esi frame.payload in
      elim (Result-cases (feed rq rx2 symbol)) [
        | inl (rx3, y) ↦ rw (take_in, y) (fixed-refresh rx3 ∙ fixed-feed rx2 rx3 symbol y ∙ m)
        | inr (e, y) ↦ rw (take_in, y) m
      ]

  pub fixed-ingest_data :
      (rx : ReceiverSession S) (frame : Frame) → fixed (ingest_data rq rx frame).0 ≡ fixed rx
  unfolding ingest_data
  fixed-ingest_data rx frame =
      let h = frame.header in
      elim (Bool-cases (leb (length rx.received) h.sbn)) [
        | inl y ↦ rw y refl
        | inr a ↦
            elim (Bool-cases (
              leb (2 ^ 24) h.esi
              || not (length frame.payload % 2 ^ 32 == symbol_size_of rx.meta))) [
                | inl y ↦ rw (a, y) refl
                | inr b ↦ elim (Bool-cases (is_complete rx)) [
                  | inl y ↦ rw (a, b, y) refl
                  | inr c ↦ elim (Bool-cases (contains (get_or rx.received h.sbn List.[]) h.esi)) [
                    | inl y ↦ rw (a, b, c, y) refl
                    | inr d ↦ rw (a, b, c, d) (fixed-take_in rx frame)
                  ]
                ]
              ]
      ]

  fixed-answer :
      (rx : ReceiverSession S) (b : Bool) → fixed (if b then rx else count_corrupt rx) ≡ fixed rx
  fixed-answer rx true = refl
  fixed-answer rx false = refl

  -- What a descriptor frame does to a session that has its descriptor.
  fixed-ingest_descriptor :
      (iteration : Cache → Cache) (rx : ReceiverSession S) (frame : Frame)
      → rx.descriptor_seen ≡ true
      → fixed (ingest_descriptor rq iteration rx frame).0 ≡ fixed rx
  unfolding ingest_descriptor answer
  fixed-ingest_descriptor iteration rx frame known =
      elim (Option-cases (parse_payload frame.payload)) [
        | inl n ↦ rw (ingest_descriptor, n) refl
        | inr (info, e) ↦ elim (Bool-cases (descriptor_invalid rq.deserialize frame info)) [
          | inl y ↦ rw (ingest_descriptor, e, y) refl
          | inr n ↦
              rw (ingest_descriptor, e, n)
                (ap (λ (p : ReceiverSession S × Result Error Bool). fixed p.0)
                    (if_true rx.descriptor_seen _ _ known)
                  ∙ fixed-answer rx (same_descriptor rq iteration rx info))
        ]
      ]

  -- Once the descriptor is known and confirmed, no frame, whatever it holds, changes the layout, the file's name, size
  -- and checksum, the segment, or the replay cache.
  pub fixed-ingest :
      (iteration : Cache → Cache) (rx : ReceiverSession S) (frame : Frame)
      → rx.descriptor_seen ≡ true
      → rx.meta_confirmed ≡ true
      → fixed (ingest rq iteration rx frame).0 ≡ fixed rx
  unfolding ingest seen mismatch
  fixed-ingest iteration rx frame known confirmed =
      elim (Bool-cases (not (frame.header.session_id == rx.session_id))) [
        | inl y ↦ rw y refl
        | inr n ↦ elim (Bool-cases (not (frame.header.flags % 2 == 0))) [
          | inl y ↦ rw (n, y) (fixed-ingest_descriptor iteration (seen rq rx) frame known)
          | inr d ↦
              rw (n, d)
                (ap (λ (p : ReceiverSession S × Result Error Bool). fixed p.0)
                    (if_false (not rx.meta_confirmed) _ _ (ap not confirmed))
                  ∙ fixed-ingest_data (seen rq rx) frame)
        ]
      ]
