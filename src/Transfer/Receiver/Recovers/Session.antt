-- ===== src/Transfer/Receiver/Recovers/Session.antt =====
-- core/transfer-engine/src/receiver.rs: one frame of an object.
use mathlib.Core.Path.{subst}
use air_ferry_i_os_source.Prelude.{
  ℕ, ◌+◌, ◌%◌, ◌^◌, ◌≡◌, sym, inl, inr, List, Option, none, some, Bool, true, false, not, ◌||◌,
  length, get_or, leb, ◌==◌, All, Result, if◌then◌else◌, Bool-cases, Option-cases, Result-cases,
}
use air_ferry_i_os_source.Codec.Meta.{ObjectMeta, meta_eq}
use air_ferry_i_os_source.Codec.Decoder.{Raptor}
use air_ferry_i_os_source.Codec.Decoder.Genuine.{Object, IsSound}
use air_ferry_i_os_source.Codec.Symbol
use air_ferry_i_os_source.Codec.Symbol.{Symbol}
use air_ferry_i_os_source.Protocol.Frame.{Frame}
use air_ferry_i_os_source.Transfer.{Error}
use air_ferry_i_os_source.Transfer.Types.{DescriptorInfo}
use air_ferry_i_os_source.Transfer.Descriptor.{parse_payload}
use air_ferry_i_os_source.Transfer.Receiver.{
  ReceiverSession, Cache, pre_meta_cache_max, contains_key, contains, count_corrupt,
  refresh_decoded_counts, is_complete, symbol_size_of, blocks_of,
}
use air_ferry_i_os_source.Transfer.Receiver.Gate.{descriptor_invalid}
use air_ferry_i_os_source.Transfer.Receiver.Ingest.{
  answer, feed, mark, apply_meta, adopt, adopt_over, ingest_descriptor, cache_symbol,
  ingest_pending, ingest_data, take_in, same_descriptor,
}
use air_ferry_i_os_source.Transfer.Receiver.Stable.{if_true, if_false}
use air_ferry_i_os_source.Transfer.Receiver.Recovers.{
  IsEntry, IsFaithful, feed-IsFaithful, mark-IsFaithful, apply_meta-IsFaithful,
}

module _ {S : Type 0} (rq : Raptor S) (o : Object) (sid : ℕ) (sound : IsSound rq o) where
  -- A data frame of the session carries the symbol that its header names; about other frames nothing is said.
  abbrev pub IsGenuineFrame : Frame → Type 0
  IsGenuineFrame f =
      f.header.session_id ≡ sid
      → (f.header.flags % 2 == 0) ≡ true
      → f.payload ≡ o.packet f.header.sbn f.header.esi

  corrupt-IsFaithful :
      (rx : ReceiverSession S) → IsFaithful rq o sid rx → IsFaithful rq o sid (count_corrupt rx)
  corrupt-IsFaithful rx f = record { own = f.own; fed = f.fed; cached = f.cached }

  module _ (iteration : Cache → Cache)
      (iterates : (c : Cache)
        → All (IsEntry rq o sid) c
        → All (IsEntry rq o sid) (iteration c)) where
    adopt-IsFaithful :
        (rx : ReceiverSession S) (info : DescriptorInfo) (meta : Option ObjectMeta)
        → IsFaithful rq o sid rx
        → IsFaithful rq o sid (adopt_over rq iteration rx info meta).0
    unfolding adopt_over answer
    adopt-IsFaithful rx info (some cur) f = elim (Bool-cases (not (meta_eq cur info.meta))) [
      | inl z ↦ rw z (corrupt-IsFaithful rx f)
      | inr z ↦ rw z (record { own = f.own; fed = f.fed; cached = tt })
    ]
    adopt-IsFaithful rx info none f =
        let applied = apply_meta-IsFaithful rq o sid sound iteration iterates rx info.meta f in
        elim (Result-cases (apply_meta rq iteration rx info.meta).1) [
          | inl (u, z) ↦
              rw (adopt_over, z) (record { own = applied.own; fed = applied.fed; cached = tt })
          | inr (e, z) ↦ rw (adopt_over, z) applied
        ]

    kept-IsFaithful :
        (rx : ReceiverSession S) (c : Bool)
        → IsFaithful rq o sid rx
        → IsFaithful rq o sid (if c then rx else count_corrupt rx)
    kept-IsFaithful rx true f = f
    kept-IsFaithful rx false f = corrupt-IsFaithful rx f

    pub ingest_descriptor-IsFaithful :
        (rx : ReceiverSession S) (frame : Frame)
        → IsFaithful rq o sid rx
        → IsFaithful rq o sid (ingest_descriptor rq iteration rx frame).0
    unfolding ingest_descriptor answer adopt
    ingest_descriptor-IsFaithful rx frame f = elim (Option-cases (parse_payload frame.payload)) [
      | inl n ↦ rw (ingest_descriptor, n) (corrupt-IsFaithful rx f)
      | inr (info, e) ↦ elim (Bool-cases (descriptor_invalid rq.deserialize frame info)) [
        | inl y ↦ rw (ingest_descriptor, e, y) (corrupt-IsFaithful rx f)
        | inr n ↦ elim (Bool-cases rx.descriptor_seen) [
          | inl known ↦
              rw (ingest_descriptor, e, n)
                (subst (λ (p : ReceiverSession S × Result Error Bool). IsFaithful rq o sid p.0)
                  (sym (if_true rx.descriptor_seen _ _ known))
                  (kept-IsFaithful rx (same_descriptor rq iteration rx info) f))
          | inr fresh ↦
              rw (ingest_descriptor, e, n)
                (subst (λ (p : ReceiverSession S × Result Error Bool). IsFaithful rq o sid p.0)
                  (sym (if_false rx.descriptor_seen _ _ fresh))
                  (adopt-IsFaithful rx info rx.meta f))
        ]
      ]
    ]

  cache_symbol-IsFaithful :
      (rx : ReceiverSession S) (frame : Frame)
      → IsFaithful rq o sid rx
      → frame.payload ≡ o.packet frame.header.sbn frame.header.esi
      → IsFaithful rq o sid (cache_symbol rq rx frame)
  unfolding cache_symbol
  cache_symbol-IsFaithful rx frame f g =
      let h = frame.header in
      elim (Bool-cases (contains_key rx.symbol_cache h.sbn h.esi)) [
        | inl y ↦ rw y (record { own = f.own; fed = f.fed; cached = f.cached })
        | inr n ↦
            elim (Bool-cases (leb (pre_meta_cache_max h.symbol_size) (length rx.symbol_cache))) [
              | inl y ↦ rw (n, y) (record { own = f.own; fed = f.fed; cached = f.cached })
              | inr y ↦ rw (n, y) (record { own = f.own; fed = f.fed; cached = (g, f.cached) })
            ]
      ]

  pub ingest_pending-IsFaithful :
      (rx : ReceiverSession S) (frame : Frame)
      → IsFaithful rq o sid rx
      → frame.payload ≡ o.packet frame.header.sbn frame.header.esi
      → IsFaithful rq o sid (ingest_pending rq rx frame).0
  unfolding ingest_pending
  ingest_pending-IsFaithful rx frame f g =
      let c =
        cache_symbol-IsFaithful (record rx { pending_symbol_size = frame.header.symbol_size }) frame
          (record { own = f.own; fed = f.fed; cached = f.cached }) g in
      record { own = c.own; fed = c.fed; cached = c.cached }

  take_in-IsFaithful :
      (rx : ReceiverSession S) (frame : Frame)
      → IsFaithful rq o sid rx
      → frame.payload ≡ o.packet frame.header.sbn frame.header.esi
      → IsFaithful rq o sid (take_in rq rx frame).0
  unfolding take_in feed refresh_decoded_counts
  take_in-IsFaithful rx frame f g =
      let rx1 = mark rq (blocks_of rx.meta) rx frame.header.sbn frame.header.esi in
      let rx2 = record rx1 {
        progress = record rx1.progress { received_symbols = rx1.progress.received_symbols + 1 };
      } in
      let m =
        mark-IsFaithful rq o sid sound rx (blocks_of rx.meta) frame.header.sbn frame.header.esi f in
      let f2 : IsFaithful rq o sid rx2 = record { own = m.own; fed = m.fed; cached = m.cached } in
      let symbol = Symbol.new frame.header.sbn frame.header.esi frame.payload in
      elim (Result-cases (feed rq rx2 symbol)) [
        | inl (rx3, y) ↦
            let f3 = feed-IsFaithful rq o sid sound rx2 rx3 symbol rx2.decoder f2 f2.fed g y in
            rw (take_in, y) (record { own = f3.own; fed = f3.fed; cached = f3.cached })
        | inr (e, y) ↦ rw (take_in, y) f2
      ]

  pub ingest_data-IsFaithful :
      (rx : ReceiverSession S) (frame : Frame)
      → IsFaithful rq o sid rx
      → frame.payload ≡ o.packet frame.header.sbn frame.header.esi
      → IsFaithful rq o sid (ingest_data rq rx frame).0
  unfolding ingest_data
  ingest_data-IsFaithful rx frame f g =
      let h = frame.header in
      let same : IsFaithful rq o sid (count_corrupt rx) = corrupt-IsFaithful rx f in
      elim (Bool-cases (leb (length rx.received) h.sbn)) [
        | inl y ↦ rw y same
        | inr a ↦
            elim (Bool-cases (
              leb (2 ^ 24) h.esi
              || not (length frame.payload % 2 ^ 32 == symbol_size_of rx.meta))) [
                | inl y ↦ rw (a, y) same
                | inr b ↦ elim (Bool-cases (is_complete rx)) [
                  | inl y ↦ rw (a, b, y) (record { own = f.own; fed = f.fed; cached = f.cached })
                  | inr c ↦ elim (Bool-cases (contains (get_or rx.received h.sbn List.[]) h.esi)) [
                    | inl y ↦
                        rw (a, b, c, y) (record { own = f.own; fed = f.fed; cached = f.cached })
                    | inr d ↦ rw (a, b, c, d) (take_in-IsFaithful rx frame f g)
                  ]
                ]
              ]
      ]
