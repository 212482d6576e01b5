-- ===== src/Transfer/Receiver/Recovers.antt =====
-- core/transfer-engine/src/receiver.rs: a receiver over the frames of one object: its replay cache and its decoder.
pub mod Session
pub mod Whole
pub mod Restore
use mathlib.Core.Path.{subst}
use air_ferry_i_os_source.Prelude.{
  ℕ, ◌%◌, ◌^◌, ◌≡◌, refl, sym, ap, ◌∙◌, arith, inl, inr, List, ◌∷◌, Option, none, some, Bool, true,
  false, not, ◌||◌, length, get_or, leb, ◌==◌, take, All, Result, ok, if◌then◌else◌, Bool-cases,
  Option-cases, Result-cases, ok-injective,
}
use air_ferry_i_os_source.Codec.Meta.{SourceBlockMeta, ObjectMeta, meta_eq}
use air_ferry_i_os_source.Codec.Decoder
use air_ferry_i_os_source.Codec.Decoder.{Raptor, Decoder}
use air_ferry_i_os_source.Codec.Decoder.Genuine.{
  Object, IsSound, IsGenuine, IsGood, step-IsGood, step-meta, new-IsGood, new-meta, after,
}
use air_ferry_i_os_source.Codec.Symbol
use air_ferry_i_os_source.Codec.Symbol.{Symbol}
use air_ferry_i_os_source.Protocol.Frame.{Frame}
use air_ferry_i_os_source.Transfer.{Error}
use air_ferry_i_os_source.Transfer.Types.{DescriptorInfo}
use air_ferry_i_os_source.Transfer.Descriptor.{parse_payload}
use air_ferry_i_os_source.Transfer.Receiver.{
  ReceiverSession, Cache, pre_meta_cache_max, contains_key, contains, new_pending, count_corrupt,
  refresh_decoded_counts, is_complete, symbol_size_of, blocks_of,
}
use air_ferry_i_os_source.Transfer.Receiver.Gate.{descriptor_invalid}
use air_ferry_i_os_source.Transfer.Receiver.Ingest.{
  answer, feed_into, feed, mark, replay_one, replay, reset, apply_meta, adopt, adopt_over,
  ingest_descriptor, cache_symbol, ingest_pending, ingest_data, take_in, seen, mismatch, ingest,
  same_descriptor,
}
use air_ferry_i_os_source.Transfer.Receiver.Stable.{if_true, if_false}

module _ {S : Type 0} (rq : Raptor S) (o : Object) (sid : ℕ) where
  -- The decoder has the layout of the session, and, if that is the layout of `o`, has solved blocks of `o` only.
  abbrev pub GoodDecoder : Option (Decoder S) → Option ObjectMeta → Type 0
  GoodDecoder none meta = Unit {0}
  GoodDecoder (some d) meta = (d.meta ≡ o.meta → IsGood rq o d) × (meta ≡ some d.meta)

  abbrev pub IsEntry : (ℕ × ℕ) × List ℕ → Type 0
  IsEntry entry = entry.1 ≡ o.packet entry.0.0 entry.0.1

  pub record IsFaithful (rx : ReceiverSession S) : Type 0 where
    pub own : rx.session_id ≡ sid
    pub fed : GoodDecoder rx.decoder rx.meta
    pub cached : All IsEntry rx.symbol_cache

  module _ (sound : IsSound rq o) where
    pub fresh-IsGood :
        (meta : ObjectMeta) (dec : Decoder S)
        → Decoder.new rq meta ≡ ok dec
        → dec.meta ≡ o.meta
        → IsGood rq o dec
    fresh-IsGood meta dec y h =
        new-IsGood rq o dec (ap (Decoder.new rq) (sym h ∙ new-meta rq o meta dec y) ∙ y)

    pub feed-IsFaithful :
        (rx rx' : ReceiverSession S) (symbol : Symbol) (dec : Option (Decoder S))
        → IsFaithful rx
        → GoodDecoder dec rx.meta
        → IsGenuine o symbol
        → feed_into rq rx symbol dec ≡ ok rx'
        → IsFaithful rx'
    feed-IsFaithful rx rx' symbol none f d g h = rw (← ok-injective h) f
    feed-IsFaithful rx rx' symbol (some dec) f d g h =
        let kept = step-meta rq o dec symbol in
        elim (Result-cases (Decoder.add_symbol rq dec symbol)) [
          | inl ((dec', c), y) ↦
              let kept' : dec'.meta ≡ dec.meta =
                subst (λ r. (after rq dec r).meta ≡ dec.meta) y kept in
              let good' : dec'.meta ≡ o.meta → IsGood rq o dec' = λ h'.
                subst (λ r. IsGood rq o (after rq dec r)) y
                  (step-IsGood rq o sound dec symbol g (d.0 (sym kept' ∙ h'))) in
              let k = ok-injective (rw y at h) in
              rw (← k) (record {
                own = f.own;
                fed = (good', d.1 ∙ ap some (sym kept'));
                cached = f.cached;
              })
          | inr (e, y) ↦ absurd (let k = rw y at h in cc)
        ]

    pub mark-IsFaithful :
        (rx : ReceiverSession S) (blocks : List SourceBlockMeta) (bi esi : ℕ)
        → IsFaithful rx
        → IsFaithful (mark rq blocks rx bi esi)
    unfolding mark
    mark-IsFaithful rx blocks bi esi f =
        elim (Bool-cases (contains (get_or rx.received bi List.[]) esi)) [
          | inl y ↦ rw y f
          | inr n ↦ rw n (record { own = f.own; fed = f.fed; cached = f.cached })
        ]

    replay_one-IsFaithful :
        (meta : ObjectMeta) (rx : ReceiverSession S) (sbn esi : ℕ) (bytes : List ℕ)
        → IsFaithful rx
        → bytes ≡ o.packet sbn esi
        → IsFaithful (replay_one rq meta rx ((sbn, esi), bytes)).0
    unfolding replay_one feed
    replay_one-IsFaithful meta rx sbn esi bytes f g =
        elim (Bool-cases (
          leb (length rx.received) sbn
          || (leb (2 ^ 24) esi || not (length bytes == meta.symbol_size)))) [
            | inl y ↦ rw y (record { own = f.own; fed = f.fed; cached = f.cached })
            | inr n ↦ elim (Result-cases (feed rq rx (Symbol.new sbn esi bytes))) [
              | inl (rx', y) ↦
                  rw (replay_one, n, y)
                    (mark-IsFaithful rx' meta.blocks sbn esi
                      (feed-IsFaithful rx rx' (Symbol.new sbn esi bytes) rx.decoder f f.fed g y))
              | inr (e, y) ↦ rw (replay_one, n, y) f
            ]
          ]

    replay-IsFaithful :
        (meta : ObjectMeta) (rx : ReceiverSession S) (cache : Cache)
        → IsFaithful rx
        → All IsEntry cache
        → IsFaithful (replay rq meta rx cache).0
    unfolding replay
    replay-IsFaithful meta rx List.[] f g = f
    replay-IsFaithful meta rx (((sbn, esi), bytes) ∷ cache) f g =
        let one = replay_one-IsFaithful meta rx sbn esi bytes f g.0 in
        elim (Result-cases (replay_one rq meta rx ((sbn, esi), bytes)).1) [
          | inl (u, y) ↦
              rw (replay, y)
                (replay-IsFaithful meta (replay_one rq meta rx ((sbn, esi), bytes)).0 cache one g.1)
          | inr (e, y) ↦ rw (replay, y) one
        ]

    module _ (iteration : Cache → Cache)
        (iterates : (c : Cache) → All IsEntry c → All IsEntry (iteration c)) where
      pub apply_meta-IsFaithful :
          (rx : ReceiverSession S) (meta : ObjectMeta)
          → IsFaithful rx
          → IsFaithful (apply_meta rq iteration rx meta).0
      unfolding apply_meta reset refresh_decoded_counts
      apply_meta-IsFaithful rx meta f = elim (Result-cases (Decoder.new rq meta)) [
        | inr (e, y) ↦ rw (apply_meta, y) f
        | inl (dec, y) ↦
            let same = new-meta rq o meta dec y in
            let good = fresh-IsGood meta dec y in
            let start = reset rq iteration rx meta dec in
            let played =
              replay-IsFaithful meta start (iteration rx.symbol_cache)
                (record { own = f.own; fed = (good, ap some (sym same)); cached = tt })
                (iterates rx.symbol_cache f.cached) in
            elim (Result-cases (replay rq meta start (iteration rx.symbol_cache)).1) [
              | inl (u, z) ↦
                  rw (apply_meta, y, z)
                    (record { own = played.own; fed = played.fed; cached = played.cached })
              | inr (e, z) ↦ rw (apply_meta, y, z) played
            ]
      ]
