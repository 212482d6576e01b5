-- ===== src/Transfer/Receiver/Recovers/Whole.antt =====
-- core/transfer-engine/src/receiver.rs: from the first frame of a receiver to the object.
use mathlib.Core.Path.{subst}
use mathlib.Core.Option.{some-injective}
use air_ferry_i_os_source.Prelude.{
  ==_iff, ℕ, ◌%◌, ◌≡◌, refl, sym, ap, ◌∙◌, inl, inr, List, ◌∷◌, Option, none, some, Bool, true, not,
  length, ◌==◌, take, All, Result, Bool-cases,
}
use air_ferry_i_os_source.Codec.Meta.{ObjectMeta}
use air_ferry_i_os_source.Codec.Decoder
use air_ferry_i_os_source.Codec.Decoder.{Raptor, Decoder}
use air_ferry_i_os_source.Codec.Decoder.Genuine.{Object, IsSound, assemble-IsGood, sources}
use air_ferry_i_os_source.Protocol.Frame.{Frame}
use air_ferry_i_os_source.Transfer.{Error}
use air_ferry_i_os_source.Transfer.Receiver.{
  ReceiverSession, Cache, new_pending, is_complete, completed,
}
use air_ferry_i_os_source.Transfer.Receiver.Ingest.{seen, mismatch, ingest}
use air_ferry_i_os_source.Transfer.Receiver.Stable.{if_true, if_false}
use air_ferry_i_os_source.Transfer.Receiver.Bounds.{ingest_all}
use air_ferry_i_os_source.Transfer.Receiver.Finish.{assemble_raw, assembled}
use air_ferry_i_os_source.Transfer.Receiver.Recovers.{GoodDecoder, IsEntry, IsFaithful}
use air_ferry_i_os_source.Transfer.Receiver.Recovers.Session.{
  IsGenuineFrame, ingest_descriptor-IsFaithful, ingest_pending-IsFaithful, ingest_data-IsFaithful,
}

module _ {S : Type 0} (rq : Raptor S) (o : Object) (sid : ℕ) (sound : IsSound rq o)
    (iteration : Cache → Cache)
    (iterates : (c : Cache) → All (IsEntry rq o sid) c → All (IsEntry rq o sid) (iteration c)) where
  ingest-IsFaithful :
      (rx : ReceiverSession S) (frame : Frame)
      → IsFaithful rq o sid rx
      → IsGenuineFrame rq o sid sound frame
      → IsFaithful rq o sid (ingest rq iteration rx frame).0
  unfolding ingest seen mismatch
  ingest-IsFaithful rx frame f g =
      let f' : IsFaithful rq o sid (seen rq rx) = record {
        own = f.own;
        fed = f.fed;
        cached = f.cached;
      } in
      elim (Bool-cases (frame.header.session_id == rx.session_id)) [
        | inr n ↦ rw n (record { own = f.own; fed = f.fed; cached = f.cached })
        | inl y ↦
            let own : frame.header.session_id ≡ sid = (==_iff _ _).0 y ∙ f.own in
            elim (Bool-cases (frame.header.flags % 2 == 0)) [
              | inr d ↦
                  rw (y, d)
                    (ingest_descriptor-IsFaithful rq o sid sound iteration iterates (seen rq rx)
                      frame f')
              | inl d ↦ elim (Bool-cases (not rx.meta_confirmed)) [
                | inl w ↦
                    rw (y, d)
                      (subst
                        (λ (p : ReceiverSession S × Result Error Bool). IsFaithful rq o sid p.0)
                        (sym (if_true (not rx.meta_confirmed) _ _ w))
                        (ingest_pending-IsFaithful rq o sid sound (seen rq rx) frame f' (g own d)))
                | inr c ↦
                    rw (y, d)
                      (subst
                        (λ (p : ReceiverSession S × Result Error Bool). IsFaithful rq o sid p.0)
                        (sym (if_false (not rx.meta_confirmed) _ _ c))
                        (ingest_data-IsFaithful rq o sid sound (seen rq rx) frame f' (g own d)))
              ]
            ]
      ]

  pub ingest_all-IsFaithful :
      (frames : List Frame) (rx : ReceiverSession S)
      → IsFaithful rq o sid rx
      → All (IsGenuineFrame rq o sid sound) frames
      → IsFaithful rq o sid (ingest_all rq iteration rx frames)
  unfolding ingest_all
  ingest_all-IsFaithful List.[] rx f g = f
  ingest_all-IsFaithful (frame ∷ frames) rx f g =
      ingest_all-IsFaithful frames (ingest rq iteration rx frame).0
        (ingest-IsFaithful rx frame f g.0) g.1

  pub raw-IsFaithful :
      (rx : ReceiverSession S) (dec : Option (Decoder S))
      → GoodDecoder rq o sid dec (some o.meta)
      → completed dec ≡ true
      → assembled dec ≡ some (take o.meta.transfer_length (sources o 0 (length o.meta.blocks)))
  unfolding assembled completed
  raw-IsFaithful rx none f done = absurd (let k = done in cc)
  raw-IsFaithful rx (some dec) f done =
      let same = some-injective _ _ f.1 in
      assemble-IsGood rq o dec (f.0 (sym same))
      ∙ if_true (Decoder.is_complete dec) _ _ done
      ∙ ap (λ (t : ObjectMeta). some (take t.transfer_length (sources o 0 (length t.blocks))))
          (sym same)

  -- A receiver that waits for its descriptor and gets frames of any kind, in any order, lost, repeated, of other
  -- sessions or malformed, of which the data frames with its session id carry symbols of the object, has, once it is
  -- complete and if the layout that it has learned is the object's own, the object: its blocks, cut to its length. Of
  -- the decoder of a block it is taken that, made for the object's layout and fed packets of the block, it solves only
  -- the block,
  -- and of the hash map that it yields no entry that is not in it.
  pub receiver_recovers :
      (frames : List Frame)
      → All (IsGenuineFrame rq o sid sound) frames
      → (ingest_all rq iteration (new_pending sid) frames).meta ≡ some o.meta
      → is_complete (ingest_all rq iteration (new_pending sid) frames) ≡ true
      → assemble_raw (ingest_all rq iteration (new_pending sid) frames)
        ≡ some (take o.meta.transfer_length (sources o 0 (length o.meta.blocks)))
  unfolding new_pending assemble_raw is_complete
  receiver_recovers frames genuine learned complete =
      let rx = ingest_all rq iteration (new_pending sid) frames in
      let f =
        ingest_all-IsFaithful frames (new_pending sid)
          (record { own = refl; fed = tt; cached = tt }) genuine in
      raw-IsFaithful rx rx.decoder (subst (GoodDecoder rq o sid rx.decoder) learned f.fed) complete
