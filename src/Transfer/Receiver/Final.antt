-- ===== src/Transfer/Receiver/Final.antt =====
-- core/transfer-engine/src/receiver.rs: `ingest` in a session that is complete.
use air_ferry_i_os_source.Prelude.{
  ℕ, ◌%◌, ◌^◌, ◌≡◌, refl, ap, ◌∙◌, inl, inr, List, Option, Bool, true, false, not, ◌||◌, length,
  leb, ◌==◌, Result, if◌then◌else◌, Bool-cases, Option-cases,
}
use air_ferry_i_os_source.Codec.Decoder.{Raptor, Decoder}
use air_ferry_i_os_source.Protocol.Frame.{Frame}
use air_ferry_i_os_source.Transfer.{Error}
use air_ferry_i_os_source.Transfer.Descriptor.{parse_payload}
use air_ferry_i_os_source.Transfer.Receiver.{
  ReceiverSession, Cache, is_complete, count_corrupt, symbol_size_of,
}
use air_ferry_i_os_source.Transfer.Receiver.Gate.{descriptor_invalid}
use air_ferry_i_os_source.Transfer.Receiver.Ingest.{
  answer, ingest_descriptor, ingest_data, seen, mismatch, ingest, same_descriptor,
}
use air_ferry_i_os_source.Transfer.Receiver.Stable.{if_true, if_false}

module _ {S : Type 0} (rq : Raptor S) where
  -- The decoder, the symbols received and the counts of them.
  abbrev pub work : ReceiverSession S → Option (Decoder S) × List (List ℕ) × List ℕ × Cache × ℕ × ℕ
  work rx = (
    rx.decoder, rx.received, rx.source_recv, rx.symbol_cache, rx.progress.received_symbols,
    rx.progress.decoded_symbols,
  )

  work-answer :
      (rx : ReceiverSession S) (b : Bool) → work (if b then rx else count_corrupt rx) ≡ work rx
  work-answer rx true = refl
  work-answer rx false = refl

  work-ingest_descriptor :
      (iteration : Cache → Cache) (rx : ReceiverSession S) (frame : Frame)
      → rx.descriptor_seen ≡ true
      → work (ingest_descriptor rq iteration rx frame).0 ≡ work rx
  unfolding ingest_descriptor answer
  work-ingest_descriptor iteration rx frame known =
      elim (Option-cases (parse_payload frame.payload)) [
        | inl n ↦ rw (ingest_descriptor, n) refl
        | inr (info, e) ↦ elim (Bool-cases (descriptor_invalid rq.deserialize frame info)) [
          | inl y ↦ rw (ingest_descriptor, e, y) refl
          | inr n ↦
              rw (ingest_descriptor, e, n)
                (ap (λ (p : ReceiverSession S × Result Error Bool). work p.0)
                    (if_true rx.descriptor_seen _ _ known)
                  ∙ work-answer rx (same_descriptor rq iteration rx info))
        ]
      ]

  work-ingest_data :
      (rx : ReceiverSession S) (frame : Frame)
      → is_complete rx ≡ true
      → work (ingest_data rq rx frame).0 ≡ work rx
  unfolding ingest_data
  work-ingest_data rx frame done =
      let h = frame.header in
      elim (Bool-cases (leb (length rx.received) h.sbn)) [
        | inl y ↦ rw y refl
        | inr a ↦
            elim (Bool-cases (
              leb (2 ^ 24) h.esi
              || not (length frame.payload % 2 ^ 32 == symbol_size_of rx.meta))) [
                | inl y ↦ rw (a, y) refl
                | inr b ↦ rw (a, b, done) refl
              ]
      ]

  -- Once the descriptor is known and the object is decoded, no frame, whatever it holds, changes the
  -- decoder, the sets of symbols received, or the counts of received and decoded symbols.
  pub work-ingest :
      (iteration : Cache → Cache) (rx : ReceiverSession S) (frame : Frame)
      → rx.descriptor_seen ≡ true
      → rx.meta_confirmed ≡ true
      → is_complete rx ≡ true
      → work (ingest rq iteration rx frame).0 ≡ work rx
  unfolding ingest seen mismatch is_complete
  work-ingest iteration rx frame known confirmed done =
      elim (Bool-cases (not (frame.header.session_id == rx.session_id))) [
        | inl y ↦ rw y refl
        | inr n ↦ elim (Bool-cases (not (frame.header.flags % 2 == 0))) [
          | inl y ↦ rw (n, y) (work-ingest_descriptor iteration (seen rq rx) frame known)
          | inr d ↦
              rw (n, d)
                (ap (λ (p : ReceiverSession S × Result Error Bool). work p.0)
                    (if_false (not rx.meta_confirmed) _ _ (ap not confirmed))
                  ∙ work-ingest_data (seen rq rx) frame done)
        ]
      ]
