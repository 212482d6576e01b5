-- ===== src/Transfer/Receiver/Recovers/Restore.antt =====
-- core/transfer-engine/src/receiver.rs, `restore`: a receiver that goes on from a checkpoint.
use mathlib.Core.Path.{subst}
use air_ferry_i_os_source.Prelude.{
  ℕ, ◌%◌, ◌^◌, ◌≡◌, sym, ap, inl, inr, List, ◌∷◌, some, true, not, ◌&&◌, length, get_or, ltb, ◌==◌,
  take, All, ok, map_err, Bool-cases, Result-cases, ok-injective, bind_ok, map_err_ok,
}
use air_ferry_i_os_source.Codec.Decoder
use air_ferry_i_os_source.Codec.Decoder.{Raptor, Decoder}
use air_ferry_i_os_source.Codec.Decoder.Genuine.{Object, IsSound, new-meta, sources}
use air_ferry_i_os_source.Codec.Symbol
use air_ferry_i_os_source.Protocol.Frame.{Frame}
use air_ferry_i_os_source.Transfer.{raptorq, invalid_resume}
use air_ferry_i_os_source.Transfer.Resume
use air_ferry_i_os_source.Transfer.Resume.{ResumeState}
use air_ferry_i_os_source.Transfer.Receiver.{
  ReceiverSession, Cache, build, contains, is_complete, blocks_of, new_confirmed,
  refresh_decoded_counts,
}
use air_ferry_i_os_source.Transfer.Receiver.Ingest.{feed, mark}
use air_ferry_i_os_source.Transfer.Receiver.Bounds.{ingest_all}
use air_ferry_i_os_source.Transfer.Receiver.Finish.{assemble_raw}
use air_ferry_i_os_source.Transfer.Receiver.Checkpoint.{restore_one, restore_all, restore, recount}
use air_ferry_i_os_source.Transfer.Receiver.Recovers.{
  GoodDecoder, IsEntry, IsFaithful, feed-IsFaithful, fresh-IsGood, mark-IsFaithful,
}
use air_ferry_i_os_source.Transfer.Receiver.Recovers.Session.{IsGenuineFrame}
use air_ferry_i_os_source.Transfer.Receiver.Recovers.Whole.{ingest_all-IsFaithful, raw-IsFaithful}

module _ {S : Type 0} (rq : Raptor S) (o : Object) (sid : ℕ) (sound : IsSound rq o) where
  abbrev pub IsStored : ℕ × ℕ × List ℕ → Type 0
  IsStored (sbn, esi, bytes) = bytes ≡ o.packet sbn esi

  restore_one-IsFaithful :
      (rx : ReceiverSession S) (sbn esi : ℕ) (bytes : List ℕ)
      → IsFaithful rq o sid rx
      → bytes ≡ o.packet sbn esi
      → IsFaithful rq o sid (restore_one rq rx (sbn, esi, bytes))
  unfolding restore_one feed
  restore_one-IsFaithful rx sbn esi bytes f g =
      let marked = mark rq (blocks_of rx.meta) rx sbn esi in
      let m = mark-IsFaithful rq o sid sound rx (blocks_of rx.meta) sbn esi f in
      elim (Bool-cases (
        (ltb sbn (length rx.received)
          && (ltb esi (2 ^ 24) && (length bytes % 2 ^ 32 == rx.pending_symbol_size)))
        && not (contains (get_or rx.received sbn List.[]) esi))) [
          | inr n ↦ rw n f
          | inl y ↦ elim (Result-cases (feed rq marked (Symbol.new sbn esi bytes))) [
            | inl (rx', e) ↦
                rw (restore_one, y, e)
                  (feed-IsFaithful rq o sid sound marked rx' (Symbol.new sbn esi bytes)
                    marked.decoder m m.fed g e)
            | inr (x, e) ↦ rw (restore_one, y, e) m
          ]
        ]

  restore_all-IsFaithful :
      (symbols : List (ℕ × ℕ × List ℕ)) (rx : ReceiverSession S)
      → IsFaithful rq o sid rx
      → All IsStored symbols
      → IsFaithful rq o sid (restore_all rq rx symbols)
  unfolding restore_all
  restore_all-IsFaithful List.[] rx f g = f
  restore_all-IsFaithful ((sbn, esi, bytes) ∷ symbols) rx f g =
      restore_all-IsFaithful symbols (restore_one rq rx (sbn, esi, bytes))
        (restore_one-IsFaithful rx sbn esi bytes f g.0) g.1

  restore-IsFaithful :
      (state : ResumeState) (rx : ReceiverSession S)
      → state.session_id ≡ sid
      → All IsStored state.symbols
      → restore rq state ≡ ok rx
      → IsFaithful rq o sid rx
  unfolding restore new_confirmed build recount refresh_decoded_counts
  restore-IsFaithful state rx own stored e =
      let (u, valid, rest) =
        bind_ok (map_err invalid_resume (Resume.validate rq.deserialize state)) _ e in
      let (rx0, fresh, last) = bind_ok (new_confirmed rq state.session_id state.meta) _ rest in
      let (dec, made, same) = bind_ok (map_err raptorq (Decoder.new rq state.meta)) _ fresh in
      let ready = map_err_ok raptorq _ made in
      let good = fresh-IsGood rq o sid sound state.meta dec ready in
      let meta = new-meta rq o state.meta dec ready in
      let start : IsFaithful rq o sid (build state.session_id (some state.meta) (some dec) true) =
        record { own = own; fed = (good, ap some (sym meta)); cached = tt } in
      let all =
        restore_all-IsFaithful state.symbols rx0
          (subst (IsFaithful rq o sid) (ok-injective same) start) stored in
      rw (← ok-injective last) (record { own = all.own; fed = all.fed; cached = all.cached })

  -- A receiver that is restored from a checkpoint, whose symbols are of the object, and goes on with frames of any
  -- kind, of which the data frames with its session id carry symbols of the object, has, once it is complete and if
  -- the layout that it has learned is the object's own, the object: its blocks, cut to its length. Of the decoder of a
  -- block it is taken that, made for the object's layout and fed packets of the block, it solves only the block,
  -- and of the hash map that it yields no entry that is not in it.
  pub restored_recovers :
      (iteration : Cache → Cache)
      → ((c : Cache) → All (IsEntry rq o sid) c → All (IsEntry rq o sid) (iteration c))
      → (state : ResumeState) (rx : ReceiverSession S) (frames : List Frame)
      → state.session_id ≡ sid
      → All IsStored state.symbols
      → restore rq state ≡ ok rx
      → All (IsGenuineFrame rq o sid sound) frames
      → (ingest_all rq iteration rx frames).meta ≡ some o.meta
      → is_complete (ingest_all rq iteration rx frames) ≡ true
      → assemble_raw (ingest_all rq iteration rx frames)
        ≡ some (take o.meta.transfer_length (sources o 0 (length o.meta.blocks)))
  unfolding assemble_raw is_complete
  restored_recovers iteration iterates state rx frames own stored restored genuine learned
        complete =
      let rx' = ingest_all rq iteration rx frames in
      let f =
        ingest_all-IsFaithful rq o sid sound iteration iterates frames rx
          (restore-IsFaithful state rx own stored restored) genuine in
      raw-IsFaithful rq o sid sound iteration iterates rx' rx'.decoder
        (subst (GoodDecoder rq o sid rx'.decoder) learned f.fed) complete
