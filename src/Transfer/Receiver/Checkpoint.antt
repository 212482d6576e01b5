-- ===== src/Transfer/Receiver/Checkpoint.antt =====
-- core/transfer-engine/src/receiver.rs: `save_state` and `restore`.
use air_ferry_i_os_source.Prelude.{
  ℕ, ◌%◌, ◌^◌, List, ◌∷◌, Option, none, some, not, ◌&&◌, length, get_or, map, ltb, ◌==◌,
  if◌then◌else◌, Result, ok, err, ◌>>=◌, ◌>>◌, map_err,
}
use air_ferry_i_os_source.Codec.Symbol
use air_ferry_i_os_source.Codec.Decoder.{Raptor}
use air_ferry_i_os_source.Transfer.{Error, invalid_resume}
use air_ferry_i_os_source.Transfer.Resume
use air_ferry_i_os_source.Transfer.Resume.{ResumeState}
use air_ferry_i_os_source.Transfer.Receiver.{
  ReceiverSession, Cache, contains, insert_esi, received_sum, refresh_decoded_counts, blocks_of,
  empty_sets, new_confirmed,
}
use air_ferry_i_os_source.Transfer.Receiver.Ingest.{mark, feed}

abbrev flat : (ℕ × ℕ) × List ℕ → ℕ × ℕ × List ℕ
flat ((sbn, esi), bytes) = (sbn, esi, bytes)

-- The loop that collects the ESIs of the symbols; a block that does not exist is passed over.
unfoldable pub collect : List (List ℕ) → List (ℕ × ℕ × List ℕ) → List (List ℕ)
unfolding contains insert_esi
collect received List.[] = received
collect received ((sbn, esi, bytes) ∷ symbols) =
    collect
      (if contains (get_or received sbn List.[]) esi then received else insert_esi received sbn esi)
      symbols

module _ {S : Type 0} (iteration : Cache → Cache) where
  unfoldable pub save_state : ReceiverSession S → Option ResumeState
  unfolding collect
  save_state rx = elim rx.meta [
    | none ↦ none
    | some meta ↦
        let symbols = map flat (iteration rx.symbol_cache) in
        some (record {
          session_id = rx.session_id;
          meta = meta;
          received = collect (empty_sets meta.blocks) symbols;
          symbols = symbols;
        })
  ]

module _ {S : Type 0} (rq : Raptor S) where
  -- `let _ = dec.add_symbol(&symbol)`
  abbrev pub offered : ReceiverSession S → Result Error (ReceiverSession S) → ReceiverSession S
  offered rx (ok rx') = rx'
  offered rx (err e) = rx

  unfoldable pub restore_one : ReceiverSession S → ℕ × ℕ × List ℕ → ReceiverSession S
  unfolding contains mark feed
  restore_one rx (sbn, esi, bytes) =
      let marked = mark rq (blocks_of rx.meta) rx sbn esi in
      if (ltb sbn (length rx.received)
          && (ltb esi (2 ^ 24) && (length bytes % 2 ^ 32 == rx.pending_symbol_size)))
        && not (contains (get_or rx.received sbn List.[]) esi)
      then offered marked (feed rq marked (Symbol.new sbn esi bytes))
      else rx

  unfoldable pub restore_all : ReceiverSession S → List (ℕ × ℕ × List ℕ) → ReceiverSession S
  unfolding restore_one
  restore_all rx List.[] = rx
  restore_all rx (symbol ∷ symbols) = restore_all (restore_one rx symbol) symbols

  unfoldable pub recount : ReceiverSession S → ReceiverSession S
  unfolding received_sum refresh_decoded_counts
  recount rx =
      refresh_decoded_counts (record rx {
        progress = record rx.progress { received_symbols = received_sum rx.received };
      })

  unfoldable pub restore : ResumeState → Result Error (ReceiverSession S)
  unfolding Resume.validate new_confirmed restore_all recount
  restore state = do
    map_err invalid_resume (Resume.validate rq.deserialize state)
    rx ← new_confirmed rq state.session_id state.meta
    ok (recount (restore_all rx state.symbols))
