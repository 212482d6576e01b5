-- ===== src/Transfer/Cffi/ReceiverAbi/Status.antt =====
-- core/transfer-engine/src/cffi.rs, `airferry_receiver_ingest`: the word that the host unpacks.
use air_ferry_i_os_source.Prelude.{
  ℕ, ◌/◌, ◌%◌, ◌^◌, ◌<◌, ◌≡◌, refl, arith, List, Option, some, false, length, ltb, ◌==◌, Result, ok,
  err,
}
use air_ferry_i_os_source.Codec.Decoder.{Raptor}
use air_ferry_i_os_source.Protocol
use air_ferry_i_os_source.Protocol.Frame.{Frame, from_bytes}
use air_ferry_i_os_source.Transfer.IngestStatus.{ingest_error}
use air_ferry_i_os_source.Transfer.IngestStatus.Fields.{bit, pack_lem}
use air_ferry_i_os_source.Transfer.Receiver.{ReceiverSession, Cache, is_complete, progress_of}
use air_ferry_i_os_source.Transfer.Receiver.Ingest.{ingest}
use air_ferry_i_os_source.Transfer.Cffi.SenderAbi.{usize_max}
use air_ferry_i_os_source.Transfer.Cffi.ReceiverAbi.{ingested, status_of, airferry_receiver_ingest}

module _ {S : Type 0} (rq : Raptor S) (crc32 : List ℕ → ℕ) (iteration : Cache → Cache) where
  -- What the host is told of the session `rx'` that a frame has made of `rx`.
  abbrev pub Tells : ReceiverSession S → ReceiverSession S → ℕ → Type 0
  Tells rx rx' status =
      (status % 2 ≡ bit (is_complete rx'))
      × (status / 2 % 2 ≡ bit (ltb rx.progress.received_symbols rx'.progress.received_symbols))
      × (status / 2 ^ 8 % 2 ^ 16 ≡ rx'.progress.session_mismatch_streak % 2 ^ 16)
      × (status / 2 ^ 32 ≡ rx'.progress.received_symbols)

  -- The answer for a frame, and for bytes that are none.
  abbrev pub Answers :
      ReceiverSession S → Option (ReceiverSession S) × ℕ → Result Protocol.Error Frame → Type 0
  Answers rx answer (ok frame) =
      (answer.0 ≡ some (ingest rq iteration rx frame).0)
      × Tells rx (ingest rq iteration rx frame).0 answer.1
  Answers rx answer (err e) = answer ≡ (some rx, ingest_error)

  status-Tells : (rx rx' : ReceiverSession S) → Tells rx rx' (status_of rq crc32 iteration rx rx')
  unfolding status_of progress_of
  status-Tells rx rx' =
      pack_lem (is_complete rx') (ltb rx.progress.received_symbols rx'.progress.received_symbols)
        rx'.progress.session_mismatch_streak rx'.progress.received_symbols

  -- For bytes that are a frame, the call ingests the frame, whatever `ingest` answers, and the host reads in the status
  -- whether the object is complete, whether the frame brought a new symbol, the streak of foreign frames modulo 65536,
  -- and the number of symbols received. For other bytes it is the error word, and the session is as before.
  pub airferry_receiver_ingest_lem :
      (rx : ReceiverSession S) (bytes : List ℕ) (parsed : Result Protocol.Error Frame)
      → 0 < length bytes
      → from_bytes usize_max crc32 bytes ≡ parsed
      → Answers rx (airferry_receiver_ingest rq crc32 iteration (some rx) (some bytes)) parsed
  unfolding airferry_receiver_ingest ingested
  airferry_receiver_ingest_lem rx bytes (ok frame) some_bytes e =
      let n : (length bytes == 0) ≡ false = ground arith in
      rw (airferry_receiver_ingest, n, e) (refl, status-Tells rx (ingest rq iteration rx frame).0)
  airferry_receiver_ingest_lem rx bytes (err x) some_bytes e =
      let n : (length bytes == 0) ≡ false = ground arith in rw (airferry_receiver_ingest, n, e) refl
