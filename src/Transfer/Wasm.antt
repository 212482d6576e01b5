-- ===== src/Transfer/Wasm.antt =====
-- core/transfer-engine/src/wasm.rs: the sender in the browser, which hands out frames as QR codes. `clock i` is the pair
-- of clock readings of the frame `i` of a call, and `build` the builder of QR codes; an error that is
-- shown to JavaScript is the error itself, and logging is left out.
pub mod Batch
pub mod Sessions
use air_ferry_i_os_source.Prelude.{
  ℕ, zero, suc, ◌+◌, ◌*◌, ◌%◌, ◌^◌, min, max, List, ◌∷◌, ◌++◌, Option, Bool, true, false, length,
  take, drop, map, replicate, ltb, ◌==◌, if◌then◌else◌, String, Result, ok, err,
}
use air_ferry_i_os_source.Bytes.{to_le}
use air_ferry_i_os_source.Codec
use air_ferry_i_os_source.Protocol
use air_ferry_i_os_source.Protocol.Frame
use air_ferry_i_os_source.Protocol.Frame.{Frame}
use air_ferry_i_os_source.Protocol.Qr
use air_ferry_i_os_source.Protocol.Qr.{QrCode, QrMatrix}
use air_ferry_i_os_source.Transfer.{Error}
use air_ferry_i_os_source.Transfer.Sender
use air_ferry_i_os_source.Transfer.Sender.{SenderSession}

abbrev pub max_qr_side : ℕ
max_qr_side = 177

abbrev pub max_qr_modules : ℕ
max_qr_modules = max_qr_side * max_qr_side

abbrev pub max_ui_qr_count : ℕ
max_ui_qr_count = 4

abbrev pub qr_scratch_bytes : ℕ
qr_scratch_bytes = 4 + max_ui_qr_count * (4 + max_qr_modules)

-- `dark as u8`
abbrev pub dark : Bool → ℕ
dark true = 1
dark false = 0

pub data JsError : Type 0 where
  engine : Error → JsError
  codec : Codec.Error → JsError
  protocol : Protocol.Error → JsError
  qr : Protocol.Error → JsError
  message : String → JsError

-- One code in a buffer: its side and its modules.
abbrev pub rendered : QrMatrix → List ℕ
rendered m = to_le 4 (m.size % 2 ^ 32) ++ map dark m.modules

-- `buf[pos..pos + bytes.len()].copy_from_slice(bytes)`
abbrev pub write_at : List ℕ → ℕ → List ℕ → List ℕ
write_at buf pos bytes = take pos buf ++ (bytes ++ drop (pos + length bytes) buf)

module _ (crc32 : List ℕ → ℕ) (build : (version : ℕ) → List ℕ → Option QrCode) where
  unfoldable pub coded : Result Error Frame → Result JsError QrMatrix
  unfolding Qr.encode Frame.to_bytes
  coded (err e) = err (engine e)
  coded (ok frame) = elim (Qr.encode build (Frame.to_bytes frame)) [
    | err e ↦ err (qr e)
    | ok m ↦ ok m
  ]

  -- The next frame as a code: the session afterwards, and the result.
  abbrev pub next_matrix : SenderSession → ℕ × ℕ → SenderSession × Result JsError QrMatrix
  unfolding Sender.next_frame coded
  next_matrix s (start, now) = let (s', r) = Sender.next_frame crc32 s start now in (s', coded r)

  -- `out_side[0]` and the modules.
  abbrev pub sided :
      SenderSession × Result JsError QrMatrix → SenderSession × Result JsError (ℕ × List ℕ)
  sided (s, err e) = (s, err e)
  sided (s, ok m) = (s, ok (m.size % 2 ^ 32, map dark m.modules))

  unfoldable pub next_qr : SenderSession → ℕ → ℕ × ℕ → SenderSession × Result JsError (ℕ × List ℕ)
  unfolding next_matrix
  next_qr s out_side_len readings =
      if out_side_len == 0
      then (s, err (message "out_side buffer empty"))
      else sided (next_matrix s readings)

  module _ (clock : ℕ → ℕ × ℕ) where
    -- The loop of `next_qr_multi` from frame `i` on: the session, what is written, and how many codes.
    unfoldable pub produce : ℕ → ℕ → SenderSession → List ℕ → ℕ → SenderSession × List ℕ × ℕ
    unfolding next_matrix
    produce zero i s out produced = (s, out, produced)
    produce (suc n) i s out produced =
        let (s', r) = next_matrix s (clock i) in
        elim r [
          | err e ↦ (s', out, produced)
          | ok m ↦ produce n (suc i) s' (out ++ rendered m) (produced + 1)
        ]

    unfoldable pub next_qr_multi : SenderSession → ℕ → SenderSession × List ℕ
    unfolding produce to_le
    next_qr_multi s count =
        let (s', out, produced) = produce (min count 8) 0 s (replicate 4 0) 0 in
        (s', to_le 4 produced ++ drop 4 out)

    -- The loop of `next_qr_scratch`: the session, the scratch, and the result.
    unfoldable pub fill :
        ℕ → ℕ → SenderSession → List ℕ → ℕ → SenderSession × List ℕ × Result JsError ℕ
    unfolding next_matrix
    fill zero i s scratch pos = (s, scratch, ok pos)
    fill (suc n) i s scratch pos =
        let (s', r) = next_matrix s (clock i) in
        elim r [
          | err e ↦ (s', scratch, err e)
          | ok m ↦
              let rest =
                fill n (suc i) s' (write_at scratch pos (rendered m))
                  (pos + (4 + length m.modules)) in
              if ltb (length scratch) (pos + (4 + length m.modules))
              then (s', scratch, err (message "internal QR scratch buffer overflow"))
              else rest
        ]

    abbrev pub counted :
        ℕ → SenderSession × List ℕ × Result JsError ℕ → SenderSession × List ℕ × Result JsError ℕ
    unfolding to_le
    counted n (s, scratch, err e) = (s, scratch, err e)
    counted n (s, scratch, ok pos) = (s, write_at scratch 0 (to_le 4 n), ok pos)

    unfoldable pub next_qr_scratch :
        SenderSession → List ℕ → ℕ → SenderSession × List ℕ × Result JsError ℕ
    unfolding fill counted
    next_qr_scratch s scratch count =
        let n = min (max count 1) max_ui_qr_count in counted n (fill n 0 s scratch 4)
