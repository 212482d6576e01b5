-- ===== src/Transfer/Cffi/SenderAbi.antt =====
-- core/transfer-engine/src/cffi.rs: the C ABI of the sender. A handle is `none` for null; a buffer that the caller
-- owns is `true` for a non-null pointer, and what is copied into it is answered. `cffi_log` is left out.
pub mod Buffer
use air_ferry_i_os_source.Prelude.{
  ℕ, ◌^◌, ◌-◌, List, Option, none, some, Bool, true, false, not, ◌||◌, length, ltb, ◌==◌,
  if◌then◌else◌, Result, ok, err,
}
use air_ferry_i_os_source.Codec.Encoder.{RqEncoder}
use air_ferry_i_os_source.Protocol.Frame
use air_ferry_i_os_source.Protocol.Frame.{Frame}
use air_ferry_i_os_source.Transfer.{Error}
use air_ferry_i_os_source.Transfer.Utf8.{is_utf8}
use air_ferry_i_os_source.Transfer.Sender
use air_ferry_i_os_source.Transfer.Sender.{SenderSession}
use air_ferry_i_os_source.Transfer.Cffi
use air_ferry_i_os_source.Transfer.Cffi.{CffiSender}

abbrev pub usize_max : ℕ
usize_max = 2 ^ 64 - 1

abbrev pub to_handle : Result Error CffiSender → Option CffiSender
to_handle (ok sender) = some sender
to_handle (err e) = none

module _ (with_defaults : List ℕ → ℕ → RqEncoder) (sha256 : List ℕ → List ℕ)
    (crc32 : List ℕ → ℕ) where
  unfoldable pub airferry_sender_create :
      (payload filename_utf8 : Option (List ℕ)) → ℕ → ℕ → ℕ → Option CffiSender
  unfolding Cffi.new is_utf8
  airferry_sender_create (some payload) (some filename) modified_ms redundancy_pct symbol_size =
      if (length payload == 0) || ((length filename == 0) || not (is_utf8 filename))
      then none
      else to_handle (
          Cffi.new with_defaults sha256 crc32 payload filename modified_ms redundancy_pct
            symbol_size)
  airferry_sender_create _ _ modified_ms redundancy_pct symbol_size = none

  -- `sender.session.next_frame()`, which also changes the session when it fails.
  abbrev pub emitted : CffiSender → SenderSession × Result Error Frame → CffiSender × List ℕ
  unfolding Frame.to_bytes
  emitted s (session, err e) = (record s { session = session }, List.[])
  emitted s (session, ok frame) = (record s { session = session }, Frame.to_bytes frame)

  abbrev pub frame_capacity : CffiSender → ℕ
  unfolding Frame.wire_size
  frame_capacity s = Frame.wire_size usize_max s.config.codec.symbol_size

  -- The sender afterwards, and the bytes that are written to `out`; their number is the answer.
  unfoldable pub airferry_sender_next_frame :
      Option CffiSender → Bool → ℕ → (start now : ℕ) → Option CffiSender × List ℕ
  unfolding emitted frame_capacity Sender.next_frame
  airferry_sender_next_frame (some s) true cap start now =
      if ltb cap (frame_capacity s)
      then (some s, List.[])
      else let (s', bytes) = emitted s (Sender.next_frame crc32 s.session start now) in
        (some s', bytes)
  airferry_sender_next_frame handle _ cap start now = (handle, List.[])

  unfoldable pub airferry_sender_frame_capacity : Option CffiSender → ℕ
  unfolding frame_capacity
  airferry_sender_frame_capacity none = 0
  airferry_sender_frame_capacity (some s) = frame_capacity s

  unfoldable pub airferry_sender_segment_count : Option CffiSender → ℕ
  airferry_sender_segment_count none = 0
  airferry_sender_segment_count (some s) = s.segment_count

  unfoldable pub airferry_sender_segment_index : Option CffiSender → ℕ
  airferry_sender_segment_index none = 0
  airferry_sender_segment_index (some s) = s.segment_index

  unfoldable pub airferry_sender_total_symbols : Option CffiSender → ℕ
  airferry_sender_total_symbols none = 0
  airferry_sender_total_symbols (some s) = s.session.total_k

  abbrev selected : CffiSender × Result Error (Unit {0}) → Option CffiSender × ℕ
  selected (s, ok _) = (some s, 1)
  selected (s, err e) = (some s, 0)

  unfoldable pub airferry_sender_select_segment : Option CffiSender → ℕ → Option CffiSender × ℕ
  unfolding Cffi.select_segment
  airferry_sender_select_segment none segment_index = (none, 0)
  airferry_sender_select_segment (some s) segment_index =
      selected (Cffi.select_segment with_defaults sha256 s segment_index)
