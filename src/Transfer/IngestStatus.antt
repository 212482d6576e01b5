-- ===== src/Transfer/IngestStatus.antt =====
-- core/transfer-engine/src/ingest_status.rs: the status of a frame in one 64-bit word. `x << k` is `x * 2 ^ k`.
pub mod Fields
use Prim.Native.Nat.{bit_or, bit_and}
use air_ferry_i_os_source.Prelude.{ℕ, ◌-◌, ◌*◌, ◌^◌, Bool, if◌then◌else◌}

abbrev pub complete_bit : ℕ
complete_bit = 0

abbrev pub accepted_bit : ℕ
accepted_bit = 1

abbrev pub streak_offset : ℕ
streak_offset = 8

abbrev pub streak_width : ℕ
streak_width = 16

abbrev pub received_offset : ℕ
received_offset = 32

abbrev pub ingest_error : ℕ
ingest_error = 0xFFFFFFFF * 2 ^ received_offset

unfoldable pub pack : Bool → Bool → ℕ → ℕ → ℕ
pack complete accepted mismatch_streak received_symbols =
    let bits = if complete then bit_or 0 (1 * 2 ^ complete_bit) else 0 in
    let bits1 = if accepted then bit_or bits (1 * 2 ^ accepted_bit) else bits in
    let streak_mask = 1 * 2 ^ streak_width - 1 in
    let bits2 = bit_or bits1 (bit_and mismatch_streak streak_mask * 2 ^ streak_offset) in
    bit_or bits2 (received_symbols * 2 ^ received_offset)
