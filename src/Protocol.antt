-- ===== src/Protocol.antt =====
-- core/qr-protocol/src/lib.rs: the errors of the wire format.
pub mod Frame
pub mod Session
pub mod Chunker
pub mod Compress
pub mod Qr
mod Examples
use air_ferry_i_os_source.Prelude.{ℕ, String}

pub data Error : Type 0 where
  buffer_too_short : (need : ℕ) → (actual : ℕ) → Error
  bad_magic : (expected : ℕ) → (got : ℕ) → Error
  bad_version : ℕ → Error
  frame_crc_mismatch : Error
  payload_crc_mismatch : Error
  bad_symbol_size : ℕ → Error
  length_mismatch : (expected : ℕ) → (actual : ℕ) → Error
  compress : String → Error
