-- ===== src/Transfer.antt =====
-- core/transfer-engine/src/lib.rs: the errors of the transfer engine.
pub mod Types
pub mod Segment
pub mod Assembler
pub mod Schedule
pub mod Utf8
pub mod Descriptor
pub mod Receiver
pub mod Sender
pub mod Resume
pub mod Stats
pub mod IngestStatus
pub mod Cffi
pub mod Wasm
mod Examples
use air_ferry_i_os_source.Prelude.{ℕ, String}
use air_ferry_i_os_source.Codec
use air_ferry_i_os_source.Protocol

pub data Error : Type 0 where
  raptorq : Codec.Error → Error
  protocol : Protocol.Error → Error
  no_payload : Error
  not_initialized : Error
  session_mismatch : (expected : ℕ) → (got : ℕ) → Error
  already_complete : Error
  invalid_redundancy : ℕ → Error
  compress : String → Error
  symbol_id_space_exhausted : Error
  invalid_resume : String → Error
  invalid_segment : String → Error
