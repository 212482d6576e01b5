-- ===== src/Codec.antt =====
-- core/raptorq-core/src/lib.rs: the errors of the codec.
pub mod Config
pub mod Meta
pub mod Symbol
pub mod Decoder
pub mod Encoder
pub mod Collector
mod Examples
use air_ferry_i_os_source.Prelude.{ℕ, String}

pub data Error : Type 0 where
  empty_data : Error
  invalid_symbol_size : Error
  invalid_object_meta : String → Error
  block_out_of_range : (sbn : ℕ) → (total : ℕ) → Error
  not_decodable : (sbn : ℕ) → Error
  unknown_symbol : (sbn : ℕ) → (esi : ℕ) → Error
