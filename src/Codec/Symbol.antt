-- ===== src/Codec/Symbol.antt =====
-- core/raptorq-core/src/symbol.rs: a symbol, its block and its position in the block.
use air_ferry_i_os_source.Prelude.{ℕ, List}

pub record SymbolId : Type 0 where
  pub sbn : ℕ
  pub esi : ℕ

-- `Symbol::data` is `bytes` here.
pub record Symbol : Type 0 where
  pub id : SymbolId
  pub bytes : List ℕ

abbrev pub new : ℕ → ℕ → List ℕ → Symbol
new sbn esi bytes = record { id = record { sbn = sbn; esi = esi }; bytes = bytes }
