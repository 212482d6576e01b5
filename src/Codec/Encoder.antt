-- ===== src/Codec/Encoder.antt =====
-- core/raptorq-core/src/encoder.rs, and `from_encoder` of core/raptorq-core/src/meta.rs.
-- The third-party `raptorq` encoder is the parameter `RqEncoder`.
pub mod Layout
use air_ferry_i_os_source.Prelude.{
  ℕ, suc, ◌+◌, ◌-◌, ◌*◌, ◌%◌, ◌^◌, List, ◌∷◌, Option, none, some, length, get_elem?, get_or, leb,
  ltb, ◌==◌, if◌then◌else◌, Result, ok, err, ◌>>=◌,
}
use air_ferry_i_os_source.Codec.{Error, empty_data, block_out_of_range, unknown_symbol}
use air_ferry_i_os_source.Codec.Config
use air_ferry_i_os_source.Codec.Config.{Config, checked_add_u32}
use air_ferry_i_os_source.Codec.Meta.{SourceBlockMeta, ObjectMeta}
use air_ferry_i_os_source.Codec.Symbol
use air_ferry_i_os_source.Codec.Symbol.{Symbol}

-- A `SourceBlockEncoder`: the data of its source packets, and of the `count` repair packets from `start` on.
pub record SourceBlock : Type 0 where
  pub source_packets : List (List ℕ)
  pub repair_packets : ℕ → ℕ → List (List ℕ)

-- What `RqEncoder::with_defaults` answers: its serialized configuration, and its block encoders.
pub record RqEncoder : Type 0 where
  pub oti_bytes : List ℕ
  pub block_encoders : List SourceBlock

pub record Encoder : Type 0 where
  pub config : Config
  pub meta : ObjectMeta
  pub blocks : List SourceBlock

-- The metadata of the blocks, from the `i`-th on.
unfoldable pub block_metas : ℕ → ℕ → List SourceBlock → List SourceBlockMeta
block_metas symbol_size i List.[] = List.[]
block_metas symbol_size i (b ∷ blocks) =
    let k = length b.source_packets % 2 ^ 32 in
    record { sbn = i % 2 ^ 32; num_source_symbols = k; block_length = k * symbol_size }
    ∷ block_metas symbol_size (i + 1) blocks

unfoldable pub from_encoder : ℕ → Config → RqEncoder → ObjectMeta
unfolding block_metas
from_encoder data_len config rq = record {
  transfer_length = data_len;
  symbol_size = config.symbol_size;
  oti_bytes = rq.oti_bytes;
  blocks = block_metas config.symbol_size 0 rq.block_encoders;
}

-- `with_defaults` takes the data and the MTU.
unfoldable pub new : (List ℕ → ℕ → RqEncoder) → List ℕ → Config → Result Error Encoder
unfolding from_encoder Config.new Config.mtu
new with_defaults bytes config = if length bytes == 0 then err empty_data else do
  config' ← Config.new config.symbol_size
  mtu ← Config.mtu config'
  ok (
      let rq = with_defaults bytes mtu in
      record {
        config = config';
        meta = from_encoder (length bytes) config' rq;
        blocks = rq.block_encoders;
      })

abbrev pub k_of : Option SourceBlockMeta → ℕ
k_of none = 0
k_of (some b) = b.num_source_symbols

unfoldable pub block : Encoder → ℕ → Result Error SourceBlock
block e sbn = elim (get_elem? e.blocks sbn) [
  | none ↦ err (block_out_of_range sbn (length e.blocks % 2 ^ 32))
  | some b ↦ ok b
]

unfoldable pub source_of : SourceBlock → ℕ → ℕ → ℕ → Result Error Symbol
source_of b k sbn esi =
    if leb k esi
    then err (unknown_symbol sbn esi)
    else ok (Symbol.new sbn esi (get_or b.source_packets esi List.[]))

unfoldable pub source_symbol : Encoder → ℕ → ℕ → Result Error Symbol
unfolding block source_of
source_symbol e sbn esi = do
  b ← block e sbn
  source_of b (k_of (get_elem? e.meta.blocks sbn)) sbn esi

-- The packets numbered from `esi` on.
unfoldable pub number_from : ℕ → ℕ → List (List ℕ) → List Symbol
number_from sbn esi List.[] = List.[]
number_from sbn esi (p ∷ packets) = Symbol.new sbn esi p ∷ number_from sbn (esi + 1) packets

abbrev pub last_of : Option ℕ → ℕ → Option ℕ
last_of none count = none
last_of (some v) count = checked_add_u32 v (count - 1)

-- `repair_symbols` behind the look-up of the block, whose K is `k`. The ids of the packets are below
-- 2 ^ 24, so the sums in the closure do not overflow.
unfoldable pub repairs_of : SourceBlock → ℕ → ℕ → ℕ → ℕ → Result Error (List Symbol)
unfolding number_from
repairs_of b k sbn start count =
    if count == 0 then ok List.[] else elim (last_of (checked_add_u32 k start) count) [
      | none ↦ err (unknown_symbol sbn (2 ^ 32 - 1))
      | some last_esi ↦
          if leb (2 ^ 24) last_esi
          then err (unknown_symbol sbn last_esi)
          else ok (number_from sbn (k + start) (b.repair_packets start count))
    ]

unfoldable pub repair_symbols : Encoder → ℕ → ℕ → ℕ → Result Error (List Symbol)
unfolding block repairs_of
repair_symbols e sbn start count = do
  b ← block e sbn
  repairs_of b (k_of (get_elem? e.meta.blocks sbn)) sbn start count
