-- ===== src/Codec/Examples.antt =====
-- The codec's theorems at one small object: two blocks, of two and one symbols, over a decoder that has a slot for each.
use air_ferry_i_os_source.Prelude.{
  length, arith, ◌<◌, ℕ, ◌+◌, ◌<◌, ◌≡◌, ◌↔◌, refl, List, ◌∷◌, none, some, true, if◌then◌else◌, ok,
  take, replicate, get_elem?,
}
use air_ferry_i_os_source.Codec.Config
use air_ferry_i_os_source.Codec.Config.{Config, IsSymbolSize, new_iff, mtu-new}
use air_ferry_i_os_source.Codec.Meta.{
  ObjectMeta, validate, check_oti, check_counts, check_blocks, check_totals,
}
use air_ferry_i_os_source.Codec.Meta.Valid.{IsValidMeta, validate_iff}
use air_ferry_i_os_source.Codec.Meta.Valid.{CanonicalBlocks}
use air_ferry_i_os_source.Codec.Encoder
use air_ferry_i_os_source.Codec.Encoder.{Encoder, RqEncoder, from_encoder, block_metas}
use air_ferry_i_os_source.Codec.Encoder.Layout.{new-CanonicalBlocks}
use air_ferry_i_os_source.Codec.Symbol
use air_ferry_i_os_source.Codec.Symbol.{Symbol}
use air_ferry_i_os_source.Codec.Decoder.{
  Raptor, BlockState, Decoder, new, is_complete, all_decoded, assemble, add_symbol, offer,
  feed_block,
}
use air_ferry_i_os_source.Codec.Collector.{Slots, collector, joined, systematic, collector-IsSound}
use air_ferry_i_os_source.Codec.Decoder.Stable.{after_symbol, keeps_decoded}
use air_ferry_i_os_source.Codec.Decoder.Genuine.{Object, run, sources, decoder_recovers}

abbrev toy : Raptor (Unit {0})
toy = record {
  deserialize = λ bytes. record {
    transfer_length = 190;
    symbol_size = 64;
    source_blocks = 2;
    sub_blocks = 1;
    symbol_alignment = 8;
  };
  start = λ sbn oti len. tt;
  decode = λ s sbn esi bytes. (tt, some bytes);
}

abbrev two_blocks : ObjectMeta
two_blocks = record {
  transfer_length = 190;
  symbol_size = 64;
  oti_bytes = replicate 12 0;
  blocks =
      record { sbn = 0; num_source_symbols = 2; block_length = 128 }
      ∷ (record { sbn = 1; num_source_symbols = 1; block_length = 64 } ∷ List.[]);
}

-- The symbols of the object, whose decoder has to be made for the right number of them.
abbrev packet : ℕ → ℕ → List ℕ
packet i esi = replicate 64 (i + esi + 7)

abbrev object : Object
object = systematic toy.deserialize two_blocks packet

abbrev fresh : BlockState (Unit {0})
fresh = record { decoder = tt; decoded = none }

abbrev solved : BlockState (Unit {0})
solved = record { decoder = tt; decoded = some (replicate 64 7) }

abbrev slots : ℕ → BlockState Slots
slots n = record { decoder = replicate n none; decoded = none }

abbrev decoder : Decoder Slots
decoder = record { meta = two_blocks; blocks = slots 2 ∷ (slots 1 ∷ List.[]) }

abbrev halfway : Decoder (Unit {0})
halfway = record { meta = two_blocks; blocks = solved ∷ (fresh ∷ List.[]) }

-- The second block comes first, then the first in the reverse order, with a repeat.
abbrev symbols : List Symbol
symbols =
    Symbol.new 1 0 (packet 1 0)
    ∷ (Symbol.new 0 1 (packet 0 1)
        ∷ (Symbol.new 0 1 (packet 0 1) ∷ (Symbol.new 0 0 (packet 0 0) ∷ List.[])))

new_decoder : new (collector toy.deserialize) two_blocks ≡ ok decoder
unfolding collector new validate check_oti check_counts check_blocks check_totals
new_decoder = refl

all_solved : is_complete (run (collector toy.deserialize) decoder symbols) ≡ true
unfolding is_complete all_decoded run collector joined add_symbol offer feed_block
all_solved = refl

decoder_recovers_example : assemble (run (collector toy.deserialize) decoder symbols) ≡ (
    if is_complete (run (collector toy.deserialize) decoder symbols)
    then some (take 190 (sources object 0 2))
    else none)
unfolding systematic
decoder_recovers_example =
    decoder_recovers (collector toy.deserialize) object decoder symbols
      (collector-IsSound toy.deserialize two_blocks packet) new_decoder
      (refl, (refl, (refl, (refl, tt))))

keeps_decoded_example :
    get_elem? (after_symbol toy halfway (Symbol.new 0 5 (replicate 64 9))).blocks 0 ≡ some solved
keeps_decoded_example =
    keeps_decoded toy halfway (Symbol.new 0 5 (replicate 64 9)) 0 solved (replicate 64 7) refl refl

validate_iff_example :
    (validate toy.deserialize two_blocks ≡ ok tt) ↔ IsValidMeta toy.deserialize two_blocks
validate_iff_example = validate_iff toy.deserialize two_blocks

new_iff_example :
    (Config.new 1024 ≡ ok Config.default)
    ↔ (IsSymbolSize 1024 × (Config.default.symbol_size ≡ 1024))
new_iff_example = new_iff 1024 Config.default

-- An encoder that makes one block of one packet, whatever it is given.
abbrev one_block : RqEncoder
one_block = record {
  oti_bytes = replicate 12 0;
  block_encoders =
      record { source_packets = replicate 64 5 ∷ List.[]; repair_packets = λ start count. List.[] }
      ∷ List.[];
}

abbrev encoder : Encoder
encoder = record {
  config = record { symbol_size = 64 };
  meta = record {
    transfer_length = 64;
    symbol_size = 64;
    oti_bytes = replicate 12 0;
    blocks = record { sbn = 0; num_source_symbols = 1; block_length = 64 } ∷ List.[];
  };
  blocks = one_block.block_encoders;
}

new_encoder :
    Encoder.new (λ bytes mtu. one_block) (replicate 64 5) (record { symbol_size = 64 }) ≡ ok encoder
unfolding Encoder.new from_encoder block_metas Config.new Config.mtu
new_encoder = refl

new-CanonicalBlocks_example :
    CanonicalBlocks 64 0 encoder.meta.blocks
    × length encoder.meta.blocks ≡ 1
    × encoder.meta.transfer_length ≡ 64
    × 0 < 64
new-CanonicalBlocks_example =
    new-CanonicalBlocks (λ bytes mtu. one_block) (replicate 64 5) (record { symbol_size = 64 })
      encoder (λ bytes mtu. (omega arith, ((omega arith, omega arith), tt))) new_encoder
