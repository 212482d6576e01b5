-- ===== src/Codec/Decoder.antt =====
-- core/raptorq-core/src/decoder.rs: one third-party decoder per source block, and what it has solved.
pub mod Stable
pub mod Genuine
use air_ferry_i_os_source.Prelude.{
  ℕ, zero, suc, ◌+◌, ◌%◌, ◌^◌, List, ◌∷◌, ◌++◌, Option, none, some, Bool, true, false, not, ◌&&◌,
  ◌||◌, length, get_or, get_elem?, set, take, map, ltb, leb, ◌==◌, if◌then◌else◌, Result, ok, err,
  ◌>>=◌, ◌>>◌, map_err,
}
use air_ferry_i_os_source.Codec.{Error, invalid_object_meta, block_out_of_range}
use air_ferry_i_os_source.Codec.Meta.{SourceBlockMeta, ObjectMeta, Oti, validate}
use air_ferry_i_os_source.Codec.Symbol.{Symbol}

-- The third-party `raptorq` decoder, over its state `S`: `deserialize` parses the OTI, `start` is
-- `SourceBlockDecoder::new`, and `decode` takes one packet in and says what it has solved, if anything.
pub record Raptor (S : Type 0) : Type 0 where
  pub deserialize : List ℕ → Oti
  pub start : ℕ → Oti → ℕ → S
  pub decode : S → ℕ → ℕ → List ℕ → S × Option (List ℕ)

pub record BlockState (S : Type 0) : Type 0 where
  pub decoder : S
  pub decoded : Option (List ℕ)

pub record Decoder (S : Type 0) : Type 0 where
  pub meta : ObjectMeta
  pub blocks : List (BlockState S)

abbrev pub is_some {ℓ} : {A : Type ℓ} → Option A → Bool
is_some none = false
is_some (some x) = true

abbrev k_of : Option SourceBlockMeta → ℕ
k_of none = 0
k_of (some b) = b.num_source_symbols

abbrev truncate : ℕ → Option (List ℕ) → Option (List ℕ)
truncate n none = none
truncate n (some out) = some (take n out)

module _ {S : Type 0} (rq : Raptor S) where
  abbrev pub fresh_block : Oti → SourceBlockMeta → BlockState S
  fresh_block oti b = record { decoder = rq.start (b.sbn % 256) oti b.block_length; decoded = none }

  unfoldable pub new : ObjectMeta → Result Error (Decoder S)
  new meta = do
    map_err invalid_object_meta (validate rq.deserialize meta)
    ok (record {
      meta = meta;
      blocks = map (fresh_block (rq.deserialize meta.oti_bytes)) meta.blocks;
    })

  -- `block.decoder.decode(packet)`, and `block.decoded` if that solves the block.
  unfoldable pub feed_block : BlockState S → ℕ → ℕ → List ℕ → BlockState S
  feed_block block sbn esi bytes =
      let (decoder, result) = rq.decode block.decoder sbn esi bytes in
      elim result [
        | some r ↦ record { decoder = decoder; decoded = some r }
        | none ↦ record { decoder = decoder; decoded = block.decoded }
      ]

module _ {S : Type 0} where
  -- `blocks.iter().all(|b| b.decoded.is_some())`
  unfoldable pub all_decoded : List (BlockState S) → Bool
  all_decoded List.[] = true
  all_decoded (b ∷ blocks) = is_some b.decoded && all_decoded blocks

  unfoldable pub is_complete : Decoder S → Bool
  unfolding all_decoded
  is_complete d = all_decoded d.blocks

  unfoldable pub count_decoded : List (BlockState S) → ℕ
  count_decoded List.[] = 0
  count_decoded (b ∷ blocks) =
      if is_some b.decoded then suc (count_decoded blocks) else count_decoded blocks

  unfoldable pub decoded_block_count : Decoder S → ℕ
  unfolding count_decoded
  decoded_block_count d = count_decoded d.blocks

  unfoldable pub block_progress : Decoder S → ℕ → Option ℕ
  block_progress d sbn = elim (get_elem? d.blocks sbn) [
    | none ↦ none
    | some b ↦ if is_some b.decoded then some (k_of (get_elem? d.meta.blocks sbn)) else none
  ]

  -- `out.extend_from_slice(b.decoded.as_ref().unwrap())`; `none` is the panic of `unwrap`.
  unfoldable pub concat_decoded : List (BlockState S) → List ℕ → Option (List ℕ)
  concat_decoded List.[] out = some out
  concat_decoded (b ∷ blocks) out = elim b.decoded [
    | none ↦ none
    | some bytes ↦ concat_decoded blocks (out ++ bytes)
  ]

  unfoldable pub assemble : Decoder S → Option (List ℕ)
  unfolding is_complete concat_decoded
  assemble d =
      if not (is_complete d)
      then none
      else truncate d.meta.transfer_length (concat_decoded d.blocks List.[])

-- The answer of `add_symbol`: the decoder is changed in place, and the object is complete or not.
module _ {S : Type 0} (rq : Raptor S) where
  unfoldable pub offer : Decoder S → Symbol → Option (BlockState S) → Decoder S
  unfolding feed_block
  offer d symbol none = d
  offer d symbol (some block) =
      if leb (2 ^ 24) symbol.id.esi || not (length symbol.bytes == d.meta.symbol_size)
      then d
      else if is_some block.decoded
      then d
      else record d {
        blocks =
            set d.blocks symbol.id.sbn
              (feed_block rq block (symbol.id.sbn % 256) symbol.id.esi symbol.bytes);
      }

  unfoldable pub add_symbol : Decoder S → Symbol → Result Error (Decoder S × Bool)
  unfolding offer is_complete
  add_symbol d symbol =
      let d' = offer d symbol (get_elem? d.blocks symbol.id.sbn) in
      if leb (length d.blocks) symbol.id.sbn
      then err (block_out_of_range symbol.id.sbn (length d.blocks))
      else ok (d', is_complete d')
