-- ===== src/Codec/Encoder/Layout.antt =====
-- core/raptorq-core/src/encoder.rs: the layout of the blocks in the published metadata.
use air_ferry_i_os_source.Prelude.{
  ℕ, ◌+◌, ◌^◌, ◌≤◌, ◌<◌, ◌≡◌, refl, arith, List, ◌∷◌, length, All, ok, ◌==◌, Bool-cases, inl, inr,
  bind_ok, ok-injective,
}
use air_ferry_i_os_source.Codec.Config
use air_ferry_i_os_source.Codec.Config.{Config, new_iff}
use air_ferry_i_os_source.Codec.Meta.Valid.{CanonicalBlocks}
use air_ferry_i_os_source.Codec.Encoder.{
  SourceBlock, RqEncoder, Encoder, block_metas, from_encoder, new,
}

-- RFC 6330 gives each block between 1 and 56403 source symbols.
abbrev pub IsRfcBlock : SourceBlock → Type 0
IsRfcBlock b = (0 < length b.source_packets) × (length b.source_packets ≤ 56403)

block_metas-CanonicalBlocks :
    (t i : ℕ) (blocks : List SourceBlock)
    → i + length blocks ≤ 2 ^ 32
    → All IsRfcBlock blocks
    → CanonicalBlocks t i (block_metas t i blocks)
unfolding block_metas
block_metas-CanonicalBlocks t i List.[] few h = tt
block_metas-CanonicalBlocks t i (b ∷ blocks) few ((some_packets, max), h) = (
  (omega arith, omega arith, omega arith, refl),
  block_metas-CanonicalBlocks t (i + 1) blocks (omega arith) h,
)

length-block_metas :
    (t i : ℕ) (blocks : List SourceBlock) → length (block_metas t i blocks) ≡ length blocks
unfolding block_metas
length-block_metas t i List.[] = refl
length-block_metas t i (b ∷ blocks) = omega (arith, length-block_metas t (i + 1) blocks)

-- If the third-party encoder makes at most 255 blocks, each with 1 to 56403 packets, then the metadata of
-- an encoder that `new` makes has its blocks in canonical order and as many as there are block encoders,
-- and its length is that of the data, which is not empty.
pub new-CanonicalBlocks :
    (with_defaults : List ℕ → ℕ → RqEncoder) (bytes : List ℕ) (config : Config) (e : Encoder)
    → ((bs : List ℕ) (mtu : ℕ)
        → length (with_defaults bs mtu).block_encoders ≤ 255
          × All IsRfcBlock (with_defaults bs mtu).block_encoders)
    → new with_defaults bytes config ≡ ok e
    → CanonicalBlocks config.symbol_size 0 e.meta.blocks
      × length e.meta.blocks ≡ length e.blocks
      × e.meta.transfer_length ≡ length bytes
      × 0 < length bytes
unfolding new from_encoder
new-CanonicalBlocks with_defaults bytes config e rfc built = elim (Bool-cases (length bytes == 0)) [
  | inl y ↦ absurd (let k = rw y at built in cc)
  | inr n ↦
      let (c, ec, rest) = bind_ok (Config.new config.symbol_size) _ (rw n at built) in
      let (mtu, em, fin) = bind_ok (Config.mtu c) _ rest in
      let size : c.symbol_size ≡ config.symbol_size = ((new_iff config.symbol_size c).0 ec).1 in
      let (few, each) = rfc bytes mtu in
      let encoders = (with_defaults bytes mtu).block_encoders in
      rw (← ok-injective fin, size)
        (
          block_metas-CanonicalBlocks config.symbol_size 0 encoders (omega arith) each,
          length-block_metas config.symbol_size 0 encoders,
          refl,
          ground arith,
        )
]
