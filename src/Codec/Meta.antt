-- ===== src/Codec/Meta.antt =====
-- core/raptorq-core/src/meta.rs: the object metadata and its gate against hostile descriptors.
-- The third-party parser of the 12 OTI bytes is the parameter `deserialize`.
pub mod Valid
use air_ferry_i_os_source.Prelude.{
  ℕ, ◌+◌, ◌*◌, ◌/◌, ◌%◌, ◌^◌, List, ◌∷◌, Option, none, some, Bool, true, false, not, ◌&&◌, ◌||◌,
  bytes_eq, length, get_or, ltb, ◌==◌, if◌then◌else◌, String, Result, ok, err, ◌>>=◌, ◌>>◌,
  reject_if, is_err,
}
use air_ferry_i_os_source.Codec.Config

abbrev pub max_source_symbols_per_block : ℕ
max_source_symbols_per_block = 56403

abbrev pub max_source_blocks : ℕ
max_source_blocks = 256

abbrev pub max_object_bytes : ℕ
max_object_bytes = 32 * 1024 * 1024

abbrev pub max_original_bytes : ℕ
max_original_bytes = 256 * 1024 * 1024

abbrev pub max_total_source_symbols : ℕ
max_total_source_symbols = 524288

pub record SourceBlockMeta : Type 0 where
  pub sbn : ℕ
  pub num_source_symbols : ℕ
  pub block_length : ℕ

pub record ObjectMeta : Type 0 where
  pub transfer_length : ℕ
  pub symbol_size : ℕ
  pub oti_bytes : List ℕ
  pub blocks : List SourceBlockMeta

-- What `raptorq::ObjectTransmissionInformation` answers.
pub record Oti : Type 0 where
  pub transfer_length : ℕ
  pub symbol_size : ℕ
  pub source_blocks : ℕ
  pub sub_blocks : ℕ
  pub symbol_alignment : ℕ

-- `u64::checked_add` and `u64::checked_mul` with `ok_or`.
abbrev pub checked_u64 : ℕ → String → Result String ℕ
checked_u64 n e = if ltb n (2 ^ 64) then ok n else err e

-- The body of the loop over the blocks, with its two totals.
unfoldable pub check_blocks : ℕ → ℕ → List SourceBlockMeta → ℕ → ℕ → Result String (ℕ × ℕ)
check_blocks symbol_size index List.[] total_block_len total_k = ok (total_block_len, total_k)
check_blocks symbol_size index (b ∷ blocks) total_block_len total_k = do
  reject_if (not (b.sbn == index)) "block sbn must equal its canonical index"
  reject_if (b.num_source_symbols == 0 || ltb max_source_symbols_per_block b.num_source_symbols)
      "block K out of range"
  expect ← checked_u64 (b.num_source_symbols * symbol_size) "block_length overflow"
  reject_if (not (b.block_length == expect)) "block_length inconsistent with K*symbol_size"
  len ← checked_u64 (total_block_len + b.block_length) "total block length overflow"
  k ← checked_u64 (total_k + b.num_source_symbols) "total source symbol count overflow"
  check_blocks symbol_size (index + 1) blocks len k

-- The tests behind the loop.
unfoldable pub check_totals : ObjectMeta → ℕ → ℕ → Result String (Unit {0})
check_totals m total_block_len total_k = do
  reject_if (ltb max_total_source_symbols total_k)
      "total source symbol count exceeds local receiver budget"
  padding_budget ← checked_u64 (m.symbol_size * length m.blocks) "padding budget overflow"
  budget ← checked_u64 (max_object_bytes + padding_budget) "decoder byte budget overflow"
  reject_if (ltb budget total_block_len) "decoder bytes exceed local receiver budget"
  reject_if (ltb total_block_len m.transfer_length) "transfer_length exceeds total block bytes"

module _ (deserialize : List ℕ → Oti) where
  -- The tests in front of the loop: first those on the symbol size and the OTI.
  unfoldable pub check_oti : ObjectMeta → Result String (Unit {0})
  unfolding Config.new
  check_oti m =
      let oti = deserialize m.oti_bytes in
      do
        reject_if (is_err (Config.new m.symbol_size)) "symbol_size out of range"
        reject_if (oti.symbol_size == 0 || not (oti.symbol_size == m.symbol_size))
            "OTI symbol_size invalid or mismatched"
        reject_if (not (oti.transfer_length == m.transfer_length)) "OTI transfer_length mismatched"
        reject_if (oti.sub_blocks == 0 || oti.symbol_alignment == 0)
            "OTI sub-block/alignment must be non-zero"
        reject_if (not (oti.symbol_size % oti.symbol_alignment == 0))
            "OTI symbol_size is not alignment-divisible"
        reject_if (ltb (oti.symbol_size / oti.symbol_alignment) oti.sub_blocks)
            "OTI sub-block count exceeds aligned symbol units"
        reject_if (not (get_or m.oti_bytes 5 0 == 0)) "OTI reserved byte must be zero"

  -- Then those on the length of the object and the number of blocks.
  unfoldable pub check_counts : ObjectMeta → Result String (Unit {0})
  check_counts m = do
    reject_if (m.transfer_length == 0 || ltb max_object_bytes m.transfer_length)
        "transfer_length exceeds local receiver budget"
    reject_if
        (length m.blocks == 0
          || ltb max_source_blocks (length m.blocks)
          || ltb 255 (length m.blocks))
        "source block count out of range"
    reject_if (not ((deserialize m.oti_bytes).source_blocks == length m.blocks))
        "OTI source block count mismatched"

  unfoldable pub validate : ObjectMeta → Result String (Unit {0})
  validate m = do
    check_oti m
    check_counts m
    (total_block_len, total_k) ← check_blocks m.symbol_size 0 m.blocks 0 0
    check_totals m total_block_len total_k

-- The derived `==` of `SourceBlockMeta` and `ObjectMeta`.
unfoldable pub blocks_eq : List SourceBlockMeta → List SourceBlockMeta → Bool
blocks_eq List.[] List.[] = true
blocks_eq (a ∷ xs) (b ∷ ys) =
    (a.sbn == b.sbn)
    && ((a.num_source_symbols == b.num_source_symbols)
        && ((a.block_length == b.block_length) && blocks_eq xs ys))
blocks_eq _ _ = false

unfoldable pub meta_eq : ObjectMeta → ObjectMeta → Bool
unfolding blocks_eq
meta_eq a b =
    (a.transfer_length == b.transfer_length)
    && ((a.symbol_size == b.symbol_size)
        && (bytes_eq a.oti_bytes b.oti_bytes && blocks_eq a.blocks b.blocks))
