-- ===== src/Codec/Meta/Valid.antt =====
-- core/raptorq-core/src/meta.rs: the metadata that `validate` is compared with, field by field.
use native.Mathlib.Nat.{zero-add}
use air_ferry_i_os_source.Prelude.{
  ℕ, ◌+◌, ◌*◌, ◌/◌, ◌%◌, ◌^◌, ◌≤◌, ◌<◌, ◌≡◌, ◌↔◌, arith, List, ◌∷◌, length, get_or, ok, bind_ok,
}
use air_ferry_i_os_source.Codec.Config.{IsSymbolSize}
use air_ferry_i_os_source.Codec.Meta.{
  SourceBlockMeta, ObjectMeta, Oti, check_blocks, check_totals, check_oti, check_counts, validate,
}

pub sum_k : List SourceBlockMeta → ℕ
sum_k List.[] = 0
sum_k (b ∷ blocks) = b.num_source_symbols + sum_k blocks

-- Blocks in canonical order, each with 1 to 56403 symbols and as many bytes as these take.
abbrev pub CanonicalBlocks : ℕ → ℕ → List SourceBlockMeta → Type 0
CanonicalBlocks t index List.[] = Unit {0}
CanonicalBlocks t index (b ∷ blocks) =
    ((b.sbn ≡ index)
      × (0 < b.num_source_symbols)
      × (b.num_source_symbols ≤ 56403)
      × (b.block_length ≡ b.num_source_symbols * t))
    × CanonicalBlocks t (index + 1) blocks

module _ (deserialize : List ℕ → Oti) (m : ObjectMeta) where
  abbrev oti : Oti
  oti = deserialize m.oti_bytes

  pub record OtiAgrees : Type 0 where
    pub symbol_size : IsSymbolSize m.symbol_size
    pub same_size : oti.symbol_size ≡ m.symbol_size
    pub same_length : oti.transfer_length ≡ m.transfer_length
    pub sub_blocks : 0 < oti.sub_blocks
    pub alignment : 0 < oti.symbol_alignment
    pub aligned : oti.symbol_size % oti.symbol_alignment ≡ 0
    pub units : oti.sub_blocks ≤ oti.symbol_size / oti.symbol_alignment
    pub reserved : get_or m.oti_bytes 5 0 ≡ 0

  pub record CountsInBudget : Type 0 where
    pub some_bytes : 0 < m.transfer_length
    pub object_budget : m.transfer_length ≤ 32 * 1024 * 1024
    pub some_blocks : 0 < length m.blocks
    pub block_budget : length m.blocks ≤ 255
    pub same_blocks : oti.source_blocks ≡ length m.blocks

  check_oti_iff : (check_oti deserialize m ≡ ok tt) ↔ OtiAgrees
  unfolding check_oti
  check_oti_iff = (λ e. ground arith, λ h. ground arith)

  check_counts_iff : (check_counts deserialize m ≡ ok tt) ↔ CountsInBudget
  unfolding check_counts
  check_counts_iff = (λ e. ground arith, λ h. ground arith)

-- What the loop accepts, and what its totals are.
check_blocks_sound :
    (t index : ℕ) (blocks : List SourceBlockMeta) (len k len' k' : ℕ)
    → check_blocks t index blocks len k ≡ ok (len', k')
    → CanonicalBlocks t index blocks × (len' ≡ len + sum_k blocks * t) × (k' ≡ k + sum_k blocks)
unfolding check_blocks sum_k
check_blocks_sound t index List.[] len k len' k' e = ground arith
check_blocks_sound t index (b ∷ blocks) len k len' k' e = ground (
  arith,
  check_blocks_sound t (index + 1) blocks (len + b.block_length) (k + b.num_source_symbols) len' k',
)

small_block : (k t : ℕ) → k ≤ 56403 → t ≤ 65528 → k * t < 2 ^ 32
small_block k t p q = grind arith

check_blocks_complete :
    (t index : ℕ) (blocks : List SourceBlockMeta) (len k : ℕ)
    → t ≤ 65528
    → len + 2 ^ 32 * length blocks < 2 ^ 64
    → k + 2 ^ 32 * length blocks < 2 ^ 64
    → CanonicalBlocks t index blocks
    → check_blocks t index blocks len k ≡ ok (len + sum_k blocks * t, k + sum_k blocks)
unfolding check_blocks sum_k
check_blocks_complete t index List.[] len k ht hl hk c = ground arith
check_blocks_complete t index (b ∷ blocks) len k ht hl hk c = ground (
  arith,
  small_block b.num_source_symbols t,
  check_blocks_complete t (index + 1) blocks (len + b.block_length) (k + b.num_source_symbols) ht,
)

module _ (m : ObjectMeta) where
  pub record TotalsInBudget : Type 0 where
    pub symbol_budget : sum_k m.blocks ≤ 524288
    pub decoder_budget :
        sum_k m.blocks * m.symbol_size ≤ 32 * 1024 * 1024 + m.symbol_size * length m.blocks
    pub covered : m.transfer_length ≤ sum_k m.blocks * m.symbol_size

  small_padding :
      m.symbol_size ≤ 65528 → length m.blocks ≤ 255 → m.symbol_size * length m.blocks < 2 ^ 32
  small_padding p q = grind arith

  check_totals_iff :
      m.symbol_size ≤ 65528
      → length m.blocks ≤ 255
      → (check_totals m (sum_k m.blocks * m.symbol_size) (sum_k m.blocks) ≡ ok tt) ↔ TotalsInBudget
  unfolding check_totals
  check_totals_iff ht hb =
      (λ e. ground (arith, small_padding ht hb), λ h. ground (arith, small_padding ht hb))

module _ (deserialize : List ℕ → Oti) (m : ObjectMeta) where
  -- The metadata that a decoder may be built from.
  pub record IsValidMeta : Type 0 where
    pub oti : OtiAgrees deserialize m
    pub counts : CountsInBudget deserialize m
    pub blocks : CanonicalBlocks m.symbol_size 0 m.blocks
    pub totals : TotalsInBudget m

  validate_sound : validate deserialize m ≡ ok tt → IsValidMeta
  unfolding validate
  validate_sound e =
      let (a, e1, r1) = bind_ok (check_oti deserialize m) _ e in
      let (b, e2, r2) = bind_ok (check_counts deserialize m) _ r1 in
      let ((len, k), e3, r3) = bind_ok (check_blocks m.symbol_size 0 m.blocks 0 0) _ r2 in
      let oti = (check_oti_iff deserialize m).0 e1 in
      let counts = (check_counts_iff deserialize m).0 e2 in
      let (blocks, hl, hk) = check_blocks_sound m.symbol_size 0 m.blocks 0 0 len k e3 in
      let hl' : sum_k m.blocks * m.symbol_size ≡ len = omega arith in
      let hk' : sum_k m.blocks ≡ k = omega arith in
      let totals : TotalsInBudget m =
        (check_totals_iff m (omega arith) (omega arith)).0 (rw (hl', hk') r3) in
      record { oti = oti; counts = counts; blocks = blocks; totals = totals }

  validate_complete : IsValidMeta → validate deserialize m ≡ ok tt
  unfolding validate
  validate_complete v = rw (
    (check_oti_iff deserialize m).1 v.oti,
    (check_counts_iff deserialize m).1 v.counts,
    check_blocks_complete m.symbol_size 0 m.blocks 0 0 (omega arith) (omega arith) (omega arith)
        v.blocks,
    zero-add,
    zero-add,
    (check_totals_iff m (omega arith) (omega arith)).1 v.totals,
  )

-- `validate` passes exactly the metadata that fits the budgets and agrees with its OTI.
pub validate_iff :
    (deserialize : List ℕ → Oti) (m : ObjectMeta)
    → (validate deserialize m ≡ ok tt) ↔ IsValidMeta deserialize m
validate_iff deserialize m = (validate_sound deserialize m, validate_complete deserialize m)
