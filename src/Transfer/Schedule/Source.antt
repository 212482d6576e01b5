-- ===== src/Transfer/Schedule/Source.antt =====
-- core/transfer-engine/src/sender.rs: the symbols of `build_source_plan`, counted.
use air_ferry_i_os_source.Prelude.{
  ℕ, zero, suc, ◌+◌, ◌≤◌, ◌<◌, ◌≡◌, refl, arith, List, ◌∷◌, ◌++◌, ◌&&◌, ltb, leb, ◌==◌,
  if◌then◌else◌,
}
use air_ferry_i_os_source.Codec.Meta.{SourceBlockMeta, ObjectMeta}
use air_ferry_i_os_source.Codec.Meta.Valid.{CanonicalBlocks}
use air_ferry_i_os_source.Transfer.Schedule.{Pair, row, rows, max_k, build_source_plan}

-- How often a symbol id stands in a plan.
unfoldable pub count : ℕ → ℕ → List Pair → ℕ
count s x List.[] = 0
count s x ((s', x') ∷ plan) =
    if (s == s') && (x == x') then suc (count s x plan) else count s x plan

pub count-append : (s x : ℕ) (p q : List Pair) → count s x (p ++ q) ≡ count s x p + count s x q
unfolding count
count-append s x List.[] q = omega arith
count-append s x ((s', x') ∷ p) q = ground (arith, count-append s x p q)

-- K of the j-th block, 0 behind the last.
abbrev pub k_at : List SourceBlockMeta → ℕ → ℕ
k_at List.[] j = 0
k_at (b ∷ blocks) zero = b.num_source_symbols
k_at (b ∷ blocks) (suc j) = k_at blocks j

count-row_below :
    (t i s x e : ℕ) (blocks : List SourceBlockMeta)
    → s < i
    → CanonicalBlocks t i blocks
    → count s x (row e blocks) ≡ 0
unfolding count row
count-row_below t i s x e List.[] h c = refl
count-row_below t i s x e (b ∷ blocks) h c =
    ground (arith, count-row_below t (i + 1) s x e blocks (omega arith) c.1)

count-row :
    (t i j s x e : ℕ) (blocks : List SourceBlockMeta)
    → s ≡ i + j
    → CanonicalBlocks t i blocks
    → count s x (row e blocks) ≡ (if (x == e) && ltb e (k_at blocks j) then 1 else 0)
unfolding count row
count-row t i j s x e List.[] h c = ground arith
count-row t i zero s x e (b ∷ blocks) h c =
    ground (arith, count-row_below t (i + 1) s x e blocks (omega arith) c.1)
count-row t i (suc j) s x e (b ∷ blocks) h c =
    ground (arith, count-row t (i + 1) j s x e blocks (omega arith) c.1)

count-rows :
    (t s x : ℕ) (blocks : List SourceBlockMeta)
    → CanonicalBlocks t 0 blocks
    → (n e : ℕ)
    → count s x (rows n e blocks)
      ≡ (if leb e x && (ltb x (e + n) && ltb x (k_at blocks s)) then 1 else 0)
unfolding rows count
count-rows t s x blocks c zero e = ground arith
count-rows t s x blocks c (suc n) e = ground (
  arith,
  count-append s x (row e blocks) (rows n (suc e) blocks),
  count-row t 0 s s x e blocks (omega arith) c,
  count-rows t s x blocks c n (suc e),
)

k_at-le-max_k : (blocks : List SourceBlockMeta) (j : ℕ) → k_at blocks j ≤ max_k blocks
unfolding max_k
k_at-le-max_k List.[] j = omega arith
k_at-le-max_k (b ∷ blocks) zero = omega arith
k_at-le-max_k (b ∷ blocks) (suc j) = omega (arith, k_at-le-max_k blocks j)

-- Over blocks in canonical order, the symbol `x` of block `s` stands in the source plan once if the
-- block has it, and else not at all.
pub source_plan_exact :
    (t : ℕ) (meta : ObjectMeta) (s x : ℕ)
    → CanonicalBlocks t 0 meta.blocks
    → count s x (build_source_plan meta) ≡ (if ltb x (k_at meta.blocks s) then 1 else 0)
unfolding build_source_plan
source_plan_exact t meta s x c =
    ground
      (arith, count-rows t s x meta.blocks c (max_k meta.blocks) 0, k_at-le-max_k meta.blocks s)
