-- ===== src/Transfer/Schedule/Repair.antt =====
-- core/transfer-engine/src/sender.rs: the ids of `repair_symbol_id`.
use native.Mathlib.Nat.{div-add-mod}
use air_ferry_i_os_source.Prelude.{
  ℕ, zero, suc, ◌+◌, ◌*◌, ◌/◌, ◌%◌, ◌^◌, ◌<◌, ◌≡◌, ap, arith, List, ◌∷◌, some, length, get_elem?,
  Option-cases, inl, inr,
}
use air_ferry_i_os_source.Codec.Meta.{SourceBlockMeta}
use air_ferry_i_os_source.Codec.Meta.Valid.{CanonicalBlocks}
use air_ferry_i_os_source.Transfer.Schedule.{repair_symbol_id}
use air_ferry_i_os_source.Transfer.Schedule.Source.{k_at}

canonical-at :
    (t i j : ℕ) (blocks : List SourceBlockMeta) (b : SourceBlockMeta)
    → CanonicalBlocks t i blocks
    → get_elem? blocks j ≡ some b
    → (b.sbn ≡ i + j) × (b.num_source_symbols ≡ k_at blocks j)
canonical-at t i j List.[] b c e = cc
canonical-at t i zero (x ∷ blocks) b c e = ground arith
canonical-at t i (suc j) (x ∷ blocks) b c e =
    ground (arith, canonical-at t (i + 1) j blocks b c.1 e)

module _ (t : ℕ) (blocks : List SourceBlockMeta) (c : CanonicalBlocks t 0 blocks) where
  -- Over blocks in canonical order, a repair id that is given out names the block `cursor % n` and the
  -- symbol `cursor / n` places behind that block's source symbols, below 2 ^ 24.
  pub repair_id_form :
      (cursor s x : ℕ)
      → repair_symbol_id blocks cursor ≡ some (s, x)
      → (s ≡ cursor % length blocks) × (x ≡ k_at blocks s + cursor / length blocks) × (x < 2 ^ 24)
  unfolding repair_symbol_id
  repair_id_form cursor s x e =
      let j = cursor % length blocks in
      elim (Option-cases (get_elem? blocks j)) [
        | inl none_there ↦ ground (arith, none_there)
        | inr (b, there) ↦ ground (arith, there, canonical-at t 0 j blocks b c there)
      ]

  -- Over blocks in canonical order, no two cursors have the same repair id.
  pub repair_id_unique :
      (c1 c2 s x : ℕ)
      → repair_symbol_id blocks c1 ≡ some (s, x)
      → repair_symbol_id blocks c2 ≡ some (s, x)
      → c1 ≡ c2
  repair_id_unique c1 c2 s x e1 e2 =
      let (s1, x1, _) = repair_id_form c1 s x e1 in
      let (s2, x2, _) = repair_id_form c2 s x e2 in
      let q : c1 / length blocks ≡ c2 / length blocks = omega arith in
      let r : c1 % length blocks ≡ c2 % length blocks = omega arith in
      omega (
        arith,
        div-add-mod c1 (length blocks),
        div-add-mod c2 (length blocks),
        ap (λ (n : ℕ). length blocks * n) q,
      )
