-- ===== src/Codec/Decoder/Stable.antt =====
-- core/raptorq-core/src/decoder.rs: one call of `add_symbol`, by cases.
use native.Mathlib.Decide.{ℕ_discrete}
use air_ferry_i_os_source.Prelude.{
  ℕ, zero, suc, ◌^◌, ◌%◌, ◌⊎◌, ◌||◌, ◌==◌, not, ◌≤◌, ◌<◌, ◌≡◌, ◌∙◌, ◌≢◌, refl, sym, ap, arith, List,
  ◌∷◌, Option, none, some, length, get_elem?, set, ok, err, leb, length-set, Bool-cases,
  Option-cases, inl, inr,
}
use air_ferry_i_os_source.Codec.{block_out_of_range}
use air_ferry_i_os_source.Codec.Symbol.{Symbol}
use air_ferry_i_os_source.Codec.Decoder.{
  Raptor, BlockState, Decoder, is_complete, offer, add_symbol, feed_block,
}

module _ {ℓ} {A : Type ℓ} where
  pub get_elem?-set_self :
      (xs : List A) (i : ℕ) (v : A) → i < length xs → get_elem? (set xs i v) i ≡ some v
  get_elem?-set_self List.[] i v h = absurd (omega arith)
  get_elem?-set_self (x ∷ xs) zero v h = refl
  get_elem?-set_self (x ∷ xs) (suc i) v h = get_elem?-set_self xs i v (omega arith)

  pub get_elem?-set_ne :
      (xs : List A) (i j : ℕ) (v : A) → i ≢ j → get_elem? (set xs i v) j ≡ get_elem? xs j
  get_elem?-set_ne List.[] i j v h = refl
  get_elem?-set_ne (x ∷ xs) zero zero v h = absurd (h refl)
  get_elem?-set_ne (x ∷ xs) zero (suc j) v h = refl
  get_elem?-set_ne (x ∷ xs) (suc i) zero v h = refl
  get_elem?-set_ne (x ∷ xs) (suc i) (suc j) v h = get_elem?-set_ne xs i j v (λ e. h (ap suc e))

-- Writing what is there changes nothing.
module _ {ℓ} {A : Type ℓ} where
  pub get_elem?-lt : (xs : List A) (i : ℕ) {v : A} → get_elem? xs i ≡ some v → i < length xs
  get_elem?-lt List.[] i e = cc
  get_elem?-lt (x ∷ xs) zero e = omega arith
  get_elem?-lt (x ∷ xs) (suc i) e = omega (arith, get_elem?-lt xs i e)

clash :
    {S : Type 0} {a b : BlockState S} {r : List ℕ}
    → some a ≡ some b
    → a.decoded ≡ none
    → b.decoded ≡ some r
    → ⊥
clash e p q = cc

-- What `add_symbol` refuses is a block number out of range, and nothing else.
module _ {S : Type 0} (rq : Raptor S) (d : Decoder S) (symbol : Symbol) where
  pub add_symbol_in_range :
      symbol.id.sbn < length d.blocks
      → add_symbol rq d symbol
        ≡ ok (
          offer rq d symbol (get_elem? d.blocks symbol.id.sbn),
          is_complete (offer rq d symbol (get_elem? d.blocks symbol.id.sbn)),
        )
  unfolding add_symbol
  add_symbol_in_range h = ground arith

  pub add_symbol_out_of_range :
      length d.blocks ≤ symbol.id.sbn
      → add_symbol rq d symbol ≡ err (block_out_of_range symbol.id.sbn (length d.blocks))
  unfolding add_symbol
  add_symbol_out_of_range h = ground arith

  -- The state after the symbol, whether it was taken in or refused.
  unfoldable pub after_symbol : Decoder S
  after_symbol = offer rq d symbol (get_elem? d.blocks symbol.id.sbn)

  pub blocks-offer :
      (o : Option (BlockState S))
      → ((offer rq d symbol o).blocks ≡ d.blocks)
        ⊎ ((block : BlockState S) × (o ≡ some block)
            × (block.decoded ≡ none)
            × (symbol.id.esi < 2 ^ 24)
            × ((offer rq d symbol o).blocks
                ≡ set d.blocks symbol.id.sbn
                    (feed_block rq block (symbol.id.sbn % 256) symbol.id.esi symbol.bytes)))
  unfolding offer
  blocks-offer none = inl refl
  blocks-offer (some block) = elim (Option-cases block.decoded) [
    | inl e ↦
        elim (Bool-cases
          (leb (2 ^ 24) symbol.id.esi || not (length symbol.bytes == d.meta.symbol_size))) [
            | inl bad ↦ inl (rw bad)
            | inr fine ↦ inr (block, refl, e, ground arith, rw (fine, e))
          ]
    | inr (r, e) ↦ inl (ground (arith, e))
  ]

  pub meta-offer : (o : Option (BlockState S)) → (offer rq d symbol o).meta ≡ d.meta
  unfolding offer
  meta-offer none = refl
  meta-offer (some block) = ground arith

  length-after : length after_symbol.blocks ≡ length d.blocks
  unfolding after_symbol
  length-after = elim (blocks-offer (get_elem? d.blocks symbol.id.sbn)) [
    | inl e ↦ ap length e
    | inr (block, found, open_block, small, e) ↦ ap length e ∙ length-set d.blocks symbol.id.sbn _
  ]

  -- Whatever symbol is offered, a block that has been solved stays as it is.
  pub keeps_decoded :
      (i : ℕ) (b : BlockState S) (r : List ℕ)
      → get_elem? d.blocks i ≡ some b
      → b.decoded ≡ some r
      → get_elem? after_symbol.blocks i ≡ some b
  unfolding after_symbol
  keeps_decoded i b r found solved = elim (blocks-offer (get_elem? d.blocks symbol.id.sbn)) [
    | inl e ↦ ap (λ t. get_elem? t i) e ∙ found
    | inr (block, at, open_block, small, e) ↦ elim (ℕ_discrete symbol.id.sbn i) [
      | yes p ↦ absurd (clash (sym at ∙ ap (get_elem? d.blocks) p ∙ found) open_block solved)
      | no p ↦ ap (λ t. get_elem? t i) e ∙ get_elem?-set_ne d.blocks symbol.id.sbn i _ p ∙ found
    ]
  ]
