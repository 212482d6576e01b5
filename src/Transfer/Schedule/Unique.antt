-- ===== src/Transfer/Schedule/Unique.antt =====
-- core/transfer-engine/src/sender.rs: the ids that `next_symbol_id` gives out over a session.
use mathlib.Core.Option.{some-injective}
use air_ferry_i_os_source.Prelude.{
  ℕ, zero, suc, ◌+◌, ◌^◌, ◌≤◌, ◌<◌, ◌≡◌, ◌≢◌, ◌⊎◌, ◌∙◌, refl, sym, ap, inl, inr, arith, List, ◌∷◌,
  none, some, get_elem?, All, ltb, Option-cases, Bool-cases,
}
use air_ferry_i_os_source.Codec.Meta.{SourceBlockMeta, ObjectMeta}
use air_ferry_i_os_source.Codec.Meta.Valid.{CanonicalBlocks}
use air_ferry_i_os_source.Transfer.Schedule.{
  Pair, build_source_plan, repair_symbol_id, Cursors, next_repair, next_symbol_id,
}
use air_ferry_i_os_source.Transfer.Schedule.Source.{count, k_at, source_plan_exact}
use air_ferry_i_os_source.Transfer.Schedule.Repair.{repair_id_form, repair_id_unique}

-- The ids of the next `n` calls, up to the first error.
unfoldable pub emitted : List Pair → List SourceBlockMeta → ℕ → Cursors → List Pair
unfolding next_symbol_id
emitted plan blocks zero c = List.[]
emitted plan blocks (suc n) c = elim (next_symbol_id plan blocks c) [
  | none ↦ List.[]
  | some (id, c') ↦ id ∷ emitted plan blocks n c'
]

abbrev pub Distinct : List Pair → Type 0
Distinct List.[] = Unit {0}
Distinct (p ∷ ps) = All (λ q. p ≢ q) ps × Distinct ps

count_one : (s x : ℕ) (ps : List Pair) (i : ℕ) → get_elem? ps i ≡ some (s, x) → 1 ≤ count s x ps
unfolding count
count_one s x List.[] i e = cc
count_one s x ((a, b) ∷ ps) zero e =
    let l : a ≡ s = ap (λ p. p.0) (some-injective _ _ e) in
    let r : b ≡ x = ap (λ p. p.1) (some-injective _ _ e) in ground arith
count_one s x ((a, b) ∷ ps) (suc i) e = let k = count_one s x ps i e in ground arith

count_two :
    (s x : ℕ) (ps : List Pair) (i j : ℕ)
    → i < j
    → get_elem? ps i ≡ some (s, x)
    → get_elem? ps j ≡ some (s, x)
    → 2 ≤ count s x ps
unfolding count
count_two s x List.[] i j lt e f = cc
count_two s x ((a, b) ∷ ps) i zero lt e f = absurd (omega arith)
count_two s x ((a, b) ∷ ps) zero (suc j) lt e f =
    let l : a ≡ s = ap (λ p. p.0) (some-injective _ _ e) in
    let r : b ≡ x = ap (λ p. p.1) (some-injective _ _ e) in
    let k = count_one s x ps j f in ground arith
count_two s x ((a, b) ∷ ps) (suc i) (suc j) lt e f =
    let k = count_two s x ps i j (omega arith) e f in ground arith

module _ (t : ℕ) (meta : ObjectMeta) (c : CanonicalBlocks t 0 meta.blocks) where
  plan_lt :
      (i s x : ℕ) → get_elem? (build_source_plan meta) i ≡ some (s, x) → x < k_at meta.blocks s
  plan_lt i s x e =
      let one = count_one s x (build_source_plan meta) i e in
      let exact = source_plan_exact t meta s x c in ground arith

  plan_distinct :
      (i j s x : ℕ)
      → i < j
      → get_elem? (build_source_plan meta) i ≡ some (s, x)
      → get_elem? (build_source_plan meta) j ≡ some (s, x)
      → ⊥
  plan_distinct i j s x lt e f =
      let two = count_two s x (build_source_plan meta) i j lt e f in
      let exact = source_plan_exact t meta s x c in ground arith

  -- What can still come once the cursors stand at `i` and `r`.
  abbrev Later : ℕ → ℕ → Pair → Type 0
  Later i r p =
      ((j : ℕ) × (i ≤ j) × (get_elem? (build_source_plan meta) j ≡ some p))
      ⊎ ((q : ℕ) × (r ≤ q) × (repair_symbol_id meta.blocks q ≡ some p))

  source_ne_repair :
      (j q : ℕ) (p : Pair)
      → get_elem? (build_source_plan meta) j ≡ some p
      → repair_symbol_id meta.blocks q ≡ some p
      → ⊥
  source_ne_repair j q (s, x) e f =
      let lt = plan_lt j s x e in
      let (_, above, _) = repair_id_form t meta.blocks c q s x f in omega arith

  Later-weaken : (i i' r r' : ℕ) (p : Pair) → i ≤ i' → r ≤ r' → Later i' r' p → Later i r p
  Later-weaken i i' r r' p a b (inl (j, le, e)) = inl (j, omega arith, e)
  Later-weaken i i' r r' p a b (inr (q, le, e)) = inr (q, omega arith, e)

  All-weaken :
      (i i' r r' : ℕ) (ps : List Pair) → i ≤ i' → r ≤ r' → All (Later i' r') ps → All (Later i r) ps
  All-weaken i i' r r' List.[] a b h = tt
  All-weaken i i' r r' (p ∷ ps) a b h =
      (Later-weaken i i' r r' p a b h.0, All-weaken i i' r r' ps a b h.1)

  -- A source symbol at `i` differs from all that comes behind it.
  source_fresh :
      (i r : ℕ) (p : Pair) (ps : List Pair)
      → get_elem? (build_source_plan meta) i ≡ some p
      → All (Later (i + 1) r) ps
      → All (λ q. p ≢ q) ps
  source_fresh i r p List.[] e h = tt
  source_fresh i r p (q ∷ ps) e (inl (j, le, f), h) = (
    λ same. plan_distinct i j p.0 p.1 (omega arith) e (f ∙ ap some (sym same)),
    source_fresh i r p ps e h,
  )
  source_fresh i r p (q ∷ ps) e (inr (k, le, f), h) =
      (λ same. source_ne_repair i k p e (f ∙ ap some (sym same)), source_fresh i r p ps e h)

  -- A repair symbol at `r`, behind the plan, differs from all that comes behind it.
  repair_fresh :
      (i r : ℕ) (p : Pair) (ps : List Pair)
      → repair_symbol_id meta.blocks r ≡ some p
      → All (Later i (r + 1)) ps
      → All (λ q. p ≢ q) ps
  repair_fresh i r p List.[] e h = tt
  repair_fresh i r p (q ∷ ps) e (inl (j, le, f), h) =
      (λ same. source_ne_repair j r p (f ∙ ap some (sym same)) e, repair_fresh i r p ps e h)
  repair_fresh i r p (q ∷ ps) e (inr (k, le, f), h) = (
    λ same.
        (let equal = repair_id_unique t meta.blocks c r k p.0 p.1 e (f ∙ ap some (sym same)) in
          omega arith),
    repair_fresh i r p ps e h,
  )

  next_symbol_id-cases :
      (i r : ℕ)
      → (next_symbol_id
            (build_source_plan meta)
            meta.blocks
            (record { source_cursor = i; repair_cursor = r })
          ≡ none)
        ⊎ (((p : Pair) × (get_elem? (build_source_plan meta) i ≡ some p)
              × (next_symbol_id
                    (build_source_plan meta)
                    meta.blocks
                    (record { source_cursor = i; repair_cursor = r })
                  ≡ some (p, record { source_cursor = i + 1; repair_cursor = r })))
            ⊎ ((p : Pair) × (repair_symbol_id meta.blocks r ≡ some p)
                × (next_symbol_id
                      (build_source_plan meta)
                      meta.blocks
                      (record { source_cursor = i; repair_cursor = r })
                    ≡ some (p, record { source_cursor = i; repair_cursor = r + 1 }))))
  unfolding next_symbol_id next_repair
  next_symbol_id-cases i r = elim (Option-cases (get_elem? (build_source_plan meta) i)) [
    | inr (p, e) ↦ inr (inl (p, e, rw (next_symbol_id, e) refl))
    | inl n ↦ elim (Option-cases (repair_symbol_id meta.blocks r)) [
      | inl m ↦ inl (rw (next_symbol_id, n, next_repair, m) refl)
      | inr (p, e) ↦ elim (Bool-cases (ltb (r + 1) (2 ^ 64))) [
        | inl y ↦ inr (inr (p, e, rw (next_symbol_id, n, next_repair, e, y) refl))
        | inr y ↦ inl (rw (next_symbol_id, n, next_repair, e, y) refl)
      ]
    ]
  ]

  emitted-Later :
      (n i r : ℕ)
      → All (Later i r) (
          emitted
            (build_source_plan meta)
            meta.blocks
            n
            (record { source_cursor = i; repair_cursor = r }))
        × Distinct (
            emitted
              (build_source_plan meta)
              meta.blocks
              n
              (record { source_cursor = i; repair_cursor = r }))
  unfolding emitted
  emitted-Later zero i r = (tt, tt)
  emitted-Later (suc n) i r = elim (next_symbol_id-cases i r) [
    | inl e ↦ rw (emitted, e) (tt, tt)
    | inr (inl (p, e, step)) ↦
        let (later, distinct) = emitted-Later n (i + 1) r in
        rw (emitted, step)
          (
            (inl (i, omega arith, e), All-weaken i (i + 1) r r _ (omega arith) (omega arith) later),
            (source_fresh i r p _ e later, distinct),
          )
    | inr (inr (p, e, step)) ↦
        let (later, distinct) = emitted-Later n i (r + 1) in
        rw (emitted, step)
          (
            (inr (r, omega arith, e), All-weaken i i r (r + 1) _ (omega arith) (omega arith) later),
            (repair_fresh i r p _ e later, distinct),
          )
  ]

  -- Over blocks in canonical order, a session that starts with both cursors at zero gives out no symbol id
  -- twice, among source and repair symbols alike, however long it runs.
  pub emitted-Distinct :
      (n : ℕ)
      → Distinct (
          emitted
            (build_source_plan meta)
            meta.blocks
            n
            (record { source_cursor = 0; repair_cursor = 0 }))
  emitted-Distinct n = (emitted-Later n 0 0).1
