-- ===== src/Protocol/Qr/Smallest.antt =====
-- core/qr-protocol/src/qr_render.rs: which version `encode` chooses.
use air_ferry_i_os_source.Prelude.{
  ℕ, zero, suc, ◌+◌, ◌-◌, ◌≤◌, ◌<◌, ◌≡◌, ◌&&◌, refl, sym, ap, arith, List, ◌∷◌, Option, none, some,
  false, Bool-cases, Option-cases, inl, inr, ◌⊎◌, length, leb, get_or, ok, err, ok-injective,
  le-or-lt, Bool, true,
}
use mathlib.Core.Path.{subst}
use native.Mathlib.Nat.{le_trans}
use mathlib.Core.Option.{some-injective}
use air_ferry_i_os_source.Protocol.{Error}
use air_ferry_i_os_source.Protocol.Qr.{
  QrCode, QrMatrix, matrix_of, encode, walk, found, min_version_for, position_from,
  qr_byte_capacity_l,
}

-- What the version `v` holds.
abbrev pub capacity : ℕ → ℕ
capacity v = get_or qr_byte_capacity_l (v - 1) 0

all_below :
    (len cap : ℕ) (caps : List ℕ) (i : ℕ)
    → leb len cap ≡ false
    → ((j : ℕ) → j < i → get_or caps j 0 < len)
    → (j : ℕ) → j < suc i
    → get_or (cap ∷ caps) j 0 < len
all_below len cap caps i n below zero h = ground arith
all_below len cap caps i n below (suc j) h = below j (omega arith)

-- The answer is the first of the table that holds `len` bytes.
position_from_inv :
    (len v start : ℕ) (caps : List ℕ)
    → position_from len v caps ≡ some start
    → (i : ℕ) × (start ≡ v + i)
      × (i < length caps)
      × (len ≤ get_or caps i 0)
      × ((j : ℕ) → j < i → get_or caps j 0 < len)
unfolding position_from
position_from_inv len v start List.[] e = absurd (let k = e in cc)
position_from_inv len v start (cap ∷ caps) e = elim (Bool-cases (leb len cap)) [
  | inl y ↦
      let k = some-injective _ _ (rw y at e) in
      (0, omega (arith, k), omega arith, ground arith, λ j h. absurd (omega arith))
  | inr n ↦
      let (i, at, within, holds, below) = position_from_inv len (suc v) start caps (rw n at e) in
      (suc i, omega (arith, at), omega (arith, within), holds, all_below len cap caps i n below)
]

position_from-none :
    (len v : ℕ) (caps : List ℕ)
    → position_from len v caps ≡ none
    → (j : ℕ) → j < length caps
    → get_or caps j 0 < len
unfolding position_from
position_from-none len v List.[] e = λ j h. absurd (omega arith)
position_from-none len v (cap ∷ caps) e = elim (Bool-cases (leb len cap)) [
  | inl y ↦ absurd (let k = rw y at e in cc)
  | inr n ↦ all_below len cap caps (length caps) n (position_from-none len (suc v) caps (rw n at e))
]

ascending : List ℕ → Bool
ascending List.[] = true
ascending (cap ∷ caps) = leb cap (get_or caps 0 cap) && ascending caps

ascending-next :
    (caps : List ℕ) (i : ℕ)
    → ascending caps ≡ true
    → suc i < length caps
    → get_or caps i 0 ≤ get_or caps (suc i) 0
unfolding ascending
ascending-next List.[] i a h = absurd (omega arith)
ascending-next (cap ∷ List.[]) i a h = absurd (omega arith)
ascending-next (cap ∷ (next ∷ caps)) zero a h = ground arith
ascending-next (cap ∷ (next ∷ caps)) (suc i) a h =
    ascending-next (next ∷ caps) i (ground arith) (omega arith)

ascending-le :
    (caps : List ℕ) (i j : ℕ)
    → ascending caps ≡ true
    → i ≤ j
    → j < length caps
    → get_or caps i 0 ≤ get_or caps j 0
ascending-le caps i zero a le h = let same : i ≡ 0 = omega arith in rw same (omega arith)
ascending-le caps i (suc j) a le h = elim (le-or-lt i j) [
  | inl near ↦
      let before = ascending-le caps i j a near (omega arith) in
      let last = ascending-next caps j a h in omega (arith, before, last)
  | inr far ↦ let same : i ≡ suc j = omega arith in rw same (omega arith)
]

-- A larger version holds more.
capacity-le : (v w : ℕ) → 0 < v → v ≤ w → w ≤ 40 → capacity v ≤ capacity w
unfolding ascending
capacity-le v w pos le top =
    ascending-le qr_byte_capacity_l (v - 1) (w - 1) refl (omega arith) (omega arith)

module _ (build : (version : ℕ) → List ℕ → Option QrCode) (bytes : List ℕ) where
  -- The code of version `v`, which holds the bytes, and whose lower versions are too small or refused by the builder.
  abbrev pub IsSmallest : QrMatrix → ℕ → Type 0
  IsSmallest m v =
      (0 < v)
      × (v ≤ 40)
      × (length bytes ≤ capacity v)
      × ((code : QrCode) × (build v bytes ≡ some code) × (m ≡ matrix_of code))
      × ((w : ℕ) → 0 < w → w < v → (capacity w < length bytes) ⊎ (build w bytes ≡ none))

  refused :
      (v w : ℕ)
      → build v bytes ≡ none
      → ((u : ℕ) → suc v ≤ u → u < w → build u bytes ≡ none)
      → (u : ℕ) → v ≤ u
      → u < w
      → build u bytes ≡ none
  refused v w b below u le lt = elim (le-or-lt (suc v) u) [
    | inl more ↦ below u more lt
    | inr less ↦ let same : u ≡ v = omega arith in rw same b
  ]

  walk_inv :
      (n v : ℕ) (m : QrMatrix)
      → walk build n v bytes ≡ some m
      → (w : ℕ) × (v ≤ w)
        × (w < v + n)
        × ((code : QrCode) × (build w bytes ≡ some code) × (m ≡ matrix_of code))
        × ((u : ℕ) → v ≤ u → u < w → build u bytes ≡ none)
  unfolding walk
  walk_inv zero v m e = absurd (let k = e in cc)
  walk_inv (suc n) v m e = elim (Option-cases (build v bytes)) [
    | inr (code, b) ↦
        let k = some-injective _ _ (rw (walk, b) at e) in
        (v, omega arith, omega arith, (code, b, sym k), λ u le lt. absurd (omega arith))
    | inl b ↦
        let (w, le, lt, made, below) = walk_inv n (suc v) m (rw (walk, b) at e) in
        (w, omega (arith, le), omega (arith, lt), made, refused v w b below)
  ]

  walk-none :
      (n v : ℕ) → walk build n v bytes ≡ none → (w : ℕ) → v ≤ w → w < v + n → build w bytes ≡ none
  unfolding walk
  walk-none zero v e w le lt = absurd (omega arith)
  walk-none (suc n) v e w le lt = elim (Option-cases (build v bytes)) [
    | inr (code, b) ↦ absurd (let k = rw (walk, b) at e in cc)
    | inl b ↦
        refused v (v + suc n) b
          (λ u le lt. walk-none n (suc v) (rw (walk, b) at e) u le (omega arith)) w le lt
  ]

  too_small :
      (start : ℕ)
      → min_version_for (length bytes) ≡ some start
      → (0 < start)
        × (start ≤ 40)
        × (length bytes ≤ capacity start)
        × ((w : ℕ) → 0 < w → w < start → capacity w < length bytes)
  unfolding min_version_for
  too_small start s =
      let (i, at, within, holds, below) =
        position_from_inv (length bytes) 1 start qr_byte_capacity_l s in
      let here : i ≡ start - 1 = omega (arith, at) in
      (
        omega (arith, at),
        omega (arith, at, within),
        subst (λ k. length bytes ≤ get_or qr_byte_capacity_l k 0) here holds,
        λ w pos lt. below (w - 1) (omega (arith, at)),
      )

  found_ok : (r : Option QrMatrix) (m : QrMatrix) → found build bytes r ≡ ok m → r ≡ some m
  unfolding found
  found_ok (some m') m e = ap some (ok-injective e)
  found_ok none m e = absurd (let k = e in cc)

  found_err : (r : Option QrMatrix) (x : Error) → found build bytes r ≡ err x → r ≡ none
  unfolding found
  found_err (some m') x e = absurd (let k = e in cc)
  found_err none x e = refl

  smallest :
      (m : QrMatrix) (start : ℕ)
      → min_version_for (length bytes) ≡ some start
      → encode build bytes ≡ ok m
      → (v : ℕ) × IsSmallest m v
  unfolding encode
  smallest m start s e =
      let (pos, le, holds, below) = too_small start s in
      let r = found_ok (walk build (41 - start) start bytes) m (rw (encode, s) at e) in
      let (v, above, within, made, refuses) = walk_inv (41 - start) start m r in
      (
        v,
        (
          omega (arith, pos, above),
          omega (arith, le, within),
          le_trans holds (capacity-le start v pos above (omega (arith, le, within))),
          made,
          λ w p lt. elim (le-or-lt start w) [
            | inl far ↦ inr (refuses w far lt)
            | inr near ↦ inl (below w p near)
          ],
        ),
      )

  none_holds :
      min_version_for (length bytes) ≡ none → (w : ℕ) → 0 < w → w ≤ 40 → capacity w < length bytes
  unfolding min_version_for
  none_holds n w pos le =
      position_from-none (length bytes) 1 qr_byte_capacity_l n (w - 1) (omega arith)

  none_builds :
      (x : Error) (start : ℕ)
      → min_version_for (length bytes) ≡ some start
      → encode build bytes ≡ err x
      → (w : ℕ) → 0 < w
      → w ≤ 40
      → (capacity w < length bytes) ⊎ (build w bytes ≡ none)
  unfolding encode
  none_builds x start s e w pos le = elim (le-or-lt start w) [
    | inl far ↦
        let (pos', bound, holds, below) = too_small start s in
        let r = found_err (walk build (41 - start) start bytes) x (rw (encode, s) at e) in
        inr (walk-none (41 - start) start r w far (omega arith))
    | inr near ↦ let (pos', bound, holds, below) = too_small start s in inl (below w pos near)
  ]

  -- If `encode` answers a code, it is of the smallest version that is large enough for the bytes and that the builder
  -- accepts; if it fails, every version from 1 to 40 is too small or refused by the builder.
  pub encode_lem :
      ((m : QrMatrix) → encode build bytes ≡ ok m → (v : ℕ) × IsSmallest m v)
      × ((x : Error)
          → encode build bytes ≡ err x
          → (w : ℕ) → 0 < w
          → w ≤ 40
          → (capacity w < length bytes) ⊎ (build w bytes ≡ none))
  unfolding encode
  encode_lem = (
    λ m e. elim (Option-cases (min_version_for (length bytes))) [
      | inl n ↦ absurd (let k = rw (encode, n) at e in cc)
      | inr (start, s) ↦ smallest m start s e
    ],
    λ x e. elim (Option-cases (min_version_for (length bytes))) [
      | inl n ↦ λ w pos le. inl (none_holds n w pos le)
      | inr (start, s) ↦ none_builds x start s e
    ],
  )
