-- ===== src/Transfer/Assembler/Short.antt =====
-- core/transfer-engine/src/assembler.rs: segments that are shorter than their slots.
use native.Mathlib.Decide.{ℕ_discrete}
use air_ferry_i_os_source.Transfer.{Error}
use air_ferry_i_os_source.Transfer.Assembler.Stream.{none_ne_some}
use mathlib.Core.Option.{some-injective}
use air_ferry_i_os_source.Prelude.{
  ℕ, zero, suc, ◌+◌, ◌-◌, ◌*◌, ◌≤◌, ◌<◌, ◌≡◌, ◌∙◌, refl, ap, arith, List, ◌∷◌, ◌++◌, Option, none,
  some, Bool, true, false, length, get_or, set, ok, err, Result, sym, ◌⊎◌, get_or-set_self,
  get_or-set_ne, length-append, Option-cases, inl, inr,
}
use air_ferry_i_os_source.Transfer.Types.{FileMeta, SegmentMeta}
use air_ferry_i_os_source.Transfer.Segment.{segment_raw_bytes}
use air_ferry_i_os_source.Transfer.Assembler.{
  TransferAssembler, segment_raw_len, add_segment, store, concat_slots, reassemble,
}
use air_ferry_i_os_source.Transfer.Assembler.Invariant.{
  IsValid, add_segment_inv, add_segment-IsValid,
}

-- The i-th slot and those behind it hold no more than their canonical ranges.
abbrev pub Bounded : ℕ → ℕ → List (Option (List ℕ)) → Type 0
Bounded size i List.[] = Unit {0}
Bounded size i (none ∷ xs) = Bounded size (suc i) xs
Bounded size i (some b ∷ xs) = (length b ≤ segment_raw_len size i) × Bounded size (suc i) xs

abbrev sum_len : List (Option (List ℕ)) → ℕ
sum_len List.[] = 0
sum_len (none ∷ xs) = sum_len xs
sum_len (some b ∷ xs) = length b + sum_len xs

length-concat_slots :
    (xs : List (Option (List ℕ))) (out o : List ℕ)
    → concat_slots xs out ≡ some o
    → length o ≡ length out + sum_len xs
unfolding concat_slots
length-concat_slots List.[] out o e = ground arith
length-concat_slots (none ∷ xs) out o e = cc
length-concat_slots (some b ∷ xs) out o e =
    omega (arith, length-concat_slots xs (out ++ b) o e, length-append out b)

sum_len-le :
    (size i : ℕ) (xs : List (Option (List ℕ)))
    → Bounded size i xs
    → sum_len xs ≤ size - i * segment_raw_bytes
unfolding segment_raw_len
sum_len-le size i List.[] b = omega arith
sum_len-le size i (none ∷ xs) b = omega (arith, sum_len-le size (suc i) xs b)
sum_len-le size i (some x ∷ xs) b = omega (arith, sum_len-le size (suc i) xs b.1)

sum_len-lt :
    (size i j k : ℕ) (xs : List (Option (List ℕ))) {b : List ℕ}
    → k ≡ i + j
    → Bounded size i xs
    → get_or xs j none ≡ some b
    → length b < segment_raw_len size k
    → sum_len xs < size - i * segment_raw_bytes
unfolding segment_raw_len
sum_len-lt size i j k List.[] e bd g h = cc
sum_len-lt size i zero k (none ∷ xs) e bd g h = cc
sum_len-lt size i zero k (some x ∷ xs) {b} e bd g h =
    let same : length x ≡ length b = ap length (some-injective x b g) in
    omega (arith, sum_len-le size (suc i) xs bd.1)
sum_len-lt size i (suc j) k (none ∷ xs) e bd g h =
    omega (arith, sum_len-lt size (suc i) j k xs (omega arith) bd g h)
sum_len-lt size i (suc j) k (some x ∷ xs) e bd g h =
    omega (arith, sum_len-lt size (suc i) j k xs (omega arith) bd.1 g h)

Bounded-set :
    (size i j k : ℕ) (xs : List (Option (List ℕ))) (b : List ℕ)
    → k ≡ i + j
    → length b ≤ segment_raw_len size k
    → Bounded size i xs
    → Bounded size i (set xs j (some b))
Bounded-set size i j k List.[] b e h bd = tt
Bounded-set size i zero k (none ∷ xs) b e h bd =
    let same : k ≡ i = omega arith in (rw (← same) h, bd)
Bounded-set size i zero k (some x ∷ xs) b e h bd =
    let same : k ≡ i = omega arith in (rw (← same) h, bd.1)
Bounded-set size i (suc j) k (none ∷ xs) b e h bd =
    Bounded-set size (suc i) j k xs b (omega arith) h bd
Bounded-set size i (suc j) k (some x ∷ xs) b e h bd =
    (bd.0, Bounded-set size (suc i) j k xs b (omega arith) h bd.1)

-- The assembler is valid, its slots are bounded, and the slot `j` holds a short segment.
pub record HasShort (j : ℕ) (a : TransferAssembler) : Type 0 where
  pub valid : IsValid a
  pub bounded : Bounded a.root_compressed_size 0 a.segments
  pub bytes : List ℕ
  pub held : get_or a.segments j none ≡ some bytes
  pub short : length bytes < segment_raw_len a.root_compressed_size j

HasShort-blocks :
    (usize_max : ℕ) (reserve : ℕ → Bool) (j : ℕ) (a : TransferAssembler)
    → HasShort j a
    → reassemble usize_max reserve a ≡ none
unfolding reassemble
HasShort-blocks usize_max reserve j a s = elim (Option-cases (concat_slots a.segments List.[])) [
  | inl e ↦ ground (arith, e)
  | inr (o, e) ↦
      let len = length-concat_slots a.segments List.[] o e in
      let lt =
        sum_len-lt a.root_compressed_size 0 j j a.segments (omega arith) s.bounded s.held s.short in
      ground (arith, e, len, lt)
]

filled : TransferAssembler → SegmentMeta → List ℕ → TransferAssembler
filled a seg bytes = record a {
  segments = set a.segments seg.segment_index (some bytes);
  meta = set a.meta seg.segment_index (some seg);
  received_count = a.received_count + 1;
}

store_cases :
    (a : TransferAssembler) (seg : SegmentMeta) (bytes : List ℕ) {a' : TransferAssembler}
    {fresh : Bool} (slot : Option (List ℕ))
    → store a seg bytes slot ≡ ok (a', fresh)
    → ((a' ≡ a) × (fresh ≡ false)) ⊎ ((slot ≡ none) × (a' ≡ filled a seg bytes))
unfolding store filled
store_cases a seg bytes none e = inr (refl, ground arith)
store_cases a seg bytes (some old) e = inl (ground arith)

-- One arrival: a segment with its descriptor and its bytes.
abbrev pub Arrival : Type 0
Arrival = SegmentMeta × FileMeta × List ℕ

module _ (sha256 : List ℕ → List ℕ) where
  module _ (a : TransferAssembler) (seg : SegmentMeta) (f : FileMeta) (bytes : List ℕ)
      {a' : TransferAssembler} {fresh : Bool}
      (e : add_segment sha256 a seg f bytes ≡ ok (a', fresh)) where
    kept :
        (j : ℕ) {b : List ℕ}
        → get_or a.segments j none ≡ some b
        → get_or a'.segments j none ≡ some b
    unfolding filled
    kept j h =
        let (adm, st) = add_segment_inv sha256 a seg f bytes e in
        elim (store_cases a seg bytes (get_or a.segments seg.segment_index none) st) [
          | inl (same, _) ↦ rw same h
          | inr (free, new) ↦ elim (ℕ_discrete seg.segment_index j) [
            | yes p ↦ absurd (none_ne_some (sym free ∙ ap (λ k. get_or a.segments k none) p ∙ h))
            | no p ↦ rw new (get_or-set_ne a.segments seg.segment_index j (some bytes) none p ∙ h)
          ]
        ]

    bounded :
        Bounded a.root_compressed_size 0 a.segments
        → (a'.root_compressed_size ≡ a.root_compressed_size)
          × Bounded a'.root_compressed_size 0 a'.segments
    unfolding filled
    bounded h =
        let (adm, st) = add_segment_inv sha256 a seg f bytes e in
        elim (store_cases a seg bytes (get_or a.segments seg.segment_index none) st) [
          | inl (same, _) ↦ rw same (refl, h)
          | inr (free, new) ↦ rw new (
            refl,
            Bounded-set a.root_compressed_size 0 seg.segment_index seg.segment_index a.segments
                bytes (omega arith) adm.in_slot h,
          )
        ]

  -- The host offers the arrivals one after the other; what is refused changes nothing.
  abbrev after : TransferAssembler → Result Error (TransferAssembler × Bool) → TransferAssembler
  after a (ok (a', fresh)) = a'
  after a (err e) = a

  pub arrive : TransferAssembler → List Arrival → TransferAssembler
  arrive a List.[] = a
  arrive a ((seg, f, bytes) ∷ later) = arrive (after a (add_segment sha256 a seg f bytes)) later

  arrive-HasShort :
      (j : ℕ) (later : List Arrival) (a : TransferAssembler)
      → HasShort j a
      → HasShort j (arrive a later)
  unfolding arrive
  arrive-HasShort j List.[] a s = s
  arrive-HasShort j ((seg, f, bytes) ∷ later) a s =
      arrive-HasShort j later _ (step (add_segment sha256 a seg f bytes) refl)
    where
      step :
          (r : Result Error (TransferAssembler × Bool))
          → add_segment sha256 a seg f bytes ≡ r
          → HasShort j (after a r)
      step (err x) e = s
      step (ok (a', fresh)) e =
          let (same, bd) = bounded a seg f bytes e s.bounded in
          record {
            valid = add_segment-IsValid sha256 a seg f bytes s.valid e;
            bounded = bd;
            bytes = s.bytes;
            held = kept a seg f bytes e j s.held;
            short = rw same s.short;
          }

  -- Once a segment shorter than its slot has been stored, `reassemble` answers `none` for good,
  -- whatever arrives later, also when every segment has been counted.
  pub short_segment_blocks :
      (usize_max : ℕ) (reserve : ℕ → Bool) (a a' : TransferAssembler) (seg : SegmentMeta)
      (f : FileMeta) (bytes : List ℕ) (later : List Arrival)
      → IsValid a
      → Bounded a.root_compressed_size 0 a.segments
      → add_segment sha256 a seg f bytes ≡ ok (a', true)
      → length bytes < segment_raw_len a.root_compressed_size seg.segment_index
      → reassemble usize_max reserve (arrive a' later) ≡ none
  unfolding filled
  short_segment_blocks usize_max reserve a a' seg f bytes later v bd e short =
      let (adm, st) = add_segment_inv sha256 a seg f bytes e in
      let (same, bd') = bounded a seg f bytes e bd in
      let j = seg.segment_index in
      let held : get_or a'.segments j none ≡ some bytes =
        elim (store_cases a seg bytes (get_or a.segments j none) st) [
          | inl (_, stale) ↦ cc
          | inr (free, new) ↦
              rw new
                (get_or-set_self a.segments j (some bytes) none (omega (arith, v.slots, adm.index)))
        ] in
      HasShort-blocks usize_max reserve j (arrive a' later) (
        arrive-HasShort j later a' (record {
          valid = add_segment-IsValid sha256 a seg f bytes v e;
          bounded = bd';
          bytes = bytes;
          held = held;
          short = rw same short;
        }))
