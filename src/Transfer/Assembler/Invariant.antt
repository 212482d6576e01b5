-- ===== src/Transfer/Assembler/Invariant.antt =====
-- core/transfer-engine/src/assembler.rs: well-formed assemblers, and the tests of `add_segment`.
use air_ferry_i_os_source.Prelude.{
  ℕ, zero, suc, ◌+◌, ◌*◌, ◌≤◌, ◌<◌, ◌≡◌, ◌∙◌, refl, arith, List, ◌∷◌, Option, none, some, Bool,
  length, get_or, replicate, set, ok, inl, inr, length-set, length-replicate, Option-cases,
  bytes_eq→eq,
}
use air_ferry_i_os_source.Transfer.Types.{FileMeta, SegmentMeta}
use air_ferry_i_os_source.Transfer.Segment.{segment_raw_bytes}
use air_ferry_i_os_source.Transfer.Assembler.{
  TransferAssembler, expected_segment_count, segment_raw_len, validate_segment_range, new, store,
  add_segment,
}

module _ {ℓ} {A : Type ℓ} where
  unfoldable pub count_some : List (Option A) → ℕ
  count_some List.[] = 0
  count_some (none ∷ xs) = count_some xs
  count_some (some x ∷ xs) = suc (count_some xs)

  pub count_some-set :
      (xs : List (Option A)) (i : ℕ) (v : A)
      → i < length xs
      → get_or xs i none ≡ none
      → count_some (set xs i (some v)) ≡ count_some xs + 1
  unfolding count_some
  count_some-set List.[] i v h e = absurd (omega arith)
  count_some-set (none ∷ xs) zero v h e = omega arith
  count_some-set (some x ∷ xs) zero v h e = cc
  count_some-set (none ∷ xs) (suc i) v h e = count_some-set xs i v (omega arith) e
  count_some-set (some x ∷ xs) (suc i) v h e = omega (arith, count_some-set xs i v (omega arith) e)

  pub count_some-le : (xs : List (Option A)) → count_some xs ≤ length xs
  unfolding count_some
  count_some-le List.[] = omega arith
  count_some-le (none ∷ xs) = omega (arith, count_some-le xs)
  count_some-le (some x ∷ xs) = omega (arith, count_some-le xs)

pub count_some-replicate {ℓ} : (A : Type ℓ) (n : ℕ) → count_some {A = A} (replicate n none) ≡ 0
unfolding count_some
count_some-replicate A zero = refl
count_some-replicate A (suc n) = count_some-replicate A n

-- One slot for each segment, the counter counts the filled ones, and the slots just cover the stream.
pub record IsValid (a : TransferAssembler) : Type 0 where
  pub slots : length a.segments ≡ a.total_segments
  pub metas : length a.meta ≡ a.total_segments
  pub counted : a.received_count ≡ count_some a.segments
  pub in_budget : a.total_segments ≤ 131072
  pub covers : a.root_compressed_size ≤ a.total_segments * segment_raw_bytes
  pub tight : a.total_segments * segment_raw_bytes < a.root_compressed_size + segment_raw_bytes

-- What the tests of `add_segment` establish about a segment.
pub record IsAdmissible (sha256 : List ℕ → List ℕ) (a : TransferAssembler) (seg : SegmentMeta)
    (f : FileMeta) (bytes : List ℕ) : Type 0 where
  pub root : seg.root_session_id ≡ a.root_session_id
  pub count : seg.segment_count ≡ a.total_segments
  pub root_digest : seg.root_sha256 ≡ a.root_sha256
  pub name : f.filename ≡ a.filename
  pub index : seg.segment_index < a.total_segments
  pub root_size : seg.root_original_size ≡ a.root_compressed_size
  pub offset : seg.original_offset ≡ seg.segment_index * segment_raw_bytes
  pub size : length bytes ≡ f.compressed_size
  pub in_slot : length bytes ≤ segment_raw_len a.root_compressed_size seg.segment_index
  pub digest : sha256 bytes ≡ seg.raw_sha256

pub new-IsValid :
    (reserve : ℕ → Bool) (seg : SegmentMeta) (f : FileMeta) (a : TransferAssembler)
    → new reserve seg f ≡ ok a
    → IsValid a
unfolding new expected_segment_count
new-IsValid reserve seg f a e =
    let no_bytes : Option (List ℕ) = none in
    let no_meta : Option SegmentMeta = none in
    ground (
      arith,
      length-replicate seg.segment_count no_bytes,
      length-replicate seg.segment_count no_meta,
      count_some-replicate (List ℕ) seg.segment_count,
    )

range_inv :
    (seg : SegmentMeta) (f : FileMeta) (root_size : ℕ)
    → validate_segment_range seg f root_size ≡ ok tt
    → (seg.segment_index < seg.segment_count)
      × (seg.root_original_size ≡ root_size)
      × (seg.original_offset ≡ seg.segment_index * segment_raw_bytes)
      × (f.compressed_size ≤ segment_raw_len root_size seg.segment_index)
unfolding validate_segment_range
range_inv seg f root_size e = ground arith

pub fill-IsValid :
    (a : TransferAssembler) (i : ℕ) (bytes : List ℕ) (seg : SegmentMeta)
    → IsValid a
    → i < a.total_segments
    → get_or a.segments i none ≡ none
    → IsValid (record a {
      segments = set a.segments i (some bytes);
      meta = set a.meta i (some seg);
      received_count = a.received_count + 1;
    })
fill-IsValid a i bytes seg v h free = record {
  slots = length-set a.segments i (some bytes) ∙ v.slots;
  metas = length-set a.meta i (some seg) ∙ v.metas;
  counted =
      omega (arith, v.counted, count_some-set a.segments i bytes (omega (arith, v.slots)) free);
  in_budget = v.in_budget;
  covers = v.covers;
  tight = v.tight;
}

module _ (sha256 : List ℕ → List ℕ) (a : TransferAssembler) (seg : SegmentMeta) (f : FileMeta)
    (bytes : List ℕ) where
  pub add_segment_inv :
      {a' : TransferAssembler} {fresh : Bool}
      → add_segment sha256 a seg f bytes ≡ ok (a', fresh)
      → IsAdmissible sha256 a seg f bytes
        × (store a seg bytes (get_or a.segments seg.segment_index none) ≡ ok (a', fresh))
  unfolding add_segment
  add_segment_inv e = ground (
    arith,
    range_inv seg f a.root_compressed_size,
    bytes_eq→eq seg.root_sha256 a.root_sha256,
    bytes_eq→eq f.filename a.filename,
    bytes_eq→eq (sha256 bytes) seg.raw_sha256,
  )

  store-IsValid :
      {a' : TransferAssembler} {fresh : Bool}
      → IsValid a
      → seg.segment_index < a.total_segments
      → store a seg bytes (get_or a.segments seg.segment_index none) ≡ ok (a', fresh)
      → IsValid a'
  unfolding store
  store-IsValid v h e = elim (Option-cases (get_or a.segments seg.segment_index none)) [
    | inl free ↦
        let n = count_some-set a.segments seg.segment_index bytes (omega (arith, v.slots)) free in
        ground (
          arith,
          free,
          n,
          length-set a.segments seg.segment_index (some bytes),
          length-set a.meta seg.segment_index (some seg),
        )
    | inr (old, taken) ↦ ground (arith, taken)
  ]

  -- Every segment that a valid assembler takes in, new or a repeat, leaves a valid assembler.
  pub add_segment-IsValid :
      {a' : TransferAssembler} {fresh : Bool}
      → IsValid a
      → add_segment sha256 a seg f bytes ≡ ok (a', fresh)
      → IsValid a'
  add_segment-IsValid v e = let (adm, st) = add_segment_inv e in store-IsValid v adm.index st
