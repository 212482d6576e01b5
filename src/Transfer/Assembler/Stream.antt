-- ===== src/Transfer/Assembler/Stream.antt =====
-- core/transfer-engine/src/assembler.rs: a stream, its pieces, and an assembler that tracks them.
use air_ferry_i_os_source.Prelude.{
  ℕ, zero, suc, ◌+◌, ◌*◌, ◌≤◌, ◌<◌, ◌≡◌, ◌⊎◌, refl, sym, ap, ◌∙◌, arith, List, ◌∷◌, Option, none,
  some, Bool, length, get_or, set, take, drop, ok, err, inl, inr, bytes_eq_refl, Result, map_err,
  length-take-min, length-drop, get_or-set_self, get_or-set_ne,
}
use native.Mathlib.Decide.{ℕ_discrete}
use air_ferry_i_os_source.Transfer.{Error, invalid_segment}
use air_ferry_i_os_source.Transfer.Types.{FileMeta, SegmentMeta, segment_eq_refl}
use air_ferry_i_os_source.Transfer.Segment.{segment_raw_bytes}
use air_ferry_i_os_source.Transfer.Assembler.{
  TransferAssembler, expected_segment_count, segment_raw_len, validate_segment_range, store,
  add_segment,
}
use air_ferry_i_os_source.Transfer.Assembler.Invariant.{IsValid, fill-IsValid}

pub none_ne_some : {x : List ℕ} → none ≡ some x → ⊥
none_ne_some e = cc

-- What a sender knows of the transfer.
pub record Root : Type 0 where
  pub stream : List ℕ
  pub session_id : ℕ
  pub sha256 : List ℕ
  pub count : ℕ
  pub file : FileMeta

pub record IsRoot (r : Root) : Type 0 where
  pub some_bytes : 0 < length r.stream
  pub in_budget : r.count ≤ 131072
  pub covers : length r.stream ≤ r.count * segment_raw_bytes
  pub tight : r.count * segment_raw_bytes < length r.stream + segment_raw_bytes

module _ (sha256 : List ℕ → List ℕ) (r : Root) where
  -- The i-th piece of the stream, and what its descriptor says.
  unfoldable pub slice : ℕ → List ℕ
  slice i = take segment_raw_bytes (drop (i * segment_raw_bytes) r.stream)

  abbrev pub seg_of : ℕ → SegmentMeta
  seg_of i = record {
    root_session_id = r.session_id;
    segment_index = i;
    segment_count = r.count;
    original_offset = i * segment_raw_bytes;
    root_original_size = length r.stream;
    root_sha256 = r.sha256;
    raw_sha256 = sha256 (slice i);
  }

  abbrev pub file_of : ℕ → FileMeta
  file_of i = record r.file { compressed_size = length (slice i) }

  -- Each slot is empty, or holds the piece of its index with the metadata of that piece.
  abbrev pub Slots : ℕ → List (Option (List ℕ)) → List (Option SegmentMeta) → Type 0
  Slots i List.[] List.[] = Unit {0}
  Slots i (none ∷ xs) (none ∷ ms) = Slots (suc i) xs ms
  Slots i (some b ∷ xs) (some m ∷ ms) = (b ≡ slice i) × (m ≡ seg_of i) × Slots (suc i) xs ms
  Slots i _ _ = ⊥

  pub record Tracks (a : TransferAssembler) : Type 0 where
    pub valid : IsValid a
    pub root : a.root_session_id ≡ r.session_id
    pub name : a.filename ≡ r.file.filename
    pub total : a.total_segments ≡ r.count
    pub size : a.root_compressed_size ≡ length r.stream
    pub digest : a.root_sha256 ≡ r.sha256
    pub slots : Slots 0 a.segments a.meta

  Slots-set :
      (i j k : ℕ) (xs : List (Option (List ℕ))) (ms : List (Option SegmentMeta))
      → k ≡ i + j
      → Slots i xs ms
      → Slots i (set xs j (some (slice k))) (set ms j (some (seg_of k)))
  Slots-set i j k List.[] List.[] e s = s
  Slots-set i j k List.[] (m ∷ ms) e s = absurd s
  Slots-set i j k (none ∷ xs) List.[] e s = absurd s
  Slots-set i j k (some b ∷ xs) List.[] e s = absurd s
  Slots-set i j k (none ∷ xs) (some m ∷ ms) e s = absurd s
  Slots-set i j k (some b ∷ xs) (none ∷ ms) e s = absurd s
  Slots-set i zero k (none ∷ xs) (none ∷ ms) e s =
      let same : k ≡ i = omega arith in (ap slice same, ap seg_of same, s)
  Slots-set i (suc j) k (none ∷ xs) (none ∷ ms) e s = Slots-set (suc i) j k xs ms (omega arith) s
  Slots-set i zero k (some b ∷ xs) (some m ∷ ms) e s =
      let same : k ≡ i = omega arith in (ap slice same, ap seg_of same, s.2)
  Slots-set i (suc j) k (some b ∷ xs) (some m ∷ ms) e s =
      (s.0, s.1, Slots-set (suc i) j k xs ms (omega arith) s.2)

  Slots-get :
      (i j k : ℕ) (xs : List (Option (List ℕ))) (ms : List (Option SegmentMeta))
      → k ≡ i + j
      → Slots i xs ms
      → (get_or xs j none ≡ none)
        ⊎ ((get_or xs j none ≡ some (slice k)) × (get_or ms j none ≡ some (seg_of k)))
  Slots-get i j k List.[] ms e s = inl refl
  Slots-get i j k (none ∷ xs) List.[] e s = absurd s
  Slots-get i j k (some b ∷ xs) List.[] e s = absurd s
  Slots-get i j k (none ∷ xs) (some m ∷ ms) e s = absurd s
  Slots-get i j k (some b ∷ xs) (none ∷ ms) e s = absurd s
  Slots-get i zero k (none ∷ xs) (none ∷ ms) e s = inl refl
  Slots-get i (suc j) k (none ∷ xs) (none ∷ ms) e s = Slots-get (suc i) j k xs ms (omega arith) s
  Slots-get i zero k (some b ∷ xs) (some m ∷ ms) e s =
      let same : i ≡ k = omega arith in
      inr
        (ap some s.0 ∙ ap (λ t. some (slice t)) same, ap some s.1 ∙ ap (λ t. some (seg_of t)) same)
  Slots-get i (suc j) k (some b ∷ xs) (some m ∷ ms) e s =
      Slots-get (suc i) j k xs ms (omega arith) s.2

  length-slice : (i : ℕ) → length (slice i) ≤ segment_raw_len (length r.stream) i
  unfolding slice segment_raw_len
  length-slice i = omega (
    arith,
    length-take-min segment_raw_bytes (drop (i * segment_raw_bytes) r.stream),
    length-drop (i * segment_raw_bytes) r.stream,
  )

  pub range_of :
      IsRoot r
      → (i : ℕ) → i < r.count
      → validate_segment_range (seg_of i) (file_of i) (length r.stream) ≡ ok tt
  unfolding validate_segment_range expected_segment_count
  range_of w i h = ground (arith, length-slice i)

  -- The tests of `add_segment` pass for the piece `i`.
  add_piece :
      (a : TransferAssembler) (i : ℕ)
      → IsRoot r
      → Tracks a
      → i < r.count
      → add_segment sha256 a (seg_of i) (file_of i) (slice i)
        ≡ map_err invalid_segment (store a (seg_of i) (slice i) (get_or a.segments i none))
  unfolding add_segment
  add_piece a i w t h = ground (
    arith,
    range_of w i h,
    length-slice i,
    bytes_eq_refl r.sha256,
    bytes_eq_refl r.file.filename,
    bytes_eq_refl (sha256 (slice i)),
  )

  -- A host hands the piece `i` to the assembler.
  abbrev pub taken : TransferAssembler → Result Error (TransferAssembler × Bool) → TransferAssembler
  taken a (ok (a', fresh)) = a'
  taken a (err e) = a

  unfoldable pub receive : TransferAssembler → ℕ → TransferAssembler
  receive a i = taken a (add_segment sha256 a (seg_of i) (file_of i) (slice i))

  abbrev pub Holds : TransferAssembler → ℕ → Type 0
  Holds a i = get_or a.segments i none ≡ some (slice i)

  receive_new :
      (a : TransferAssembler) (i : ℕ)
      → IsRoot r
      → Tracks a
      → i < r.count
      → get_or a.segments i none ≡ none
      → receive a i ≡ record a {
        segments = set a.segments i (some (slice i));
        meta = set a.meta i (some (seg_of i));
        received_count = a.received_count + 1;
      }
  unfolding receive store
  receive_new a i w t h free = rw (add_piece a i w t h, free)

  receive_again :
      (a : TransferAssembler) (i : ℕ)
      → IsRoot r
      → Tracks a
      → i < r.count
      → Holds a i
      → get_or a.meta i none ≡ some (seg_of i)
      → receive a i ≡ a
  unfolding receive store
  receive_again a i w t h old m = rw (add_piece a i w t h, old, m, segment_eq_refl (seg_of i))

  pub receive-Tracks :
      (a : TransferAssembler) (i : ℕ) → IsRoot r → Tracks a → i < r.count → Tracks (receive a i)
  receive-Tracks a i w t h = elim (Slots-get 0 i i a.segments a.meta (omega arith) t.slots) [
    | inl free ↦ rw (receive_new a i w t h free) (record {
      valid = fill-IsValid a i (slice i) (seg_of i) t.valid (omega (arith, t.total)) free;
      root = t.root;
      name = t.name;
      total = t.total;
      size = t.size;
      digest = t.digest;
      slots = Slots-set 0 i i a.segments a.meta (omega arith) t.slots;
    })
    | inr (old, m) ↦ rw (receive_again a i w t h old m) t
  ]

  pub receive-Holds :
      (a : TransferAssembler) (i : ℕ) → IsRoot r → Tracks a → i < r.count → Holds (receive a i) i
  receive-Holds a i w t h = elim (Slots-get 0 i i a.segments a.meta (omega arith) t.slots) [
    | inl free ↦
        rw (receive_new a i w t h free) (
          get_or-set_self a.segments i (some (slice i)) none
            (omega (arith, t.valid.slots, t.total)))
    | inr (old, m) ↦ rw (receive_again a i w t h old m) old
  ]

  pub receive_keeps :
      (a : TransferAssembler) (i j : ℕ)
      → IsRoot r
      → Tracks a
      → i < r.count
      → Holds a j
      → Holds (receive a i) j
  receive_keeps a i j w t h held = elim (Slots-get 0 i i a.segments a.meta (omega arith) t.slots) [
    | inl free ↦ elim (ℕ_discrete i j) [
      | yes e ↦ absurd (none_ne_some (sym free ∙ ap (λ k. get_or a.segments k none) e ∙ held))
      | no ne ↦
          rw (receive_new a i w t h free)
            (get_or-set_ne a.segments i j (some (slice i)) none ne ∙ held)
    ]
    | inr (old, m) ↦ rw (receive_again a i w t h old m) held
  ]
