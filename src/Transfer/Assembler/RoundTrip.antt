-- ===== src/Transfer/Assembler/RoundTrip.antt =====
-- core/transfer-engine/src/assembler.rs: all pieces of a stream, fed in some order.
use mathlib.Core.List.{append_assoc, append-nil}
use air_ferry_i_os_source.Prelude.{
  ℕ, zero, suc, ◌*◌, ◌≤◌, ◌<◌, ◌≡◌, ◌≢◌, ◌⊎◌, refl, sym, ap, ◌∙◌, arith, List, ◌∷◌, ◌++◌, Option,
  none, some, Bool, true, length, get_or, take, drop, ok, inl, inr, take_add, drop_add, take_all,
  replicate, All,
}
use air_ferry_i_os_source.Transfer.Types.{SegmentMeta}
use air_ferry_i_os_source.Transfer.Segment.{segment_raw_bytes}
use air_ferry_i_os_source.Transfer.Assembler.{
  TransferAssembler, expected_segment_count, new, concat_slots, reassemble,
}
use air_ferry_i_os_source.Transfer.Assembler.Invariant.{count_some, count_some-le, new-IsValid}
use air_ferry_i_os_source.Transfer.Assembler.Stream.{
  Root, IsRoot, slice, seg_of, file_of, range_of, Slots, Tracks, receive, Holds, receive-Tracks,
  receive-Holds, receive_keeps,
}

abbrev pub Elem : ℕ → List ℕ → Type 0
Elem i List.[] = ⊥
Elem i (x ∷ xs) = (i ≡ x) ⊎ Elem i xs

count_some-all {ℓ} :
    {A : Type ℓ} (xs : List (Option A))
    → ((j : ℕ) → j < length xs → get_or xs j none ≢ none)
    → count_some xs ≡ length xs
unfolding count_some
count_some-all List.[] h = refl
count_some-all (none ∷ xs) h = absurd (h 0 (omega arith) refl)
count_some-all (some x ∷ xs) h = ap suc (count_some-all xs (λ j lt. h (suc j) (omega arith)))

some_ne_none : {o : Option (List ℕ)} {x : List ℕ} → o ≡ some x → o ≢ none
some_ne_none e n = cc

module _ (sha256 : List ℕ → List ℕ) (r : Root) where
  pub feed : TransferAssembler → List ℕ → TransferAssembler
  feed a List.[] = a
  feed a (i ∷ order) = feed (receive sha256 r a i) order

  abbrev Admissible : List ℕ → Type 0
  Admissible order = All (λ i. i < r.count) order

  feed-Tracks :
      (order : List ℕ) (a : TransferAssembler)
      → IsRoot r
      → Tracks sha256 r a
      → Admissible order
      → Tracks sha256 r (feed a order)
  unfolding feed
  feed-Tracks List.[] a w t h = t
  feed-Tracks (i ∷ order) a w t h =
      feed-Tracks order (receive sha256 r a i) w (receive-Tracks sha256 r a i w t h.0) h.1

  feed_keeps :
      (order : List ℕ) (a : TransferAssembler) (j : ℕ)
      → IsRoot r
      → Tracks sha256 r a
      → Admissible order
      → Holds sha256 r a j
      → Holds sha256 r (feed a order) j
  unfolding feed
  feed_keeps List.[] a j w t h held = held
  feed_keeps (i ∷ order) a j w t h held =
      feed_keeps order (receive sha256 r a i) j w (receive-Tracks sha256 r a i w t h.0) h.1
        (receive_keeps sha256 r a i j w t h.0 held)

  feed-Holds :
      (order : List ℕ) (a : TransferAssembler) (j : ℕ)
      → IsRoot r
      → Tracks sha256 r a
      → Admissible order
      → Elem j order
      → Holds sha256 r (feed a order) j
  unfolding feed
  feed-Holds List.[] a j w t h m = absurd m
  feed-Holds (i ∷ order) a j w t h (inl e) =
      feed_keeps order (receive sha256 r a i) j w (receive-Tracks sha256 r a i w t h.0) h.1
        (rw e (receive-Holds sha256 r a i w t h.0))
  feed-Holds (i ∷ order) a j w t h (inr m) =
      feed-Holds order (receive sha256 r a i) j w (receive-Tracks sha256 r a i w t h.0) h.1 m

  piece_and_rest :
      (n i : ℕ)
      → slice sha256 r i ++ take (n * segment_raw_bytes) (drop (suc i * segment_raw_bytes) r.stream)
        ≡ take (suc n * segment_raw_bytes) (drop (i * segment_raw_bytes) r.stream)
  unfolding slice
  piece_and_rest n i = sym (
      take_add segment_raw_bytes (n * segment_raw_bytes) (suc n * segment_raw_bytes)
        (drop (i * segment_raw_bytes) r.stream) (omega arith)
      ∙ ap
          (λ t.
            take segment_raw_bytes (drop (i * segment_raw_bytes) r.stream)
            ++ take (n * segment_raw_bytes) t)
          (drop_add (i * segment_raw_bytes) segment_raw_bytes (suc i * segment_raw_bytes) r.stream
            (omega arith)))

  -- Full slots from the i-th on hold the stream from the i-th piece on.
  concat_full :
      (xs : List (Option (List ℕ))) (ms : List (Option SegmentMeta)) (i : ℕ) (out : List ℕ)
      → Slots sha256 r i xs ms
      → count_some xs ≡ length xs
      → concat_slots xs out
        ≡ some (out ++ take (length xs * segment_raw_bytes) (drop (i * segment_raw_bytes) r.stream))
  unfolding concat_slots count_some
  concat_full List.[] List.[] i out s c = ap some (sym (append-nil out))
  concat_full List.[] (m ∷ ms) i out s c = absurd s
  concat_full (none ∷ xs) ms i out s c = absurd (omega (arith, count_some-le xs))
  concat_full (some b ∷ xs) List.[] i out s c = absurd s
  concat_full (some b ∷ xs) (none ∷ ms) i out s c = absurd s
  concat_full (some b ∷ xs) (some m ∷ ms) i out s c =
      concat_full xs ms (suc i) (out ++ b) s.2 (omega arith)
      ∙ ap some (
          rw (s.0, append_assoc out (slice sha256 r i) _)
            (ap (λ t. out ++ t) (piece_and_rest (length xs) i)))

  empty-Slots : (n i : ℕ) → Slots sha256 r i (replicate n none) (replicate n none)
  empty-Slots zero i = tt
  empty-Slots (suc n) i = empty-Slots n (suc i)

  -- The assembler that any piece opens.
  abbrev opened : TransferAssembler
  opened = record {
    root_session_id = r.session_id;
    filename = r.file.filename;
    total_segments = r.count;
    root_compressed_size = length r.stream;
    root_original_size = r.file.original_size;
    root_sha256 = r.sha256;
    segments = replicate r.count none;
    meta = replicate r.count none;
    received_count = 0;
  }

  module _ (usize_max : ℕ) (reserve : ℕ → Bool) (granted : (n : ℕ) → reserve n ≡ true) where
    new-piece :
        IsRoot r
        → (i : ℕ) → i < r.count
        → new reserve (seg_of sha256 r i) (file_of sha256 r i) ≡ ok opened
    unfolding new expected_segment_count
    new-piece w i h = ground (arith, range_of sha256 r w i h, granted r.count)

    opened-Tracks : IsRoot r → (i : ℕ) → i < r.count → Tracks sha256 r opened
    opened-Tracks w i h = record {
      valid = new-IsValid reserve (seg_of sha256 r i) (file_of sha256 r i) opened (new-piece w i h);
      root = refl;
      name = refl;
      total = refl;
      size = refl;
      digest = refl;
      slots = empty-Slots r.count 0;
    }

    full-reassemble :
        (a : TransferAssembler)
        → IsRoot r
        → Tracks sha256 r a
        → ((i : ℕ) → i < r.count → Holds sha256 r a i)
        → length r.stream ≤ 256 * 1024 * 1024
        → length r.stream ≤ usize_max
        → reassemble usize_max reserve a ≡ some r.stream
    unfolding reassemble
    full-reassemble a w t held small fits =
        let full : count_some a.segments ≡ length a.segments =
          count_some-all a.segments
            (λ j lt. some_ne_none (held j (omega (arith, t.valid.slots, t.total)))) in
        let whole = concat_full a.segments a.meta 0 List.[] t.slots full in
        let n : length a.segments * segment_raw_bytes ≡ r.count * segment_raw_bytes =
          ap (λ k. k * segment_raw_bytes) (t.valid.slots ∙ t.total) in
        let all : concat_slots a.segments List.[] ≡ some r.stream =
          whole ∙ ap some (take_all _ r.stream (omega (arith, n, w.covers))) in
        ground (arith, granted a.root_compressed_size, all, t.valid.counted)

-- For a stream of 1 byte to 256 MiB that fits `usize` and is cut into at most 131072 canonical pieces, and
-- an allocator that grants all memory: any piece opens the assembler; when all have come, in any order and with repeats, the stream is back.
pub transfer_roundtrip :
    (sha256 : List ℕ → List ℕ) (r : Root) (usize_max : ℕ) (reserve : ℕ → Bool) (first : ℕ)
    (order : List ℕ)
    → ((n : ℕ) → reserve n ≡ true)
    → IsRoot r
    → first < r.count
    → All (λ i. i < r.count) order
    → ((i : ℕ) → i < r.count → Elem i order)
    → length r.stream ≤ 256 * 1024 * 1024
    → length r.stream ≤ usize_max
    → (a : TransferAssembler) × (new reserve (seg_of sha256 r first) (file_of sha256 r first)
        ≡ ok a)
      × (reassemble usize_max reserve (feed sha256 r a order) ≡ some r.stream)
transfer_roundtrip sha256 r usize_max reserve first order granted w lt adm every small fits =
    let t = opened-Tracks sha256 r usize_max reserve granted w first lt in
    (
      opened sha256 r,
      new-piece sha256 r usize_max reserve granted w first lt,
      full-reassemble sha256 r usize_max reserve granted (feed sha256 r (opened sha256 r) order) w
          (feed-Tracks sha256 r order (opened sha256 r) w t adm)
          (λ i h. feed-Holds sha256 r order (opened sha256 r) i w t adm (every i h)) small fits,
    )
