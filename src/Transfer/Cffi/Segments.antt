-- ===== src/Transfer/Cffi/Segments.antt =====
-- core/transfer-engine/src/cffi.rs: the segments that a payload is cut into.
use air_ferry_i_os_source.Prelude.{
  ℕ, zero, suc, ◌+◌, ◌-◌, ◌*◌, ◌/◌, ◌%◌, ◌^◌, ◌≤◌, ◌<◌, min, ◌≡◌, refl, sym, ap, ◌∙◌, arith, inl,
  inr, List, [], ◌∷◌, ◌++◌, some, true, false, length, take, drop, leb, ◌==◌, Result, ok, ◌>>=◌,
  le-or-lt, leb_of_lt, ==_iff, take-append-drop, drop_add, take_all, length-drop, length-take-min,
}
use air_ferry_i_os_source.Codec.Encoder.{RqEncoder}
use air_ferry_i_os_source.Codec.Meta.{max_original_bytes}
use air_ferry_i_os_source.Protocol.Session.{derive_segment}
use air_ferry_i_os_source.Transfer.{Error}
use air_ferry_i_os_source.Transfer.Segment.{segment_raw_bytes}
use air_ferry_i_os_source.Transfer.Segment.Canonical.{validate-IsCanonical}
use air_ferry_i_os_source.Transfer.Sender
use air_ferry_i_os_source.Transfer.Sender.{SenderConfig, new_inner}
use air_ferry_i_os_source.Transfer.Cffi.{
  file_meta_of, segment_meta_of, segment_slice, segment_count_of, build_session,
}

take-min : (n : ℕ) (xs : List ℕ) → take (min n (length xs)) xs ≡ take n xs
take-min n xs = elim (le-or-lt n (length xs)) [
  | inl le ↦ let e : min n (length xs) ≡ n = omega arith in rw e refl
  | inr lt ↦
      let e : min n (length xs) ≡ length xs = omega arith in
      rw e (take_all (length xs) xs (omega arith) ∙ sym (take_all n xs (omega arith)))
]

drop_all : (n : ℕ) (xs : List ℕ) → length xs ≤ n → drop n xs ≡ []
drop_all zero [] h = refl
drop_all zero (x ∷ xs) h = absurd (omega arith)
drop_all (suc n) [] h = refl
drop_all (suc n) (x ∷ xs) h = drop_all n xs (omega arith)

module _ (with_defaults : List ℕ → ℕ → RqEncoder) (sha256 : List ℕ → List ℕ) where
  -- The i-th piece of a payload.
  abbrev pub piece : List ℕ → ℕ → List ℕ
  piece payload i = take segment_raw_bytes (drop (i * segment_raw_bytes) payload)

  segment_slice-piece :
      (payload : List ℕ) (i : ℕ)
      → length payload ≤ max_original_bytes
      → i * segment_raw_bytes < length payload
      → segment_slice with_defaults sha256 payload i ≡ ok (i * segment_raw_bytes, piece payload i)
  unfolding segment_slice
  segment_slice-piece payload i small inside =
      let start : ℕ = i * segment_raw_bytes in
      let end : ℕ = min (min (start + segment_raw_bytes) (2 ^ 64 - 1)) (length payload) in
      let cut : segment_slice with_defaults sha256 payload i
          ≡ ok (start, take (end - start) (drop start payload)) =
        ground arith in
      let size : end - start ≡ min segment_raw_bytes (length (drop start payload)) =
        omega (arith, length-drop start payload) in
      cut
      ∙ ap (λ n. ok (start, take n (drop start payload))) size
      ∙ ap (λ b. ok (start, b)) (take-min segment_raw_bytes (drop start payload))

  -- The bytes of `n` segments from the i-th on.
  pub pieces : List ℕ → ℕ → ℕ → Result Error (List ℕ)
  pieces payload i zero = ok []
  pieces payload i (suc n) = segment_slice with_defaults sha256 payload i >>= λ at.
      (pieces payload (suc i) n >>= λ rest. ok (at.1 ++ rest))

  pieces-drop :
      (n : ℕ) (payload : List ℕ) (i : ℕ)
      → length payload ≤ max_original_bytes
      → length payload ≤ (i + n) * segment_raw_bytes
      → (i + n) * segment_raw_bytes < length payload + segment_raw_bytes
      → pieces payload i n ≡ ok (drop (i * segment_raw_bytes) payload)
  unfolding pieces
  pieces-drop zero payload i small covers tight = ap ok (sym (drop_all _ payload (omega arith)))
  pieces-drop (suc n) payload i small covers tight =
      let start = i * segment_raw_bytes in
      rw
        (
          segment_slice-piece payload i small (omega arith),
          pieces-drop n payload (suc i) small (omega arith) (omega arith),
        )
        (ap (λ t. ok (piece payload i ++ t))
            (sym (drop_add start segment_raw_bytes _ payload (omega arith)))
          ∙ ap ok (take-append-drop segment_raw_bytes (drop start payload)))

  -- The segments of a payload, one behind the other, are the payload: none of its bytes is lost, repeated or out of
  -- place, from 1 byte to 256 MiB.
  pub pieces_lem :
      (payload : List ℕ) (count : ℕ)
      → 0 < length payload
      → length payload ≤ max_original_bytes
      → segment_count_of with_defaults sha256 payload ≡ ok count
      → pieces payload 0 count ≡ ok payload
  pieces_lem payload count some_bytes small counted =
      let same : count ≡ (length payload - 1) / segment_raw_bytes + 1 = ground arith in
      pieces-drop count payload 0 small (omega arith) (omega arith)

  -- In a payload of at most 256 MiB that makes `count` segments, more than one, building the session of any of them
  -- passes the gates of `new_segment`: it is `new_inner` on the segment's piece of the payload, under the child id and
  -- the metadata of that segment.
  pub build_session-new_inner :
      (payload filename : List ℕ) (config : SenderConfig) (root crc : ℕ) (root_sha : List ℕ)
      (count i : ℕ)
      → length payload ≤ max_original_bytes
      → segment_count_of with_defaults sha256 payload ≡ ok count
      → 1 < count
      → i < count
      → build_session with_defaults sha256 payload filename config root crc root_sha count i
        ≡ new_inner with_defaults
            (piece payload i)
            (derive_segment root i)
            config
            (file_meta_of filename (length payload) crc (length (piece payload i)))
            (some (
              segment_meta_of with_defaults sha256 root i count
                (i * segment_raw_bytes)
                (length payload)
                root_sha
                (piece payload i)))
  unfolding build_session Sender.new_segment
  build_session-new_inner payload filename config root crc root_sha count i small counted many at =
      let same : count ≡ (length payload - 1) / segment_raw_bytes + 1 = ground arith in
      let size : length (piece payload i)
          ≡ min segment_raw_bytes (length payload - i * segment_raw_bytes) =
        omega (
          arith,
          length-take-min segment_raw_bytes (drop (i * segment_raw_bytes) payload),
          length-drop (i * segment_raw_bytes) payload,
        ) in
      let gate =
        (validate-IsCanonical
            (segment_meta_of with_defaults sha256 root i count (i * segment_raw_bytes)
              (length payload) root_sha (piece payload i))
            (derive_segment root i)
            (file_meta_of filename (length payload) crc (length (piece payload i)))).1
          (record {
            index_in_range = at;
            count_in_range = omega arith;
            covers = omega arith;
            tight = omega arith;
            offset = refl;
            known = refl;
            some_bytes = omega (arith, size);
            in_slot = omega (arith, size);
            in_stream = omega (arith, size);
            child = refl;
          }) in
      let single : leb count 1 ≡ false = leb_of_lt count 1 many in
      let fits : (length (piece payload i) == length (piece payload i) % 2 ^ 64) ≡ true =
        (==_iff _ _).1 (omega (arith, size)) in
      rw (single, segment_slice-piece payload i small (omega arith), fits, gate) refl
