-- ===== src/Transfer/Receiver/Finish/Size.antt =====
-- core/transfer-engine/src/receiver.rs, `assemble_result`: the size of the file that it answers.
use air_ferry_i_os_source.Prelude.{
  ℕ, ◌%◌, ◌^◌, ◌≤◌, ◌<◌, ◌≡◌, refl, sym, ap, ◌∙◌, arith, inl, inr, List, some, false, not, ◌&&◌,
  length, ltb, ◌==◌, if◌then◌else◌, String, Result, ok, err, Bool-cases, Option-cases, Result-cases,
  ok-injective,
}
use mathlib.Core.Option.{some-injective}
use air_ferry_i_os_source.Codec.Meta.{max_original_bytes}
use air_ferry_i_os_source.Protocol
use air_ferry_i_os_source.Protocol.Compress.{Library, compression_none, decompress_with_limit}
use air_ferry_i_os_source.Protocol.Compress.Capped.{decompress_with_limit_bound}
use air_ferry_i_os_source.Transfer.Types.{FileMeta}
use air_ferry_i_os_source.Transfer.Receiver.{ReceiverSession}
use air_ferry_i_os_source.Transfer.Receiver.Stable.{if_false}
use air_ferry_i_os_source.Transfer.Receiver.Finish.{
  assemble_raw, trimmed, check_size, decompressed, finish, assemble_result,
}

module _ {Z : Type 0} (lib : Library Z) (describe : Protocol.Error → String) where
  -- The size that a descriptor promises, and the limit of the receiver.
  abbrev pub HasSize : FileMeta → List ℕ → Type 0
  HasSize f out =
      (length out ≤ max_original_bytes) × (0 < f.original_size → length out ≡ f.original_size)

  checked-HasSize :
      (f : FileMeta) (cap : ℕ) (r : Result Protocol.Error (List ℕ)) (out : List ℕ)
      → cap ≤ max_original_bytes
      → ((v : List ℕ) → r ≡ ok v → length v ≤ cap)
      → check_size lib describe f.original_size r ≡ ok out
      → HasSize f out
  checked-HasSize f cap (err x) out small h e = absurd (let k = e in cc)
  checked-HasSize f cap (ok v) out small h e =
      let fits = h v refl in
      elim (Bool-cases (ltb 0 f.original_size && not (length v % 2 ^ 64 == f.original_size))) [
        | inl y ↦ absurd (let k = rw y at e in cc)
        | inr n ↦
            let same = ok-injective (rw n at e) in rw (← same) (omega arith, λ pos. ground arith)
      ]

  decompressed-HasSize :
      (f : FileMeta) (raw out : List ℕ)
      → (f.compression == compression_none) ≡ false
      → decompressed lib describe f raw ≡ ok out
      → HasSize f out
  unfolding decompressed
  decompressed-HasSize f raw out packed e =
      let k = sym (if_false (f.compression == compression_none) _ _ packed) ∙ e in
      elim (Bool-cases (ltb 0 f.original_size && ltb max_original_bytes f.original_size)) [
        | inl y ↦ absurd (let j = rw y at k in cc)
        | inr n ↦
            let cap : ℕ = if ltb 0 f.original_size then f.original_size else max_original_bytes in
            let j =
              sym (if_false (ltb 0 f.original_size && ltb max_original_bytes f.original_size) _ _ n)
              ∙ k in
            checked-HasSize f cap (decompress_with_limit lib raw f.compression cap) out
              (ground arith) (λ v. decompress_with_limit_bound lib raw f.compression cap v) j
      ]

  finish-HasSize :
      (f : FileMeta) (raw out : List ℕ)
      → (f.compression == compression_none) ≡ false
      → finish lib describe f raw ≡ ok out
      → HasSize f out
  unfolding finish
  finish-HasSize f raw out packed e = elim (Result-cases (trimmed f raw)) [
    | inl (payload, t) ↦ decompressed-HasSize f payload out packed (rw (finish, t) at e)
    | inr (x, t) ↦ absurd (let k = rw (finish, t) at e in cc)
  ]

  -- A file that was compressed comes out with exactly the size that its descriptor promises, if it promises one, and
  -- never with more than 256 MiB, whatever the bytes that were received.
  pub assemble_result-HasSize :
      {S : Type 0} (rx rx' : ReceiverSession S) (out : List ℕ)
      → (rx.file_meta.compression == compression_none) ≡ false
      → assemble_result lib describe rx ≡ (rx', ok (some out))
      → HasSize rx.file_meta out
  unfolding assemble_result
  assemble_result-HasSize rx rx' out packed e = elim (Option-cases (assemble_raw rx)) [
    | inl n ↦
        let k = rw (assemble_result, n) at e in
        absurd (let j = ok-injective (ap (λ p. p.1) k) in cc)
    | inr (raw, r) ↦
        let k = rw (assemble_result, r) at e in
        elim (Result-cases (finish lib describe rx.file_meta raw)) [
          | inl (v, w) ↦
              let j = rw w at k in
              let same = some-injective _ _ (ok-injective (ap (λ p. p.1) j)) in
              finish-HasSize rx.file_meta raw out packed (w ∙ ap ok same)
          | inr (x, w) ↦ absurd (let j = ap (λ p. p.1) (rw w at k) in cc)
        ]
  ]
