-- ===== src/Transfer/Wasm/Batch.antt =====
-- core/transfer-engine/src/wasm.rs: what the page reads in the buffer of `next_qr_multi`.
use mathlib.Core.Path.{subst}
use mathlib.Core.List.{append_assoc, append-nil}
use native.Mathlib.Nat.{mod-eq_of_lt}
use air_ferry_i_os_source.Prelude.{
  ℕ, zero, suc, ◌+◌, ◌*◌, ◌%◌, ◌^◌, ◌≤◌, ◌<◌, min, ◌≡◌, refl, sym, ap, ◌∙◌, arith, List, ◌∷◌, ◌++◌,
  Option, some, Bool, length, take, drop, map, replicate, Result, ok, err, Result-cases, inl, inr,
  ok-injective, take-append, drop-append, length-take,
}
use air_ferry_i_os_source.Bytes.{to_le, from_le, from_le-to_le, length-to_le}
use air_ferry_i_os_source.Protocol.Qr
use air_ferry_i_os_source.Protocol.Qr.{QrCode, QrMatrix, matrix_of}
use air_ferry_i_os_source.Protocol.Qr.Smallest.{encode_lem}
use air_ferry_i_os_source.Protocol.Frame
use air_ferry_i_os_source.Protocol.Frame.{Frame}
use air_ferry_i_os_source.Transfer.{Error}
use air_ferry_i_os_source.Transfer.Sender.{SenderSession, next_frame}
use air_ferry_i_os_source.Transfer.Wasm.{dark, rendered, coded, next_matrix, produce, next_qr_multi}

-- The reader of the page: the count, then a side and its square of modules for each code.
unfoldable pub read_codes : ℕ → List ℕ → List (ℕ × List ℕ)
unfolding from_le
read_codes zero bytes = List.[]
read_codes (suc n) bytes =
    let side = from_le (take 4 bytes) in
    (side, take (side * side) (drop 4 bytes)) ∷ read_codes n (drop (side * side) (drop 4 bytes))

unfoldable pub read_multi : List ℕ → List (ℕ × List ℕ)
unfolding from_le read_codes
read_multi bytes = read_codes (from_le (take 4 bytes)) (drop 4 bytes)

abbrev pub seen : QrMatrix → ℕ × List ℕ
seen m = (m.size, map dark m.modules)

abbrev pub IsSquare : QrMatrix → Type 0
IsSquare m = (length m.modules ≡ m.size * m.size) × (m.size < 2 ^ 32)

unfoldable pub buffer : List QrMatrix → List ℕ
buffer List.[] = List.[]
buffer (m ∷ ms) = rendered m ++ buffer ms

unfoldable pub AllSquare : List QrMatrix → Type 0
AllSquare List.[] = Unit {0}
AllSquare (m ∷ ms) = IsSquare m × AllSquare ms

length-dark : (bs : List Bool) → length (map dark bs) ≡ length bs
length-dark List.[] = refl
length-dark (b ∷ bs) = ap suc (length-dark bs)

read_codes-buffer :
    (ms : List QrMatrix) → AllSquare ms → read_codes (length ms) (buffer ms) ≡ map seen ms
unfolding read_codes buffer AllSquare
read_codes-buffer List.[] h = refl
read_codes-buffer (m ∷ ms) ((square, small), h) =
    let body : List ℕ = map dark m.modules ++ buffer ms in
    let head : List ℕ = to_le 4 (m.size % 2 ^ 32) in
    let at_four : 4 ≡ length head = sym (length-to_le 4 (m.size % 2 ^ 32)) in
    let split : rendered m ++ buffer ms ≡ head ++ body =
      append_assoc head (map dark m.modules) (buffer ms) in
    let side : from_le (take 4 (rendered m ++ buffer ms)) ≡ m.size =
      ap (λ b. from_le (take 4 b)) split
      ∙ ap from_le (take-append 4 head body at_four)
      ∙ from_le-to_le 4 (m.size % 2 ^ 32) (omega arith)
      ∙ mod-eq_of_lt small in
    let rest : drop 4 (rendered m ++ buffer ms) ≡ body =
      ap (drop 4) split ∙ drop-append 4 head body at_four in
    let full : m.size * m.size ≡ length (map dark m.modules) =
      sym square ∙ sym (length-dark m.modules) in
    rw
      (
        side,
        rest,
        take-append (m.size * m.size) (map dark m.modules) (buffer ms) full,
        drop-append (m.size * m.size) (map dark m.modules) (buffer ms) full,
        read_codes-buffer ms h,
      )
      refl

read_multi-count :
    (n : ℕ) (bytes : List ℕ) → n < 2 ^ 32 → read_multi (to_le 4 n ++ bytes) ≡ read_codes n bytes
unfolding read_multi
read_multi-count n bytes h =
    let at_four : 4 ≡ length (to_le 4 n) = sym (length-to_le 4 n) in
    let count =
      ap from_le (take-append 4 (to_le 4 n) bytes at_four) ∙ from_le-to_le 4 n (omega arith) in
    rw (count, drop-append 4 (to_le 4 n) bytes at_four) refl

module _ (crc32 : List ℕ → ℕ) (build : (version : ℕ) → List ℕ → Option QrCode)
    (clock : ℕ → ℕ × ℕ) where
  -- The codes of the next `n` frames, up to the first that fails.
  unfoldable pub codes : ℕ → ℕ → SenderSession → List QrMatrix
  unfolding next_matrix
  codes zero i s = List.[]
  codes (suc n) i s =
      let (s', r) = next_matrix crc32 build s (clock i) in
      elim r [ err e ↦ List.[] | ok m ↦ m ∷ codes n (suc i) s' ]

  produce_lem :
      (n i : ℕ) (s : SenderSession) (out : List ℕ) (produced : ℕ)
      → ((produce crc32 build clock n i s out produced).1 ≡ out ++ buffer (codes n i s))
        × ((produce crc32 build clock n i s out produced).2 ≡ produced + length (codes n i s))
  unfolding produce codes buffer
  produce_lem zero i s out produced = (sym (append-nil out), omega arith)
  produce_lem (suc n) i s out produced =
      let t = next_matrix crc32 build s (clock i) in
      elim (Result-cases t.1) [
        | inr (e, r) ↦ rw (produce, codes, r) (sym (append-nil out), omega arith)
        | inl (m, r) ↦
            let (written, count) = produce_lem n (suc i) t.0 (out ++ rendered m) (produced + 1) in
            rw (produce, codes, r)
              (
                written ∙ append_assoc out (rendered m) (buffer (codes n (suc i) t.0)),
                count ∙ omega arith,
              )
      ]

  -- What is documented of the builder: a code has at least its square of modules, and 177 of them on a side at most.
  abbrev pub IsBuilder : Type 0
  IsBuilder =
      (v : ℕ) (bytes : List ℕ) (code : QrCode)
      → build v bytes ≡ some code
      → (code.size * code.size ≤ length code.modules) × (code.size ≤ 177)

  coded-IsSquare :
      IsBuilder → (r : Result Error Frame) (m : QrMatrix) → coded crc32 build r ≡ ok m → IsSquare m
  unfolding coded
  coded-IsSquare sound (err e) m h = absurd (let k = h in cc)
  coded-IsSquare sound (ok frame) m h =
      elim (Result-cases (Qr.encode build (Frame.to_bytes frame))) [
        | inr (e, r) ↦ absurd (let k = rw (coded, r) at h in cc)
        | inl (m', r) ↦
            let same = ok-injective (rw (coded, r) at h) in
            let (v, (pos, le, holds, (code, built, made), below)) =
              (encode_lem build (Frame.to_bytes frame)).0 m' r in
            let (full, small) = sound v (Frame.to_bytes frame) code built in
            subst IsSquare (sym made ∙ same)
              (length-take (code.size * code.size) code.modules full, omega (arith, small))
      ]

  codes-AllSquare : IsBuilder → (n i : ℕ) (s : SenderSession) → AllSquare (codes n i s)
  unfolding codes AllSquare
  codes-AllSquare sound zero i s = tt
  codes-AllSquare sound (suc n) i s =
      let t = next_matrix crc32 build s (clock i) in
      elim (Result-cases t.1) [
        | inr (e, r) ↦ rw (codes, r) tt
        | inl (m, r) ↦
            rw (codes, r)
              (
                coded-IsSquare sound (next_frame crc32 s (clock i).0 (clock i).1).1 m r,
                codes-AllSquare sound n (suc i) t.0,
              )
      ]

  length-codes : (n i : ℕ) (s : SenderSession) → length (codes n i s) ≤ n
  unfolding codes
  length-codes zero i s = omega arith
  length-codes (suc n) i s =
      let t = next_matrix crc32 build s (clock i) in
      elim (Result-cases t.1) [
        | inr (e, r) ↦ rw (codes, r) (omega arith)
        | inl (m, r) ↦ rw (codes, r) (omega (arith, length-codes n (suc i) t.0))
      ]

  -- What the page reads in the buffer of `next_qr_multi` are the codes of the next frames, at most eight, in their
  -- order and up to the first frame that fails, each with its side and its modules.
  pub next_qr_multi_lem :
      IsBuilder
      → (s : SenderSession) (count : ℕ)
      → read_multi (next_qr_multi crc32 build clock s count).1 ≡ map seen (codes (min count 8) 0 s)
  unfolding next_qr_multi read_multi
  next_qr_multi_lem sound s count =
      let n : ℕ = min count 8 in
      let (written, counted) = produce_lem n 0 s (replicate 4 0) 0 in
      let p : ℕ = length (codes n 0 s) in
      ap
        (λ b.
          read_multi (to_le 4 b ++ drop 4 (produce crc32 build clock n 0 s (replicate 4 0) 0).1))
        (counted ∙ omega arith)
      ∙ ap (λ b. read_multi (to_le 4 p ++ drop 4 b)) written
      ∙ read_multi-count p (buffer (codes n 0 s)) (omega (arith, length-codes n 0 s))
      ∙ read_codes-buffer (codes n 0 s) (codes-AllSquare sound n 0 s)
