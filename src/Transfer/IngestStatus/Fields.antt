-- ===== src/Transfer/IngestStatus/Fields.antt =====
-- core/transfer-engine/src/ingest_status.rs: the fields of the word.
use Prim.Native.Nat.{bit_or, bit_and}
use air_ferry_i_os_source.Prelude.{
  ℕ, ◌+◌, ◌-◌, ◌*◌, ◌/◌, ◌%◌, ◌^◌, ◌≤◌, ◌<◌, ◌≡◌, ◌↔◌, refl, ap, ◌∙◌, arith, Bool, true, false,
}
use air_ferry_i_os_source.Bits.Fields.{bit_or_shift, bit_and_mask}
use air_ferry_i_os_source.Transfer.IngestStatus.{pack, ingest_error}

abbrev pub bit : Bool → ℕ
bit true = 1
bit false = 0

bit-le : (b : Bool) → bit b ≤ 1
bit-le true = omega arith
bit-le false = omega arith

bit-zero : (b : Bool) → bit b ≡ 0 → b ≡ false
bit-zero true h = absurd (omega arith)
bit-zero false h = refl

-- The streak and the count behind flags that fill less than a byte.
word :
    (flags streak received : ℕ)
    → flags < 256
    → bit_or (bit_or flags (bit_and streak 65535 * 2 ^ 8)) (received * 2 ^ 32)
      ≡ flags + streak % 2 ^ 16 * 2 ^ 8 + received * 2 ^ 32
word flags streak received h =
    ap (λ s. bit_or (bit_or flags (s * 2 ^ 8)) (received * 2 ^ 32)) (bit_and_mask 16 streak)
    ∙ ap (λ b. bit_or b (received * 2 ^ 32)) (bit_or_shift 8 flags (streak % 2 ^ 16) h)
    ∙ bit_or_shift 32 (flags + streak % 2 ^ 16 * 2 ^ 8) received (omega arith)

-- The word as a sum: no two of the fields share a bit.
pub pack_sum :
    (c a : Bool) (streak received : ℕ)
    → pack c a streak received ≡ bit c + bit a * 2 + streak % 2 ^ 16 * 2 ^ 8 + received * 2 ^ 32
unfolding pack
pack_sum false false streak received = word 0 streak received (omega arith) ∙ omega arith
pack_sum true false streak received = word 1 streak received (omega arith) ∙ omega arith
pack_sum false true streak received = word 2 streak received (omega arith) ∙ omega arith
pack_sum true true streak received = word 3 streak received (omega arith) ∙ omega arith

-- The host reads back the flags and the count as they were, and of the streak its remainder by 65536: a longer
-- streak is not clamped, it starts again from 0.
pub pack_lem :
    (c a : Bool) (streak received : ℕ)
    → (pack c a streak received % 2 ≡ bit c)
      × (pack c a streak received / 2 % 2 ≡ bit a)
      × (pack c a streak received / 2 ^ 8 % 2 ^ 16 ≡ streak % 2 ^ 16)
      × (pack c a streak received / 2 ^ 32 ≡ received)
pack_lem c a streak received =
    let e = pack_sum c a streak received in
    let lc = bit-le c in
    let la = bit-le a in
    (
      omega (arith, e, lc, la),
      omega (arith, e, lc, la),
      omega (arith, e, lc, la),
      omega (arith, e, lc, la),
    )

-- A status is the error word exactly when the flags are clear, the streak is a multiple of 65536 and the count is
-- `u32::MAX`.
pub pack-ingest_error :
    (c a : Bool) (streak received : ℕ)
    → (pack c a streak received ≡ ingest_error)
      ↔ ((c ≡ false) × (a ≡ false) × (streak % 2 ^ 16 ≡ 0) × (received ≡ 2 ^ 32 - 1))
pack-ingest_error c a streak received =
    let e = pack_sum c a streak received in
    let lc = bit-le c in
    let la = bit-le a in
    (
      λ h. (
        bit-zero c (omega (arith, e, lc, la)),
        bit-zero a (omega (arith, e, lc, la)),
        omega (arith, e, lc, la),
        omega (arith, e, lc, la),
      ),
      λ (nc, na, s, r). omega (arith, e, ap bit nc, ap bit na),
    )
