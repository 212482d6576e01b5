-- ===== src/Protocol/Session/Collision.antt =====
-- core/qr-protocol/src/session.rs: session ids of identities that differ in a byte.
use Prim.Native.Nat.{bit_xor}
use mathlib.Core.List.{append_assoc, reverse-append}
use air_ferry_i_os_source.Prelude.{
  ℕ, suc, ◌/◌, sym, ◌≢◌, All, ◌*◌, ◌%◌, ◌^◌, ◌≡◌, refl, ap, ◌∙◌, arith, List, ◌∷◌, ◌++◌,
}
use air_ferry_i_os_source.Bytes.{to_be, to_le, IsU128, IsByte}
use air_ferry_i_os_source.Bits.{bit_xor-cancel_left, bit_xor-cancel_right, bit_xor-lt}
use air_ferry_i_os_source.Protocol.Session.{
  fnv_offset, fnv_prime, segment_tag, fnv_step, feed, derive, derive_segment,
}

-- The prime is odd, so multiplication by it is undone by another one, modulo 2 ^ 128.
unmultiply :
    (x : ℕ)
    → x * fnv_prime % 2 ^ 128 * 235294668448601749631651150104872562675 % 2 ^ 128 ≡ x % 2 ^ 128
unmultiply x = omega arith

prime-cancel :
    (x y : ℕ) → IsU128 x → IsU128 y → x * fnv_prime % 2 ^ 128 ≡ y * fnv_prime % 2 ^ 128 → x ≡ y
prime-cancel x y hx hy e = omega (arith, unmultiply x, unmultiply y)

fnv_step-IsU128 : (h b : ℕ) → IsU128 (fnv_step h b)
unfolding fnv_step
fnv_step-IsU128 h b = omega arith

module _ (g h b c : ℕ) (ug : IsU128 g) (ub : IsByte b) where
  fnv_step-cancel_byte : IsByte c → fnv_step g b ≡ fnv_step g c → b ≡ c
  unfolding fnv_step
  fnv_step-cancel_byte uc e = bit_xor-cancel_left g b c (
      prime-cancel (bit_xor g b) (bit_xor g c) (bit_xor-lt 128 g b ug (omega arith))
        (bit_xor-lt 128 g c ug (omega arith)) e)

  fnv_step-cancel_state : IsU128 h → fnv_step g b ≡ fnv_step h b → g ≡ h
  unfolding fnv_step
  fnv_step-cancel_state uh e = bit_xor-cancel_right g h b (
      prime-cancel (bit_xor g b) (bit_xor h b) (bit_xor-lt 128 g b ug (omega arith))
        (bit_xor-lt 128 h b uh (omega arith)) e)

-- Feeding the same bytes keeps different states apart.
feed-cancel :
    (bytes : List ℕ) (g h : ℕ)
    → All IsByte bytes
    → IsU128 g
    → IsU128 h
    → feed g bytes ≡ feed h bytes
    → g ≡ h
unfolding feed
feed-cancel List.[] g h u ug uh e = e
feed-cancel (b ∷ bytes) g h u ug uh e = fnv_step-cancel_state g h b 0 ug u.0 uh (
    feed-cancel bytes (fnv_step g b) (fnv_step h b) u.1 (fnv_step-IsU128 g b) (fnv_step-IsU128 h b)
      e)

pub feed-append : (h : ℕ) (xs ys : List ℕ) → feed h (xs ++ ys) ≡ feed (feed h xs) ys
unfolding feed
feed-append h List.[] ys = refl
feed-append h (x ∷ xs) ys = feed-append (fnv_step h x) xs ys

feed-IsU128 : (bytes : List ℕ) (h : ℕ) → IsU128 h → IsU128 (feed h bytes)
unfolding feed
feed-IsU128 List.[] h u = u
feed-IsU128 (b ∷ bytes) h u = feed-IsU128 bytes (fnv_step h b) (fnv_step-IsU128 h b)

pub feed_one_byte :
    (h : ℕ) (front back : List ℕ) (b c : ℕ)
    → IsU128 h
    → IsByte b
    → IsByte c
    → All IsByte back
    → feed h (front ++ b ∷ back) ≡ feed h (front ++ c ∷ back)
    → b ≡ c
unfolding feed
feed_one_byte h front back b c u ub uc ubs e =
    let g = feed h front in
    fnv_step-cancel_byte g 0 b c (feed-IsU128 front h u) ub uc (
      feed-cancel back (fnv_step g b) (fnv_step g c) ubs (fnv_step-IsU128 g b) (fnv_step-IsU128 g c)
        (sym (feed-append h front (b ∷ back)) ∙ e ∙ feed-append h front (c ∷ back)))

-- The bytes that `derive` hashes.
abbrev pub identity : List ℕ → ℕ → ℕ → List ℕ → List ℕ
identity name size mtime_ms fingerprint =
    name ++ (to_le 8 size ++ (to_le 8 mtime_ms ++ fingerprint))

derive-identity :
    (name : List ℕ) (size mtime_ms : ℕ) (fingerprint : List ℕ)
    → derive name size mtime_ms fingerprint
      ≡ feed fnv_offset (identity name size mtime_ms fingerprint)
unfolding derive
derive-identity n s m f = rw (feed-append, feed-append, feed-append)

-- Two files whose identities are equally long byte strings that differ in exactly one byte have different session ids.
pub derive_one_byte :
    (n1 n2 : List ℕ) (s1 s2 m1 m2 : ℕ) (f1 f2 : List ℕ) (front back : List ℕ) (b c : ℕ)
    → IsByte b
    → IsByte c
    → All IsByte back
    → identity n1 s1 m1 f1 ≡ front ++ b ∷ back
    → identity n2 s2 m2 f2 ≡ front ++ c ∷ back
    → b ≢ c
    → derive n1 s1 m1 f1 ≢ derive n2 s2 m2 f2
derive_one_byte n1 n2 s1 s2 m1 m2 f1 f2 front back b c ub uc ubs p q ne e = ne (
    feed_one_byte fnv_offset front back b c (omega arith) ub uc ubs (
      ap (feed fnv_offset) (sym p)
      ∙ sym (derive-identity n1 s1 m1 f1)
      ∙ e
      ∙ derive-identity n2 s2 m2 f2
      ∙ ap (feed fnv_offset) q))

to_be_low : (k v : ℕ) → to_be (suc k) v ≡ to_be k (v / 256) ++ (v % 256) ∷ List.[]
unfolding to_be
to_be_low k v = reverse-append ((v % 256) ∷ List.[]) (to_le k (v / 256))

regroup : (t r a x : List ℕ) → t ++ (r ++ (a ++ x)) ≡ ((t ++ r) ++ a) ++ x
regroup t r a x = simp append_assoc

abbrev segment_front : ℕ → ℕ → List ℕ
segment_front root high = (segment_tag ++ to_be 16 root) ++ to_be 3 high

derive_segment-low :
    (root i : ℕ)
    → derive_segment root i ≡ feed fnv_offset (segment_front root (i / 256) ++ (i % 256) ∷ List.[])
unfolding derive_segment
derive_segment-low root i = ap (feed fnv_offset) (
    ap (λ t. segment_tag ++ (to_be 16 root ++ t)) (to_be_low 3 i)
    ∙ regroup segment_tag (to_be 16 root) (to_be 3 (i / 256)) ((i % 256) ∷ List.[]))

-- Segments of one root whose indices differ in the last byte only have different child ids.
pub derive_segment_low_byte :
    (root i j : ℕ) → i / 256 ≡ j / 256 → i ≢ j → derive_segment root i ≢ derive_segment root j
derive_segment_low_byte root i j high ne e =
    let same : feed fnv_offset (segment_front root (i / 256) ++ (i % 256) ∷ List.[])
        ≡ feed fnv_offset (segment_front root (i / 256) ++ (j % 256) ∷ List.[]) =
      sym (derive_segment-low root i) ∙ e ∙ rw high (derive_segment-low root j) in
    let low : i % 256 ≡ j % 256 =
      feed_one_byte fnv_offset (segment_front root (i / 256)) List.[] (i % 256) (j % 256)
        (omega arith) (omega arith) (omega arith) tt same in
    ne (omega arith)
