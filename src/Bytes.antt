-- ===== src/Bytes.antt =====
-- Fixed-width integers as bytes: `to_be_bytes`, `to_le_bytes`, `from_be_bytes` of Rust's `uN`.
use mathlib.Core.List.{reverse, reverse-reverse, append-nil}
use native.Mathlib.Nat.{pow-suc}
use air_ferry_i_os_source.Prelude.{
  ℕ, zero, suc, ◌+◌, ◌-◌, ◌*◌, ◌/◌, ◌%◌, ◌^◌, ◌≤◌, ◌<◌, ◌≡◌, refl, sym, ap, ◌∙◌, arith, List, [],
  ◌∷◌, ◌++◌, Bool, true, ltb, ◌&&◌, length, take, drop, All, length-reverse, take-append,
  drop-append, All-reverse, take-append-drop, length-take, length-drop, All-take, All-drop,
}

abbrev pub IsByte : ℕ → Type 0
IsByte b = b < 256

abbrev pub IsU16 : ℕ → Type 0
IsU16 v = v < 2 ^ 16

abbrev pub IsU32 : ℕ → Type 0
IsU32 v = v < 2 ^ 32

abbrev pub IsU64 : ℕ → Type 0
IsU64 v = v < 2 ^ 64

abbrev pub IsU128 : ℕ → Type 0
IsU128 v = v < 2 ^ 128

unfoldable pub to_le : ℕ → ℕ → List ℕ
to_le zero v = []
to_le (suc k) v = (v % 256) ∷ to_le k (v / 256)

unfoldable pub from_le : List ℕ → ℕ
from_le [] = 0
from_le (b ∷ bs) = b + 256 * from_le bs

unfoldable pub to_be : ℕ → ℕ → List ℕ
unfolding to_le
to_be k v = reverse (to_le k v)

unfoldable pub from_be : List ℕ → ℕ
unfolding from_le
from_be bs = from_le (reverse bs)

-- The cursor of a parser is the input that is left: read `n` bytes as a big-endian number.
unfoldable pub read_be : ℕ → List ℕ → ℕ × List ℕ
unfolding from_be
read_be n r = (from_be (take n r), drop n r)

pub length-to_le : (k v : ℕ) → length (to_le k v) ≡ k
unfolding to_le
length-to_le zero v = refl
length-to_le (suc k) v = ap suc (length-to_le k (v / 256))

pub to_le-IsByte : (k v : ℕ) → All IsByte (to_le k v)
unfolding to_le
to_le-IsByte zero v = tt
to_le-IsByte (suc k) v = (omega arith, to_le-IsByte k (v / 256))

pub from_le-to_le : (k v : ℕ) → v < 256 ^ k → from_le (to_le k v) ≡ v
unfolding to_le from_le
from_le-to_le zero v h = omega arith
from_le-to_le (suc k) v h = omega (arith, from_le-to_le k (v / 256) (omega (arith, pow-suc 256 k)))

pub to_le-from_le : (bs : List ℕ) → All IsByte bs → to_le (length bs) (from_le bs) ≡ bs
unfolding to_le from_le
to_le-from_le [] h = refl
to_le-from_le (b ∷ bs) h =
    let low : (b + 256 * from_le bs) % 256 ≡ b = omega arith in
    let high : (b + 256 * from_le bs) / 256 ≡ from_le bs = omega arith in
    rw (low, high, to_le-from_le bs h.1) refl

pub from_le-lt : (bs : List ℕ) → All IsByte bs → from_le bs < 256 ^ length bs
unfolding from_le
from_le-lt [] h = omega arith
from_le-lt (b ∷ bs) h = omega (arith, from_le-lt bs h.1, pow-suc 256 (length bs))

pub length-to_be : (k v : ℕ) → length (to_be k v) ≡ k
unfolding to_be
length-to_be k v = length-reverse (to_le k v) ∙ length-to_le k v

pub to_be-IsByte : (k v : ℕ) → All IsByte (to_be k v)
unfolding to_be
to_be-IsByte k v = All-reverse IsByte (to_le k v) (to_le-IsByte k v)

pub from_be-to_be : (k v : ℕ) → v < 256 ^ k → from_be (to_be k v) ≡ v
unfolding to_be from_be
from_be-to_be k v h = rw (reverse-reverse (to_le k v)) (from_le-to_le k v h)

pub to_be-from_be : (bs : List ℕ) → All IsByte bs → to_be (length bs) (from_be bs) ≡ bs
unfolding to_be from_be
to_be-from_be bs h =
    rw
      (
        ← length-reverse bs,
        to_le-from_le (reverse bs) (All-reverse IsByte bs h),
        reverse-reverse bs,
      )
      refl

-- A number that was written is read back, and the cursor stands behind it.
pub read_be-to_be :
    (n v : ℕ) (rest : List ℕ) → v < 256 ^ n → read_be n (to_be n v ++ rest) ≡ (v, rest)
unfolding read_be
read_be-to_be n v rest h = rw (
  take-append n (to_be n v) rest (sym (length-to_be n v)),
  drop-append n (to_be n v) rest (sym (length-to_be n v)),
  from_be-to_be n v h,
)

pub read_be-to_be_end : (n v : ℕ) → v < 256 ^ n → read_be n (to_be n v) ≡ (v, [])
read_be-to_be_end n v h = rw (← append-nil (to_be n v)) (read_be-to_be n v [] h)

to_be-take :
    (n : ℕ) (r : List ℕ) → n ≤ length r → All IsByte r → to_be n (from_be (take n r)) ≡ take n r
to_be-take n r h b = rw (length-take n r h) at (to_be-from_be (take n r) (All-take IsByte n r b))

-- What was read is written back.
pub to_be-read_be :
    (n : ℕ) (r : List ℕ)
    → n ≤ length r
    → All IsByte r
    → to_be n (read_be n r).0 ++ (read_be n r).1 ≡ r
unfolding read_be
to_be-read_be n r h b = rw (to_be-take n r h b) (take-append-drop n r)

pub read_be-lt : (n : ℕ) (r : List ℕ) → n ≤ length r → All IsByte r → (read_be n r).0 < 256 ^ n
unfolding read_be from_be
read_be-lt n r h b =
    rw (length-reverse (take n r), length-take n r h) at
      (from_le-lt (reverse (take n r)) (All-reverse IsByte _ (All-take IsByte n r b)))

pub from_be-lt : (n : ℕ) (r : List ℕ) → n ≤ length r → All IsByte r → from_be (take n r) < 256 ^ n
unfolding read_be
from_be-lt n r h b = read_be-lt n r h b

pub length-read_be : (n : ℕ) (r : List ℕ) → length (read_be n r).1 ≡ length r - n
unfolding read_be
length-read_be n r = length-drop n r

pub read_be-IsByte : (n : ℕ) (r : List ℕ) → All IsByte r → All IsByte (read_be n r).1
unfolding read_be
read_be-IsByte n r h = All-drop IsByte n r h

pub to_be-read_be_end :
    (n : ℕ) (r : List ℕ) → length r ≡ n → All IsByte r → to_be n (read_be n r).0 ≡ r
unfolding read_be
to_be-read_be_end n r h b =
    rw (to_be-take n r (omega arith) b)
      (rw (take-append n r [] (sym h)) at (ap (take n) (sym (append-nil r))))

-- A test that every number of a list is a byte.
abbrev pub all_bytes : List ℕ → Bool
all_bytes [] = true
all_bytes (b ∷ bs) = ltb b 256 && all_bytes bs

pub all_bytes-IsByte : (bs : List ℕ) → all_bytes bs ≡ true → All IsByte bs
all_bytes-IsByte [] h = tt
all_bytes-IsByte (b ∷ bs) h = (ground arith, all_bytes-IsByte bs (ground arith))
