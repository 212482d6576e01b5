-- ===== src/Transfer/Utf8.antt =====
-- What core/transfer-engine/src/descriptor.rs uses of Rust's strings: `String::from_utf8`,
-- `is_char_boundary`, and the loop of `build_payload_inner` that shortens a filename.
use air_ferry_i_os_source.Prelude.{
  ℕ, zero, suc, ◌≤◌, ◌<◌, ◌≡◌, refl, ap, arith, List, ◌∷◌, [], Bool, true, false, not, ◌&&◌, inl,
  inr, length, take, get_or, ltb, leb, ◌==◌, if◌then◌else◌, Bool-cases,
}

-- What the decoder waits for: so many continuation bytes, the next of them from `lo` to `hi`.
pub record Pending : Type 0 where
  pub need : ℕ
  pub lo : ℕ
  pub hi : ℕ

abbrev pub boundary : Pending
boundary = record { need = 0; lo = 0x80; hi = 0xBF }

abbrev within : ℕ → ℕ → ℕ → Bool
within lo hi b = leb lo b && leb b hi

-- The table of well-formed UTF-8: what may follow the byte `b` at a boundary.
-- A `hi` below `lo` lets nothing follow.
unfoldable pub lead : ℕ → Pending
lead b =
    if ltb b 0x80
    then boundary
    else if within 0xC2 0xDF b
    then record { need = 1; lo = 0x80; hi = 0xBF }
    else if b == 0xE0
    then record { need = 2; lo = 0xA0; hi = 0xBF }
    else if b == 0xED
    then record { need = 2; lo = 0x80; hi = 0x9F }
    else if within 0xE1 0xEF b
    then record { need = 2; lo = 0x80; hi = 0xBF }
    else if b == 0xF0
    then record { need = 3; lo = 0x90; hi = 0xBF }
    else if within 0xF1 0xF3 b
    then record { need = 3; lo = 0x80; hi = 0xBF }
    else if b == 0xF4
    then record { need = 3; lo = 0x80; hi = 0x8F }
    else record { need = 1; lo = 0x80; hi = 0 }

-- The decoder waits for `need` continuation bytes, the next of them from `lo` to `hi`.
unfoldable pub valid_from : (need lo hi : ℕ) → List ℕ → Bool
unfolding lead
valid_from need lo hi List.[] = need == 0
valid_from zero lo hi (b ∷ bytes) = let p = lead b in valid_from p.need p.lo p.hi bytes
valid_from (suc n) lo hi (b ∷ bytes) = within lo hi b && valid_from n 0x80 0xBF bytes

-- `String::from_utf8(bytes).is_ok()`
unfoldable pub is_utf8 : List ℕ → Bool
unfolding valid_from
is_utf8 bytes = valid_from 0 0x80 0xBF bytes

-- `str::is_char_boundary`
unfoldable pub is_char_boundary : List ℕ → ℕ → Bool
is_char_boundary name i =
    if i == 0
    then true
    else if ltb i (length name)
    then not (within 0x80 0xBF (get_or name i 0))
    else i == length name

-- `while !filename.is_char_boundary(filename_len) { filename_len -= 1 }`
unfoldable pub char_floor : List ℕ → ℕ → ℕ
unfolding is_char_boundary
char_floor name zero = 0
char_floor name (suc n) =
    let rest = char_floor name n in if is_char_boundary name (suc n) then suc n else rest

abbrev IsTight : Pending → Type 0
IsTight p = (0x80 ≤ p.lo) × (p.hi ≤ 0xBF)

lead-IsTight : (b : ℕ) → IsTight (lead b)
unfolding lead
lead-IsTight b = ground arith

-- A character may start at position `n`.
abbrev StartsAt : List ℕ → ℕ → Type 0
StartsAt bytes n = n < length bytes → within 0x80 0xBF (get_or bytes n 0) ≡ false

valid_from-take :
    (need lo hi : ℕ) (bytes : List ℕ) (n : ℕ)
    → 0x80 ≤ lo
    → hi ≤ 0xBF
    → n ≤ length bytes
    → StartsAt bytes n
    → valid_from need lo hi bytes ≡ true
    → valid_from need lo hi (take n bytes) ≡ true
unfolding valid_from
valid_from-take need lo hi [] zero l h le start v = v
valid_from-take need lo hi [] (suc n) l h le start v = absurd (omega arith)
valid_from-take zero lo hi (b ∷ bytes) zero l h le start v = refl
valid_from-take (suc m) lo hi (b ∷ bytes) zero l h le start v =
    let s = start (omega arith) in ground arith
valid_from-take zero lo hi (b ∷ bytes) (suc n) l h le start v =
    let t = lead-IsTight b in
    valid_from-take _ _ _ bytes n t.0 t.1 (omega arith) (λ k. start (omega arith)) v
valid_from-take (suc m) lo hi (b ∷ bytes) (suc n) l h le start v =
    let rest =
      valid_from-take m 0x80 0xBF bytes n (omega arith) (omega arith) (omega arith)
        (λ k. start (omega arith)) in
    ground arith

is_char_boundary-le : (name : List ℕ) (n : ℕ) → is_char_boundary name n ≡ true → n ≤ length name
unfolding is_char_boundary
is_char_boundary-le name n h = ground arith

-- A string cut at a character boundary is a string.
pub is_utf8-take :
    (name : List ℕ) (n : ℕ)
    → is_utf8 name ≡ true
    → is_char_boundary name n ≡ true
    → is_utf8 (take n name) ≡ true
unfolding is_char_boundary is_utf8
is_utf8-take name zero v h = refl
is_utf8-take name (suc n) v h =
    valid_from-take 0 0x80 0xBF name (suc n) (omega arith) (omega arith)
      (is_char_boundary-le name (suc n) h) (λ k. ground arith) v

pub char_floor_boundary : (name : List ℕ) (n : ℕ) → is_char_boundary name (char_floor name n) ≡ true
unfolding char_floor
char_floor_boundary name zero = unfold is_char_boundary in refl
char_floor_boundary name (suc n) = ground (arith, char_floor_boundary name n)

pub char_floor-le : (name : List ℕ) (n : ℕ) → char_floor name n ≤ n
unfolding char_floor
char_floor-le name zero = omega arith
char_floor-le name (suc n) = ground (arith, char_floor-le name n)

pub char_floor-greatest :
    (name : List ℕ) (n m : ℕ) → m ≤ n → is_char_boundary name m ≡ true → m ≤ char_floor name n
unfolding char_floor
char_floor-greatest name zero m le h = le
char_floor-greatest name (suc n) m le h = elim (Bool-cases (is_char_boundary name (suc n))) [
  | inl y ↦ rw y le
  | inr y ↦ rw y (
      char_floor-greatest name n m
        (let ne : (m ≡ suc n → ⊥) = λ e. (let k = ap (is_char_boundary name) e in cc) in
          omega arith)
        h)
]
