-- ===== src/Codec/Config.antt =====
-- core/raptorq-core/src/config.rs: the symbol size, which is also the size of a frame's payload.
use air_ferry_i_os_source.Prelude.{
  ℕ, ◌+◌, ◌%◌, ◌^◌, ◌≤◌, ◌<◌, ◌≡◌, ◌↔◌, arith, Option, none, some, not, ◌&&◌, ◌||◌, ltb, leb, ◌==◌,
  if◌then◌else◌, Result, ok, err,
}
use air_ferry_i_os_source.Codec.{Error, invalid_symbol_size}

abbrev pub default_symbol_size : ℕ
default_symbol_size = 1024

abbrev pub min_symbol_size : ℕ
min_symbol_size = 64

abbrev pub max_symbol_size : ℕ
max_symbol_size = 65528

abbrev pub payload_id_size : ℕ
payload_id_size = 4

pub record Config : Type 0 where
  pub symbol_size : ℕ

abbrev pub default : Config
default = record { symbol_size = default_symbol_size }

unfoldable pub new : ℕ → Result Error Config
new symbol_size =
    if not (leb min_symbol_size symbol_size && leb symbol_size max_symbol_size)
      || not (symbol_size % 8 == 0)
    then err invalid_symbol_size
    else ok (record { symbol_size = symbol_size })

-- `u32::checked_add`
abbrev pub checked_add_u32 : ℕ → ℕ → Option ℕ
checked_add_u32 a b = if ltb (a + b) (2 ^ 32) then some (a + b) else none

-- `u16::try_from(v).ok()`
abbrev pub to_u16 : ℕ → Option ℕ
to_u16 v = if ltb v (2 ^ 16) then some v else none

abbrev and_then : Option ℕ → (ℕ → Option ℕ) → Option ℕ
and_then none f = none
and_then (some a) f = f a

abbrev ok_or : Option ℕ → Error → Result Error ℕ
ok_or none e = err e
ok_or (some a) e = ok a

unfoldable pub mtu : Config → Result Error ℕ
mtu c = ok_or (and_then (checked_add_u32 c.symbol_size payload_id_size) to_u16) invalid_symbol_size

-- The sizes that `new` accepts.
abbrev pub IsSymbolSize : ℕ → Type 0
IsSymbolSize t = (64 ≤ t) × (t ≤ 65528) × (t % 8 ≡ 0)

-- `new` accepts exactly the multiples of 8 from 64 to 65528, and keeps the size.
pub new_iff : (t : ℕ) (c : Config) → (new t ≡ ok c) ↔ (IsSymbolSize t × (c.symbol_size ≡ t))
unfolding new
new_iff t c = (λ e. ground arith, λ h. ground arith)

-- A configuration that `new` made has an MTU: its payload and the four bytes of the id.
pub mtu-new : (t : ℕ) (c : Config) → new t ≡ ok c → (mtu c ≡ ok (t + 4)) × (t + 4 < 2 ^ 16)
unfolding new mtu
mtu-new t c e = ground arith
