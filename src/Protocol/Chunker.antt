-- ===== src/Protocol/Chunker.antt =====
-- core/qr-protocol/src/chunker.rs: a payload is padded to whole symbols.
use native.Mathlib.Nat.{mod-lt, mod-add-mod, mod_self}
use air_ferry_i_os_source.Prelude.{
  ℕ, ◌+◌, ◌-◌, ◌%◌, ◌≤◌, ◌<◌, ◌≡◌, refl, sym, ap, ◌∙◌, arith, inl, inr, List, ◌++◌, length, take,
  replicate, ◌==◌, if◌then◌else◌, Bool-cases, length-append, length-replicate, take-append,
  take_all,
}
use air_ferry_i_os_source.Codec.Config.{Config}

unfoldable pub pad_to_symbols : List ℕ → Config → List ℕ
pad_to_symbols bytes config =
    let t = config.symbol_size in
    let rem = length bytes % t in if rem == 0 then bytes else bytes ++ replicate (t - rem) 0

-- The padded payload starts with the payload, is a whole number of symbols, and is less than one symbol
-- longer.
pub pad_to_symbols_lem :
    (bytes : List ℕ) (config : Config)
    → 0 < config.symbol_size
    → take (length bytes) (pad_to_symbols bytes config) ≡ bytes
      × length (pad_to_symbols bytes config) % config.symbol_size ≡ 0
      × length bytes ≤ length (pad_to_symbols bytes config)
      × length (pad_to_symbols bytes config) < length bytes + config.symbol_size
unfolding pad_to_symbols
pad_to_symbols_lem bytes config pos =
    let t = config.symbol_size in
    let rem = length bytes % t in
    let pad : List ℕ = replicate (t - rem) 0 in
    let lt = mod-lt (length bytes) pos in
    let len : length (bytes ++ pad) ≡ length bytes + (t - rem) =
      omega (arith, length-append bytes pad, length-replicate {A = ℕ} (t - rem) 0) in
    let whole : rem + (t - rem) ≡ t = omega (arith, lt) in
    let zero_rem : (length bytes + (t - rem)) % t ≡ 0 =
      sym (mod-add-mod (length bytes) t (t - rem)) ∙ ap (λ s. s % t) whole ∙ mod_self t in
    elim (Bool-cases (length bytes % t == 0)) [
      | inl y ↦
          rw y (take_all (length bytes) bytes (omega arith), ground arith, omega arith, omega arith)
      | inr n ↦
          let some_rem : 0 < rem = ground arith in
          rw n (
            take-append (length bytes) bytes pad refl,
            ap (λ s. s % t) len ∙ zero_rem,
            omega (arith, len),
            omega (arith, len),
          )
    ]
