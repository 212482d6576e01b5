-- ===== src/Transfer/Examples/Browser.antt =====
-- The buffer of the browser's codes at a session of one symbol and a builder of codes of four modules.
use air_ferry_i_os_source.Prelude.{
  ℕ, ◌+◌, ◌*◌, ◌≤◌, ◌≡◌, arith, List, Option, some, true, replicate, map, length, min,
}
use mathlib.Core.Option.{some-injective}
use mathlib.Core.Path.{subst}
use air_ferry_i_os_source.Protocol.Qr.{QrCode}
use air_ferry_i_os_source.Transfer.Wasm.{next_qr_multi}
use air_ferry_i_os_source.Transfer.Wasm.Batch.{
  IsBuilder, read_multi, codes, seen, next_qr_multi_lem,
}
use air_ferry_i_os_source.Transfer.Examples.Sending.{sender, checksum}

abbrev clock : ℕ → ℕ × ℕ
clock i = (4, 10 + i)

abbrev code : QrCode
code = record { size = 2; modules = replicate 5 true }

abbrev square : ℕ → List ℕ → Option QrCode
square v bytes = some code

square-IsBuilder : IsBuilder checksum square clock
square-IsBuilder v bytes c e =
    subst (λ (t : QrCode). (t.size * t.size ≤ length t.modules) × (t.size ≤ 177))
      (some-injective _ _ e) (omega arith, omega arith)

next_qr_multi_lem_example :
    read_multi (next_qr_multi checksum square clock sender 2).1
    ≡ map seen (codes checksum square clock (min 2 8) 0 sender)
next_qr_multi_lem_example = next_qr_multi_lem checksum square clock square-IsBuilder sender 2
