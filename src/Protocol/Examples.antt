-- ===== src/Protocol/Examples.antt =====
-- The protocol's theorems at one frame, with the length as a checksum, and at two files.
use air_ferry_i_os_source.Prelude.{
  ℕ, take, ◌+◌, ◌≤◌, ◌<◌, ◌%◌, ◌^◌, ◌≡◌, ◌≢◌, ◌↔◌, refl, arith, List, ◌∷◌, ◌++◌, ◌-◌, ok, err,
  length, ◌⊎◌, Option, none, some, true, replicate, ltb, if◌then◌else◌, All,
}
use air_ferry_i_os_source.Protocol
use air_ferry_i_os_source.Protocol.Qr.{
  QrCode, QrMatrix, encode, min_version_for, position_from, walk, found,
}
use air_ferry_i_os_source.Protocol.Qr.Smallest.{IsSmallest, capacity, encode_lem}
use air_ferry_i_os_source.Bytes.{IsByte, IsU32, to_be, to_le, all_bytes-IsByte}
use air_ferry_i_os_source.Protocol.Frame.{Frame, write_bytes, build, to_bytes, from_bytes}
use air_ferry_i_os_source.Protocol.Frame.RoundTrip.{IsValidFrame, build-IsValidFrame}
use air_ferry_i_os_source.Protocol.Frame.Sound.{from_bytes_iff}
use air_ferry_i_os_source.Codec.Config.{Config}
use air_ferry_i_os_source.Protocol.Chunker.{pad_to_symbols, pad_to_symbols_lem}
use air_ferry_i_os_source.Protocol.Session.{derive, derive_segment}
use air_ferry_i_os_source.Protocol.Session.Collision.{derive_one_byte, derive_segment_low_byte}

abbrev usize_max : ℕ
usize_max = 2 ^ 64 - 1

abbrev checksum : List ℕ → ℕ
checksum bs = length bs % 2 ^ 32

checksum-IsU32 : (bs : List ℕ) → IsU32 (checksum bs)
checksum-IsU32 bs = omega arith

abbrev payload : List ℕ
payload = 1 ∷ (2 ∷ (3 ∷ List.[]))

abbrev frame : Frame
unfolding build
frame = build checksum 77 0 1 2 3 4 3 5 6 payload

frame_valid : IsValidFrame checksum frame
unfolding frame
frame_valid =
    build-IsValidFrame usize_max checksum 77 0 1 2 3 4 3 5 6 payload checksum-IsU32 (omega arith)
      (omega arith) (omega arith) (omega arith) (omega arith) (omega arith) (omega arith)
      (omega arith) (omega arith) refl

frame_bytes : All IsByte (to_bytes frame)
unfolding to_bytes write_bytes to_be to_le frame
frame_bytes = all_bytes-IsByte (to_bytes frame) refl

from_bytes_iff_example :
    (from_bytes usize_max checksum (to_bytes frame) ≡ ok frame)
    ↔ (IsValidFrame checksum frame × (to_bytes frame ≡ to_bytes frame))
from_bytes_iff_example = from_bytes_iff usize_max checksum (to_bytes frame) frame frame_bytes

-- Two files that differ in the one letter of their names.
derive_one_byte_example :
    derive (b'a' ∷ List.[]) 9 10 List.[] ≢ derive (b'b' ∷ List.[]) 9 10 List.[]
unfolding to_le
derive_one_byte_example =
    derive_one_byte (b'a' ∷ List.[]) (b'b' ∷ List.[]) 9 9 10 10 List.[] List.[] List.[]
      (to_le 8 9 ++ (to_le 8 10 ++ List.[])) b'a' b'b' (omega arith) (omega arith)
      (all_bytes-IsByte (to_le 8 9 ++ (to_le 8 10 ++ List.[])) refl) refl refl (λ e. omega arith)

derive_segment_low_byte_example : derive_segment 77 0 ≢ derive_segment 77 1
derive_segment_low_byte_example = derive_segment_low_byte 77 0 1 (omega arith) (λ e. omega arith)

abbrev config : Config
config = record { symbol_size = 64 }

pad_to_symbols_lem_example :
    take 3 (pad_to_symbols payload config) ≡ payload
    × length (pad_to_symbols payload config) % 64 ≡ 0
    × 3 ≤ length (pad_to_symbols payload config)
    × length (pad_to_symbols payload config) < 3 + 64
pad_to_symbols_lem_example = pad_to_symbols_lem payload config (omega arith)

-- A builder that refuses the versions below 3, and 20 bytes, which version 2 could hold.
abbrev picky : ℕ → List ℕ → Option QrCode
picky v bytes = if ltb v 3 then none else some (record { size = 2; modules = replicate 5 true })

abbrev twenty : List ℕ
twenty = replicate 20 7

version_three : encode picky twenty ≡ ok (record { modules = replicate 4 true; size = 2 })
unfolding encode min_version_for position_from walk found
version_three = refl

encode_lem_example :
    ((m : QrMatrix) → encode picky twenty ≡ ok m → (v : ℕ) × IsSmallest picky twenty m v)
    × ((x : Protocol.Error)
        → encode picky twenty ≡ err x
        → (w : ℕ) → 0 < w
        → w ≤ 40
        → (capacity w < length twenty) ⊎ (picky w twenty ≡ none))
encode_lem_example = encode_lem picky twenty
