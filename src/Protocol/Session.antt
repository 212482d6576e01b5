-- ===== src/Protocol/Session.antt =====
-- core/qr-protocol/src/session.rs: session ids are FNV-1a hashes of a file's identity.
pub mod Collision
use Prim.Native.Nat.{bit_xor}
use mathlib.Core.List.{foldl}
use air_ferry_i_os_source.Prelude.{ℕ, ◌*◌, ◌%◌, ◌^◌, List, ◌∷◌, ◌++◌}
use air_ferry_i_os_source.Bytes.{to_be, to_le}

-- The FNV offset basis and prime for 128 bits.
abbrev pub fnv_offset : ℕ
fnv_offset = 0x6c62272e07bb01426b82175983ad0b58

abbrev pub fnv_prime : ℕ
fnv_prime = 0x0000000001000000000000000000013b

-- `h ^= b as u128; h = h.wrapping_mul(PRIME)`
unfoldable pub fnv_step : ℕ → ℕ → ℕ
fnv_step h b = bit_xor h b * fnv_prime % 2 ^ 128

-- `for &b in bytes { … }`
unfoldable pub feed : ℕ → List ℕ → ℕ
feed h List.[] = h
feed h (b ∷ bytes) = feed (fnv_step h b) bytes

unfoldable pub derive : List ℕ → ℕ → ℕ → List ℕ → ℕ
derive name size mtime_ms fingerprint =
    feed (feed (feed (feed fnv_offset name) (to_le 8 size)) (to_le 8 mtime_ms)) fingerprint

-- b"AirFerry.segment.v1"
abbrev pub segment_tag : List ℕ
segment_tag =
    b'A'
    ∷ (b'i'
        ∷ (b'r'
            ∷ (b'F'
                ∷ (b'e'
                    ∷ (b'r'
                        ∷ (b'r'
                            ∷ (b'y'
                                ∷ (b'.'
                                    ∷ (b's'
                                        ∷ (b'e'
                                            ∷ (b'g'
                                                ∷ (b'm'
                                                    ∷ (b'e'
                                                        ∷ (b'n'
                                                            ∷ (b't'
                                                            ∷ (b'.'
                                                            ∷ (b'v'
                                                            ∷ (b'1' ∷ List.[]))))))))))))))))))

unfoldable pub derive_segment : ℕ → ℕ → ℕ
derive_segment root segment_index =
    feed fnv_offset (segment_tag ++ (to_be 16 root ++ to_be 4 segment_index))

-- FNV-1a with 64 bits.
abbrev pub fingerprint_offset : ℕ
fingerprint_offset = 0xcbf29ce484222325

abbrev pub fingerprint_prime : ℕ
fingerprint_prime = 0x100000001b3

unfoldable pub fingerprint_step : ℕ → ℕ → ℕ
fingerprint_step h b = bit_xor h b * fingerprint_prime % 2 ^ 64

unfoldable pub content_fingerprint : List ℕ → List ℕ → List ℕ
unfolding fingerprint_step
content_fingerprint head tail =
    to_le 8 (foldl fingerprint_step (foldl fingerprint_step fingerprint_offset head) tail)
