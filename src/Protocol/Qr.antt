-- ===== src/Protocol/Qr.antt =====
-- core/qr-protocol/src/qr_render.rs: the smallest QR version that holds a frame. The builder of the vendored fast_qr
-- crate, at level L and with the fixed mask, is the parameter `build`.
pub mod Smallest
use air_ferry_i_os_source.Prelude.{
  ℕ, zero, suc, ◌+◌, ◌-◌, ◌*◌, List, ◌∷◌, Option, none, some, Bool, length, take, leb,
  if◌then◌else◌, Result, ok, err,
}
use air_ferry_i_os_source.Protocol.{Error, buffer_too_short}

abbrev pub qr_max_bytes : ℕ
qr_max_bytes = 2953

abbrev pub qr_byte_capacity_l : List ℕ
qr_byte_capacity_l =
    17
    ∷ (32
        ∷ (53
            ∷ (78
                ∷ (106
                    ∷ (134
                        ∷ (154
                            ∷ (192
                                ∷ (230
                                    ∷ (271
                                        ∷ (321
                                            ∷ (367
                                                ∷ (425
                                                    ∷ (458
                                                        ∷ (520
                                                            ∷ (586
                                                            ∷ (644
                                                            ∷ (718
                                                            ∷ (792
                                                            ∷ (858
                                                            ∷ (929
                                                            ∷ (1003
                                                            ∷ (1091
                                                            ∷ (1171
                                                            ∷ (1273
                                                            ∷ (1367
                                                            ∷ (1465
                                                            ∷ (1528
                                                            ∷ (1628
                                                            ∷ (1732
                                                            ∷ (1840
                                                            ∷ (1952
                                                            ∷ (2068
                                                            ∷ (2188
                                                            ∷ (2303
                                                            ∷ (2431
                                                            ∷ (2563
                                                            ∷ (2699
                                                            ∷ (2809
                                                            ∷ (2953
                                                            ∷ List.[])))))))))))))))))))))))))))))))))))))))

-- `.position(|&cap| cap >= len)`, counted from `v`.
unfoldable pub position_from : ℕ → ℕ → List ℕ → Option ℕ
position_from len v List.[] = none
position_from len v (cap ∷ caps) =
    let later = position_from len (suc v) caps in if leb len cap then some v else later

unfoldable pub min_version_for : ℕ → Option ℕ
unfolding position_from
min_version_for len = position_from len 1 qr_byte_capacity_l

pub record QrMatrix : Type 0 where
  pub modules : List Bool
  pub size : ℕ

-- `fast_qr::QRCode`, of which a module is its `value`.
pub record QrCode : Type 0 where
  pub size : ℕ
  pub modules : List Bool

abbrev pub matrix_of : QrCode → QrMatrix
matrix_of code = record { modules = take (code.size * code.size) code.modules; size = code.size }

module _ (build : (version : ℕ) → List ℕ → Option QrCode) where
  -- `n` versions from `v` on.
  unfoldable pub walk : ℕ → ℕ → List ℕ → Option QrMatrix
  walk zero v bytes = none
  walk (suc n) v bytes = elim (build v bytes) [
    | some code ↦ some (matrix_of code)
    | none ↦ walk n (suc v) bytes
  ]

  abbrev pub too_short : List ℕ → Error
  too_short bytes = buffer_too_short qr_max_bytes (length bytes)

  unfoldable pub found : List ℕ → Option QrMatrix → Result Error QrMatrix
  found bytes (some m) = ok m
  found bytes none = err (too_short bytes)

  unfoldable pub encode : List ℕ → Result Error QrMatrix
  unfolding min_version_for walk found
  encode bytes = elim (min_version_for (length bytes)) [
    | none ↦ err (too_short bytes)
    | some start ↦ found bytes (walk (41 - start) start bytes)
  ]
