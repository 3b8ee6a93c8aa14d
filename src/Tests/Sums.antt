-- ===== src/Tests/Sums.antt =====
-- The checksums and the bounds of a request on concrete values.
use kerion_vpn_client_docker.Base.{
  ℕ, refl, [], ◌∷◌, ◌++◌, ◌+◌, ◌^◌, ◌%◌, ◌/◌, ◌<◌, ◌≡◌, ◌⊎◌, some, arith,
}
use kerion_vpn_client_docker.Utils.{checksum, ntohs, adjust_checksum}
use kerion_vpn_client_docker.Utils.Checksum.{total, checksum-complement, checksum-append}
use kerion_vpn_client_docker.Utils.Adjust.{carrying, net_total, adjust_checksum-valid}

checksum_complement_example :
    (checksum (1 ∷ 2 ∷ 3 ∷ []) < 2 ^ 16)
    × ((checksum (1 ∷ 2 ∷ 3 ∷ []) + total (1 ∷ 2 ∷ 3 ∷ [])) % 65535 ≡ 0)
checksum_complement_example = checksum-complement (1 ∷ 2 ∷ 3 ∷ []) (omega arith) (omega arith)

checksum_append_example :
    checksum ((1 ∷ 2 ∷ []) ++ (checksum (1 ∷ 2 ∷ []) % 256) ∷ (checksum (1 ∷ 2 ∷ []) / 256) ∷ [])
    ≡ 0
checksum_append_example = checksum-append (1 ∷ 2 ∷ []) (omega arith) refl (omega arith)

valid : (ntohs 64767 + net_total (0 ∷ 1 ∷ 0 ∷ 2 ∷ [])) % 65535 ≡ 0
unfolding ntohs net_total
valid = refl

-- 1 + 2 and the stored 65532 make 65535.
adjust_checksum_example :
    (sum : ℕ) × (adjust_checksum 64767 (0 ∷ 2 ∷ []) (9 ∷ 7 ∷ []) ≡ some sum)
    × (sum < 2 ^ 16)
    × ((ntohs sum + net_total ((0 ∷ 1 ∷ []) ++ ((9 ∷ 7 ∷ []) ++ []))) % 65535 ≡ 0)
    × ((checksum (carrying sum ((0 ∷ 1 ∷ []) ++ ((9 ∷ 7 ∷ []) ++ []))) ≡ 0)
        ⊎ ((sum ≡ 0) × (net_total ((0 ∷ 1 ∷ []) ++ ((9 ∷ 7 ∷ []) ++ [])) ≡ 0)))
adjust_checksum_example =
    adjust_checksum-valid 64767 (0 ∷ 1 ∷ []) (0 ∷ 2 ∷ []) (9 ∷ 7 ∷ []) [] (omega arith)
      (omega arith) (omega arith) (omega arith) tt refl refl refl (omega arith) valid
