-- ===== src/Utils/Checksum.antt =====
-- `checksum` against the one's complement sum of the words.
use native.Mathlib.Nat.{zero-add}
use kerion_vpn_client_docker.Base.{
  Bytes, ℕ, ◌+◌, ◌*◌, ◌/◌, ◌%◌, ◌^◌, ◌≤◌, ◌<◌, ◌≡◌, List, [], ◌∷◌, ◌++◌, arith, length,
  length-append, ◌-◌, ◌∙◌,
}
use kerion_vpn_client_docker.Utils.{sum_loop, fold_carries, checksum}

-- The sum of the 16-bit words, the low byte first; an odd last byte counts as a low byte.
unfoldable pub total : List ℕ → ℕ
total [] = 0
total (a ∷ []) = a
total (a ∷ b ∷ rest) = a + 256 * b + total rest

total_bound : (bs : List ℕ) → Bytes bs → total bs * 2 ≤ 65535 * (length bs + 1)
unfolding total
total_bound [] h = omega arith
total_bound (a ∷ []) h = omega arith
total_bound (a ∷ b ∷ rest) h = omega (arith, total_bound rest h.1.1)

-- The 32-bit accumulator does not wrap while the true sum fits.
sum_loop-total : (s : ℕ) (bs : List ℕ) → s + total bs < 2 ^ 32 → sum_loop s bs ≡ s + total bs
unfolding sum_loop total
sum_loop-total s [] h = omega arith
sum_loop-total s (a ∷ []) h = omega arith
sum_loop-total s (a ∷ b ∷ rest) h =
    omega (arith, sum_loop-total ((s + (a + 256 * b)) % 2 ^ 32) rest (omega arith))

-- What is left of the folded sum after truncation to 16 bits is the sum modulo 65535.
folded :
    (s : ℕ)
    → s < 2 ^ 32
    → (fold_carries s % 2 ^ 16 % 65535 ≡ s % 65535)
      × (0 < s → 0 < fold_carries s % 2 ^ 16)
      × (fold_carries s < 2 ^ 32)
unfolding fold_carries
folded s h = omega arith

total-append : (bs cs : List ℕ) → length bs % 2 ≡ 0 → total (bs ++ cs) ≡ total bs + total cs
unfolding total
total-append [] cs e = omega arith
total-append (a ∷ []) cs e = absurd (omega arith)
total-append (a ∷ b ∷ rest) cs e = omega (arith, total-append rest cs (omega arith))

total_small : (bs : List ℕ) → Bytes bs → length bs ≤ 131072 → total bs < 2 ^ 32
total_small bs h short = omega (arith, total_bound bs h)

sum_loop_start : (bs : List ℕ) → Bytes bs → length bs ≤ 131072 → sum_loop 0 bs ≡ total bs
sum_loop_start bs h short =
    let small = total_small bs h short in sum_loop-total 0 bs (omega arith) ∙ zero-add (total bs)

complement_of :
    (s : ℕ)
    → s < 2 ^ 32
    → ((2 ^ 32 - 1 - fold_carries s) % 2 ^ 16 < 2 ^ 16)
      × (((2 ^ 32 - 1 - fold_carries s) % 2 ^ 16 + s) % 65535 ≡ 0)
complement_of s h = omega (arith, folded s h)

zero_of : (s : ℕ) → s < 2 ^ 32 → 0 < s → s % 65535 ≡ 0 → (2 ^ 32 - 1 - fold_carries s) % 2 ^ 16 ≡ 0
unfolding fold_carries
zero_of s h pos e = omega (arith, folded s h)

pub Bytes-append : (bs cs : List ℕ) → Bytes bs → Bytes cs → Bytes (bs ++ cs)
Bytes-append [] cs hb hc = hc
Bytes-append (b ∷ bs) cs hb hc = (hb.0, Bytes-append bs cs hb.1 hc)

-- The total with two bytes behind it.
total_pair :
    (bs : List ℕ) (c : ℕ)
    → length bs % 2 ≡ 0
    → total (bs ++ (c % 256) ∷ (c / 256) ∷ []) ≡ total bs + c
unfolding total
total_pair bs c even = omega (arith, total-append bs ((c % 256) ∷ (c / 256) ∷ []) even)

-- The checksum of at most 131072 bytes is the 16-bit one's complement of the one's complement sum of its
-- words: it lies below 65536, and with the sum of the words it is a multiple of 65535.
pub checksum-complement :
    (bs : List ℕ)
    → Bytes bs
    → length bs ≤ 131072
    → (checksum bs < 2 ^ 16) × ((checksum bs + total bs) % 65535 ≡ 0)
unfolding checksum
checksum-complement bs h short =
    rw (sum_loop_start bs h short) (complement_of (total bs) (total_small bs h short))

pos_of : (s : ℕ) → s < 2 ^ 32 → 0 < (2 ^ 32 - 1 - fold_carries s) % 2 ^ 16 + s
unfolding fold_carries
pos_of s h = omega arith

-- The checksum of zeros is not 0.
checksum-pos : (bs : List ℕ) → Bytes bs → length bs ≤ 131072 → 0 < checksum bs + total bs
unfolding checksum
checksum-pos bs h short =
    rw (sum_loop_start bs h short) (pos_of (total bs) (total_small bs h short))

pub checksum_of_total :
    (bs : List ℕ)
    → Bytes bs
    → length bs ≤ 131072
    → 0 < total bs
    → total bs % 65535 ≡ 0
    → checksum bs ≡ 0
unfolding checksum
checksum_of_total bs h short pos e =
    rw (sum_loop_start bs h short) (zero_of (total bs) (total_small bs h short) pos e)

-- A buffer of even length, at most 131070 bytes, that carries its checksum in its last two bytes, the low
-- one first, has the checksum 0: this is how a receiver verifies it.
pub checksum-append :
    (bs : List ℕ)
    → Bytes bs
    → length bs % 2 ≡ 0
    → length bs ≤ 131070
    → checksum (bs ++ (checksum bs % 256) ∷ (checksum bs / 256) ∷ []) ≡ 0
checksum-append bs h even short =
    let c = checksum bs in
    let tail = (c % 256) ∷ (c / 256) ∷ [] in
    let low = checksum-complement bs h (omega arith) in
    let sum = total_pair bs c even in
    checksum_of_total (bs ++ tail) (Bytes-append bs tail h (omega arith))
      (omega (arith, length-append bs tail)) (omega (arith, checksum-pos bs h (omega arith)))
      (omega arith)
