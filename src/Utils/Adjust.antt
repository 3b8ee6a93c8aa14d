-- ===== src/Utils/Adjust.antt =====
-- `adjust_checksum` against the checksum of the changed data.
use kerion_vpn_client_docker.Base.{
  Bytes, ℕ, ◌+◌, ◌-◌, ◌*◌, ◌/◌, ◌%◌, ◌≤◌, ◌⊎◌, inl, inr, ◌^◌, ◌<◌, ◌≡◌, refl, ap, some, List, [],
  ◌∷◌, ◌++◌, arith, length, ◌∙◌,
}
use kerion_vpn_client_docker.Utils.Checksum.{total, Bytes-append, checksum_of_total}
use kerion_vpn_client_docker.Utils.{
  checksum, ntohs, htons, sub_word, add_word, sub_loop, add_loop, adjust_checksum,
}

-- The sum of the 16-bit words in network order.
unfoldable pub net_total : List ℕ → ℕ
net_total [] = 0
net_total (a ∷ []) = a * 256
net_total (a ∷ b ∷ rest) = a * 256 + b + net_total rest

ntohs-htons : (x : ℕ) → x < 2 ^ 16 → ntohs (htons x) ≡ x
unfolding ntohs htons
ntohs-htons x h = omega arith

-- One round keeps `x` below 65536 and is exact modulo 65535.
sub_word_lem :
    (x w : ℕ)
    → x < 2 ^ 16
    → w < 2 ^ 16
    → (sub_word x w < 2 ^ 16) × ((sub_word x w + w) % 65535 ≡ x % 65535)
unfolding sub_word
sub_word_lem x w hx hw = ground arith

add_word_lem :
    (x w : ℕ)
    → x < 2 ^ 16
    → w < 2 ^ 16
    → (add_word x w < 2 ^ 16) × (add_word x w % 65535 ≡ (x + w) % 65535)
unfolding add_word
add_word_lem x w hx hw = ground arith

sub_loop_lem :
    (x : ℕ) (bs : List ℕ)
    → x < 2 ^ 16
    → Bytes bs
    → length bs % 2 ≡ 0
    → (y : ℕ) × (sub_loop x bs ≡ some y) × (y < 2 ^ 16) × ((y + net_total bs) % 65535 ≡ x % 65535)
unfolding sub_loop net_total
sub_loop_lem x [] hx h e = (x, refl, hx, omega arith)
sub_loop_lem x (a ∷ []) hx h e = absurd (omega arith)
sub_loop_lem x (a ∷ b ∷ rest) hx h e =
    let one = sub_word_lem x (a * 256 + b) hx (omega arith) in
    let (y, run, small, sum) =
      sub_loop_lem (sub_word x (a * 256 + b)) rest one.0 h.1.1 (omega arith) in
    (y, run, small, omega arith)

add_loop_lem :
    (x : ℕ) (bs : List ℕ)
    → x < 2 ^ 16
    → Bytes bs
    → length bs % 2 ≡ 0
    → (y : ℕ) × (add_loop x bs ≡ some y) × (y < 2 ^ 16) × (y % 65535 ≡ (x + net_total bs) % 65535)
unfolding add_loop net_total
add_loop_lem x [] hx h e = (x, refl, hx, omega arith)
add_loop_lem x (a ∷ []) hx h e = absurd (omega arith)
add_loop_lem x (a ∷ b ∷ rest) hx h e =
    let one = add_word_lem x (a * 256 + b) hx (omega arith) in
    let (y, run, small, sum) =
      add_loop_lem (add_word x (a * 256 + b)) rest one.0 h.1.1 (omega arith) in
    (y, run, small, omega arith)

net_total-append :
    (bs cs : List ℕ) → length bs % 2 ≡ 0 → net_total (bs ++ cs) ≡ net_total bs + net_total cs
unfolding net_total
net_total-append [] cs e = omega arith
net_total-append (a ∷ []) cs e = absurd (omega arith)
net_total-append (a ∷ b ∷ rest) cs e = omega (arith, net_total-append rest cs (omega arith))

htons_bound : (x : ℕ) → htons x < 2 ^ 16
unfolding htons
htons_bound x = omega arith

ntohs_bound : (x : ℕ) → x < 2 ^ 16 → ntohs x < 2 ^ 16
unfolding ntohs
ntohs_bound x h = omega arith

-- The arithmetic of the two loops, for the words before, in and behind the changed part.
adjusted :
    (s x y b o n a : ℕ)
    → s < 2 ^ 16
    → (x + o) % 65535 ≡ (2 ^ 32 - 1 - s) % 2 ^ 16 % 65535
    → y % 65535 ≡ (x + n) % 65535
    → y < 2 ^ 16
    → (s + (b + (o + a))) % 65535 ≡ 0
    → ((2 ^ 32 - 1 - y) % 2 ^ 16 + (b + (n + a))) % 65535 ≡ 0
adjusted s x y b o n a hs left right hy valid = omega arith

-- The sum of the words with the low byte first against that in network order.
total_net : (bs : List ℕ) → total bs % 65535 ≡ 256 * net_total bs % 65535
unfolding total net_total
total_net [] = refl
total_net (a ∷ []) = omega arith
total_net (a ∷ b ∷ rest) = omega (arith, total_net rest)

total_pos : (bs : List ℕ) → 0 < net_total bs → 0 < total bs
unfolding total net_total
total_pos [] h = h
total_pos (a ∷ []) h = omega arith
total_pos (a ∷ b ∷ rest) h = elim (zero_or_pos (net_total rest)) [
  | inl z ↦ omega arith
  | inr p ↦ omega (arith, total_pos rest p)
]
  where
    zero_or_pos : (n : ℕ) → (n ≡ 0) ⊎ (0 < n)
    zero_or_pos n = ground arith

-- The data behind the two bytes of a stored checksum.
abbrev pub carrying : ℕ → List ℕ → List ℕ
carrying sum bs = (sum % 256) ∷ (sum / 256) ∷ bs

-- Data whose words make a multiple of 65535 with the stored checksum passes a full computation, unless all is 0.
accepted :
    (sum : ℕ) (bs : List ℕ)
    → sum < 2 ^ 16
    → Bytes bs
    → length bs ≤ 131070
    → (ntohs sum + net_total bs) % 65535 ≡ 0
    → (checksum (carrying sum bs) ≡ 0) ⊎ ((sum ≡ 0) × (net_total bs ≡ 0))
unfolding ntohs total
accepted sum bs small h short valid = elim (empty (ntohs sum) (net_total bs)) [
  | inl (z, n) ↦ inr (omega arith, n)
  | inr pos ↦ inl (
      checksum_of_total (carrying sum bs) (omega arith, (omega arith, h)) (omega arith)
        (positive pos) (omega (arith, total_net bs)))
]
  where
    empty : (a b : ℕ) → ((a ≡ 0) × (b ≡ 0)) ⊎ (0 < a + b)
    empty a b = ground arith

    positive : 0 < ntohs sum + net_total bs → 0 < total (carrying sum bs)
    positive pos = elim (empty (net_total bs) 0) [
      | inl (z, w) ↦ omega arith
      | inr p ↦ omega (arith, total_pos bs (omega arith))
    ]

-- Adjusting a stored checksum for a part of even length that is replaced by another part of even length
-- reads nothing outside the two parts and gives a 16-bit checksum. If the old checksum made the sum
-- of all words, itself included, a multiple of 65535, then so does the new one for the changed
-- data; and then a full computation by `checksum`, over the new checksum's bytes as they are stored and at most
-- 131070 bytes of data, gives 0, the sign of a valid checksum, unless the new checksum and all the changed
-- data are 0.
pub adjust_checksum-valid :
    (sum : ℕ) (before old new after : List ℕ)
    → sum < 2 ^ 16
    → Bytes before
    → Bytes old
    → Bytes new
    → Bytes after
    → length before % 2 ≡ 0
    → length old % 2 ≡ 0
    → length new % 2 ≡ 0
    → length (before ++ (new ++ after)) ≤ 131070
    → (ntohs sum + net_total (before ++ (old ++ after))) % 65535 ≡ 0
    → (sum' : ℕ) × (adjust_checksum sum old new ≡ some sum')
      × (sum' < 2 ^ 16)
      × ((ntohs sum' + net_total (before ++ (new ++ after))) % 65535 ≡ 0)
      × ((checksum (carrying sum' (before ++ (new ++ after))) ≡ 0)
          ⊎ ((sum' ≡ 0) × (net_total (before ++ (new ++ after)) ≡ 0)))
unfolding adjust_checksum
adjust_checksum-valid sum before old new after hs hb ho hn ha eb eo en short valid =
    let start = (2 ^ 32 - 1 - ntohs sum) % 2 ^ 16 in
    let (x, runs, hx, left) = sub_loop_lem start old (omega arith) ho eo in
    let (y, runs', hy, right) = add_loop_lem x new hx hn en in
    let sum' = htons ((2 ^ 32 - 1 - y) % 2 ^ 16) in
    let back = ntohs-htons ((2 ^ 32 - 1 - y) % 2 ^ 16) (omega arith) in
    let total =
      net_total-append before (old ++ after) eb
      ∙ ap (λ (t : ℕ). net_total before + t) (net_total-append old after eo) in
    let total' =
      net_total-append before (new ++ after) eb
      ∙ ap (λ (t : ℕ). net_total before + t) (net_total-append new after en) in
    let valid' : (ntohs sum' + net_total (before ++ (new ++ after))) % 65535 ≡ 0 =
      rw (back, total')
        (adjusted (ntohs sum) x y (net_total before) (net_total old) (net_total new)
          (net_total after) (ntohs_bound sum hs) left right hy (rw total at valid)) in
    (
      sum',
      rw (runs, adjust_checksum, runs'),
      htons_bound ((2 ^ 32 - 1 - y) % 2 ^ 16),
      valid',
      accepted sum' (before ++ (new ++ after)) (htons_bound ((2 ^ 32 - 1 - y) % 2 ^ 16))
          (Bytes-append before (new ++ after) hb (Bytes-append new after hn ha)) short valid',
    )
