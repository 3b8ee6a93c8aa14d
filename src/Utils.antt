-- ===== src/Utils.antt =====
-- The Internet checksums of drivers/vpn/linux/utils.c, on a little-endian machine (x86). Bytes are
-- numbers below 256; a buffer is the list of its `len` bytes.
pub mod Adjust
pub mod Checksum
pub mod Dump
pub mod Trace
use kerion_vpn_client_docker.Base.{
  ℕ, ◌+◌, ◌-◌, ◌*◌, ◌/◌, ◌%◌, ◌^◌, ◌||◌, Option, none, some, List, [], ◌∷◌, leb, ◌==◌,
  if◌then◌else◌,
}

-- The loop of `checksum`: 16-bit loads added in a 32-bit word, and an odd last byte.
unfoldable pub sum_loop : ℕ → List ℕ → ℕ
sum_loop sum [] = sum
sum_loop sum (a ∷ []) = (sum + a) % 2 ^ 32
sum_loop sum (a ∷ b ∷ rest) = sum_loop ((sum + (a + 256 * b)) % 2 ^ 32) rest

-- The two additions of the carries.
unfoldable pub fold_carries : ℕ → ℕ
fold_carries sum =
    let once = (sum / 2 ^ 16 + sum % 2 ^ 16) % 2 ^ 32 in (once + once / 2 ^ 16) % 2 ^ 32

-- `(unsigned short) ~sum`.
unfoldable pub checksum : List ℕ → ℕ
unfolding sum_loop fold_carries
checksum buff = (2 ^ 32 - 1 - fold_carries (sum_loop 0 buff)) % 2 ^ 16

-- `ntohs` and `htons` swap the two bytes.
unfoldable pub ntohs : ℕ → ℕ
ntohs x = x % 256 * 256 + x / 256 % 256

unfoldable pub htons : ℕ → ℕ
htons x = x % 256 * 256 + x / 256 % 256

-- One round of the first loop, on a 32-bit two's complement `x`: subtract a word, and borrow where the
-- difference is not positive.
unfoldable pub sub_word : ℕ → ℕ → ℕ
sub_word x w =
    let d = (x + 2 ^ 32 - w) % 2 ^ 32 in
    if (d == 0) || leb (2 ^ 31) d then (d + 2 ^ 32 - 1) % 2 ^ 32 % 2 ^ 16 else d

-- One round of the second loop: add a word, and carry where bit 16 is set.
unfoldable pub add_word : ℕ → ℕ → ℕ
add_word x w =
    let s = (x + w) % 2 ^ 32 in if s / 2 ^ 16 % 2 == 1 then (s + 1) % 2 ^ 32 % 2 ^ 16 else s

-- The loops step by two bytes; at an odd length they would read past the buffer (`none`).
unfoldable pub sub_loop : ℕ → List ℕ → Option ℕ
unfolding sub_word
sub_loop x [] = some x
sub_loop x (a ∷ []) = none
sub_loop x (a ∷ b ∷ rest) = sub_loop (sub_word x (a * 256 + b)) rest

unfoldable pub add_loop : ℕ → List ℕ → Option ℕ
unfolding add_word
add_loop x [] = some x
add_loop x (a ∷ []) = none
add_loop x (a ∷ b ∷ rest) = add_loop (add_word x (a * 256 + b)) rest

-- `odata` and `ndata` are the `len` bytes at each pointer; C has one length for both.
unfoldable pub adjust_checksum : ℕ → List ℕ → List ℕ → Option ℕ
unfolding ntohs htons sub_loop add_loop
adjust_checksum sum odata ndata = elim (sub_loop ((2 ^ 32 - 1 - ntohs sum) % 2 ^ 16) odata) [
  | none ↦ none
  | some x ↦ elim (add_loop x ndata) [
    | none ↦ none
    | some y ↦ some (htons ((2 ^ 32 - 1 - y) % 2 ^ 16))
  ]
]
