-- ===== src/Io/Header.antt =====
-- The length and the count of a request, `struct kvnet_header` of drivers/vpn/linux/defs.h.
use kerion_vpn_client_docker.Base.{
  ℕ, ◌+◌, ◌*◌, ◌^◌, ◌≤◌, ◌<◌, ◌≡◌, List, [], ◌∷◌, arith, length, take, drop, Bytes,
}
use kerion_vpn_client_docker.Machine.{ok}
use kerion_vpn_client_docker.Driver.{Driver}
use kerion_vpn_client_docker.Io.{le, load_count, load_pkt, needed}

-- On a 64-bit machine, a request that passes the length check of `io_read_to_iovec` and
-- `io_write_from_iovec` contains each of its packet pointers, whatever 32-bit count it claims.
pub needed-covers :
    (len count i : ℕ)
    → 0 < count
    → count < 2 ^ 32
    → needed 8 count ≤ len
    → i < count
    → 4 + i * 8 + 8 ≤ len
unfolding needed
needed-covers len count i pos small fits lt = omega arith

le-lt : (a b c d : ℕ) → a < 256 → b < 256 → c < 256 → d < 256 → le (a ∷ b ∷ c ∷ d ∷ []) < 2 ^ 32
le-lt a b c d ha hb hc hd = omega arith

-- The count of a request of at least four bytes is a 32-bit number.
pub count_bound : (hdr : List ℕ) → Bytes hdr → 4 ≤ length hdr → le (take 4 (drop 0 hdr)) < 2 ^ 32
count_bound [] b h = absurd (omega arith)
count_bound (a ∷ []) b h = absurd (omega arith)
count_bound (a ∷ x ∷ []) b h = absurd (omega arith)
count_bound (a ∷ x ∷ c ∷ []) b h = absurd (omega arith)
count_bound (a ∷ x ∷ c ∷ e ∷ rest) b h = omega arith

pub load_count-ok :
    (hdr : List ℕ) (d : Driver)
    → 4 ≤ length hdr
    → load_count hdr d ≡ ok (le (take 4 (drop 0 hdr))) d
unfolding load_count
load_count-ok hdr d h = ground arith

pub load_pkt-ok :
    (hdr : List ℕ) (i : ℕ) (d : Driver)
    → 4 + i * 8 + 8 ≤ length hdr
    → load_pkt 8 hdr i d ≡ ok (le (take 8 (drop (4 + i * 8) hdr))) d
unfolding load_pkt
load_pkt-ok hdr i d h = ground arith
