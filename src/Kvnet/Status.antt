-- ===== src/Kvnet/Status.antt =====
-- The status codes of libkvnet/src/include/kvnet/status.h.
use Prim.Native.Nat.{max, digits, bit_or, bit_or-bitwise}
use native.Mathlib.Nat.{le_refl}
use kerion_vpn_client_docker.Base.{
  ℕ, zero, suc, ◌+◌, ◌*◌, ◌/◌, ◌%◌, ◌^◌, ◌≤◌, ◌<◌, ◌≡◌, refl, ap, arith, ◌==◌,
}
use kerion_vpn_client_docker.Machine.{Returns, returns, ok}
use kerion_vpn_client_docker.Kvnet.{Sys, Globals, make_status, status_of, sys_error_of, succeeded}

-- `b` shifted left by `n` digits.
abbrev shift : ℕ → ℕ → ℕ
shift zero b = b
shift (suc n) b = shift n b * 2

-- Digit by digit: a number below the shift, and the shifted number, add up where their digits are combined.
joined :
    (n rounds a b : ℕ)
    → a ≤ rounds
    → a < shift n 1
    → digits (λ y. y) max rounds a (shift n b) ≡ a + shift n b
joined n zero zero b le low = omega arith
joined n zero (suc a) b le low = absurd (omega arith)
joined n (suc rounds) zero b le low = omega arith
joined zero (suc rounds) (suc a) b le low = absurd (omega arith)
joined (suc n) (suc rounds) (suc a) b le low =
    let half : shift n b * 2 / 2 ≡ shift n b = omega arith in
    let even : shift n b * 2 % 2 ≡ 0 = omega arith in
    rw (half, even, joined n rounds (suc a / 2) b (omega arith) (omega arith)) (omega arith)

bit_or-shift : (n a b : ℕ) → a < shift n 1 → bit_or a (shift n b) ≡ a + shift n b
bit_or-shift n a b low = simp bit_or-bitwise (joined n a a b (le_refl a) low)

-- What KVNET_MAKE_STATUS puts together.
join :
    (e status : ℕ)
    → e < 2 ^ 16
    → status < 2 ^ 16
    → bit_or e (status % 2 ^ 16 * 2 ^ 16 % 2 ^ 32) ≡ e + status * 2 ^ 16
join e status low h =
    let shifted : status % 2 ^ 16 * 2 ^ 16 % 2 ^ 32 ≡ shift 16 status = omega arith in
    rw shifted (omega (arith, bit_or-shift 16 e status low))

parts :
    (e status : ℕ)
    → e < 2 ^ 16
    → status < 2 ^ 16
    → (status_of (e + status * 2 ^ 16) ≡ status) × (sys_error_of (e + status * 2 ^ 16) ≡ e)
unfolding status_of sys_error_of
parts e status low h = (omega arith, omega arith)

module _ (sys : Sys) (status : ℕ) (s : Globals) (h : status < 2 ^ 16) where
  pub make_status-sum :
      make_status sys status s ≡ ok (sys.errno s.calls % 2 ^ 16 + status * 2 ^ 16) s
  unfolding make_status
  make_status-sum = rw (join (sys.errno s.calls % 2 ^ 16) status (omega arith) h)

  -- Whatever the system's error is, taking a status code apart gives the library's status that it was made from,
  -- and the lower 16 bits of the error; so it tells success just where the status is KVNET_NO_ERROR.
  pub make_status-parts :
      Returns
        (λ a t.
          (status_of a ≡ status)
          × (sys_error_of a ≡ sys.errno s.calls % 2 ^ 16)
          × (succeeded a ≡ (status == 0))
          × (t ≡ s))
        (make_status sys status s)
  unfolding succeeded
  make_status-parts =
      let (top, low) = parts (sys.errno s.calls % 2 ^ 16) status (omega arith) h in
      rw make_status-sum (returns (top, low, ap (λ a. a == 0) top, refl))

  -- A call that ends with the status leaves the state as it is.
  pub make_status-ends :
      {Q : ℕ → Globals → Type 0}
      → ((a : ℕ) → status_of a ≡ status → Q a s)
      → Returns Q (make_status sys status s)
  make_status-ends q =
      rw make_status-sum
        (returns (q _ (parts (sys.errno s.calls % 2 ^ 16) status (omega arith) h).0))
