-- ===== src/Traffic/Turns/Alone.antt =====
-- The loop of `io_read_to_iovec`, drivers/vpn/linux/io_read.c, cut into its rounds.
use kerion_vpn_client_docker.Base.{
  ℕ, zero, suc, ◌+◌, ◌≡◌, ◌∙◌, inl, inr, refl, sym, ap, true, false, Bool-cases, List, [], ltb,
  ◌==◌, if◌then◌else◌, arith,
}
use kerion_vpn_client_docker.Base.Int.{ℤ, pos, negsuc, is_zero, to_ℕ, minus_efault, minus_eagain}
use kerion_vpn_client_docker.Machine.{Run, ok, fault, out_of_fuel, Cmd, pure, and_then, ◌>>◌}
use kerion_vpn_client_docker.Queue.{Ptr, null, queue_remove}
use kerion_vpn_client_docker.Driver.{Env, Driver, on_queue}
use kerion_vpn_client_docker.Io.{read_loop, with_header, io_read_to_iovec}
use kerion_vpn_client_docker.Io.Blocking.{deliver}
use kerion_vpn_client_docker.Io.Blocking.Forget.{
  deliver-steps, and_then_cong, and_then_assoc, plain_tail,
}
use kerion_vpn_client_docker.Traffic.{run}
use kerion_vpn_client_docker.Traffic.Turns.{turns_loop, read_by_turns}

module _ (env : Env) (hdr : List ℕ) where
  -- What comes after a round.
  abbrev goes_on : ℕ → ℕ → ℕ → ℤ → Cmd Driver ℤ
  goes_on left i m r = if ltb m (to_ℕ r) then read_loop env 8 hdr left (i + 1) r else pure r

  -- The loop is its first round and the others.
  read_loop-cut :
      (left i m : ℕ) (d : Driver) (r : Run Driver Ptr)
      → on_queue queue_remove d ≡ r
      → read_loop env 8 hdr (suc left) i (pos m) d
        ≡ and_then (read_loop env 8 hdr 1 i (pos m) d) (goes_on left i m)
  unfolding read_loop
  read_loop-cut left i m d (fault f) e = rw e refl
  read_loop-cut left i m d out_of_fuel e = rw e refl
  read_loop-cut left i m d (ok p g) e = elim (Bool-cases (p == null)) [
    | inl z ↦ rw (e, and_then, z) (ended m)
    | inr z ↦
        rw (e, and_then, z)
          (sym (
              deliver-steps env 8 hdr i p
                (λ filled.
                  if is_zero filled
                  then read_loop env 8 hdr left (i + 1) (pos (m + 1))
                  else pure minus_efault)
                g)
            ∙ and_then_cong (deliver env 8 hdr i p g) (λ filled d. after filled d)
            ∙ sym (and_then_assoc (deliver env 8 hdr i p g) _ (goes_on left i m))
            ∙ ap (λ r. and_then r (goes_on left i m)) (deliver-steps env 8 hdr i p _ g))
  ]
    where
      result : ℕ → ℤ
      result m = if is_zero (pos m) then minus_eagain else pos m

      ended : (m : ℕ) → ok (result m) g ≡ goes_on left i m (result m) g
      ended zero = refl
      ended (suc m) = rw not_more refl
        where
          not_more : ltb (suc m) (suc m) ≡ false
          not_more = ground arith

      after :
          (filled : ℤ) (d : Driver)
          → (if is_zero filled
                then read_loop env 8 hdr left (i + 1) (pos (m + 1))
                else pure minus_efault)
              d
            ≡ and_then
                ((if is_zero filled
                    then read_loop env 8 hdr 0 (i + 1) (pos (m + 1))
                    else pure minus_efault)
                  d)
                (goes_on left i m)
      after filled d = elim (Bool-cases (is_zero filled)) [
        | inl z ↦ rw (z, more) refl
        | inr z ↦ rw (z, none_more) refl
      ]
        where
          more : ltb m (m + 1) ≡ true
          more = ground arith

          none_more : ltb m 0 ≡ false
          none_more = ground arith

  no_rounds : (i : ℕ) (ret : ℤ) (d : Driver) → read_loop env 8 hdr 0 i ret d ≡ ok ret d
  unfolding read_loop
  no_rounds i ret d = refl

  -- Where nothing comes between its rounds, the loop is that of the source.
  turns_loop-alone :
      (left i m : ℕ) (d : Driver)
      → turns_loop env hdr left [] i (pos m) d ≡ read_loop env 8 hdr left i (pos m) d
  unfolding turns_loop run
  turns_loop-alone zero i m d = sym (no_rounds i (pos m) d)
  turns_loop-alone (suc left) i m d =
      and_then_cong (read_loop env 8 hdr 1 i (pos m) d)
        (λ r e. next (λ n. turns_loop-alone left (i + 1) n) r e)
      ∙ sym (read_loop-cut left i m d _ refl)
    where
      none_more : ltb m 0 ≡ false
      none_more = ground arith

      next :
          ((n : ℕ) (e : Driver)
            → turns_loop env hdr left [] (i + 1) (pos n) e
              ≡ read_loop env 8 hdr left (i + 1) (pos n) e)
          → (r : ℤ) (e : Driver)
          → (if ltb m (to_ℕ r)
                then turns_loop env hdr left [] (i + 1) r
                else (do run env []; pure r))
              e
            ≡ goes_on left i m r e
      next ih (negsuc n) e = rw none_more refl
      next ih (pos n) e = elim (Bool-cases (ltb m n)) [ inl z ↦ rw z (ih n e) | inr z ↦ rw z refl ]

-- Where no calls of others come between its rounds, a read by turns is the read of the source, from any state and
-- for any request.
pub read_by_turns-alone :
    (env : Env) (len : ℤ) (d : Driver) → read_by_turns env [] len d ≡ io_read_to_iovec env 8 len d
unfolding read_by_turns io_read_to_iovec
read_by_turns-alone env len d = λ j.
    with_header env 8 len
      (λ hdr count e. and_then (turns_loop-alone env hdr count 0 0 e j) (plain_tail env 8)) d
