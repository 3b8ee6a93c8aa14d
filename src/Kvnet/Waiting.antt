-- ===== src/Kvnet/Waiting.antt =====
-- The end of `kvnet_read` in libkvnet/src/linux/kvnet.c, and of a read of a TAP device that is cancelled.
use kerion_vpn_client_docker.Base.{
  ℕ, zero, suc, ◌-◌, subst, ◌≡◌, refl, sym, ◌∙◌, inl, inr, ◌⊎◌, some, Bool, true, false, ◌≤◌, ◌<◌,
  arith,
}
use kerion_vpn_client_docker.Machine.{Returns, mono}
use kerion_vpn_client_docker.Io.{header_size}
use kerion_vpn_client_docker.Kvnet.{
  Packet, Poll, ready, timeout, failed, Sys, Globals, read_cancelled, status_of,
}
use kerion_vpn_client_docker.Kvnet.Status.{make_status-ends}
use kerion_vpn_client_docker.Kvnet.Transfer.{try_again, kvnet_read, eintr, done, again, next}
use kerion_vpn_client_docker.Kvnet.Rounds.{
  Retried, waited, answer, step, rounds, waited-Kept, round,
}
use kerion_vpn_client_docker.Kvnet.Read.{Room, Honest, ReadDone, try_again-ReadDone}

module _ (sys : Sys) (fd : ℕ) (s : Globals) (ptr len : ℕ) (opened : s.fdesc ≡ some fd)
    (long : header_size ptr ≤ len) where
  pub waits : (fuel : ℕ) → kvnet_read sys ptr fuel true len s ≡ try_again sys fuel fd len s
  unfolding kvnet_read
  waits fuel = ground arith

  -- A read on an open device, with a request that a TAP device can serve and a system that reads at most what it is
  -- asked for, retries while its polls time out on a TAP device without a cancellation or are interrupted by
  -- a signal, and ends with the first poll that does neither, whatever another thread cancels meanwhile. Where
  -- that poll says readable with no failure, the call ends with the packet read, its length and the count 1 in
  -- the request (TAP), or with the driver's answer to a read of the request's length (driver), or, just where
  -- the system refuses that read, with KVNET_READ_ERROR. Where it tells a failure, or times out on a TAP
  -- device after a cancellation, the call ends with KVNET_READ_CANCELLED. Where it tells nothing, times out on
  -- the driver's device or fails without a signal, it ends with KVNET_SELECT_ERROR. But for what was
  -- read the caller's memory is as it was, and there is no fault. The fuel is greater than the number of the retries.
  pub kvnet_read-ReadDone :
      (a : ℕ) (p : Packet) (k fuel : ℕ)
      → Honest sys
      → Room a p s.memory
      → k < fuel
      → ((i : ℕ) → i < k → Retried sys fd (rounds sys fd i s))
      → ¬ Retried sys fd (rounds sys fd k s)
      → Returns (ReadDone sys a p len fd (rounds sys fd k s)) (kvnet_read sys ptr fuel true len s)
  kvnet_read-ReadDone a p k fuel honest r h before last =
      rw (waits fuel) (try_again-ReadDone sys a p len honest fd k fuel s h r before last)

-- A round in which nothing arrives.
abbrev pub NothingArrives : Sys → ℕ → Globals → Type 0
NothingArrives sys fd s =
    (answer sys s ≡ timeout)
    ⊎ ((answer sys s ≡ failed) × (sys.errno (waited sys fd s).calls ≡ eintr))

next_quiet :
    (x : Poll) (tap canceled interrupted : Bool)
    → tap ≡ true
    → (x ≡ timeout) ⊎ ((x ≡ failed) × (interrupted ≡ true))
    → (next x tap canceled interrupted ≡ again)
      ⊎ (next x tap canceled interrupted ≡ done read_cancelled)
unfolding next
next_quiet (ready revents) tap canceled interrupted t q = absurd (ground arith)
next_quiet timeout true true interrupted t q = inr refl
next_quiet timeout true false interrupted t q = inl refl
next_quiet timeout false canceled interrupted t q = absurd (ground arith)
next_quiet failed tap canceled true t q = inl refl
next_quiet failed tap canceled false t q = absurd (ground arith)

next_cancelled :
    (x : Poll) (tap canceled interrupted : Bool)
    → tap ≡ true
    → x ≡ timeout
    → canceled ≡ true
    → next x tap canceled interrupted ≡ done read_cancelled
unfolding next
next_cancelled x tap canceled interrupted t e c = simp (t, e, c)

-- The call's result and state after a read that was cancelled.
abbrev pub EndsCancelled : Globals → ℕ → Globals → Type 0
EndsCancelled s status t = (status_of status ≡ read_cancelled) × (t.memory ≡ s.memory)

module _ (sys : Sys) (fd len : ℕ) where
  stays_cancelled : (s : Globals) → s.canceled ≡ true → (waited sys fd s).canceled ≡ true
  stays_cancelled s h = ground arith

  quiet_step :
      (s : Globals)
      → s.use_tap_dev ≡ true
      → NothingArrives sys fd s
      → (step sys fd s ≡ again) ⊎ (step sys fd s ≡ done read_cancelled)
  quiet_step s tap q =
      next_quiet _ _ _ _ ((waited-Kept sys fd s).2 ∙ tap)
        (elim q [ inl e ↦ inl e | inr (e, f) ↦ inr (e, ground arith) ])

  -- The wait is over at the first timeout after the read was cancelled.
  cancelled_step :
      (s : Globals)
      → s.use_tap_dev ≡ true
      → answer sys s ≡ timeout
      → (waited sys fd s).canceled ≡ true
      → step sys fd s ≡ done read_cancelled
  cancelled_step s tap e c = next_cancelled _ _ _ _ ((waited-Kept sys fd s).2 ∙ tap) e c

  ends :
      (fuel : ℕ) (s : Globals)
      → step sys fd s ≡ done read_cancelled
      → Returns (EndsCancelled s) (try_again sys (suc fuel) fd len s)
  ends fuel s e =
      rw (round sys fd len fuel s (done read_cancelled) e)
        (make_status-ends sys read_cancelled _ (omega arith) λ c q. (q, (waited-Kept sys fd s).0))

  -- A read that was cancelled by a round was so by the next one.
  earlier :
      (j : ℕ) (s : Globals)
      → (waited sys fd (rounds sys fd j s)).canceled ≡ true
      → (waited sys fd (rounds sys fd (j - 1) (waited sys fd s))).canceled ≡ true
  earlier zero s c = stays_cancelled (waited sys fd s) c
  earlier (suc j) s c =
      let same : suc j - 1 ≡ j = omega arith in
      subst (λ n. (waited sys fd (rounds sys fd n (waited sys fd s))).canceled ≡ true) (sym same) c

  quiet_wait :
      (k j fuel : ℕ) (s : Globals)
      → k < fuel
      → j ≤ k
      → s.use_tap_dev ≡ true
      → (waited sys fd (rounds sys fd j s)).canceled ≡ true
      → ((i : ℕ) → i < k → NothingArrives sys fd (rounds sys fd i s))
      → answer sys (rounds sys fd k s) ≡ timeout
      → Returns (EndsCancelled s) (try_again sys fuel fd len s)
  quiet_wait k j zero s h le tap c quiet e = absurd (omega arith)
  quiet_wait zero zero (suc fuel) s h le tap c quiet e = ends fuel s (cancelled_step s tap e c)
  quiet_wait zero (suc j) (suc fuel) s h le tap c quiet e = absurd (omega arith)
  quiet_wait (suc k) j (suc fuel) s h le tap c quiet e =
      elim (quiet_step s tap (quiet 0 (omega arith))) [
        | inr d ↦ ends fuel s d
        | inl d ↦ rw (round sys fd len fuel s again d) (
            mono
              (quiet_wait k (j - 1) fuel (waited sys fd s) (omega arith) (omega arith)
                ((waited-Kept sys fd s).2 ∙ tap) (earlier j s c)
                (λ i p. quiet (suc i) (omega arith)) e)
              λ status t q. (q.0, q.1 ∙ (waited-Kept sys fd s).0))
      ]

-- On an open TAP device, a read that was cancelled before the call or while a round `j` of its loop waits, ends with
-- KVNET_READ_CANCELLED and leaves the caller's memory as it was, if no packet arrives up to a timeout in
-- a round `k` that is not before `j`: each poll before it times out or is interrupted by a signal.
pub cancelled_read-ends :
    (sys : Sys) (fd : ℕ) (s : Globals) (ptr len k j fuel : ℕ)
    → s.fdesc ≡ some fd
    → s.use_tap_dev ≡ true
    → header_size ptr ≤ len
    → k < fuel
    → j ≤ k
    → (waited sys fd (rounds sys fd j s)).canceled ≡ true
    → ((i : ℕ) → i < k → NothingArrives sys fd (rounds sys fd i s))
    → answer sys (rounds sys fd k s) ≡ timeout
    → Returns (EndsCancelled s) (kvnet_read sys ptr fuel true len s)
cancelled_read-ends sys fd s ptr len k j fuel o tap long h le c quiet e =
    rw (waits sys fd s ptr len o long fuel) (quiet_wait sys fd len k j fuel s h le tap c quiet e)
