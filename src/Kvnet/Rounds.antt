-- ===== src/Kvnet/Rounds.antt =====
-- The rounds of the waiting loop of `kvnet_read` in libkvnet/src/linux/kvnet.c: the state after each, and
-- whether it is the last.
use Prim.Native.Nat.{bit_and}
use kerion_vpn_client_docker.Base.{
  ◌<◌, ℕ, zero, suc, Option, none, some, ◌≡◌, refl, ◌∙◌, ap, inl, inr, Bool, true, false, List, ◌∷◌,
  Bool-cases, ◌==◌, if◌then◌else◌, arith,
}
use kerion_vpn_client_docker.Machine.{Cmd, ok}
use kerion_vpn_client_docker.Kvnet.{
  Call, requested, polled, Poll, ready, timeout, failed, Sys, Globals, make_status,
  kvnet_cancel_read, read_cancelled, select_error,
}
use kerion_vpn_client_docker.Kvnet.Transfer.{
  wait, eintr, read_packet, read_request, try_again, Next, done, fetch, again, next, poll_failures,
  pollin,
}

-- The log after the request to cancel, which goes to the driver.
abbrev pub noted : Option ℕ → List Call → List Call
noted none l = l
noted (some fd) l = requested fd ∷ l

-- The state when the other thread has cancelled, if it does.
abbrev pub interrupted : Sys → Globals → Globals
interrupted sys s =
    if sys.cancels s.calls
    then (if s.use_tap_dev
        then record s { canceled = true }
        else record s { calls = noted s.fdesc s.calls })
    else s

abbrev pub waited : Sys → ℕ → Globals → Globals
waited sys fd s = let t = interrupted sys s in record t { calls = polled fd ∷ t.calls }

-- What `poll` answers in this round.
abbrev pub answer : Sys → Globals → Poll
answer sys s = sys.poll (interrupted sys s).calls

-- Where the round goes.
abbrev pub step : Sys → ℕ → Globals → Next
step sys fd s =
    let t = waited sys fd s in
    next (answer sys s) t.use_tap_dev t.canceled (sys.errno t.calls == eintr)

abbrev pub rounds : Sys → ℕ → ℕ → Globals → Globals
rounds sys fd zero s = s
rounds sys fd (suc k) s = rounds sys fd k (waited sys fd s)

module _ (sys : Sys) (fd : ℕ) (s : Globals) where
  pub wait-waited : wait sys fd s ≡ ok (answer sys s) (waited sys fd s)
  unfolding wait kvnet_cancel_read make_status
  wait-waited = ground arith

  -- Waiting changes the log and `canceled` only.
  pub waited-Kept :
      ((waited sys fd s).memory ≡ s.memory)
      × ((waited sys fd s).fdesc ≡ s.fdesc)
      × ((waited sys fd s).use_tap_dev ≡ s.use_tap_dev)
  waited-Kept = (ground arith, ground arith, ground arith)

-- When a poll is followed by another one, by its answer, `use_tap_dev`, `canceled`, and whether `errno` is EINTR: it
-- timed out on a TAP device whose read was not cancelled, or a signal interrupted it.
pub data Retries : Poll → Bool → Bool → Bool → Type 0 where
  timed_out : {interrupted : Bool} → Retries timeout true false interrupted
  signalled : {tap canceled : Bool} → Retries failed tap canceled true

-- When a poll is followed by a read: the device is readable, with no failure.
pub data Reads : Poll → Type 0 where
  readable :
      (revents : ℕ)
      → bit_and revents poll_failures ≡ 0
      → 0 < bit_and revents pollin
      → Reads (ready revents)

-- When the read counts as cancelled: a failure is told, or a TAP device times out after a cancellation.
pub data Cancels : Poll → Bool → Bool → Type 0 where
  failure :
      {tap canceled : Bool} (revents : ℕ)
      → 0 < bit_and revents poll_failures
      → Cancels (ready revents) tap canceled
  told_before : Cancels timeout true true

-- When the poll is an error: it tells nothing, times out on the driver's device, or fails for another
-- reason than a signal.
pub data Fails : Poll → Bool → Bool → Type 0 where
  nothing_told :
      {tap interrupted : Bool} (revents : ℕ)
      → bit_and revents poll_failures ≡ 0
      → bit_and revents pollin ≡ 0
      → Fails (ready revents) tap interrupted
  no_answer : {interrupted : Bool} → Fails timeout false interrupted
  not_polled : {tap : Bool} → Fails failed tap false

-- Where the loop goes, with the reason.
pub data Goes (x : Poll) (tap canceled interrupted : Bool) : Next → Type 0 where
  retries : Retries x tap canceled interrupted → Goes x tap canceled interrupted again
  reads : Reads x → Goes x tap canceled interrupted fetch
  cancels : Cancels x tap canceled → Goes x tap canceled interrupted (done read_cancelled)
  fails : Fails x tap interrupted → Goes x tap canceled interrupted (done select_error)

pub next-Goes :
    (x : Poll) (tap canceled interrupted : Bool)
    → Goes x tap canceled interrupted (next x tap canceled interrupted)
unfolding next
next-Goes (ready revents) tap canceled interrupted =
    elim (Bool-cases (bit_and revents poll_failures == 0)) [
      | inl f ↦ elim (Bool-cases (bit_and revents pollin == 0)) [
        | inl g ↦ rw (f, g) (fails (nothing_told revents (ground arith) (ground arith)))
        | inr g ↦ rw (f, g) (reads (readable revents (ground arith) (ground arith)))
      ]
      | inr f ↦ rw f (cancels (failure revents (ground arith)))
    ]
next-Goes timeout true true interrupted = cancels told_before
next-Goes timeout true false interrupted = retries timed_out
next-Goes timeout false canceled interrupted = fails no_answer
next-Goes failed tap canceled true = retries signalled
next-Goes failed tap canceled false = fails not_polled

next-Retries :
    {x : Poll} {tap canceled interrupted : Bool}
    → Retries x tap canceled interrupted
    → next x tap canceled interrupted ≡ again
unfolding next
next-Retries timed_out = refl
next-Retries signalled = refl

-- Whether the round of this state is followed by another one.
abbrev pub Retried : Sys → ℕ → Globals → Type 0
Retried sys fd s =
    let t = waited sys fd s in
    Retries (answer sys s) t.use_tap_dev t.canceled (sys.errno t.calls == eintr)

pub step-Goes :
    (sys : Sys) (fd : ℕ) (s : Globals)
    → Goes
        (answer sys s)
        (waited sys fd s).use_tap_dev
        (waited sys fd s).canceled
        (sys.errno (waited sys fd s).calls == eintr)
        (step sys fd s)
step-Goes sys fd s = next-Goes _ _ _ _

pub step-Retried : (sys : Sys) (fd : ℕ) (s : Globals) → Retried sys fd s → step sys fd s ≡ again
step-Retried sys fd s r = next-Retries r

module _ (sys : Sys) (fd len : ℕ) (fuel : ℕ) (s : Globals) where
  abbrev pub proceed : Next → Cmd Globals ℕ
  proceed (done status) = make_status sys status
  proceed fetch =
      if (waited sys fd s).use_tap_dev then read_packet sys fd else read_request sys fd len
  proceed again = try_again sys fuel fd len

  round_step : try_again sys (suc fuel) fd len s ≡ proceed (step sys fd s) (waited sys fd s)
  unfolding try_again
  round_step = rw (wait-waited sys fd s) refl

  pub round :
      (x : Next)
      → step sys fd s ≡ x
      → try_again sys (suc fuel) fd len s ≡ proceed x (waited sys fd s)
  round x e = round_step ∙ ap (λ y. proceed y (waited sys fd s)) e
