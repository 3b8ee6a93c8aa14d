-- ===== src/Kvnet/Device.antt =====
-- `kvnet_read` of libkvnet/src/linux/kvnet.c on the device that drivers/vpn/linux/io_dev.c implements: what the
-- driver's `io_dev_poll` says is what the library's `poll` is told, of the events that it asks for.
use Prim.Native.Nat.{bit_and}
use kerion_vpn_client_docker.Base.{
  ℕ, suc, ◌≡◌, ◌≢◌, ◌≤◌, sym, ap, subst, ◌∙◌, inl, inr, ◌⊎◌, none, some, true, false, List, length,
  ◌==◌, Option-cases, if◌then◌else◌, arith,
}
use kerion_vpn_client_docker.Machine.{ok, Returns, ◌>>◌}
use kerion_vpn_client_docker.Queue.{Heap}
use kerion_vpn_client_docker.Queue.Chain.{Cells, IsQueue}
use kerion_vpn_client_docker.Driver.{Driver, Vnet, Event, Env, driver}
use kerion_vpn_client_docker.IoDev.{io_dev_poll, io_dev_ioctl, ioctl_cancel_pending_read}
use kerion_vpn_client_docker.IoDev.Poll.{io_dev_poll-mask, cancel_poll}
use kerion_vpn_client_docker.Io.{header_size}
use kerion_vpn_client_docker.Kvnet.{
  Poll, ready, Sys, Globals, no_error, read_error, read_cancelled, status_of,
}
use kerion_vpn_client_docker.Kvnet.Status.{make_status-ends}
use kerion_vpn_client_docker.Kvnet.Transfer.{
  kvnet_read, done, fetch, next, read_packet, read_request, eintr,
}
use kerion_vpn_client_docker.Kvnet.Rounds.{waited, answer, step, waited-Kept, round}
use kerion_vpn_client_docker.Kvnet.Waiting.{waits, EndsCancelled}

-- POLLIN and POLLERR are asked for, and POLLHUP and POLLNVAL always told.
abbrev pub told : ℕ → ℕ
told mask = bit_and mask 57

-- The driver's answer to a read, after the calls of `w`, or an error.
abbrev pub Answered : Sys → ℕ → Globals → Globals → ℕ → Globals → Type 0
Answered sys len s w status t =
    ((status_of status ≡ no_error) × (sys.read_request w.calls len s.memory ≡ some t.memory))
    ⊎ ((status_of status ≡ read_error)
        × (t.memory ≡ s.memory)
        × (sys.read_request w.calls len s.memory ≡ none))

module _ (sys : Sys) (fd : ℕ) (s : Globals) (ptr len fuel : ℕ) (opened : s.fdesc ≡ some fd)
    (long : header_size ptr ≤ len) where
  -- Where the round goes, by what the poll answers.
  goes :
      (x : Poll)
      → answer sys s ≡ x
      → step sys fd s
        ≡ next x
            (waited sys fd s).use_tap_dev
            (waited sys fd s).canceled
            (sys.errno (waited sys fd s).calls == eintr)
  goes x e =
      ap
        (λ y.
          next y (waited sys fd s).use_tap_dev (waited sys fd s).canceled
            (sys.errno (waited sys fd s).calls == eintr))
        e

  -- A read that was cancelled through the driver ends at once: when the request KVNET_IOCTL_CANCEL_PENDING_READ was
  -- served and the first poll of kvnet_read then tells what io_dev_poll says, the call returns
  -- KVNET_READ_CANCELLED and leaves the caller's memory as it is, whatever is queued.
  pub device-EndsCancelled :
      (env : Env) (h : Heap) (v : Vnet) (l : List Event) (arg : ℕ)
      → ((mask : ℕ) (e : Driver)
          → (io_dev_ioctl env ioctl_cancel_pending_read arg >> io_dev_poll) (driver h v l)
            ≡ ok mask e
          → answer sys s ≡ ready (told mask))
      → Returns (EndsCancelled s) (kvnet_read sys ptr (suc fuel) true len s)
  unfolding next
  device-EndsCancelled env h v l arg polled =
      let poll : answer sys s ≡ ready 8 = polled 10 _ (cancel_poll env h v l arg) in
      rw
        (
          waits sys fd s ptr len opened long (suc fuel),
          round sys fd len fuel s (done read_cancelled) (goes (ready 8) poll),
        )
        (make_status-ends sys read_cancelled _ (omega arith) λ c q. (q, (waited-Kept sys fd s).0))

  answered :
      (w : Globals)
      → w.memory ≡ s.memory
      → Returns (Answered sys len s w) (read_request sys fd len w)
  unfolding read_request
  answered w m = elim (Option-cases (sys.read_request w.calls len w.memory)) [
    | inl e ↦ simp (e) (
        make_status-ends sys read_error _ (omega arith)
          λ c q. inr (q, m, subst (λ x. sys.read_request w.calls len x ≡ none) m e))
    | inr (n, e) ↦ simp (e) (
        make_status-ends sys no_error _ (omega arith)
          λ c q. inl (q, subst (λ x. sys.read_request w.calls len x ≡ some n) m e))
  ]

  -- A read of a device with a packet in its queue does not wait: where the queue is well formed, holds a packet and is
  -- not locked, the read was not cancelled, and the first poll of kvnet_read tells what io_dev_poll says,
  -- the call reads after that poll, and ends with success and the driver's answer in the caller's memory,
  -- or with KVNET_READ_ERROR and the memory as it was.
  pub device-fetches :
      (h : Heap) (v : Vnet) (l : List Event) (xs : Cells)
      → IsQueue h v.net_dev.queue xs
      → v.net_dev.queue.locked ≡ false
      → v.io_dev.canceled ≡ false
      → length xs ≢ 0
      → s.use_tap_dev ≡ false
      → ((mask : ℕ) (e : Driver)
          → io_dev_poll (driver h v l) ≡ ok mask e
          → answer sys s ≡ ready (told mask))
      → Returns (Answered sys len s (waited sys fd s)) (kvnet_read sys ptr (suc fuel) true len s)
  unfolding next
  device-fetches h v l xs is free going some_packet driver_device polled =
      let full : (length xs == 0) ≡ false = ground arith in
      let mask : io_dev_poll (driver h v l) ≡ ok 325 (driver h v l) =
        io_dev_poll-mask h v l xs is free ∙ simp (going, full) in
      let poll : answer sys s ≡ ready 1 = polled 325 _ mask in
      let device : (waited sys fd s).use_tap_dev ≡ false =
        (waited-Kept sys fd s).2 ∙ driver_device in
      rw
        (
          waits sys fd s ptr len opened long (suc fuel),
          round sys fd len fuel s fetch (goes (ready 1) poll),
        )
        (subst
          (λ b.
            Returns (Answered sys len s (waited sys fd s))
              ((if b then read_packet sys fd else read_request sys fd len) (waited sys fd s)))
          (sym device) (answered (waited sys fd s) (waited-Kept sys fd s).0))
