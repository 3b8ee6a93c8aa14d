-- ===== src/IoDev/Poll.antt =====
-- `io_dev_poll` of drivers/vpn/linux/io_dev.c: what a waiting reader is told.
use kerion_vpn_client_docker.Base.{
  ℕ, ◌≡◌, refl, true, false, List, ◌∷◌, arith, length, ◌==◌, if◌then◌else◌, Bool-cases, inl, inr,
}
use kerion_vpn_client_docker.Machine.{ok, and_then, ◌>>◌}
use kerion_vpn_client_docker.Queue.{Heap, queue_is_empty}
use kerion_vpn_client_docker.Queue.Chain.{Cells, IsQueue}
use kerion_vpn_client_docker.Driver.{Vnet, Event, wake_up, Env, driver, set_io, on_queue}
use kerion_vpn_client_docker.IoDev.{io_dev_poll, io_dev_ioctl, ioctl_cancel_pending_read}

module _ (h : Heap) (v : Vnet) (l : List Event) (xs : Cells) (is : IsQueue h v.net_dev.queue xs)
    (free : v.net_dev.queue.locked ≡ false) where
  asked : on_queue queue_is_empty (driver h v l) ≡ ok (length xs == 0) (driver h v l)
  unfolding on_queue queue_is_empty
  asked = ground (arith, is.size)

  -- Polling a device whose queue `xs` is well formed and unlocked changes nothing. It says POLLPRI and POLLERR (10)
  -- where the read was cancelled; else it says that the device is writable (POLLOUT and POLLWRNORM, 260), and
  -- that it is readable too (with POLLIN and POLLRDNORM, 325) just where a packet is queued.
  pub io_dev_poll-mask :
      io_dev_poll (driver h v l)
      ≡ ok (if v.io_dev.canceled then 10 else (if length xs == 0 then 260 else 325)) (driver h v l)
  unfolding io_dev_poll
  io_dev_poll-mask = elim (Bool-cases v.io_dev.canceled) [
    | inl e ↦ simp (e)
    | inr e ↦ simp (e, asked, and_then)
  ]

-- Cancelling a read returns 0 and wakes the reader up, and the next poll says POLLPRI and POLLERR (10), whatever
-- is in the queue; nothing but the mark has changed.
pub cancel_poll :
    (env : Env) (h : Heap) (v : Vnet) (l : List Event) (arg : ℕ)
    → (io_dev_ioctl env ioctl_cancel_pending_read arg >> io_dev_poll) (driver h v l)
      ≡ ok 10 (driver h (set_io (λ io. record io { canceled = true }) v) (wake_up ∷ l))
unfolding io_dev_ioctl io_dev_poll
cancel_poll env h v l arg = refl
