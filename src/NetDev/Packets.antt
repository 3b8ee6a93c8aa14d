-- ===== src/NetDev/Packets.antt =====
-- What becomes of each packet, on every branch of `net_dev_send` and in `net_dev_close`.
use kerion_vpn_client_docker.Base.{
  ℕ, ◌+◌, ◌%◌, ◌^◌, ◌<◌, ◌≤◌, ◌≡◌, ◌≢◌, refl, true, false, ◌⊎◌, inl, inr, Bool-cases, ◌&&◌, ltb,
  none, some, List, [], ◌∷◌, ◌++◌, arith, length, if◌then◌else◌,
}
use kerion_vpn_client_docker.Base.Int.{ℤ, pos}
use kerion_vpn_client_docker.Machine.{Returns, returns, mono}
use kerion_vpn_client_docker.Queue.{Ptr, null, skb, Heap}
use kerion_vpn_client_docker.Queue.Chain.{Cells, has, IsQueue, frame}
use kerion_vpn_client_docker.Queue.Insert.{appended-IsQueue, linked-bytes}
use kerion_vpn_client_docker.Queue.Fifo.{SameBytes}
use kerion_vpn_client_docker.Driver.{
  NetDevice, Vnet, Event, wake_up, free_skb, netif_stop, Env, Driver, driver,
}
use kerion_vpn_client_docker.NetDev.{net_dev_send, net_dev_close}
use kerion_vpn_client_docker.NetDev.Send.{with_lock, without_lock, accept_run, drop_run}
use kerion_vpn_client_docker.NetDev.Flush.{freed, drained_lem, close-ok}

-- The driver with the queue `xs`, its lock free.
pub record Serves (d : Driver) (v : Vnet) (xs : Cells) : Type 0 where
  pub vnet : d.vnet ≡ some v
  pub queue : IsQueue d.heap v.net_dev.queue xs
  pub free : v.net_dev.queue.locked ≡ false

-- The network device is there, and takes so many packets in its queue.
abbrev pub HasLimit : Vnet → ℕ → Type 0
HasLimit v cap = (dev : NetDevice) × (v.net_dev.device ≡ some dev) × (dev.tx_queue_len ≡ cap)

-- 0 is returned, the queue is now `ys`, the reader was woken up, and no statistics and no bytes have changed.
abbrev pub Queued : Heap → Vnet → List Event → Cells → ℤ → Driver → Type 0
Queued h v l ys r d =
    (r ≡ pos 0)
    × (w : Vnet) × Serves d w ys
    × (w.net_dev.stats ≡ v.net_dev.stats)
    × (d.log ≡ wake_up ∷ l)
    × SameBytes h d.heap

-- 0 is returned, the queue is still `xs`, and `p` was given back and counted as dropped.
abbrev pub Dropped : Vnet → List Event → Ptr → Cells → ℤ → Driver → Type 0
Dropped v l p xs r d =
    (r ≡ pos 0)
    × (w : Vnet) × Serves d w xs
    × (w.net_dev.stats.tx_dropped ≡ (v.net_dev.stats.tx_dropped + 1) % 2 ^ 32)
    × (d.heap p ≡ none)
    × (d.log ≡ free_skb p ∷ l)

-- A packet that is queued, and one that is dropped, with the reason.
abbrev pub SendResult :
    Heap → Vnet → List Event → NetDevice → Ptr → List ℕ → Cells → ℤ → Driver → Type 0
SendResult h v l dev p bs xs r d =
    ((v.net_dev.queue.enabled ≡ true)
      × (length xs < dev.tx_queue_len)
      × Queued h v l (xs ++ (p, bs) ∷ []) r d)
    ⊎ (((v.net_dev.queue.enabled ≡ false) ⊎ (dev.tx_queue_len ≤ length xs)) × Dropped v l p xs r d)

-- 0 is returned, the interface is off, and the queued buffers `xs`, and no others, were given back in order
-- and counted as dropped, before the kernel's queue was stopped.
abbrev pub Emptied : Heap → Vnet → List Event → Cells → ℤ → Driver → Type 0
Emptied h v l xs r d =
    (r ≡ pos 0)
    × (w : Vnet) × Serves d w []
    × (w.net_dev.queue.enabled ≡ false)
    × (w.net_dev.connected ≡ false)
    × (w.net_dev.stats.tx_dropped ≡ (v.net_dev.stats.tx_dropped + length xs) % 2 ^ 32)
    × ((a : Ptr) → d.heap a ≡ (if has a xs then none else h a))
    × (d.log ≡ netif_stop ∷ freed xs l)

module _ (env : Env) (h : Heap) (v : Vnet) (l : List Event) (dev : NetDevice) (xs : Cells)
    (p n : Ptr) (bs : List ℕ) (has_device : v.net_dev.device ≡ some dev)
    (is : IsQueue h v.net_dev.queue xs) (free : v.net_dev.queue.locked ≡ false)
    (holds : h p ≡ some (skb n bs)) (out : has p xs ≡ false) where
  -- A packet that comes in while queueing is enabled and the queue is shorter than the device's limit is
  -- put at the end of the queue and the reader is woken up. The call returns 0 with the lock free,
  -- and changes neither the statistics nor a byte of any buffer.
  pub net_dev_send-queues :
      p ≢ null
      → v.net_dev.queue.enabled ≡ true
      → length xs < dev.tx_queue_len
      → Returns (Queued h v l (xs ++ (p, bs) ∷ [])) (net_dev_send env p (driver h v l))
  net_dev_send-queues ne on room =
      rw (accept_run env h v l dev xs p n bs has_device is free holds ne out on room) (
        returns (
          refl,
          _,
          record {
            vnet = refl;
            queue = without_lock (appended-IsQueue h _ p n bs ne holds xs (with_lock is) out);
            free = refl;
          },
          refl,
          refl,
          linked-bytes h xs p n bs is.chain holds out,
        ))

  -- A packet that comes in while queueing is disabled, or when the queue has reached the limit, is given
  -- back and counted as dropped, modulo 2 ^ 32. The queue is as it was, nobody is woken up, and the
  -- call returns 0 with the lock free.
  pub net_dev_send-drops :
      (v.net_dev.queue.enabled ≡ false) ⊎ (dev.tx_queue_len ≤ length xs)
      → Returns (Dropped v l p xs) (net_dev_send env p (driver h v l))
  net_dev_send-drops why = rw (drop_run env h v l dev xs p n bs has_device is free holds why) (
      returns (
        refl,
        _,
        record {
          vnet = refl;
          queue = record {
            head = is.head;
            tail = is.tail;
            chain = frame h _ xs is.chain (ground arith);
            size = is.size;
          };
          free = free;
        },
        refl,
        ground arith,
        refl,
      ))

  -- `net_dev_send` returns 0 and never faults. While queueing is enabled and the queue is shorter than the device's
  -- limit, the packet is put at the end of the queue, the reader is woken up, and neither the statistics nor a byte of
  -- any buffer change. Else the packet is given back and counted as dropped, modulo 2 ^ 32, the queue is as it
  -- was, and nobody is woken up. In both cases the lock is free at the end. The packet is an allocated buffer that
  -- is not NULL and not queued, the queue is well formed with its lock free, and the network device is there.
  pub net_dev_send-SendResult :
      p ≢ null → Returns (SendResult h v l dev p bs xs) (net_dev_send env p (driver h v l))
  net_dev_send-SendResult ne =
      elim (Bool-cases (v.net_dev.queue.enabled && ltb (length xs) dev.tx_queue_len)) [
        | inl go ↦
            mono (net_dev_send-queues ne (ground arith) (ground arith))
              λ r d queued. inl (ground arith, ground arith, queued)
        | inr full ↦
            mono (net_dev_send-drops (ground arith)) λ r d dropped. inr (ground arith, dropped)
      ]

-- Closing the interface ends without a fault: queueing is disabled, the queue is empty with its lock free,
-- exactly its buffers are given back, each once and the oldest first, before the kernel's own queue
-- is stopped, and each counts as dropped, modulo 2 ^ 32.
pub net_dev_close-drops :
    (h : Heap) (v : Vnet) (l : List Event) (xs : Cells)
    → IsQueue h v.net_dev.queue xs
    → v.net_dev.queue.locked ≡ false
    → Returns (Emptied h v l xs) (net_dev_close (driver h v l))
net_dev_close-drops h v l xs is free = rw (close-ok h v l xs is free) (
    returns (
      refl,
      _,
      record {
        vnet = refl;
        queue = record { head = refl; tail = λ ne. absurd (ne refl); chain = tt; size = refl };
        free = refl;
      },
      refl,
      refl,
      refl,
      drained_lem h xs,
      refl,
    ))
