-- ===== src/NetDev/Flush.antt =====
-- `net_dev_flush_tx_queue` and `net_dev_close`: the transmit queue is emptied and its buffers given back.
use kerion_vpn_client_docker.Base.{
  ℕ, zero, suc, ◌+◌, ◌<◌, ◌≡◌, refl, Bool, true, false, none, some, List, [], ◌∷◌, arith, length,
  if◌then◌else◌,
}
use kerion_vpn_client_docker.Base.Int.{pos}
use kerion_vpn_client_docker.Machine.{ok}
use kerion_vpn_client_docker.Queue.{
  Ptr, null, skb, Heap, write, Queue, acquire_lock, release_lock, queue_enable,
}
use kerion_vpn_client_docker.Queue.Chain.{Cells, has, frame, IsQueue}
use kerion_vpn_client_docker.Queue.Remove.{
  popped, popped-IsQueue, queue_remove_nolock-ok, queue_remove_nolock-nil,
}
use kerion_vpn_client_docker.Driver.{
  Vnet, Event, free_skb, netif_stop, driver, set_net, on_queue, kfree_skb, add32,
}
use kerion_vpn_client_docker.NetDev.Send.{with_lock}
use kerion_vpn_client_docker.NetDev.{flush_loop, net_dev_flush_tx_queue, net_dev_close}

-- The heap when each buffer of `xs` was taken out, unlinked and given back.
abbrev pub drained : Heap → Cells → Heap
drained h [] = h
drained h ((p, bs) ∷ xs) = drained (write (write h p (some (skb null bs))) p none) xs

abbrev pub freed : Cells → List Event → List Event
freed [] l = l
freed ((p, _) ∷ xs) l = freed xs (free_skb p ∷ l)

-- Exactly the buffers of `xs` are gone.
pub drained_lem :
    (h : Heap) (xs : Cells) (a : Ptr) → drained h xs a ≡ (if has a xs then none else h a)
drained_lem h [] a = refl
drained_lem h ((p, bs) ∷ xs) a =
    ground (arith, drained_lem (write (write h p (some (skb null bs))) p none) xs a)

abbrev pub emptied : Queue → Queue
emptied q = record q { head = null; size = pos 0 }

abbrev with_queue : (Queue → Queue) → Vnet → Vnet
with_queue f = set_net λ n. record n { queue = f n.queue }

-- Freeing the buffer that came out leaves the rest of the queue.
pub freed-IsQueue :
    (h : Heap) (q : Queue) (p : Ptr) (bs : List ℕ) (xs : Cells)
    → IsQueue h q ((p, bs) ∷ xs)
    → IsQueue (write (write h p (some (skb null bs))) p none) (popped q xs) xs
freed-IsQueue h q p bs xs is =
    let left = popped-IsQueue h q p bs xs is in
    record {
      head = left.head;
      tail = left.tail;
      chain = frame h _ xs is.chain.3 (ground arith);
      size = left.size;
    }

flush_loop-ok :
    (fuel n : ℕ) (h : Heap) (v : Vnet) (l : List Event) (xs : Cells)
    → IsQueue h v.net_dev.queue xs
    → length xs < fuel
    → flush_loop fuel n (driver h v l)
      ≡ ok (n + length xs) (driver (drained h xs) (with_queue emptied v) (freed xs l))
unfolding flush_loop on_queue kfree_skb
flush_loop-ok zero n h v l xs is lt = absurd (omega arith)
flush_loop-ok (suc fuel) n h v l [] is lt =
    ground (arith, queue_remove_nolock-nil h v.net_dev.queue is, is.head, is.size)
flush_loop-ok (suc fuel) n h v l ((p, bs) ∷ xs) is lt = ground (
  arith,
  is.chain.0,
  queue_remove_nolock-ok h v.net_dev.queue p bs xs is,
  flush_loop-ok fuel (n + 1) (write (write h p (some (skb null bs))) p none)
      (with_queue (λ q. popped q xs) v) (free_skb p ∷ l) xs
      (freed-IsQueue h v.net_dev.queue p bs xs is) (omega arith),
)

module _ (h : Heap) (v : Vnet) (l : List Event) (xs : Cells) (is : IsQueue h v.net_dev.queue xs)
    (free : v.net_dev.queue.locked ≡ false) where
  abbrev pub flushed_vnet : Vnet
  flushed_vnet =
      set_net
        (λ n. record n {
          queue = record (emptied n.queue) { locked = false };
          stats = record (n.stats) { tx_dropped = add32 n.stats.tx_dropped (length xs) };
        })
        v

  pub flush-ok :
      net_dev_flush_tx_queue (driver h v l)
      ≡ ok tt (driver (drained h xs) flushed_vnet (freed xs l))
  unfolding net_dev_flush_tx_queue on_queue acquire_lock release_lock
  flush-ok = ground (
    arith,
    is.size,
    flush_loop-ok (length xs + 1) 0 h (with_queue (λ q. record q { locked = true }) v) l xs
        (with_lock is) (omega arith),
  )

-- `v` after `net_dev_close`.
abbrev pub closed_vnet : Vnet → Cells → Vnet
closed_vnet v xs =
    set_net
      (λ n. record n {
        queue = record (emptied n.queue) { locked = false; enabled = false };
        stats = record (n.stats) { tx_dropped = add32 n.stats.tx_dropped (length xs) };
        connected = false;
      })
      v

pub disabled-IsQueue :
    {h : Heap} {q : Queue} {xs : Cells} (b : Bool)
    → IsQueue h q xs
    → IsQueue h (record q { locked = false; enabled = b }) xs
disabled-IsQueue b is = record { head = is.head; tail = is.tail; chain = is.chain; size = is.size }

module _ (h : Heap) (v : Vnet) (l : List Event) (xs : Cells) (is : IsQueue h v.net_dev.queue xs)
    (free : v.net_dev.queue.locked ≡ false) where
  pub close-ok :
      net_dev_close (driver h v l)
      ≡ ok (pos 0) (driver (drained h xs) (closed_vnet v xs) (netif_stop ∷ freed xs l))
  unfolding net_dev_close on_queue queue_enable
  close-ok = ground (
    arith,
    flush-ok h (with_queue (λ q. record q { locked = false; enabled = false }) v) l xs
        (disabled-IsQueue false is) refl,
  )
