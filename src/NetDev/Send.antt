-- ===== src/NetDev/Send.antt =====
-- `net_dev_send`: what becomes of a packet that the kernel hands over.
use kerion_vpn_client_docker.Base.{
  ℕ, ◌<◌, ◌≤◌, ◌≡◌, ◌≢◌, true, false, ◌⊎◌, none, some, List, ◌∷◌, arith, length,
}
use kerion_vpn_client_docker.Base.Int.{pos}
use kerion_vpn_client_docker.Machine.{ok}
use kerion_vpn_client_docker.Queue.{
  Ptr, null, skb, Heap, write, Queue, acquire_lock, release_lock, is_queue_enabled_nolock,
  queue_len_nolock,
}
use kerion_vpn_client_docker.Queue.Chain.{Cells, has, IsQueue}
use kerion_vpn_client_docker.Queue.Insert.{linked, appended, queue_insert_nolock-ok}
use kerion_vpn_client_docker.Driver.{
  NetDevice, Vnet, Event, wake_up, free_skb, Env, driver, set_net, set_stats, on_queue, kfree_skb,
  add32,
}
use kerion_vpn_client_docker.NetDev.{net_dev_send}

-- Taking or giving back the lock leaves the list as it is.
pub with_lock :
    {h : Heap} {q : Queue} {xs : Cells} → IsQueue h q xs → IsQueue h (record q { locked = true }) xs
with_lock is = record { head = is.head; tail = is.tail; chain = is.chain; size = is.size }

pub without_lock :
    {h : Heap} {q : Queue} {xs : Cells}
    → IsQueue h q xs
    → IsQueue h (record q { locked = false }) xs
without_lock is = record { head = is.head; tail = is.tail; chain = is.chain; size = is.size }

module _ (env : Env) (h : Heap) (v : Vnet) (l : List Event) (dev : NetDevice) (xs : Cells)
    (p n : Ptr) (bs : List ℕ) (has_device : v.net_dev.device ≡ some dev)
    (is : IsQueue h v.net_dev.queue xs) (free : v.net_dev.queue.locked ≡ false)
    (holds : h p ≡ some (skb n bs)) where
  abbrev pub q : Queue
  q = record (v.net_dev.queue) { locked = true }

  pub accept_run :
      p ≢ null
      → has p xs ≡ false
      → v.net_dev.queue.enabled ≡ true
      → length xs < dev.tx_queue_len
      → net_dev_send env p (driver h v l)
        ≡ ok (pos 0) (
            driver
              (linked h xs p bs)
              (set_net
                (λ m. record m {
                  queue = record (appended q xs p) { locked = false };
                  device = some (record dev { trans_start = env.jiffies l });
                })
                v)
              (wake_up ∷ l))
  unfolding net_dev_send on_queue acquire_lock release_lock is_queue_enabled_nolock queue_len_nolock
  accept_run ne out on room =
      ground (arith, is.size, queue_insert_nolock-ok h q p n bs ne holds xs (with_lock is) out)

  pub drop_run :
      (v.net_dev.queue.enabled ≡ false) ⊎ (dev.tx_queue_len ≤ length xs)
      → net_dev_send env p (driver h v l)
        ≡ ok (pos 0) (
            driver
              (write h p none)
              (set_stats (λ s. record s { tx_dropped = add32 s.tx_dropped 1 }) v)
              (free_skb p ∷ l))
  unfolding net_dev_send on_queue acquire_lock release_lock is_queue_enabled_nolock queue_len_nolock
      kfree_skb
  drop_run why = ground (arith, is.size)
