-- ===== src/Resources/Close.antt =====
-- Closing the character device: `io_dev_close` with `net_dev_remove`, and `net_dev_close` where the
-- interface is still up.
use kerion_vpn_client_docker.Base.{
  Bool-cases, ◌≡◌, inl, inr, refl, Bool, true, false, none, some, List, [], ◌∷◌, arith,
}
use kerion_vpn_client_docker.Base.Int.{ℤ, pos}
use kerion_vpn_client_docker.Machine.{ok, Returns, returns}
use kerion_vpn_client_docker.Queue.{Heap}
use kerion_vpn_client_docker.Queue.Chain.{Cells, IsQueue}
use kerion_vpn_client_docker.Driver.{
  NetDevice, Vnet, Event, netdev_unregister, netdev_free, netif_stop, free_skb, set_net, set_io,
  Env, Driver, driver,
}
use kerion_vpn_client_docker.NetDev.{net_dev_remove, unregister_netdev}
use kerion_vpn_client_docker.NetDev.Flush.{drained, freed, closed_vnet, close-ok}
use kerion_vpn_client_docker.IoDev.{io_dev_close}
use kerion_vpn_client_docker.Resources.{held, Balanced}
use kerion_vpn_client_docker.Resources.Device.{NoDevice}

pub held-freed : (xs : Cells) (l : List Event) → held (freed xs l) ≡ held l
held-freed [] l = refl
held-freed ((p, bs) ∷ xs) l = held-freed xs (free_skb p ∷ l)

-- What closing does to an interface that is up: it takes no packets and is not connected any more, the queued
-- ones were given back and the transmit queue was stopped before it was unregistered. One that is down is
-- only unregistered.
abbrev pub Stopped : Bool → Cells → Vnet → List Event → Vnet → Driver → Type 0
Stopped true xs v l w d =
    (w.net_dev.queue.enabled ≡ false)
    × (w.net_dev.connected ≡ false)
    × IsQueue d.heap w.net_dev.queue []
    × (d.log ≡ netdev_free ∷ netdev_unregister ∷ netif_stop ∷ freed xs l)
Stopped false xs v l w d =
    (w.net_dev.queue.enabled ≡ v.net_dev.queue.enabled)
    × (w.net_dev.connected ≡ v.net_dev.connected)
    × IsQueue d.heap w.net_dev.queue xs
    × (d.log ≡ netdev_free ∷ netdev_unregister ∷ l)

-- What closing leaves: no network device, the device closed, and nothing held for either.
abbrev pub Closed : Bool → Cells → Vnet → List Event → ℤ → Driver → Type 0
Closed up xs v l r d =
    (r ≡ pos 0)
    × (w : Vnet) × (d.vnet ≡ some w)
    × NoDevice w
    × (w.io_dev.opened ≡ false)
    × Balanced d
    × Stopped up xs v l w d
    × (w.net_dev.queue.locked ≡ false)

abbrev pub gone : Vnet → Vnet
gone v =
    set_io (λ io. record io { opened = false })
      (set_net (λ n. record n { device = none; added = false }) v)

module _ (env : Env) (h : Heap) (v : Vnet) (l : List Event) (dev : NetDevice) (xs : Cells)
    (has_device : v.net_dev.device ≡ some dev) (registered : v.net_dev.added ≡ true)
    (is : IsQueue h v.net_dev.queue xs) (free : v.net_dev.queue.locked ≡ false) where
  pub close_up :
      env.is_up l ≡ true
      → io_dev_close env (driver h v l)
        ≡ ok (pos 0) (
            driver
              (drained h xs)
              (gone (closed_vnet v xs))
              (netdev_free ∷ netdev_unregister ∷ netif_stop ∷ freed xs l))
  unfolding io_dev_close net_dev_remove unregister_netdev
  close_up up = ground (arith, close-ok h v l xs is free)

  pub close_down :
      env.is_up l ≡ false
      → io_dev_close env (driver h v l)
        ≡ ok (pos 0) (driver h (gone v) (netdev_free ∷ netdev_unregister ∷ l))
  unfolding io_dev_close net_dev_remove unregister_netdev
  close_down down = ground arith

  -- Closing the character device ends without a fault: the network device is unregistered and given back,
  -- the device is marked closed, every resource is still accounted for, and the queue's lock is
  -- free. An interface that was up is stopped first: it takes no packets and is not connected any more, and the
  -- packets in its queue were given back, each once and in order, before the transmit queue was stopped; that of
  -- one that was down keeps its packets.
  pub io_dev_close-Closed :
      Balanced (driver h v l)
      → Returns (Closed (env.is_up l) xs v l) (io_dev_close env (driver h v l))
  io_dev_close-Closed b = elim (Bool-cases (env.is_up l)) [
    | inl up ↦
        rw (close_up up, up)
          (returns (
            refl,
            gone (closed_vnet v xs),
            refl,
            record { device = refl; added = refl },
            refl,
            ground (arith, held-freed xs l),
            (
              refl,
              refl,
              record { head = refl; tail = λ ne. absurd (ne refl); chain = tt; size = refl },
              refl,
            ),
            refl,
          ))
    | inr down ↦
        rw (close_down down, down)
          (returns (
            refl,
            gone v,
            refl,
            record { device = refl; added = refl },
            refl,
            ground arith,
            (
              refl,
              refl,
              record { head = is.head; tail = is.tail; chain = is.chain; size = is.size },
              refl,
            ),
            free,
          ))
  ]
