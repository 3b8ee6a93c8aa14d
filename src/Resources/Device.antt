-- ===== src/Resources/Device.antt =====
-- Opening and closing the character device: `io_dev_open` with `net_dev_add` and its rollback, and
-- `io_dev_close` with `net_dev_remove`.
use kerion_vpn_client_docker.Base.{
  Bool-cases, Option-cases, ◌≡◌, ◌⊎◌, inl, inr, refl, sym, subst, true, false, none, some, List,
  ◌∷◌, arith,
}
use kerion_vpn_client_docker.Base.Int.{ℤ, is_zero, minus_eacces}
use kerion_vpn_client_docker.Machine.{ok, and_then, Returns, returns, bind, mono}
use kerion_vpn_client_docker.Queue.{Heap}
use kerion_vpn_client_docker.Driver.{
  NetDevice, Vnet, Event, netdev_alloc, set_net, set_io, Env, Driver, driver,
}
use kerion_vpn_client_docker.NetDev.{
  max_mtu, net_dev_setup, net_dev_try_add, net_dev_add, net_dev_remove,
}
use kerion_vpn_client_docker.IoDev.{io_dev_open, mark_opened}
use kerion_vpn_client_docker.Resources.{Balanced, NoTraffic}

-- The network device is there, registered, and set up from the configuration.
pub record HasDevice (v w : Vnet) : Type 0 where
  pub device :
      (dev : NetDevice) × (w.net_dev.device ≡ some dev)
      × (dev.tx_queue_len ≡ v.cfg.max_queue_len)
      × (dev.mtu ≡ max_mtu)
  pub added : w.net_dev.added ≡ true

-- There is no network device.
pub record NoDevice (v : Vnet) : Type 0 where
  pub device : v.net_dev.device ≡ none
  pub added : v.net_dev.added ≡ false

-- The driver `d` with object `w`, that differs from `v` in the network device at most.
pub record Shape (h : Heap) (v : Vnet) (l : List Event) (w : Vnet) (d : Driver) : Type 0 where
  pub shape : d ≡ driver h w d.log
  pub queue : w.net_dev.queue ≡ v.net_dev.queue
  pub io_dev : w.io_dev ≡ v.io_dev
  pub cfg : w.cfg ≡ v.cfg
  pub balanced : Balanced d
  pub no_traffic : NoTraffic d.log l

abbrev pub AddResult : Heap → Vnet → List Event → ℤ → Driver → Type 0
AddResult h v l r d =
    (w : Vnet) × Shape h v l w d
    × (((is_zero r ≡ true) × HasDevice v w) ⊎ ((is_zero r ≡ false) × NoDevice w))

-- `net_dev_add` gives a registered device, or an error and none: whatever step fails, nothing is left
-- behind. The queue is as it was, no packet is given back, and the interface is not switched.
pub net_dev_add-AddResult :
    (env : Env) (h : Heap) (v : Vnet) (l : List Event)
    → NoDevice v
    → Balanced (driver h v l)
    → Returns (AddResult h v l) (net_dev_add env (driver h v l))
unfolding net_dev_add net_dev_try_add net_dev_remove
net_dev_add-AddResult env h v l absent b = elim (Option-cases (env.alloc_netdev l)) [
  | inl e ↦
      rw (e, net_dev_add, net_dev_try_add)
        (returns (
          set_net (λ n. record n { device = none }) v,
          record {
            shape = refl;
            queue = refl;
            io_dev = refl;
            cfg = refl;
            balanced = ground (arith, absent.device);
            no_traffic = (refl, refl);
          },
          inr (refl, record { device = refl; added = absent.added }),
        ))
  | inr (dev, e) ↦
      rw (e, net_dev_add, net_dev_try_add)
        (elim (Bool-cases (is_zero (env.register_netdev (netdev_alloc ∷ l)))) [
          | inl f ↦
              rw (f, f)
                (returns (
                  set_net (λ n. record n { added = true; device = some (net_dev_setup v.cfg dev) })
                      v,
                  record {
                    shape = refl;
                    queue = refl;
                    io_dev = refl;
                    cfg = refl;
                    balanced = ground (arith, absent.device, absent.added);
                    no_traffic = (refl, refl);
                  },
                  inl (f, record { device = (_, refl, refl, refl); added = refl }),
                ))
          | inr f ↦
              rw (f, f, absent.added)
                (returns (
                  set_net (λ n. record n { added = false; device = none }) v,
                  record {
                    shape = refl;
                    queue = refl;
                    io_dev = refl;
                    cfg = refl;
                    balanced = ground (arith, absent.device, absent.added);
                    no_traffic = (refl, refl);
                  },
                  inr (f, record { device = refl; added = refl }),
                ))
        ])
]

abbrev pub OpenResult : Heap → Vnet → List Event → ℤ → Driver → Type 0
OpenResult h v l r d =
    (w : Vnet) × (d ≡ driver h w d.log)
    × (w.net_dev.queue ≡ v.net_dev.queue)
    × (w.cfg ≡ v.cfg)
    × Balanced d
    × NoTraffic d.log l
    × (((is_zero r ≡ true) × HasDevice v w × (w.io_dev.opened ≡ true) × (w.io_dev.canceled ≡ false))
        ⊎ ((is_zero r ≡ false) × NoDevice w × (w.io_dev ≡ v.io_dev)))

mark_opened-OpenResult :
    (h : Heap) (v w : Vnet) (l k : List Event) (r : ℤ)
    → w.net_dev.queue ≡ v.net_dev.queue
    → w.cfg ≡ v.cfg
    → w.io_dev ≡ v.io_dev
    → Balanced (driver h w k)
    → NoTraffic k l
    → ((is_zero r ≡ true) × HasDevice v w) ⊎ ((is_zero r ≡ false) × NoDevice w)
    → Returns (OpenResult h v l) (mark_opened r (driver h w k))
unfolding mark_opened
mark_opened-OpenResult h v w l k r same cfg io b no_traffic (inl (z, there)) = rw z (
    returns (
      set_io (λ io. record io { opened = true; canceled = false }) w,
      refl,
      same,
      cfg,
      b,
      no_traffic,
      inl (z, record { device = there.device; added = there.added }, refl, refl),
    ))
mark_opened-OpenResult h v w l k r same cfg io b no_traffic (inr (z, absent)) =
    rw z (returns (w, refl, same, cfg, b, no_traffic, inr (z, absent, io)))

abbrev pub OpenOutcome : Heap → Vnet → List Event → ℤ → Driver → Type 0
OpenOutcome h v l r d =
    ((v.io_dev.opened ≡ true) × (r ≡ minus_eacces) × (d ≡ driver h v l))
    ⊎ ((v.io_dev.opened ≡ false) × OpenResult h v l r d)

busy_run :
    (env : Env) (h : Heap) (v : Vnet) (l : List Event)
    → v.io_dev.opened ≡ true
    → io_dev_open env (driver h v l) ≡ ok minus_eacces (driver h v l)
unfolding io_dev_open
busy_run env h v l busy = rw (busy, io_dev_open)

idle_run :
    (env : Env) (h : Heap) (v : Vnet) (l : List Event)
    → v.io_dev.opened ≡ false
    → io_dev_open env (driver h v l) ≡ and_then (net_dev_add env (driver h v l)) mark_opened
unfolding io_dev_open
idle_run env h v l idle = rw (idle, io_dev_open) refl

-- Opening the character device: a device that is open already is refused with `-EACCES`, and nothing
-- changes. A closed one, with no network device yet, either is opened, with the network device
-- registered and an earlier cancellation forgotten, or the call fails with nothing left behind and
-- the device still closed. The queue and the configuration are as they were, no packet is given back, and the interface is not switched.
pub io_dev_open-OpenOutcome :
    (env : Env) (h : Heap) (v : Vnet) (l : List Event)
    → (v.io_dev.opened ≡ false → NoDevice v)
    → Balanced (driver h v l)
    → Returns (OpenOutcome h v l) (io_dev_open env (driver h v l))
io_dev_open-OpenOutcome env h v l closed b = elim (Bool-cases v.io_dev.opened) [
  | inl busy ↦ rw (busy_run env h v l busy) (returns (inl (busy, refl, refl)))
  | inr idle ↦ rw (idle_run env h v l idle) (
      bind (net_dev_add-AddResult env h v l (closed idle) b) λ r d (w, s, out).
        subst (λ e. Returns (OpenOutcome h v l) (mark_opened r e)) (sym s.shape)
          (mono
            (mark_opened-OpenResult h v w l d.log r s.queue s.cfg s.io_dev
              (subst Balanced s.shape s.balanced) s.no_traffic out)
            λ q e o. inr (idle, o)))
]
