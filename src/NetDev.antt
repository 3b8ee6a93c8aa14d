-- ===== src/NetDev.antt =====
-- The network interface of drivers/vpn/linux/net_dev.c. Trace output has no effect on the state and is
-- left out.
pub mod Flush
pub mod Packets
pub mod Send
use kerion_vpn_client_docker.Base.{
  ℕ, zero, suc, ◌+◌, ◌||◌, not, Bool, true, false, Option, none, some, List, take, leb, ◌==◌,
  if◌then◌else◌,
}
use kerion_vpn_client_docker.Base.Int.{ℤ, pos, is_zero, to_ulong, minus_enomem, minus_enosys}
use kerion_vpn_client_docker.Machine.{fault, out_of_fuel, ok, Cmd, null_deref, pure, ◌>>=◌, ◌>>◌}
use kerion_vpn_client_docker.Queue.{
  Ptr, null, acquire_lock, release_lock, queue_enable, is_queue_enabled_nolock, queue_len_nolock,
  queue_insert_nolock, queue_remove_nolock,
}
use kerion_vpn_client_docker.Driver.{
  NetDevice, Stats, NetDev, Cfg, Vnet, Event, wake_up, netif_start, netif_stop, netdev_alloc,
  netdev_free, netdev_register, netdev_unregister, Env, Driver, emit, ask, vnet_dev, set_vnet,
  set_net, set_stats, on_queue, kfree_skb, add32,
}

-- KVNET_MAX_MTU, ETH_HLEN and ETH_ALEN.
abbrev pub max_mtu : ℕ
max_mtu = 1400

abbrev pub eth_hlen : ℕ
eth_hlen = 14

abbrev pub eth_alen : ℕ
eth_alen = 6

-- `io_dev_wakeup` of io_dev.c.
unfoldable pub io_dev_wakeup : Cmd Driver (Unit {0})
unfolding vnet_dev
io_dev_wakeup = do vnet_dev; emit wake_up

-- The loop that takes buffers out until there is none, and counts them.
unfoldable pub flush_loop : ℕ → ℕ → Cmd Driver ℕ
flush_loop zero flushed = λ _. out_of_fuel
flush_loop (suc fuel) flushed = do
  skb ← on_queue queue_remove_nolock
  if skb == null then pure flushed else (do kfree_skb skb; flush_loop fuel (flushed + 1))

-- One round for each buffer, and one for the end.
unfoldable pub net_dev_flush_tx_queue : Cmd Driver (Unit {0})
unfolding vnet_dev set_vnet
net_dev_flush_tx_queue = do
  v ← vnet_dev
  on_queue acquire_lock
  flushed ← flush_loop (to_ulong v.net_dev.queue.size + 1) 0
  on_queue release_lock
  set_vnet (set_stats λ s. record s { tx_dropped = add32 s.tx_dropped flushed })

unfoldable pub net_dev_open : Cmd Driver ℤ
unfolding set_vnet
net_dev_open = do
  on_queue (queue_enable true)
  emit netif_start
  set_vnet (set_net λ n. record n { connected = true })
  pure (pos 0)

unfoldable pub net_dev_close : Cmd Driver ℤ
unfolding set_vnet
net_dev_close = do
  on_queue (queue_enable false)
  net_dev_flush_tx_queue
  emit netif_stop
  set_vnet (set_net λ n. record n { connected = false })
  pure (pos 0)

-- `dev`, which is the driver's one device.
unfoldable pub net_device : Cmd Driver NetDevice
unfolding vnet_dev
net_device = do
  v ← vnet_dev
  elim v.net_dev.device [ none ↦ (λ _. fault null_deref) | some dev ↦ pure dev ]

-- The test for dropping a packet, with the lock held. The length is compared as `unsigned long`.
unfoldable pub is_dropped : NetDevice → Cmd Driver Bool
is_dropped dev = do
  enabled ← on_queue is_queue_enabled_nolock
  len ← on_queue queue_len_nolock
  pure (not enabled || leb dev.tx_queue_len (to_ulong len))

module _ (env : Env) where
  unfoldable pub net_dev_send : Ptr → Cmd Driver ℤ
  unfolding set_vnet io_dev_wakeup is_dropped net_device
  net_dev_send skb = do
    dev ← net_device
    on_queue acquire_lock
    dropped ← is_dropped dev
    if dropped
        then (do
          set_vnet (set_stats λ s. record s { tx_dropped = add32 s.tx_dropped 1 })
          kfree_skb skb
          on_queue release_lock
          pure (pos 0))
        else (do
          on_queue (queue_insert_nolock skb)
          on_queue release_lock
          now ← ask env.jiffies
          set_vnet (set_net λ n. record n { device = some (record dev { trans_start = now }) })
          io_dev_wakeup
          pure (pos 0))

unfoldable pub net_dev_ioctl : ℕ → Cmd Driver ℤ
net_dev_ioctl cmd = pure minus_enosys

-- The fields of `struct net_device_stats` that are filled in.
unfoldable pub net_dev_get_stats : Cmd Driver Stats
unfolding vnet_dev
net_dev_get_stats = do v ← vnet_dev; pure v.net_dev.stats

-- The device, as `alloc_netdev` hands it to the set-up function after `ether_setup`.
unfoldable pub net_dev_setup : Cfg → NetDevice → NetDevice
net_dev_setup cfg dev = record dev {
  hard_header_len = eth_hlen;
  addr_len = eth_alen;
  mtu = max_mtu;
  tx_queue_len = cfg.max_queue_len;
  multicast = false;
  dev_addr = take eth_alen cfg.mac;
}

-- What the kernel asks of the driver when it registers the device, when it drops it and when nobody uses it any
-- more, and whether ethtool finds a link.
abbrev pub net_dev_init : Cmd Driver ℤ
net_dev_init = pure (pos 0)

abbrev pub net_dev_uninit : Cmd Driver (Unit {0})
net_dev_uninit = pure tt

abbrev pub net_dev_free : Cmd Driver (Unit {0})
net_dev_free = pure tt

abbrev pub always_on : ℕ
always_on = 1

-- The tables of the driver's functions that the kernel calls.
pub record EthtoolOps : Type 0 where
  pub get_link : ℕ

abbrev pub net_dev_ethtool_ops : EthtoolOps
net_dev_ethtool_ops = record { get_link = always_on }

pub record NetDeviceOps : Type 0 where
  pub ndo_init : Cmd Driver ℤ
  pub ndo_uninit : Cmd Driver (Unit {0})
  pub ndo_open : Cmd Driver ℤ
  pub ndo_stop : Cmd Driver ℤ
  pub ndo_start_xmit : Ptr → Cmd Driver ℤ
  pub ndo_do_ioctl : ℕ → Cmd Driver ℤ
  pub ndo_get_stats : Cmd Driver Stats

abbrev pub kvnet_netdev_ops : Env → NetDeviceOps
kvnet_netdev_ops env = record {
  ndo_init = net_dev_init;
  ndo_uninit = net_dev_uninit;
  ndo_open = net_dev_open;
  ndo_stop = net_dev_close;
  ndo_start_xmit = net_dev_send env;
  ndo_do_ioctl = net_dev_ioctl;
  ndo_get_stats = net_dev_get_stats;
}

module _ (env : Env) where
  -- The kernel stops an interface that is up, by the driver's `net_dev_close`, and then drops it.
  unfoldable pub unregister_netdev : Cmd Driver (Unit {0})
  unregister_netdev = do
    up ← ask env.is_up
    if up then (do (kvnet_netdev_ops env).ndo_stop; pure tt) else pure tt
    (kvnet_netdev_ops env).ndo_uninit
    emit netdev_unregister
    net_dev_free

  unfoldable pub net_dev_remove : Cmd Driver ℤ
  unfolding vnet_dev set_vnet
  net_dev_remove = do
    v ← vnet_dev
    elim v.net_dev.device [
      | none ↦ pure (pos 0)
      | some dev ↦ (do
        if v.net_dev.added then unregister_netdev else pure tt
        emit netdev_free
        set_vnet (set_net λ n. record n { device = none; added = false })
        pure (pos 0))
    ]

  -- The `do … while (0)` block: allocate, then register.
  unfoldable pub net_dev_try_add : Cmd Driver ℤ
  unfolding vnet_dev set_vnet net_dev_setup
  net_dev_try_add = do
    v ← vnet_dev
    found ← ask env.alloc_netdev
    elim found [
      | none ↦ (do set_vnet (set_net λ n. record n { device = none }); pure minus_enomem)
      | some dev ↦ (do
        emit netdev_alloc
        set_vnet (set_net λ n. record n { device = some (net_dev_setup v.cfg dev) })
        (kvnet_netdev_ops env).ndo_init
        ret ← ask env.register_netdev
        if is_zero ret
            then (do
              emit netdev_register
              set_vnet (set_net λ n. record n { added = true })
              pure ret)
            else pure ret)
    ]

  unfoldable pub net_dev_add : Cmd Driver ℤ
  net_dev_add = do
    ret ← net_dev_try_add
    if is_zero ret then pure ret else (do net_dev_remove; pure ret)
