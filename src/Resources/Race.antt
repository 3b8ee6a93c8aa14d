-- ===== src/Resources/Race.antt =====
-- Two processes that open the character device at the same time: `io_dev_open` of drivers/vpn/linux/io_dev.c takes
-- no lock between its test of `opened` and the rest.
use kerion_vpn_client_docker.Base.{
  ℕ, zero, suc, ◌<◌, ◌≡◌, refl, Bool, true, false, some, List, [], ◌∷◌, arith, if◌then◌else◌,
}
use kerion_vpn_client_docker.Base.Int.{ℤ, pos, negsuc, minus_eacces, minus_eagain}
use kerion_vpn_client_docker.Machine.{
  ok, fault, null_deref, Cmd, pure, ◌>>=◌, and_then, Returns, returns,
}
use kerion_vpn_client_docker.Queue.{Heap}
use kerion_vpn_client_docker.Queue.Chain.{IsQueue}
use kerion_vpn_client_docker.Queue.Remove.{queue_remove-nil}
use kerion_vpn_client_docker.Io.{read_loop, io_read_to_iovec}
use kerion_vpn_client_docker.Io.Granted.{Asks, with_header-run}
use kerion_vpn_client_docker.Driver.{
  header_alloc, NetDevice, Vnet, Event, netdev_alloc, netdev_register, netdev_unregister,
  netdev_free, on_queue, Env, Driver, driver, vnet_dev,
}
use kerion_vpn_client_docker.NetDev.{
  net_device, net_dev_add, net_dev_try_add, net_dev_remove, unregister_netdev,
}
use kerion_vpn_client_docker.IoDev.{io_dev_open, mark_opened}
use kerion_vpn_client_docker.Resources.{held, Balanced}
use kerion_vpn_client_docker.Resources.Device.{NoDevice}

-- Where a process is in `io_dev_open`: before the test, behind it, or back with a result.
pub data Process : Type 0 where
  entering adding : Process
  back : ℤ → Process

module _ (env : Env) where
  unfoldable pub proceed : Process → Cmd Driver Process
  proceed entering = do v ← vnet_dev; pure (if v.io_dev.opened then back minus_eacces else adding)
  proceed adding = do ret ← net_dev_add env; r ← mark_opened ret; pure (back r)
  proceed (back r) = pure (back r)

  -- Two processes by turns: the first one's where the turn is `true`.
  unfoldable pub by_turns : List Bool → Process → Process → Cmd Driver (Process × Process)
  by_turns [] a b = pure (a, b)
  by_turns (true ∷ turns) a b = do a' ← proceed a; by_turns turns a' b
  by_turns (false ∷ turns) a b = do b' ← proceed b; by_turns turns a b'

  -- A process that is alone does what `io_dev_open` does.
  alone :
      (d : Driver)
      → (do p ← proceed entering; proceed p) d ≡ (do r ← io_dev_open env; pure (back r)) d
  unfolding proceed io_dev_open vnet_dev
  alone d = ground arith

loop_idle :
    (env : Env) (hdr : List ℕ) (count : ℕ) (h : Heap) (v : Vnet) (l : List Event)
    → 0 < count
    → IsQueue h v.net_dev.queue []
    → v.net_dev.queue.locked ≡ false
    → read_loop env 8 hdr count 0 (pos 0) (driver h v l) ≡ ok minus_eagain (driver h v l)
unfolding read_loop on_queue
loop_idle env hdr zero h v l some_round is free = absurd (omega arith)
loop_idle env hdr (suc left) h v l some_round is free =
    rw (queue_remove-nil h v.net_dev.queue is free) refl

-- A read without a network device stops the kernel, once its request has passed the checks.
read-null_deref :
    (env : Env) (h : Heap) (v : Vnet) (l : List Event) (n count : ℕ) (hdr : List ℕ)
    → Asks env l n count hdr
    → NoDevice v
    → IsQueue h v.net_dev.queue []
    → v.net_dev.queue.locked ≡ false
    → io_read_to_iovec env 8 (pos n) (driver h v l) ≡ fault null_deref
unfolding io_read_to_iovec net_device
read-null_deref env h v l n count hdr asks absent is free =
    rw
      (
        with_header-run env h v l n count hdr asks,
        loop_idle env hdr count h v (header_alloc ∷ l) asks.some_packet is free,
        and_then,
        absent.device,
      )
      refl

-- The character device is marked open, there is no network device, one is held that no field knows, and a
-- read of `len` bytes stops the kernel.
abbrev pub Lost : Env → ℕ → Process × Process → Driver → Type 0
Lost env len p d =
    (p.0 ≡ back (pos 0))
    × (w : Vnet) × (d.vnet ≡ some w)
    × (w.io_dev.opened ≡ true)
    × NoDevice w
    × ((held d.log).netdevs ≡ pos 1)
    × (io_read_to_iovec env 8 (pos len) d ≡ fault null_deref)

module _ (env : Env) (h : Heap) (v : Vnet) (l : List Event) (one two : NetDevice) (n : ℕ)
    (len count : ℕ) (hdr : List ℕ) where
  abbrev log_one : List Event
  log_one = netdev_register ∷ netdev_alloc ∷ l

  -- Where two processes open a closed device and both pass the test of `opened` before either goes on, the second
  -- one's interface cannot be registered, as the name is taken, and its rollback forgets the first one's:
  -- the first process is told success, but there is no network device, and the first one is held for ever.
  -- A read of the device that the first process then has open stops the kernel, where its request of `len` bytes
  -- passes the checks. The queue is empty and not locked; the kernel makes both devices and refuses to register the
  -- second, and no interface is up.
  pub by_turns-Lost :
      v.io_dev.opened ≡ false
      → NoDevice v
      → Balanced (driver h v l)
      → IsQueue h v.net_dev.queue []
      → v.net_dev.queue.locked ≡ false
      → env.alloc_netdev l ≡ some one
      → env.register_netdev (netdev_alloc ∷ l) ≡ pos 0
      → env.alloc_netdev log_one ≡ some two
      → env.register_netdev (netdev_alloc ∷ log_one) ≡ negsuc n
      → env.is_up (netdev_alloc ∷ log_one) ≡ false
      → Asks env (netdev_free ∷ netdev_unregister ∷ netdev_alloc ∷ log_one) len count hdr
      → Returns
          (Lost env len)
          (by_turns env (true ∷ false ∷ true ∷ false ∷ []) entering entering (driver h v l))
  unfolding by_turns proceed mark_opened net_dev_add net_dev_try_add net_dev_remove
      unregister_netdev
  by_turns-Lost closed absent b is free made registered made_too refused down asks =
      rw (closed, made, registered, made_too, refused, down)
        (returns (
          refl,
          _,
          refl,
          refl,
          record { device = refl; added = refl },
          ground (arith, b, absent.device, absent.added),
          read-null_deref env h _ _ len count hdr asks (record { device = refl; added = refl }) is
              free,
        ))
