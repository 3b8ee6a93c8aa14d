-- ===== src/Resources/Remove.antt =====
-- The release of the character device, `io_dev_remove`.
use kerion_vpn_client_docker.Base.{
  ◌≡◌, refl, ◌∙◌, false, some, List, ◌∷◌, not, if◌then◌else◌, arith,
}
use kerion_vpn_client_docker.Base.Int.{ℤ, pos, negsuc}
use kerion_vpn_client_docker.Machine.{ok, Returns, returns}
use kerion_vpn_client_docker.Queue.{Heap}
use kerion_vpn_client_docker.Driver.{
  is_err, err_ptr, device_destroy, class_destroy, cdev_del, chrdev_unregister, set_io, Vnet, Event,
  Driver, driver,
}
use kerion_vpn_client_docker.IoDev.{
  io_dev_remove, remove_device, remove_class, remove_cdev, remove_region, has_number,
}
use kerion_vpn_client_docker.Resources.{NoTraffic, held, only_net, claimed, Balanced}

-- The four steps of `io_dev_remove`: the fields and the log after each.
abbrev less_device : Vnet → Vnet
less_device v =
    if is_err v.io_dev.device then v else set_io (λ io. record io { device = err_ptr 11 }) v

abbrev log_device : Vnet → List Event → List Event
log_device v l = if is_err v.io_dev.device then l else (device_destroy) ∷ l

abbrev less_class : Vnet → Vnet
less_class v =
    if is_err v.io_dev.class then v else set_io (λ io. record io { class = err_ptr 11 }) v

abbrev log_class : Vnet → List Event → List Event
log_class v l = if is_err v.io_dev.class then l else (class_destroy) ∷ l

abbrev less_cdev : Vnet → Vnet
less_cdev v = if not v.io_dev.added then v else set_io (λ io. record io { added = false }) v

abbrev log_cdev : Vnet → List Event → List Event
log_cdev v l = if not v.io_dev.added then l else (cdev_del) ∷ l

abbrev less_region : Vnet → Vnet
less_region v =
    if not (has_number v.io_dev.major_number)
    then v
    else set_io (λ io. record io { major_number = negsuc 0; minor_number = negsuc 0 }) v

abbrev log_region : Vnet → List Event → List Event
log_region v l =
    if not (has_number v.io_dev.major_number)
    then l
    else (chrdev_unregister v.io_dev.major_number v.io_dev.minor_number) ∷ l

module _ (h : Heap) (v : Vnet) (l : List Event) where
  device_run : remove_device (driver h v l) ≡ ok tt (driver h (less_device v) (log_device v l))
  unfolding remove_device
  device_run = ground arith

  class_run : remove_class (driver h v l) ≡ ok tt (driver h (less_class v) (log_class v l))
  unfolding remove_class
  class_run = ground arith

  cdev_run : remove_cdev (driver h v l) ≡ ok tt (driver h (less_cdev v) (log_cdev v l))
  unfolding remove_cdev
  cdev_run = ground arith

  region_run : remove_region (driver h v l) ≡ ok tt (driver h (less_region v) (log_region v l))
  unfolding remove_region
  region_run = ground arith

  less_device-Balanced :
      Balanced (driver h v l) → Balanced (driver h (less_device v) (log_device v l))
  less_device-Balanced b = ground arith

  less_class-Balanced : Balanced (driver h v l) → Balanced (driver h (less_class v) (log_class v l))
  less_class-Balanced b = ground arith

  less_cdev-Balanced : Balanced (driver h v l) → Balanced (driver h (less_cdev v) (log_cdev v l))
  less_cdev-Balanced b = ground arith

  less_region-Balanced :
      Balanced (driver h v l) → Balanced (driver h (less_region v) (log_region v l))
  less_region-Balanced b = ground arith

claimed-less :
    (v : Vnet)
    → claimed (some (less_region (less_cdev (less_class (less_device v))))) ≡ only_net v.net_dev
claimed-less v = ground arith

net_dev-less :
    (v : Vnet) → (less_region (less_cdev (less_class (less_device v)))).net_dev ≡ v.net_dev
net_dev-less v = ground arith

-- 0 is returned, what is held is what the fields claim, and nothing of the character device is held.
abbrev pub Removed : Heap → Vnet → List Event → ℤ → Driver → Type 0
Removed h v l r d =
    (r ≡ pos 0)
    × (w : Vnet) × (d ≡ driver h w d.log)
    × (w.net_dev ≡ v.net_dev)
    × Balanced d
    × (held d.log ≡ only_net v.net_dev)
    × NoTraffic d.log l

-- `io_dev_remove` ends without a fault and releases exactly what the fields say is held of the character
-- device; the object and the network device are left as they are.
pub io_dev_remove-Balanced :
    (h : Heap) (v : Vnet) (l : List Event)
    → Balanced (driver h v l)
    → Returns (Removed h v l) (io_dev_remove (driver h v l))
unfolding io_dev_remove
io_dev_remove-Balanced h v l b =
    rw (device_run h v l, class_run h v1 l1, cdev_run h v2 l2, region_run h v3 l3)
      (returns (refl, less_region v3, refl, net_dev-less v, b4, b4 ∙ claimed-less v, quiet_log))
  where
    v1 : Vnet
    v1 = less_device v

    l1 : List Event
    l1 = log_device v l

    v2 : Vnet
    v2 = less_class v1

    l2 : List Event
    l2 = log_class v1 l1

    v3 : Vnet
    v3 = less_cdev v2

    l3 : List Event
    l3 = log_cdev v2 l2

    quiet_log : NoTraffic (log_region v3 l3) l
    quiet_log = (ground arith, ground arith)

    b4 : Balanced (driver h (less_region v3) (log_region v3 l3))
    b4 =
        less_region-Balanced h v3 l3
          (less_cdev-Balanced h v2 l2 (less_class-Balanced h v1 l1 (less_device-Balanced h v l b)))
