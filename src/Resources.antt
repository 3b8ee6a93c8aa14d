-- ===== src/Resources.antt =====
-- The kernel resources that the driver holds, counted from the log of its calls, against those that the
-- fields of `struct vnet` say it holds.
pub mod Add
pub mod Close
pub mod Device
pub mod Race
pub mod Remove
pub mod Start
use kerion_vpn_client_docker.Base.{
  ℕ, ◌≡◌, ap, Bool, true, false, Option, none, some, List, [], ◌∷◌, if◌then◌else◌,
}
use kerion_vpn_client_docker.Base.Int.{ℤ, pos, incr, decr}
use kerion_vpn_client_docker.Driver.{
  is_err, IoDev, Cfg, NetDevice, NetDev, Vnet, Event, vnet_alloc, vnet_free, netdev_alloc,
  netdev_free, netdev_register, netdev_unregister, chrdev_alloc, chrdev_unregister, cdev_add,
  cdev_del, class_create, class_destroy, device_create, device_destroy, free_skb, wake_up,
  netif_start, netif_stop, netif_wake, header_alloc, header_free, put_user, copy_to_user, to_iovec,
  skb_alloc, skb_discard, netif_rx, Driver, frees,
}
use kerion_vpn_client_docker.IoDev.{has_number}

-- How many of each kind; a release too many is a negative number.
pub record Held : Type 0 where
  pub objects : ℤ
  pub netdevs : ℤ
  pub registrations : ℤ
  pub regions : ℤ
  pub cdevs : ℤ
  pub classes : ℤ
  pub devices : ℤ
  pub headers : ℤ
  pub buffers : ℤ

abbrev pub nothing : Held
nothing = record {
  objects = pos 0;
  netdevs = pos 0;
  registrations = pos 0;
  regions = pos 0;
  cdevs = pos 0;
  classes = pos 0;
  devices = pos 0;
  headers = pos 0;
  buffers = pos 0;
}

-- Each acquiring call and the call that the kernel pairs with it.
abbrev pub count : Event → Held → Held
count vnet_alloc h = record h { objects = incr h.objects }
count vnet_free h = record h { objects = decr h.objects }
count netdev_alloc h = record h { netdevs = incr h.netdevs }
count netdev_free h = record h { netdevs = decr h.netdevs }
count netdev_register h = record h { registrations = incr h.registrations }
count netdev_unregister h = record h { registrations = decr h.registrations }
count (chrdev_alloc a b) h = record h { regions = incr h.regions }
count (chrdev_unregister a b) h = record h { regions = decr h.regions }
count cdev_add h = record h { cdevs = incr h.cdevs }
count cdev_del h = record h { cdevs = decr h.cdevs }
count class_create h = record h { classes = incr h.classes }
count class_destroy h = record h { classes = decr h.classes }
count device_create h = record h { devices = incr h.devices }
count device_destroy h = record h { devices = decr h.devices }
count header_alloc h = record h { headers = incr h.headers }
count header_free h = record h { headers = decr h.headers }
count (free_skb p) h = h
count wake_up h = h
count netif_start h = h
count netif_stop h = h
count netif_wake h = h
count (put_user a n) h = h
count (copy_to_user a bs) h = h
count (to_iovec n) h = h
count skb_alloc h = record h { buffers = incr h.buffers }
count skb_discard h = record h { buffers = decr h.buffers }
count (netif_rx bs) h = record h { buffers = decr h.buffers }

abbrev pub held : List Event → Held
held [] = nothing
held (e ∷ l) = count e (held l)

abbrev pub one_if : Bool → ℤ
one_if true = pos 1
one_if false = pos 0

abbrev pub is_there {ℓ} : {A : Type ℓ} → Option A → Bool
is_there none = false
is_there (some a) = true

abbrev pub none_if : Bool → ℤ
none_if true = pos 0
none_if false = pos 1

-- What the fields claim.
abbrev pub claimed : Option Vnet → Held
claimed none = nothing
claimed (some v) = record {
  objects = pos 1;
  netdevs = one_if (is_there v.net_dev.device);
  registrations = one_if v.net_dev.added;
  regions = one_if (has_number v.io_dev.major_number);
  cdevs = one_if v.io_dev.added;
  classes = none_if (is_err v.io_dev.class);
  devices = none_if (is_err v.io_dev.device);
  headers = pos 0;
  buffers = pos 0;
}

-- No leak and no double release.
abbrev pub Balanced : Driver → Type 0
Balanced d = held d.log ≡ claimed d.vnet

-- What is left is the object itself and the network device.
abbrev pub only_net : NetDev → Held
only_net net = record nothing {
  objects = pos 1;
  netdevs = one_if (is_there net.device);
  registrations = one_if net.added;
}

-- Whether the interface is up: it was switched on and not off since.
abbrev pub switched_on : List Event → Bool
switched_on [] = false
switched_on (netif_start ∷ l) = true
switched_on (netif_stop ∷ l) = false
switched_on (_ ∷ l) = switched_on l

-- What the requests of the user program leave alone.
pub record Settings : Type 0 where
  pub on : Bool
  pub enabled : Bool
  pub connected : Bool
  pub added : Bool
  pub present : Bool
  pub io_dev : IoDev
  pub cfg : Cfg

abbrev pub settings_of : Vnet → Bool → Settings
settings_of v on = record {
  on = on;
  enabled = v.net_dev.queue.enabled;
  connected = v.net_dev.connected;
  added = v.net_dev.added;
  present = is_there v.net_dev.device;
  io_dev = v.io_dev;
  cfg = v.cfg;
}

abbrev pub settings : Vnet → List Event → Settings
settings v l = settings_of v (switched_on l)

abbrev claims_of : Settings → Held
claims_of s = record {
  objects = pos 1;
  netdevs = one_if s.present;
  registrations = one_if s.added;
  regions = one_if (has_number s.io_dev.major_number);
  cdevs = one_if s.io_dev.added;
  classes = none_if (is_err s.io_dev.class);
  devices = none_if (is_err s.io_dev.device);
  headers = pos 0;
  buffers = pos 0;
}

pub same_claims :
    (v w : Vnet) {a b : Bool}
    → settings_of w a ≡ settings_of v b
    → claimed (some w) ≡ claimed (some v)
same_claims v w e = ap claims_of e

-- No packet was given back and the interface was not switched in between.
abbrev pub NoTraffic : List Event → List Event → Type 0
NoTraffic k l = (frees k ≡ frees l) × (switched_on k ≡ switched_on l)
