-- ===== src/Driver.antt =====
-- The driver's state (vnet.h, lin_specific.h) and what it asks of the kernel. A call of the kernel is
-- logged, and a parameter `Env` answers it from the log so far.

use kerion_vpn_client_docker.Base.{
  if◌then◌else◌, ltb, ◌&&◌, ℕ, ◌+◌, ◌%◌, ◌^◌, Bool, true, false, Option, none, some, List, [], ◌∷◌,
  suc,
}
use kerion_vpn_client_docker.Base.Int.{ℤ, negsuc}
use kerion_vpn_client_docker.Machine.{
  Run, ok, fault, out_of_fuel, Cmd, pure, null_deref, bad_pointer, ◌>>=◌, modify,
}
use kerion_vpn_client_docker.Queue.{Ptr, Heap, write, Queue, Store, store}

-- A kernel pointer that may carry an error: `ERR_PTR(-(n + 1))`, which IS_ERR recognises, or an object.
pub data ErrPtr : Type 0 where
  err_ptr : ℕ → ErrPtr
  object : ℕ → ErrPtr

abbrev pub is_err : ErrPtr → Bool
is_err (err_ptr n) = true
is_err (object p) = false

-- `PTR_ERR`.
abbrev pub ptr_err : ErrPtr → ℤ
ptr_err (err_ptr n) = negsuc n
ptr_err (object p) = negsuc p

-- `struct net_device`, the fields that the driver sets or reads.
pub record NetDevice : Type 0 where
  pub hard_header_len : ℕ
  pub addr_len : ℕ
  pub mtu : ℕ
  pub tx_queue_len : ℕ
  pub multicast : Bool
  pub dev_addr : List ℕ
  pub trans_start : ℕ
  pub last_rx : ℕ

-- The members of `struct vnet`.
pub record IoDev : Type 0 where
  pub added : Bool
  pub opened : Bool
  pub canceled : Bool
  pub major_number : ℤ
  pub minor_number : ℤ
  pub class : ErrPtr
  pub device : ErrPtr

pub record Stats : Type 0 where
  pub rx_packets : ℕ
  pub tx_packets : ℕ
  pub rx_errors : ℕ
  pub tx_errors : ℕ
  pub rx_dropped : ℕ
  pub tx_dropped : ℕ
  pub rx_bytes : ℕ
  pub tx_bytes : ℕ
  pub rx_fifo_errors : ℕ
  pub tx_fifo_errors : ℕ

-- `device` is NULL where it is `none`.
pub record NetDev : Type 0 where
  pub added : Bool
  pub connected : Bool
  pub stats : Stats
  pub queue : Queue
  pub device : Option NetDevice

pub record Cfg : Type 0 where
  pub mac : List ℕ
  pub max_queue_len : ℕ

pub record Vnet : Type 0 where
  pub io_dev : IoDev
  pub net_dev : NetDev
  pub cfg : Cfg

-- The kernel calls that have an effect outside the driver's own memory.
pub data Event : Type 0 where
  vnet_alloc vnet_free : Event
  free_skb : Ptr → Event
  wake_up : Event
  netif_start netif_stop netif_wake : Event
  netdev_alloc netdev_free netdev_register netdev_unregister : Event
  chrdev_alloc chrdev_unregister : ℤ → ℤ → Event
  cdev_add cdev_del : Event
  class_create class_destroy : Event
  device_create device_destroy : Event
  -- kernel memory for a request header
  header_alloc header_free : Event
  -- a number or bytes written at an address of user memory
  put_user : ℕ → ℕ → Event
  copy_to_user : ℕ → List ℕ → Event
  -- the count of packets written back to the request
  to_iovec : ℕ → Event
  -- a new socket buffer for a received packet: made, given back, or handed to the network stack
  skb_alloc skb_discard : Event
  netif_rx : List ℕ → Event

-- What the kernel answers, given what was called before.
pub record Env : Type 0 where
  -- whether the memory for `struct vnet` is there
  pub kmalloc : List Event → Bool
  pub jiffies : List Event → ℕ
  -- the device after `ether_setup`, or NULL
  pub alloc_netdev : List Event → Option NetDevice
  pub register_netdev : List Event → ℤ
  -- whether the interface is up, so that `unregister_netdev` stops it first
  pub is_up : List Event → Bool
  pub alloc_chrdev_region : List Event → ℤ
  pub chrdev_numbers : List Event → ℕ × ℕ
  pub cdev_add : List Event → ℤ
  pub class_create : List Event → ErrPtr
  pub device_create : List Event → ErrPtr
  -- whether a write to user memory at an address succeeds
  pub put_user : List Event → ℕ → Bool
  pub copy_to_user : List Event → ℕ → Bool
  -- the 32-bit number at an address of user memory, and a number of bytes there
  pub get_user : List Event → ℕ → Option ℕ
  pub copy_from_user : List Event → ℕ → ℕ → Option (List ℕ)
  -- whether `kmalloc` has so many bytes
  pub kmalloc_bytes : List Event → ℕ → Bool
  -- `memcpy_fromiovecend` of so many bytes, and whether `memcpy_toiovec` succeeds
  pub from_iovec : List Event → ℕ → Option (List ℕ)
  pub to_iovec : List Event → Bool
  -- NET_IP_ALIGN
  pub net_ip_align : ℕ
  -- `dev_alloc_skb`: the room of the new buffer
  pub dev_alloc_skb : List Event → ℕ → Option ℕ

-- `vnet` is what `gs_vnet` points at.
pub record Driver : Type 0 where
  pub heap : Heap
  pub vnet : Option Vnet
  pub log : List Event

abbrev pub driver : Heap → Vnet → List Event → Driver
driver h v l = record { heap = h; vnet = some v; log = l }

abbrev pub emit : Event → Cmd Driver (Unit {0})
emit e = modify λ d. record d { log = e ∷ d.log }

abbrev pub ask : {A : Type 0} → (List Event → A) → Cmd Driver A
ask f d = ok (f d.log) d

-- `vnet_dev()` and an access through the pointer that it returns.
unfoldable pub vnet_dev : Cmd Driver Vnet
vnet_dev d = elim d.vnet [ none ↦ fault null_deref | some v ↦ ok v d ]

unfoldable pub set_vnet : (Vnet → Vnet) → Cmd Driver (Unit {0})
unfolding vnet_dev
set_vnet f = do v ← vnet_dev; modify λ d. record d { vnet = some (f v) }

abbrev pub set_io : (IoDev → IoDev) → Vnet → Vnet
set_io f v = record v { io_dev = f v.io_dev }

abbrev pub set_net : (NetDev → NetDev) → Vnet → Vnet
set_net f v = record v { net_dev = f v.net_dev }

abbrev pub set_stats : (Stats → Stats) → Vnet → Vnet
set_stats f = set_net λ n. record n { stats = f n.stats }

-- A call of a function of queue.c on the driver's one queue.
abbrev pub put_store : Driver → Vnet → Store → Driver
put_store d v s = record d {
  heap = s.heap;
  vnet = some (set_net (λ n. record n { queue = s.queue }) v);
}

abbrev pub lift_run : {A : Type 0} → Driver → Vnet → Run Store A → Run Driver A
lift_run d v (ok a s) = ok a (put_store d v s)
lift_run d v (fault f) = fault f
lift_run d v out_of_fuel = out_of_fuel

unfoldable pub on_queue : {A : Type 0} → Cmd Store A → Cmd Driver A
on_queue m d = elim d.vnet [
  | none ↦ fault null_deref
  | some v ↦ lift_run d v (m (store d.heap v.net_dev.queue))
]

-- The wrappers of `kmalloc`, which tell whether there is a block. The size is an `int`: of a longer one the low
-- 32 bits are taken, and a negative one is refused. The kernel's object is the only block of non-paged memory.
abbrev pub alloc_paged_mem : Env → ℕ → Cmd Driver Bool
alloc_paged_mem env size =
    ask (λ l. ltb (size % 2 ^ 32) (2 ^ 31) && env.kmalloc_bytes l (size % 2 ^ 32))

abbrev pub alloc_nonpaged_mem : Env → Cmd Driver Bool
alloc_nonpaged_mem env = ask env.kmalloc

-- The wrappers of `kfree`, with whether the pointer is not NULL and the event that tells what is given back.
abbrev pub free_paged_mem : Bool → Event → Cmd Driver (Unit {0})
free_paged_mem there e = if there then emit e else pure tt

abbrev pub free_nonpaged_mem : Bool → Event → Cmd Driver (Unit {0})
free_nonpaged_mem there e = if there then emit e else pure tt

-- `kfree_skb`: the buffer is given back, and may not be used or given back again.
unfoldable pub kfree_skb : Ptr → Cmd Driver (Unit {0})
kfree_skb p d = elim (d.heap p) [
  | none ↦ fault bad_pointer
  | some _ ↦ ok tt (record d { heap = write d.heap p none; log = free_skb p ∷ d.log })
]

-- A `u_int32_t` counter.
abbrev pub add32 : ℕ → ℕ → ℕ
add32 a b = (a + b) % 2 ^ 32

-- How many buffers of the transmit queue were given back.
abbrev pub frees : List Event → ℕ
frees [] = 0
frees (free_skb p ∷ l) = suc (frees l)
frees (_ ∷ l) = frees l
