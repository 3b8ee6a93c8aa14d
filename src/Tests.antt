-- ===== src/Tests.antt =====
-- Concrete values: a kernel that grants what it is asked for, and a driver with two queued packets.
pub mod Blocking
pub mod Devices
pub mod Dumps
pub mod Library
pub mod Lives
pub mod Packets
pub mod Programs
pub mod Reader
pub mod Requests
pub mod Sums
use kerion_vpn_client_docker.Base.{
  ℕ, ◌+◌, ◌<◌, ◌≤◌, ◌≡◌, ◌≢◌, refl, Bool, true, false, Option, none, some, List, [], ◌∷◌, arith,
  length, ◌==◌, if◌then◌else◌, Bytes,
}
use kerion_vpn_client_docker.Base.Int.{pos}
use kerion_vpn_client_docker.Queue.{null, Heap, skb, write, Queue}
use kerion_vpn_client_docker.Queue.Chain.{Cells, IsQueue}
use kerion_vpn_client_docker.Driver.{object, NetDevice, Event, Vnet, Env, set_net}
use kerion_vpn_client_docker.Io.Request.{CopiesAll}
use kerion_vpn_client_docker.Io.Packet.{Roomy, NoWrap}
use kerion_vpn_client_docker.Traffic.{Sound}
use kerion_vpn_client_docker.Init.{fresh_vnet}

abbrev pub device : NetDevice
device = record {
  hard_header_len = 14;
  addr_len = 6;
  mtu = 1400;
  tx_queue_len = 3;
  multicast = false;
  dev_addr = 1 ∷ 2 ∷ 3 ∷ 4 ∷ 5 ∷ 6 ∷ [];
  trans_start = 0;
  last_rx = 0;
}

-- A request of one packet, whose buffer is at address 16 of user memory.
abbrev pub request : List ℕ
request = 1 ∷ 0 ∷ 0 ∷ 0 ∷ 16 ∷ 0 ∷ 0 ∷ 0 ∷ 0 ∷ 0 ∷ 0 ∷ 0 ∷ []

abbrev pub kernel : Env
kernel = record {
  kmalloc = λ l. true;
  jiffies = λ l. 7;
  alloc_netdev = λ l. some device;
  register_netdev = λ l. pos 0;
  is_up = λ l. true;
  alloc_chrdev_region = λ l. pos 0;
  chrdev_numbers = λ l. (250, 0);
  cdev_add = λ l. pos 0;
  class_create = λ l. object 1;
  device_create = λ l. object 2;
  put_user = λ l a. true;
  copy_to_user = λ l a. true;
  get_user = λ l a. some 2;
  copy_from_user = λ l a n. some (8 ∷ 9 ∷ []);
  kmalloc_bytes = λ l n. true;
  from_iovec = λ l n. if n == 12 then some request else none;
  to_iovec = λ l. true;
  net_ip_align = 2;
  dev_alloc_skb = λ l n. some n;
}

abbrev pub queued : Cells
queued = (1, 10 ∷ []) ∷ (2, 20 ∷ 21 ∷ []) ∷ []

-- Buffer 3 is allocated and not queued.
abbrev pub heap : Heap
heap a =
    if a == 1
    then some (skb 2 (10 ∷ []))
    else (if a == 2
        then some (skb null (20 ∷ 21 ∷ []))
        else (if a == 3 then some (skb 9 (30 ∷ [])) else none))

abbrev pub queue : Queue
queue = record { head = 1; tail = 2; size = pos 2; locked = false; enabled = true }

pub queue-IsQueue : IsQueue heap queue queued
queue-IsQueue = record { head = refl; tail = λ ne. refl; chain = ground arith; size = refl }

abbrev pub running : Vnet
running = set_net (λ n. record n { queue = queue; device = some device; added = true }) fresh_vnet

pub three_ne_null : 3 ≢ null
three_ne_null e = absurd (omega arith)

pub kernel-CopiesAll : CopiesAll kernel
kernel-CopiesAll l n hdr e = ground arith

pub kernel-Roomy : Roomy kernel
kernel-Roomy l n room e = ground arith

pub kernel-NoWrap : NoWrap kernel
kernel-NoWrap l p n e = ground arith

pub kernel-Sound : Sound kernel
kernel-Sound = record { copies = kernel-CopiesAll; roomy = kernel-Roomy; no_wrap = kernel-NoWrap }
