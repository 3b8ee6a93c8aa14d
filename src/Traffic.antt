-- ===== src/Traffic.antt =====
-- The driver under any interleaving of its users: the kernel, which sends packets and switches the interface
-- on and off (net_dev.c), and the user program, which reads and writes packets (io_dev.c, io_read.c,
-- io_write.c), asks for the version and cancels a read.
pub mod Order
pub mod Requests
pub mod Run
pub mod Steps
pub mod Turns
use mathlib.Core.Bool.{false≢true}
use native.Mathlib.Nat.{add-zero}
use kerion_vpn_client_docker.Base.{
  Bool, ℕ, ◌+◌, ◌^◌, ◌<◌, ◌≤◌, ◌≡◌, ◌≢◌, refl, sym, ap, subst, ◌∙◌, true, false, ◌⊎◌, inl, inr,
  none, some, List, [], ◌∷◌, ◌++◌, arith, length, length-append, ltb, ◌&&◌, ◌==◌, if◌then◌else◌,
  Bool-cases,
}
use kerion_vpn_client_docker.Base.Int.{ℤ, pos}
use kerion_vpn_client_docker.Machine.{ok, Cmd, pure, ◌>>=◌, ◌>>◌, Returns, returns, bind}
use kerion_vpn_client_docker.Queue.{Ptr, null, skb, Heap, Queue, queue_enable, queue_remove}
use kerion_vpn_client_docker.Queue.Chain.{Cells, packets, has, IsQueue, frame, has-snoc}
use kerion_vpn_client_docker.Queue.Insert.{appended-IsQueue, bytes_of, bytes_at, linked-bytes}
use kerion_vpn_client_docker.Queue.Fifo.{holds_of}
use kerion_vpn_client_docker.Queue.Remove.{popped, queue_remove-ok, queue_remove-nil}
use kerion_vpn_client_docker.NetDev.Send.{with_lock, without_lock, accept_run, drop_run}
use kerion_vpn_client_docker.NetDev.Flush.{
  freed, freed-IsQueue, disabled-IsQueue, drained_lem, close-ok,
}
use kerion_vpn_client_docker.Driver.{
  NetDevice, Vnet, Event, free_skb, Env, Driver, driver, frees, on_queue, kfree_skb, set_net,
}
use kerion_vpn_client_docker.NetDev.{kvnet_netdev_ops}
use kerion_vpn_client_docker.IoDev.{io_dev_ioctl, io_dev_open, io_dev_close, io_dev_poll}
use kerion_vpn_client_docker.Resources.{Held, held, claimed, switched_on}
use kerion_vpn_client_docker.Resources.Close.{held-freed}
use kerion_vpn_client_docker.Io.{sum, io_dev_aio_read, io_dev_aio_write, io_dev_iov_total}
use kerion_vpn_client_docker.Io.Request.{CopiesAll}
use kerion_vpn_client_docker.Io.Delivery.{io_read_to_iovec-ReadDone}
use kerion_vpn_client_docker.Io.Packet.{Roomy, NoWrap}
use kerion_vpn_client_docker.Io.Write.{io_write_from_iovec-WriteDone}
use kerion_vpn_client_docker.NetDev.Packets.{Serves, HasLimit}

-- `send`: the kernel hands over a buffer with its bytes. `read` and `write`: a request in parts of these
-- lengths. `ioctl`: a command and its argument. `up` and `down`: the interface is switched. `net_ioctl`: a command
-- for the interface.
pub data Action : Type 0 where
  send : Ptr → List ℕ → Action
  read write : List ℕ → Action
  ioctl : ℕ → ℕ → Action
  poll up down get_stats : Action
  net_ioctl : ℕ → Action

-- The functions of the device's file, without those of the kernel that lead to `aio_read` and `aio_write`.
pub record FileOperations : Type 0 where
  pub poll : Cmd Driver ℕ
  pub unlocked_ioctl : ℕ → ℕ → Cmd Driver ℤ
  pub open_file : Cmd Driver ℤ
  pub release : Cmd Driver ℤ
  pub aio_read : Bool → List ℕ → Cmd Driver ℤ
  pub aio_write : Bool → List ℕ → Cmd Driver ℤ

abbrev pub io_fops : Env → FileOperations
io_fops env = record {
  poll = io_dev_poll;
  unlocked_ioctl = io_dev_ioctl env;
  open_file = io_dev_open env;
  release = io_dev_close env;
  aio_read = io_dev_aio_read env 8;
  aio_write = io_dev_aio_write env 8;
}

unfoldable pub act : Env → Action → Cmd Driver ℤ
act env (send p bs) = (kvnet_netdev_ops env).ndo_start_xmit p
act env (read iv) = (io_fops env).aio_read true iv
act env (write iv) = (io_fops env).aio_write true iv
act env (ioctl cmd arg) = (io_fops env).unlocked_ioctl cmd arg
act env up = (kvnet_netdev_ops env).ndo_open
act env down = (kvnet_netdev_ops env).ndo_stop
act env poll = do mask ← (io_fops env).poll; pure (pos mask)
act env get_stats = do (kvnet_netdev_ops env).ndo_get_stats; pure (pos 0)
act env (net_ioctl cmd) = (kvnet_netdev_ops env).ndo_do_ioctl cmd

unfoldable pub run : Env → List Action → Cmd Driver ℤ
run env [] = pure (pos 0)
run env (a ∷ rest) = act env a >> run env rest

-- The packets that are still to be sent.
abbrev pub sends : List Action → Cells
sends [] = []
sends (send p bs ∷ rest) = (p, bs) ∷ sends rest
sends (read iv ∷ rest) = sends rest
sends (write iv ∷ rest) = sends rest
sends (ioctl cmd arg ∷ rest) = sends rest
sends (up ∷ rest) = sends rest
sends (down ∷ rest) = sends rest
sends (poll ∷ rest) = sends rest
sends (get_stats ∷ rest) = sends rest
sends (net_ioctl cmd ∷ rest) = sends rest

-- Different buffers, allocated with their bytes, and not among the queued ones.
abbrev pub Fresh : Heap → Cells → Cells → Type 0
Fresh h xs [] = Unit {0}
Fresh h xs ((p, bs) ∷ ys) =
    (p ≢ null) × (bytes_at h p ≡ some bs) × (has p xs ≡ false) × (has p ys ≡ false) × Fresh h xs ys

-- The requests are shorter than 2 ^ 32 bytes.
abbrev pub IsShort : Action → Type 0
IsShort (send p bs) = Unit {0}
IsShort (read iv) = sum iv < 2 ^ 32
IsShort (write iv) = sum iv < 2 ^ 32
IsShort (ioctl cmd arg) = Unit {0}
IsShort up = Unit {0}
IsShort down = Unit {0}
IsShort poll = Unit {0}
IsShort get_stats = Unit {0}
IsShort (net_ioctl cmd) = Unit {0}

abbrev pub Short : List Action → Type 0
Short [] = Unit {0}
Short (a ∷ rest) = IsShort a × Short rest

-- Several sequences of calls, one after the other.
abbrev pub every : List (List Action) → List Action
every [] = []
every (acts ∷ rest) = acts ++ every rest

abbrev pub AllShort : List (List Action) → Type 0
AllShort [] = Unit {0}
AllShort (acts ∷ rest) = Short acts × AllShort rest

-- What the kernel promises of its copies and its new buffers, and that no length wraps round.
pub record Sound (env : Env) : Type 0 where
  pub copies : CopiesAll env
  pub roomy : Roomy env
  pub no_wrap : NoWrap env

-- What is held apart from the memory of requests that are being served.
abbrev pub own : Held → Held
own k = record k { headers = pos 0 }

-- The limit is that of the configuration. `n` packets were handed over; each is in the queue or was given back. Other than that, the resources `k`
-- are held, which are those that the fields say and the memory of the requests that are being served. Packets are queued just while the interface is up, and none
-- are left where it is not.
pub record Inv (k : Held) (cap n : ℕ) (d : Driver) (v : Vnet) (xs : Cells) : Type 0 where
  pub serves : Serves d v xs
  pub device : HasLimit v cap
  pub limit : v.cfg.max_queue_len ≡ cap
  pub bounded : length xs ≤ cap
  pub counted : frees d.log + length xs ≡ n
  pub held_same : held d.log ≡ k
  pub claims : claimed (some v) ≡ own k
  pub on : switched_on d.log ≡ v.net_dev.queue.enabled
  pub off_empty : v.net_dev.queue.enabled ≡ false → xs ≡ []

-- What the interface is for its users: whether it is on, and the packets that wait to be read, the oldest first.
pub record Wire : Type 0 where
  pub on : Bool
  pub waiting : List (List ℕ)

abbrev pub wire_of : Vnet → Cells → Wire
wire_of v xs = record { on = v.net_dev.queue.enabled; waiting = packets xs }

-- What a call may do to it, of at most `cap` packets: a packet is put at the end, or dropped where the interface is off or
-- there are too many; a read takes packets from the front; switching off drops all.
abbrev pub Moves : ℕ → Action → Wire → Wire → Type 0
Moves cap (send p bs) s t =
    ((s.on ≡ true) × (length s.waiting < cap) × (t.on ≡ true) × (t.waiting ≡ s.waiting ++ bs ∷ []))
    ⊎ (((s.on ≡ false) ⊎ (cap ≤ length s.waiting)) × (t ≡ s))
Moves cap (read iv) s t = (t.on ≡ s.on) × (front : List (List ℕ)) × (s.waiting ≡ front ++ t.waiting)
Moves cap (write iv) s t = t ≡ s
Moves cap (ioctl cmd arg) s t = t ≡ s
Moves cap up s t = (t.on ≡ true) × (t.waiting ≡ s.waiting)
Moves cap down s t = (t.on ≡ false) × (t.waiting ≡ [])
Moves cap poll s t = t ≡ s
Moves cap get_stats s t = t ≡ s
Moves cap (net_ioctl cmd) s t = t ≡ s

abbrev pub Follows : ℕ → List Action → Wire → Wire → Type 0
Follows cap [] s t = t ≡ s
Follows cap (a ∷ rest) s t = (m : Wire) × Moves cap a s m × Follows cap rest m t

-- The state after a call: the invariant holds, what is to be sent is still fresh, and the interface has made a
-- move that the call allows.
abbrev pub Keeps : Held → ℕ → ℕ → Cells → Action → Wire → ℤ → Driver → Type 0
Keeps k cap n ys a s r d =
    (v : Vnet) × (xs : Cells) × Inv k cap n d v xs
    × Fresh d.heap xs ys
    × Moves cap a s (wire_of v xs)
