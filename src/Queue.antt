-- ===== src/Queue.antt =====
-- The transmit queue of drivers/vpn/linux/queue.c and queue.h: socket buffers linked by their own
-- `next` fields (SET_NEXT_PKT, GET_NEXT_PKT of lin_specific.h), with the lock wrappers of utils.c.
pub mod Chain
pub mod Fifo
pub mod Insert
pub mod Remove
use kerion_vpn_client_docker.Base.{
  ℕ, Bool, true, false, Option, none, some, List, ◌==◌, if◌then◌else◌,
}
use kerion_vpn_client_docker.Base.Int.{ℤ, pos, incr, decr, is_zero}
use kerion_vpn_client_docker.Machine.{
  Run, ok, Cmd, null_deref, bad_pointer, deadlock, not_held, pure, ◌>>=◌, ◌>>◌, get, modify, stop,
}

abbrev pub Ptr : Type 0
Ptr = ℕ

abbrev pub null : Ptr
null = 0

-- A `struct sk_buff`: `skb->next`, and `skb->len` bytes at `skb->data`.
pub record Skb : Type 0 where
  pub next : Ptr
  pub bytes : List ℕ

abbrev pub skb : Ptr → List ℕ → Skb
skb p bs = record { next = p; bytes = bs }

-- The socket buffers that are allocated.
abbrev pub Heap : Type 0
Heap = Ptr → Option Skb

abbrev pub write : Heap → Ptr → Option Skb → Heap
write h p c a = if a == p then c else h a

-- `struct queue`. `locked` is the state of the spin lock.
pub record Queue : Type 0 where
  pub head : Ptr
  pub tail : Ptr
  pub size : ℤ
  pub locked : Bool
  pub enabled : Bool

pub record Store : Type 0 where
  pub heap : Heap
  pub queue : Queue

abbrev pub store : Heap → Queue → Store
store h q = record { heap = h; queue = q }

abbrev pub set_queue : (Queue → Queue) → Cmd Store (Unit {0})
set_queue f = modify λ s. record s { queue = f s.queue }

-- `*p` for a socket buffer.
unfoldable pub load : Ptr → Cmd Store Skb
load p s =
    if p == null
    then stop null_deref s
    else elim (s.heap p) [ none ↦ stop bad_pointer s | some b ↦ ok b s ]

unfoldable pub set_next_pkt : Ptr → Ptr → Cmd Store (Unit {0})
unfolding load
set_next_pkt p n = do
  b ← load p
  modify λ s. record s { heap = write s.heap p (some (record b { next = n })) }

unfoldable pub get_next_pkt : Ptr → Cmd Store Ptr
unfolding load
get_next_pkt p = do b ← load p; pure b.next

-- `spin_lock_bh`: a holder that takes the lock again spins for ever.
unfoldable pub acquire_lock : Cmd Store (Unit {0})
acquire_lock = do
  s ← get
  if s.queue.locked then stop deadlock else set_queue λ q. record q { locked = true }

unfoldable pub release_lock : Cmd Store (Unit {0})
release_lock = do
  s ← get
  if s.queue.locked then set_queue (λ q. record q { locked = false }) else stop not_held

-- A lock is a part of its queue, so that its address is never NULL. `free_lock` has nothing to give back.
abbrev pub alloc_lock : Queue → Queue
alloc_lock q = record q { locked = false }

abbrev pub free_lock : Cmd Store (Unit {0})
free_lock = pure tt

-- The queue in memory that was set to zero: the lock is a fresh one, and the list is empty.
unfoldable pub queue_init : Queue
queue_init =
    record (alloc_lock
      (record { head = 0; tail = 0; size = pos 0; locked = false; enabled = false })) {
        head = null;
        tail = null;
        size = pos 0;
        enabled = false;
      }

-- Packets that are left are only reported.
unfoldable pub queue_close : Cmd Store ℤ
queue_close = do free_lock; pure (pos 0)

unfoldable pub is_queue_enabled_nolock : Cmd Store Bool
is_queue_enabled_nolock = do s ← get; pure s.queue.enabled

unfoldable pub is_queue_enabled : Cmd Store Bool
unfolding acquire_lock release_lock
is_queue_enabled = do acquire_lock; s ← get; release_lock; pure s.queue.enabled

unfoldable pub queue_enable_nolock : Bool → Cmd Store (Unit {0})
queue_enable_nolock enable = set_queue λ q. record q { enabled = enable }

unfoldable pub queue_enable : Bool → Cmd Store (Unit {0})
unfolding acquire_lock release_lock
queue_enable enable = do acquire_lock; set_queue λ q. record q { enabled = enable }; release_lock

unfoldable pub queue_is_empty_nolock : Cmd Store Bool
queue_is_empty_nolock = do s ← get; pure (is_zero s.queue.size)

unfoldable pub queue_is_empty : Cmd Store Bool
unfolding acquire_lock release_lock
queue_is_empty = do acquire_lock; s ← get; release_lock; pure (is_zero s.queue.size)

unfoldable pub queue_len_nolock : Cmd Store ℤ
queue_len_nolock = do s ← get; pure s.queue.size

unfoldable pub queue_len : Cmd Store ℤ
unfolding acquire_lock release_lock
queue_len = do acquire_lock; s ← get; release_lock; pure s.queue.size

unfoldable pub queue_insert_nolock : Ptr → Cmd Store (Unit {0})
unfolding set_next_pkt
queue_insert_nolock buf = do
  set_next_pkt buf null
  s ← get
  if s.queue.head == null
      then set_queue (λ q. record q { head = buf; tail = buf })
      else (do set_next_pkt s.queue.tail buf; set_queue λ q. record q { tail = buf })
  set_queue λ q. record q { size = incr q.size }

unfoldable pub queue_insert : Ptr → Cmd Store (Unit {0})
unfolding acquire_lock release_lock set_next_pkt
queue_insert buf = do
  acquire_lock
  set_next_pkt buf null
  s ← get
  if s.queue.head == null
      then set_queue (λ q. record q { head = buf; tail = buf })
      else (do set_next_pkt s.queue.tail buf; set_queue λ q. record q { tail = buf })
  set_queue λ q. record q { size = incr q.size }
  release_lock

-- The body of both removals: NULL where the queue is empty.
unfoldable pub queue_remove_nolock : Cmd Store Ptr
unfolding get_next_pkt set_next_pkt
queue_remove_nolock = do
  s ← get
  let buf = s.queue.head
  if buf == null then pure null else do
    n ← get_next_pkt buf
    set_queue λ q. record q { head = n }
    set_next_pkt buf null
    set_queue λ q. record q { size = decr q.size }
    pure buf

unfoldable pub queue_remove : Cmd Store Ptr
unfolding acquire_lock release_lock get_next_pkt set_next_pkt
queue_remove = do
  acquire_lock
  s ← get
  let buf = s.queue.head
  r ← if buf == null then pure null else (do
    n ← get_next_pkt buf
    set_queue λ q. record q { head = n }
    set_next_pkt buf null
    set_queue λ q. record q { size = decr q.size }
    pure buf)
  release_lock
  pure r
