-- ===== src/Io/Blocking/Woken.antt =====
-- `io_read_to_iovec` of drivers/vpn/linux/io_read.c in the build with USE_BLOCKING_READ, from the call to its end.
use kerion_vpn_client_docker.Base.{
  ℕ, suc, ◌≤◌, ◌≡◌, refl, Bool, true, false, some, List, ◌∷◌, arith,
}
use kerion_vpn_client_docker.Base.Int.{ℤ, pos}
use kerion_vpn_client_docker.Machine.{
  Run, ok, fault, out_of_fuel, and_then, ◌>>◌, Returns, returns, bind, mono, both,
}
use kerion_vpn_client_docker.Queue.{Ptr, null, Heap, skb, write, queue_remove}
use kerion_vpn_client_docker.Queue.Chain.{Cells, IsQueue}
use kerion_vpn_client_docker.Queue.Remove.{popped, queue_remove-ok}
use kerion_vpn_client_docker.Driver.{
  NetDevice, Vnet, Event, header_alloc, header_free, Env, Driver, driver, on_queue, set_net, emit,
  netif_wake,
}
use kerion_vpn_client_docker.NetDev.{net_device}
use kerion_vpn_client_docker.Io.{finish, read_loop}
use kerion_vpn_client_docker.Io.Blocking.{
  Task, task, World, lift_task, on_driver, blocking_loop, blocking_read, leave_wait,
}
use kerion_vpn_client_docker.Io.Blocking.Forget.{forget, woken_tail, plain_tail}
use kerion_vpn_client_docker.Io.Blocking.Sleep.{Sleeps, loop-woken}
use kerion_vpn_client_docker.Io.Read.{read_loop-Looped}
use kerion_vpn_client_docker.Io.Delivery.{Opens, tail_done}
use kerion_vpn_client_docker.Io.ReadAll.{ReadAll, read_loop-Counted, tail-Counted, known}
use kerion_vpn_client_docker.Io.Header.{load_count-ok}
use kerion_vpn_client_docker.Io.Granted.{
  Grants, Asks, not_short, same_bytes, has_memory, all_copied, asked_some, fits,
}

module _ {A : Type 0} where
  -- What holds of the driver after a run that ends with the task out of the wait queue.
  abbrev pub OutOfWait : (A → Driver → Type 0) → A → Task → Type 0
  OutOfWait P r t = P r t.driver × (t.waiting ≡ false) × (t.interruptible ≡ false)

  lifted-OutOfWait :
      {P : A → Driver → Type 0} (d : Driver) (r : Run Driver A)
      → Returns P r
      → Returns (OutOfWait P) (lift_task (task d false false) r)
  lifted-OutOfWait d (ok a e) (returns p) = returns (p, refl, refl)
  lifted-OutOfWait d (fault _) out = elim out [ ]
  lifted-OutOfWait d out_of_fuel out = elim out [ ]

-- The end of a read takes the task out of the wait queue.
tail-OutOfWait :
    {P : ℤ → Driver → Type 0} (env : Env) (ret : ℤ) (t : Task)
    → Returns P (plain_tail env 8 ret t.driver)
    → Returns (OutOfWait P) (woken_tail env 8 ret t)
tail-OutOfWait {P} env ret t = go (net_device t.driver)
  where
    go :
        (r : Run Driver NetDevice)
        → Returns P (and_then r (λ dev. do emit netif_wake; finish env 8 ret))
        → Returns (OutOfWait P) (
            and_then
              (lift_task t r)
              (λ dev. do on_driver (emit netif_wake); leave_wait; on_driver (finish env 8 ret)))
    go (ok dev d) out =
        lifted-OutOfWait (record d { log = netif_wake ∷ d.log })
          (finish env 8 ret (record d { log = netif_wake ∷ d.log })) out
    go (fault _) out = elim out [ ]
    go out_of_fuel out = elim out [ ]

run-OutOfWait :
    {P : ℤ → Driver → Type 0} (env : Env) (r : Run Task ℤ)
    → Returns P (and_then (forget r) (plain_tail env 8))
    → Returns (OutOfWait P) (and_then r (woken_tail env 8))
run-OutOfWait env (ok ret t) out = tail-OutOfWait env ret t out
run-OutOfWait env (fault _) out = elim out [ ]
run-OutOfWait env out_of_fuel out = elim out [ ]

module _ (env : Env) (world : World) (fuel : ℕ) (h : Heap) (v : Vnet) (l : List Event) (n count : ℕ)
    (hdr : List ℕ) (asks : Asks env l n count hdr) where
  -- The request passes every check, and the task stands in the wait queue.
  pub blocking_read-asked :
      (w i : Bool)
      → blocking_read env 8 world fuel (pos n) (task (driver h v l) w i)
        ≡ and_then
            (blocking_loop env 8 world fuel hdr count 0
              (pos 0)
              (task (driver h v (header_alloc ∷ l)) true true))
            (woken_tail env 8)
  unfolding blocking_read
  blocking_read-asked w i =
      rw
        (
          not_short env h v l n count hdr asks,
          same_bytes env h v l n count hdr asks,
          has_memory env h v l n count hdr asks,
          asks.copied,
          all_copied env h v l n count hdr asks,
          load_count-ok hdr (driver h v (header_alloc ∷ l))
              (omega (arith, asks.whole, asks.header)),
          asks.counted,
          asked_some env h v l n count hdr asks,
          fits env h v l n count hdr asks,
        )
        refl

module _ (env : Env) (grants : Grants env) (world : World) (fuel : ℕ) (h : Heap) (v : Vnet)
    (l : List Event) (n count : ℕ) (hdr : List ℕ) (asks : Asks env l n count hdr) (g : Heap)
    (u : Vnet) (k : List Event) (dev : NetDevice) (p : Ptr) (bs : List ℕ) (xs : Cells)
    (has_device : u.net_dev.device ≡ some dev) (is : IsQueue g u.net_dev.queue ((p, bs) ∷ xs))
    (free : u.net_dev.queue.locked ≡ false) where
  -- The other build's read, from where the task woke up.
  plain_run :
      Returns
        (ReadAll env hdr u k ((p, bs) ∷ xs) count)
        (and_then (read_loop env 8 hdr count 0 (pos 0) (driver g u k)) (plain_tail env 8))
  plain_run =
      let looped =
        read_loop-Looped env hdr count 0 0 g u k ((p, bs) ∷ xs) is free
          (omega (arith, asks.whole, asks.enough)) in
      let counted =
        read_loop-Counted env grants hdr count 0 0 g u k ((p, bs) ∷ xs) is free
          (omega (arith, asks.whole, asks.enough)) (omega arith) in
      mono
        (both
          (bind looped
            (tail_done env hdr g u (header_free ∷ k) k dev ((p, bs) ∷ xs) has_device opened))
          (bind (both looped counted)
            (tail-Counted env grants hdr g u k k dev ((p, bs) ∷ xs) count has_device)))
        λ r d (done, much). known env hdr g u (header_free ∷ k) ((p, bs) ∷ xs) count r d done much
    where
      opened : Opens (header_free ∷ k) k
      opened = record { held_more = refl; frees_same = refl; outgoing_same = refl; on_same = refl }

  -- A blocking read that waits while the other tasks take `sleeps` steps, and finds a packet then, ends: each time
  -- it called `schedule` the queue was empty, its entry in the wait queue was woken up where it slept, and no
  -- signal was pending when it went on. It does what `ReadAll` says of the driver in which it woke up: it takes as many
  -- packets as the request asks for, or all that there are, copies them to user memory in order, each to its
  -- place in the request and of each the bytes that fit, counts them, and leaves the others queued. Its entry is out of the wait queue,
  -- and the task is running. This is for a 64-bit machine, a well-formed queue with its lock free, the network
  -- device there, a request that is long enough for the packets that it asks for and shorter than 2 ^ 31 bytes,
  -- and a kernel and user memory that refuse nothing; the fuel is greater than the number of those steps.
  pub blocking_read-Woken :
      (sleeps : ℕ) (w i : Bool)
      → Sleeps world true (driver h v (header_alloc ∷ l)) sleeps (driver g u k)
      → sleeps ≤ fuel
      → Returns
          (OutOfWait (ReadAll env hdr u k ((p, bs) ∷ xs) count))
          (blocking_read env 8 world (suc fuel) (pos n) (task (driver h v l) w i))
  unfolding on_queue
  blocking_read-Woken sleeps w i slept enough =
      rw (blocking_read-asked env world (suc fuel) h v l n count hdr asks w i) (
        run-OutOfWait env _ (
          rw
            (loop-woken env 8 world fuel hdr slept enough p
              (driver (write g p (some (skb null bs)))
                (set_net (λ n. record n { queue = popped n.queue xs }) u) k)
              fetched (ground (arith, is.chain.0)) count asks.some_packet)
            plain_run))
    where
      fetched :
          on_queue queue_remove (driver g u k)
          ≡ ok p (
              driver
                (write g p (some (skb null bs)))
                (set_net (λ n. record n { queue = popped n.queue xs }) u)
                k)
      fetched = rw (queue_remove-ok g u.net_dev.queue p bs xs is free) refl
