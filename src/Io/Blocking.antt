-- ===== src/Io/Blocking.antt =====
-- The build with USE_BLOCKING_READ: `io_read_to_iovec` of drivers/vpn/linux/io_read.c waits for a packet, and
-- `io_dev_aio_read` of io_dev.c does not ask for O_NONBLOCK. What the reading task adds to the driver's state is
-- its entry in the wait queue, which lies on its stack, and its own state. What other tasks do while it sleeps,
-- step by step, and whether a signal is then pending, is a parameter.
pub mod Same
pub mod Sent
pub mod Sleep
pub mod Stale
pub mod Endless
pub mod Forget
pub mod Woken
use kerion_vpn_client_docker.Base.{
  ℕ, zero, suc, ◌+◌, ◌%◌, ◌^◌, Bool, true, false, none, some, List, ltb, ◌==◌, if◌then◌else◌, [],
  ◌∷◌, ◌&&◌, ◌||◌, not,
}
use kerion_vpn_client_docker.Base.Int.{
  ℤ, pos, negsuc, incr, is_zero, is_neg, to_ulong, minus_enomem, minus_efault, minus_einval,
}
use kerion_vpn_client_docker.Machine.{
  Run, ok, fault, out_of_fuel, bad_pointer, Cmd, pure, ◌>>=◌, ◌>>◌, modify, stop,
}
use kerion_vpn_client_docker.Queue.{Ptr, null, queue_remove}
use kerion_vpn_client_docker.Driver.{
  Event, wake_up, alloc_paged_mem, free_paged_mem, netif_wake, header_alloc, header_free, Env,
  Driver, emit, ask, on_queue, kfree_skb,
}
use kerion_vpn_client_docker.NetDev.{net_device}
use kerion_vpn_client_docker.Io.{
  header_size, needed, load_count, load_pkt, skb_of, io_read_fill_network_packet, finish,
  io_dev_iov_total,
}

-- `waiting`: the task's entry is in the device's wait queue. `interruptible`: its state is TASK_INTERRUPTIBLE,
-- so that `schedule` takes it off the processor.
pub record Task : Type 0 where
  pub driver : Driver
  pub waiting : Bool
  pub interruptible : Bool

abbrev pub task : Driver → Bool → Bool → Task
task d w i = record { driver = d; waiting = w; interruptible = i }

-- What other tasks make of the driver in one step while this one is away, and whether a signal is pending then.
pub record World : Type 0 where
  pub others : Driver → Driver
  pub signal_pending : Driver → Bool

-- `-ERESTARTSYS`.
abbrev pub minus_erestartsys : ℤ
minus_erestartsys = negsuc 511

abbrev pub lift_task : {A : Type 0} → Task → Run Driver A → Run Task A
lift_task t (ok a d) = ok a (record t { driver = d })
lift_task t (fault f) = fault f
lift_task t out_of_fuel = out_of_fuel

abbrev pub on_driver : {A : Type 0} → Cmd Driver A → Cmd Task A
on_driver m t = lift_task t (m t.driver)

-- `add_wait_queue` and `set_current_state (TASK_INTERRUPTIBLE)`; `set_current_state (TASK_RUNNING)` and
-- `remove_wait_queue`.
abbrev pub enter_wait : Cmd Task (Unit {0})
enter_wait = modify λ t. record t { waiting = true; interruptible = true }

abbrev pub leave_wait : Cmd Task (Unit {0})
leave_wait = modify λ t. record t { interruptible = false; waiting = false }

-- How often the wait queue was woken up.
abbrev pub wake_ups : List Event → ℕ
wake_ups [] = 0
wake_ups (wake_up ∷ l) = suc (wake_ups l)
wake_ups (_ ∷ l) = wake_ups l

-- Whether the next step of the other tasks makes a task runnable that is not: it wakes up the wait queue, and
-- the task's entry is in it, or a signal comes.
abbrev pub is_roused : World → Bool → Driver → Bool
is_roused world waiting d =
    (waiting && ltb (wake_ups d.log) (wake_ups (world.others d).log))
    || world.signal_pending (world.others d)

-- The other tasks run. A task that is interruptible gets the processor back only when it was made runnable, and
-- another one after a step of the others; it is running then.
unfoldable pub schedule : World → ℕ → Cmd Task (Unit {0})
schedule world zero t = out_of_fuel
schedule world (suc fuel) t =
    let sleeps_on = schedule world fuel (record t { driver = world.others t.driver }) in
    elim (t.interruptible && not (is_roused world t.waiting t.driver)) [
      | true ↦ sleeps_on
      | false ↦ ok tt (record t { driver = world.others t.driver; interruptible = false })
    ]

-- From `try_again` on: the packet, or NULL with the result to end the loop with.
unfoldable pub fetch_packet : World → ℕ → ℤ → Cmd Task (Ptr × ℤ)
unfolding schedule
fetch_packet world zero ret t = out_of_fuel
fetch_packet world (suc fuel) ret t =
    (do
      skb ← on_driver (on_queue queue_remove)
      if skb == null
          then (if is_zero ret
              then (do
                schedule world (suc fuel)
                signal ← (λ t. ok (world.signal_pending t.driver) t)
                if signal then pure (null, minus_erestartsys) else fetch_packet world fuel ret)
              else pure (null, ret))
          else pure (skb, ret))
      t

module _ (env : Env) (word : ℕ) where
  -- What is done with a packet.
  unfoldable pub deliver : List ℕ → ℕ → Ptr → Cmd Driver ℤ
  unfolding load_pkt skb_of io_read_fill_network_packet kfree_skb
  deliver hdr i skb = do
    pkt ← load_pkt word hdr i
    s ← skb_of skb
    filled ← io_read_fill_network_packet env pkt s
    kfree_skb skb
    pure filled

module _ (env : Env) (word : ℕ) (world : World) (fuel : ℕ) where
  -- The loop, with the rounds that are left, the index and the result so far; in each round `try_again` is
  -- reached at most `fuel` times.
  unfoldable pub blocking_loop : List ℕ → ℕ → ℕ → ℤ → Cmd Task ℤ
  unfolding fetch_packet deliver
  blocking_loop hdr zero i ret = pure ret
  blocking_loop hdr (suc left) i ret = do
    (got : Ptr × ℤ) ← fetch_packet world fuel ret
    if got.0 == null then pure got.1 else (do
      filled ← on_driver (deliver env word hdr i got.0)
      if is_zero filled then blocking_loop hdr left (i + 1) (incr ret) else pure minus_efault)

  unfoldable pub blocking_read : ℤ → Cmd Task ℤ
  unfolding blocking_loop load_count needed finish
  blocking_read len =
      let n = to_ulong len in
      if ltb n (header_size word) then pure minus_einval else (do
        enter_wait
        there ← on_driver (alloc_paged_mem env n)
        if there
            then (do
              on_driver (emit header_alloc)
              copied ← on_driver (ask (λ l. env.from_iovec l n))
              elim copied [
                | none ↦ (do on_driver (free_paged_mem true header_free); pure minus_efault)
                | some hdr ↦ if ltb (n % 2 ^ 32) n then stop bad_pointer else (do
                  count ← on_driver (load_count hdr)
                  if count == 0
                      then (do on_driver (free_paged_mem true header_free); pure minus_einval)
                      else (if ltb n (needed word count)
                          then (do on_driver (free_paged_mem true header_free); pure minus_einval)
                          else (do
                            ret ← blocking_loop hdr count 0 (pos 0)
                            on_driver net_device
                            on_driver (emit netif_wake)
                            leave_wait
                            on_driver (finish env word ret))))
              ])
            else pure minus_enomem)

  unfoldable pub blocking_aio_read : List ℕ → Cmd Task ℤ
  unfolding io_dev_iov_total blocking_read
  blocking_aio_read iv =
      let len = io_dev_iov_total iv in if is_neg len then pure minus_einval else blocking_read len
