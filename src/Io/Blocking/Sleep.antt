-- ===== src/Io/Blocking/Sleep.antt =====
-- `io_read_to_iovec` of drivers/vpn/linux/io_read.c in the build with USE_BLOCKING_READ: how a task sleeps.
use kerion_vpn_client_docker.Base.{
  ℕ, zero, suc, ◌+◌, ◌<◌, ◌≤◌, ◌≡◌, ◌∙◌, refl, sym, ap, Bool, true, false, List, [], ◌==◌,
  if◌then◌else◌, arith,
}
use kerion_vpn_client_docker.Base.Int.{ℤ, pos, is_zero, incr, minus_efault}
use kerion_vpn_client_docker.Machine.{ok, pure, and_then, ◌>>=◌}
use kerion_vpn_client_docker.Queue.{Ptr, null, Heap, queue_remove}
use kerion_vpn_client_docker.Queue.Chain.{IsQueue}
use kerion_vpn_client_docker.Queue.Remove.{queue_remove-nil}
use kerion_vpn_client_docker.Driver.{Vnet, Event, Env, Driver, driver, on_queue}
use kerion_vpn_client_docker.Io.{read_loop}
use kerion_vpn_client_docker.Io.Blocking.{
  Task, task, World, on_driver, is_roused, schedule, fetch_packet, blocking_loop, deliver,
}
use kerion_vpn_client_docker.Io.Blocking.Forget.{forget}
use kerion_vpn_client_docker.Io.Blocking.Same.{loop-Same}

-- A call of `schedule` by a task in the wait queue, which is interruptible or not: the other tasks take so many
-- steps, the last of which makes it runnable if it was not, and the driver is the second one then.
pub data Away (world : World) : Bool → Driver → ℕ → Driver → Type 0 where
  running : {d : Driver} → Away world false d 1 (world.others d)
  roused : {d : Driver} → is_roused world true d ≡ true → Away world true d 1 (world.others d)
  asleep :
      {d e : Driver} {n : ℕ}
      → is_roused world true d ≡ false
      → Away world true (world.others d) n e
      → Away world true d (suc n) e

-- The reading task waits while the others take so many steps: it calls `schedule` each time with the queue empty
-- and its lock free, and finds no signal pending when that returns; then the driver is the second one.
pub data Sleeps (world : World) : Bool → Driver → ℕ → Driver → Type 0 where
  awake : {i : Bool} {d : Driver} → Sleeps world i d zero d
  sleep :
      (h : Heap) (v : Vnet) (l : List Event) {i : Bool} {m n : ℕ} {d c e : Driver}
      → d ≡ driver h v l
      → IsQueue h v.net_dev.queue []
      → v.net_dev.queue.locked ≡ false
      → Away world i d m c
      → world.signal_pending c ≡ false
      → Sleeps world false c n e
      → Sleeps world i d (m + n) e

-- The state of the task after so many steps.
abbrev pub state_after : ℕ → Bool → Bool
state_after zero i = i
state_after (suc n) i = false

module _ (world : World) where
  -- `schedule` returns with the task running.
  pub schedule-Away :
      {i : Bool} {d c : Driver} {m : ℕ}
      → Away world i d m c
      → (fuel : ℕ) → m ≤ fuel
      → (0 < m) × (schedule world fuel (task d true i) ≡ ok tt (task c true false))
  unfolding schedule
  schedule-Away running zero more = absurd (omega arith)
  schedule-Away running (suc fuel) more = (omega arith, refl)
  schedule-Away (roused r) zero more = absurd (omega arith)
  schedule-Away (roused r) (suc fuel) more = (omega arith, rw (schedule, r) refl)
  schedule-Away (asleep r rest) zero more = absurd (omega arith)
  schedule-Away (asleep {d} r rest) (suc fuel) more =
      (omega arith, rw (schedule, r) (schedule-Away rest fuel (omega arith)).1)

  -- One call of `schedule`.
  pub fetch-sleep :
      (fuel : ℕ) (h : Heap) (v : Vnet) (l : List Event) (i : Bool)
      → IsQueue h v.net_dev.queue []
      → v.net_dev.queue.locked ≡ false
      → (c : Driver)
      → schedule world (suc fuel) (task (driver h v l) true i) ≡ ok tt (task c true false)
      → world.signal_pending c ≡ false
      → fetch_packet world (suc fuel) (pos 0) (task (driver h v l) true i)
        ≡ fetch_packet world fuel (pos 0) (task c true false)
  unfolding fetch_packet on_queue
  fetch-sleep fuel h v l i is free c back quiet =
      rw (queue_remove-nil h v.net_dev.queue is free, and_then, back, quiet) refl

  -- A packet that is there is fetched.
  fetch-packet :
      (fuel : ℕ) (i : Bool) (p : Ptr) (d e : Driver)
      → on_queue queue_remove d ≡ ok p e
      → (p == null) ≡ false
      → fetch_packet world (suc fuel) (pos 0) (task d true i) ≡ ok (p, pos 0) (task e true i)
  unfolding fetch_packet
  fetch-packet fuel i p d e got some_packet = rw (got, and_then, some_packet) refl

  -- With more fuel than steps, the packet is fetched that is there in the end.
  fetch_packet-Sleeps :
      {i : Bool} {d e : Driver} {n : ℕ}
      → Sleeps world i d n e
      → (fuel : ℕ) (p : Ptr) (f : Driver) → n < fuel
      → on_queue queue_remove e ≡ ok p f
      → (p == null) ≡ false
      → fetch_packet world fuel (pos 0) (task d true i)
        ≡ ok (p, pos 0) (task f true (state_after n i))
  fetch_packet-Sleeps awake zero p f more got some_packet = absurd (omega arith)
  fetch_packet-Sleeps (awake {i} {d}) (suc fuel) p f more got some_packet =
      fetch-packet fuel i p d f got some_packet
  fetch_packet-Sleeps (sleep h v l same is free away quiet rest) zero p f more got some_packet =
      absurd (omega arith)
  fetch_packet-Sleeps (sleep h v l {i} {m} {n} {d} {c} same is free away quiet rest) (suc fuel) p f
        more got some_packet =
      let (some_step, back) = schedule-Away away (suc fuel) (omega arith) in
      ap (λ d. fetch_packet world (suc fuel) (pos 0) (task d true i)) same
      ∙ fetch-sleep fuel h v l i is free c
          (ap (λ d. schedule world (suc fuel) (task d true i)) (sym same) ∙ back) quiet
      ∙ fetch_packet-Sleeps rest fuel p f (omega arith) got some_packet
      ∙ ap (λ b. ok (p, pos 0) (task f true b))
          (still_running n ∙ sym (stopped (m + n) i (omega arith)))
    where
      still_running : (n : ℕ) → state_after n false ≡ false
      still_running zero = refl
      still_running (suc n) = refl

      stopped : (n : ℕ) (i : Bool) → 0 < n → state_after n i ≡ false
      stopped zero i some_step = absurd (omega arith)
      stopped (suc n) i some_step = refl

-- The loop depends on the task by what it fetches first.
loop-fetch :
    (env : Env) (word : ℕ) (world : World) (fuel : ℕ) (hdr : List ℕ) (left : ℕ) (t u : Task)
    → fetch_packet world fuel (pos 0) t ≡ fetch_packet world fuel (pos 0) u
    → blocking_loop env word world fuel hdr (suc left) 0 (pos 0) t
      ≡ blocking_loop env word world fuel hdr (suc left) 0 (pos 0) u
unfolding blocking_loop
loop-fetch env word world fuel hdr left t u same =
    ap
      (λ r. and_then r λ (got : Ptr × ℤ). if got.0 == null then pure got.1 else (do
        filled ← on_driver (deliver env word hdr 0 got.0)
        if is_zero filled
            then blocking_loop env word world fuel hdr left 1 (incr (pos 0))
            else pure minus_efault))
      same

module _ (env : Env) (word : ℕ) (world : World) (fuel : ℕ) (hdr : List ℕ) {d e : Driver} {n : ℕ}
    (sleeps : Sleeps world true d n e) (enough : n ≤ fuel) (p : Ptr) (f : Driver)
    (got : on_queue queue_remove e ≡ ok p f) (some_packet : (p == null) ≡ false) where
  -- After the sleeps, the loop does what the other build's loop does then.
  pub loop-woken :
      (count : ℕ)
      → 0 < count
      → forget (blocking_loop env word world (suc fuel) hdr count 0 (pos 0) (task d true true))
        ≡ read_loop env word hdr count 0 (pos 0) e
  loop-woken zero asked = absurd (omega arith)
  loop-woken (suc left) asked =
      ap forget same
      ∙ loop-Same env word world fuel hdr (suc left) 0 (task e true (state_after n true)) p f got
          some_packet
    where
      same :
          blocking_loop env word world (suc fuel) hdr (suc left) 0 (pos 0) (task d true true)
          ≡ blocking_loop env word world
              (suc fuel)
              hdr
              (suc left)
              0
              (pos 0)
              (task e true (state_after n true))
      same = loop-fetch env word world (suc fuel) hdr left (task d true true) _ (
          fetch_packet-Sleeps world sleeps (suc fuel) p f (omega arith) got some_packet
          ∙ sym (fetch-packet world fuel (state_after n true) p e f got some_packet))
