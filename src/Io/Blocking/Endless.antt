-- ===== src/Io/Blocking/Endless.antt =====
-- `io_read_to_iovec` of drivers/vpn/linux/io_read.c in the build with USE_BLOCKING_READ, when nothing arrives.
use kerion_vpn_client_docker.Base.{
  ℕ, zero, suc, ◌<◌, ◌≡◌, ◌∙◌, refl, ap, subst, Bool, true, false, List, [], ◌∷◌, arith, ◌⊎◌, inl,
  inr, Bool-cases, ◌&&◌, not,
}
use kerion_vpn_client_docker.Base.Int.{pos}
use kerion_vpn_client_docker.Machine.{Run, ok, out_of_fuel, and_then}
use kerion_vpn_client_docker.Queue.{Heap}
use kerion_vpn_client_docker.Queue.Remove.{queue_remove-nil}
use kerion_vpn_client_docker.Queue.Chain.{IsQueue}
use kerion_vpn_client_docker.Driver.{Vnet, Event, header_alloc, Env, Driver, driver, on_queue}
use kerion_vpn_client_docker.Io.Granted.{Asks}
use kerion_vpn_client_docker.Io.Blocking.{
  Task, task, World, is_roused, schedule, fetch_packet, blocking_loop, blocking_read,
}
use kerion_vpn_client_docker.Io.Blocking.Forget.{woken_tail}
use kerion_vpn_client_docker.Io.Blocking.Sleep.{fetch-sleep}
use kerion_vpn_client_docker.Io.Blocking.Woken.{blocking_read-asked}

-- The driver after the other tasks have run so many times.
abbrev pub after : World → ℕ → Driver → Driver
after world zero d = d
after world (suc n) d = after world n (world.others d)

-- However often the other tasks run, they queue no packet and leave the lock free, and no signal comes.
abbrev pub Idle : World → Driver → Type 0
Idle world d =
    (n : ℕ)
    → (h : Heap) × (v : Vnet) × (l : List Event) × (after world n d ≡ driver h v l)
      × IsQueue h v.net_dev.queue []
      × (v.net_dev.queue.locked ≡ false)
      × (world.signal_pending (world.others (after world n d)) ≡ false)

-- `schedule` goes on for ever, or returns with the others still idle.
abbrev Resumes : World → Run Task (Unit {0}) → Type 0
Resumes world r =
    (r ≡ out_of_fuel)
    ⊎ ((c : Driver) × (r ≡ ok tt (task c true false))
        × (world.signal_pending c ≡ false)
        × Idle world c)

schedule-Resumes :
    (world : World) (fuel : ℕ) (d : Driver) (i : Bool)
    → Idle world d
    → Resumes world (schedule world fuel (task d true i))
unfolding schedule
schedule-Resumes world zero d i idle = inl refl
schedule-Resumes world (suc fuel) d i idle =
    let (h, v, l, same, is, free, quiet) = idle 0 in
    elim (Bool-cases (i && not (is_roused world true d))) [
      | inl on ↦
          rw (schedule, on) (schedule-Resumes world fuel (world.others d) i (λ n. idle (suc n)))
      | inr back ↦ rw (schedule, back) (inr (world.others d, refl, quiet, λ n. idle (suc n)))
    ]

fetch-Idle :
    (world : World) (fuel : ℕ) (d : Driver) (i : Bool)
    → Idle world d
    → fetch_packet world fuel (pos 0) (task d true i) ≡ out_of_fuel
unfolding fetch_packet on_queue
fetch-Idle world zero d i idle = refl
fetch-Idle world (suc fuel) d i idle =
    let (h, v, l, same, is, free, quiet) = idle 0 in
    ap (λ e. fetch_packet world (suc fuel) (pos 0) (task e true i)) same
    ∙ elim (schedule-Resumes world (suc fuel) d i idle) [
      | inl never ↦
          rw
            (
              queue_remove-nil h v.net_dev.queue is free,
              and_then,
              subst (λ e. schedule world (suc fuel) (task e true i) ≡ out_of_fuel) same never,
            )
            refl
      | inr (c, back, quiet, still) ↦
          fetch-sleep world fuel h v l i is free c
            (subst (λ e. schedule world (suc fuel) (task e true i) ≡ ok tt (task c true false)) same
              back)
            quiet
          ∙ fetch-Idle world fuel c false still
    ]

loop-Idle :
    (env : Env) (world : World) (fuel : ℕ) (hdr : List ℕ) (count : ℕ) (d : Driver)
    → 0 < count
    → Idle world d
    → blocking_loop env 8 world fuel hdr count 0 (pos 0) (task d true true) ≡ out_of_fuel
unfolding blocking_loop
loop-Idle env world fuel hdr zero d asked idle = absurd (omega arith)
loop-Idle env world fuel hdr (suc left) d asked idle = rw (fetch-Idle world fuel d true idle) refl

module _ (env : Env) (world : World) (fuel : ℕ) (h : Heap) (v : Vnet) (l : List Event) (n count : ℕ)
    (hdr : List ℕ) (asks : Asks env l n count hdr) where
  -- A blocking read for which no packet is ever queued, while no signal comes, does not end with any fuel,
  -- whatever the other tasks set besides: that KVNET_IOCTL_CANCEL_PENDING_READ has marked the device as cancelled
  -- does not end it. The request asks for a packet and passes every check, on a 64-bit machine.
  pub blocking_read-Endless :
      (w i : Bool)
      → Idle world (driver h v (header_alloc ∷ l))
      → blocking_read env 8 world fuel (pos n) (task (driver h v l) w i) ≡ out_of_fuel
  blocking_read-Endless w i idle =
      blocking_read-asked env world fuel h v l n count hdr asks w i
      ∙ ap (λ r. and_then r (woken_tail env 8))
          (loop-Idle env world fuel hdr count _ asks.some_packet idle)
