-- ===== src/Tests/Blocking.antt =====
-- Blocking reads on concrete values.
use kerion_vpn_client_docker.Base.{zero, suc, ◌≡◌, refl, true, false, none, [], ◌∷◌, arith}
use kerion_vpn_client_docker.Base.Int.{pos}
use kerion_vpn_client_docker.Machine.{Returns, out_of_fuel}
use kerion_vpn_client_docker.Queue.{queue_init}
use kerion_vpn_client_docker.Queue.Chain.{IsQueue}
use kerion_vpn_client_docker.Driver.{Vnet, Env, driver, header_alloc, wake_up, set_io, set_net}
use kerion_vpn_client_docker.Io.{io_read_to_iovec}
use kerion_vpn_client_docker.Io.ReadAll.{ReadAll}
use kerion_vpn_client_docker.Io.Blocking.{World, task, blocking_read}
use kerion_vpn_client_docker.Io.Blocking.Forget.{forget}
use kerion_vpn_client_docker.Io.Blocking.Same.{blocking_read-Same}
use kerion_vpn_client_docker.Io.Blocking.Sleep.{roused, awake, sleep}
use kerion_vpn_client_docker.Io.Blocking.Woken.{OutOfWait, blocking_read-Woken}
use kerion_vpn_client_docker.Io.Blocking.Sent.{OneRead, sender, blocking_read-Sent}
use kerion_vpn_client_docker.Io.Blocking.Endless.{Idle, blocking_read-Endless}
use kerion_vpn_client_docker.Io.Blocking.Stale.{Stale, not_copied, blocking_read-Stale}
use kerion_vpn_client_docker.Tests.Requests.{kernel-Grants, kernel-Asks}
use kerion_vpn_client_docker.Tests.{
  three_ne_null, request, device, kernel, queued, heap, queue-IsQueue, running,
}

-- Nothing is queued, and the device is marked as cancelled.
abbrev empty : Vnet
empty =
    set_io (λ a. record a { canceled = true })
      (set_net (λ n. record n { queue = queue_init }) running)

empty-IsQueue : IsQueue heap empty.net_dev.queue []
unfolding queue_init
empty-IsQueue = record { head = refl; tail = λ ne. absurd (ne refl); chain = tt; size = refl }

-- The other tasks queue two packets and wake up the reader.
abbrev sending : World
sending = record {
  others = λ d. driver heap running (wake_up ∷ d.log);
  signal_pending = λ d. false;
}

abbrev silent : World
silent = record { others = λ d. d; signal_pending = λ d. false }

woken_example :
    Returns
      (OutOfWait (ReadAll kernel request running (wake_up ∷ header_alloc ∷ []) queued 1))
      (blocking_read kernel 8 sending 2 (pos 12) (task (driver heap empty []) false false))
unfolding queue_init
woken_example =
    blocking_read-Woken kernel kernel-Grants sending 1 heap empty [] 12 1 request kernel-Asks heap
      running (wake_up ∷ header_alloc ∷ []) device 1 (10 ∷ []) ((2, 20 ∷ 21 ∷ []) ∷ []) refl
      queue-IsQueue refl 1 false false
      (sleep heap empty (header_alloc ∷ []) refl empty-IsQueue refl (roused refl) refl awake)
      (omega arith)

same_example :
    forget (blocking_read kernel 8 silent 1 (pos 12) (task (driver heap running []) false false))
    ≡ io_read_to_iovec kernel 8 (pos 12) (driver heap running [])
same_example =
    blocking_read-Same kernel 8 silent 0 heap running [] 1 (10 ∷ []) ((2, 20 ∷ 21 ∷ []) ∷ []) false
      false (pos 12) queue-IsQueue refl

empty-Idle : Idle silent (driver heap empty (header_alloc ∷ []))
unfolding queue_init
empty-Idle zero = (heap, empty, header_alloc ∷ [], refl, empty-IsQueue, refl, refl)
empty-Idle (suc n) = empty-Idle n

endless_example :
    blocking_read kernel 8 silent 100 (pos 12) (task (driver heap empty []) false false)
    ≡ out_of_fuel
endless_example =
    blocking_read-Endless kernel silent 100 heap empty [] 12 1 request kernel-Asks false false
      empty-Idle

-- A request that cannot be copied in.
abbrev refusing : Env
refusing = record kernel { from_iovec = λ l n. none }

entry_kept_example :
    Returns
      (Stale heap running [])
      (blocking_read refusing 8 silent 1 (pos 12) (task (driver heap running []) false false))
entry_kept_example =
    blocking_read-Stale refusing silent 1 heap running [] 12 false false (omega arith) (omega arith)
      (not_copied refl refl)

-- An open interface with nothing queued, to which packet 3 is sent.
abbrev listening : Vnet
listening = set_net (λ n. record n { queue = record n.queue { enabled = true } }) empty

listening-IsQueue : IsQueue heap listening.net_dev.queue []
unfolding queue_init
listening-IsQueue = record { head = refl; tail = λ ne. absurd (ne refl); chain = tt; size = refl }

sent_example : Returns (OutOfWait (OneRead kernel request [] 3 (30 ∷ []))) (
    blocking_read kernel 8
      (sender kernel 3)
      2
      (pos 12)
      (task (driver heap listening []) false false))
unfolding queue_init
sent_example =
    blocking_read-Sent kernel kernel-Grants 0 heap listening [] 12 1 request kernel-Asks device 3 9
      (30 ∷ []) refl listening-IsQueue refl refl false false three_ne_null refl (omega arith)
