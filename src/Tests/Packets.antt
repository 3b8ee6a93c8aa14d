-- ===== src/Tests/Packets.antt =====
-- The queue and the network interface on concrete values.
use kerion_vpn_client_docker.Base.{List, sym, refl, [], ◌∷◌, arith, false}
use kerion_vpn_client_docker.Machine.{Returns}
use kerion_vpn_client_docker.Queue.{store}
use kerion_vpn_client_docker.Queue.Fifo.{insert, remove, run_ops, Refined, run_ops-Refined}
use kerion_vpn_client_docker.Driver.{
  Vnet, Event, netif_start, netdev_register, netdev_alloc, driver, set_net,
}
use kerion_vpn_client_docker.NetDev.{net_dev_send, net_dev_close}
use kerion_vpn_client_docker.NetDev.Packets.{
  Emptied, SendResult, net_dev_send-SendResult, net_dev_close-drops,
}
use mathlib.Core.Bool.{false≢true}
use kerion_vpn_client_docker.Resources.{Held, held}
use kerion_vpn_client_docker.Tests.Devices.{loaded_log, opened}
use kerion_vpn_client_docker.Traffic.{wire_of, Action, send, read, write, ioctl, up, down, run, Inv}
use kerion_vpn_client_docker.Traffic.Run.{Kept, run-Inv, Followed, run-Followed}
use kerion_vpn_client_docker.Traffic.Turns.{read_by_turns}
use kerion_vpn_client_docker.Traffic.Turns.Whole.{ReadByTurns, read_by_turns-Inv}
use kerion_vpn_client_docker.Base.Int.{pos}
use kerion_vpn_client_docker.Tests.{
  device, kernel, queued, heap, queue, queue-IsQueue, running, three_ne_null, kernel-Sound,
}

run_ops_example :
    Returns
      (Refined heap (insert 3 (30 ∷ []) ∷ remove ∷ remove ∷ []) queued)
      (run_ops (insert 3 (30 ∷ []) ∷ remove ∷ remove ∷ []) (store heap queue))
run_ops_example =
    run_ops-Refined heap heap queue (insert 3 (30 ∷ []) ∷ remove ∷ remove ∷ []) queued queue-IsQueue
      refl (λ a. refl) (three_ne_null, refl, refl, tt)

net_dev_send_example :
    Returns
      (SendResult heap running [] device 3 (30 ∷ []) queued)
      (net_dev_send kernel 3 (driver heap running []))
net_dev_send_example =
    net_dev_send-SendResult kernel heap running [] device queued 3 9 (30 ∷ []) refl queue-IsQueue
      refl refl refl three_ne_null

abbrev switched_off : Vnet
switched_off = set_net (λ n. record n { queue = record queue { enabled = false } }) running

net_dev_close_example :
    Returns (Emptied heap running [] queued) (net_dev_close (driver heap running []))
net_dev_close_example = net_dev_close-drops heap running [] queued queue-IsQueue refl

-- An opened device whose configuration and network device agree on three packets.
abbrev three_at_most : Vnet
three_at_most = record opened { cfg = record { mac = device.dev_addr; max_queue_len = 3 } }

-- What the device's log tells while the interface is up.
abbrev opened_log : List Event
opened_log = netif_start ∷ netdev_register ∷ netdev_alloc ∷ loaded_log

abbrev needs : Held
needs = held opened_log

opened-Inv : Inv needs 3 2 (driver heap three_at_most opened_log) three_at_most queued
opened-Inv = record {
  serves = record { vnet = refl; queue = queue-IsQueue; free = refl };
  device = (device, refl, refl);
  limit = refl;
  bounded = omega arith;
  counted = refl;
  held_same = refl;
  claims = refl;
  on = refl;
  off_empty = λ e. absurd (false≢true (sym e));
}

abbrev session : List Action
session = read (12 ∷ []) ∷ send 3 (30 ∷ []) ∷ write (12 ∷ []) ∷ ioctl 0 0 ∷ down ∷ up ∷ []

run_example : Returns (Kept needs 3 3) (run kernel session (driver heap three_at_most opened_log))
run_example =
    run-Inv kernel kernel-Sound needs 3 session 2 (driver heap three_at_most opened_log)
      three_at_most queued (omega arith, (tt, (omega arith, (tt, (tt, (tt, tt)))))) opened-Inv
      (three_ne_null, refl, refl, refl, tt)

interface_example :
    Returns
      (Followed 3 session (wire_of three_at_most queued))
      (run kernel session (driver heap three_at_most opened_log))
interface_example =
    run-Followed kernel kernel-Sound needs 3 session 2 (driver heap three_at_most opened_log)
      three_at_most queued (omega arith, (tt, (omega arith, (tt, (tt, (tt, tt)))))) opened-Inv
      (three_ne_null, refl, refl, refl, tt)

-- A packet is sent before the first round of the read, and the interface is switched off behind it.
abbrev between : List (List Action)
between = (send 3 (30 ∷ []) ∷ []) ∷ (down ∷ []) ∷ []

turns_example :
    Returns
      (ReadByTurns needs 3 2 between three_at_most queued)
      (read_by_turns kernel between (pos 12) (driver heap three_at_most opened_log))
turns_example =
    read_by_turns-Inv kernel kernel-Sound needs 3 2 between heap three_at_most opened_log queued 12
      (omega arith) ((tt, tt), ((tt, tt), tt)) opened-Inv (three_ne_null, refl, refl, refl, tt)
