-- ===== src/Io/Packet.antt =====
-- One packet of a write, of drivers/vpn/linux/io_write.c.
use kerion_vpn_client_docker.Base.{
  ℕ, zero, suc, ◌+◌, ◌%◌, ◌^◌, ◌<◌, ◌≤◌, ◌≡◌, ◌⊎◌, inl, inr, refl, ap, true, false, Option-cases,
  some, List, ◌∷◌, arith, ltb,
}
use kerion_vpn_client_docker.Base.Int.{ℤ, is_zero, is_neg}
use kerion_vpn_client_docker.Machine.{and_then, Returns, returns}
use kerion_vpn_client_docker.Queue.{Heap}
use kerion_vpn_client_docker.Driver.{
  NetDevice, Vnet, Event, skb_alloc, skb_discard, netif_rx, Env, Driver, driver, frees,
}
use kerion_vpn_client_docker.NetDev.Packets.{HasLimit}
use kerion_vpn_client_docker.Resources.{held, switched_on, settings_of, settings}
use kerion_vpn_client_docker.Io.{write_packet}
use kerion_vpn_client_docker.Io.Request.{received, decr-incr}
use kerion_vpn_client_docker.Io.Delivery.{net_device-ok}

-- The packets number `i` to `i + count - 1`, in order, are what was newly handed on: of each, the bytes
-- copied from its place in user memory, as many as user memory claimed for it.
abbrev pub Given : Env → (ℕ → ℕ) → ℕ → ℕ → List (List ℕ) → List (List ℕ) → Type 0
Given env place i zero old new = new ≡ old
Given env place i (suc count) old new =
    (asked copied : List Event) × (len : ℕ) × (bytes : List ℕ) × (env.get_user asked (place i)
      ≡ some len)
    × (env.copy_from_user copied (place i + 4) len ≡ some bytes)
    × Given env place (i + 1) count (bytes ∷ old) new

-- `handed` packets were handed on since `v` and `l`; each new buffer was handed on or given back, the queue
-- and the buffers in it are as they were, and `rx_packets` counts the packets.
pub record Handed (env : Env) (place : ℕ → ℕ) (i : ℕ) (h : Heap) (v : Vnet) (l : List Event)
    (d : Driver) (w : Vnet) (handed : ℕ) : Type 0 where
  pub shape : d ≡ driver h w d.log
  pub queue : w.net_dev.queue ≡ v.net_dev.queue
  pub device : (cap : ℕ) → HasLimit v cap → HasLimit w cap
  pub held_same : held d.log ≡ held l
  pub frees_same : frees d.log ≡ frees l
  pub settings_same : settings w d.log ≡ settings v l
  pub given : Given env place i handed (received l) (received d.log)
  pub rx_packets :
      w.net_dev.stats.rx_packets % 2 ^ 32 ≡ (v.net_dev.stats.rx_packets + handed) % 2 ^ 32

-- `dev_alloc_skb` makes the room that it is asked for.
abbrev pub Roomy : Env → Type 0
Roomy env = (l : List Event) (n room : ℕ) → env.dev_alloc_skb l n ≡ some room → n ≤ room

-- No packet in user memory claims a length that the 32-bit sum with NET_IP_ALIGN cannot hold.
abbrev pub NoWrap : Env → Type 0
NoWrap env = (l : List Event) (p n : ℕ) → env.get_user l p ≡ some n → n + env.net_ip_align < 2 ^ 32

taken_back : (l : List Event) → held (skb_discard ∷ skb_alloc ∷ l) ≡ held l
taken_back l = ground (arith, decr-incr (held l).buffers)

handed_on : (l : List Event) (bs : List ℕ) → held (netif_rx bs ∷ skb_alloc ∷ l) ≡ held l
handed_on l bs = ground (arith, decr-incr (held l).buffers)

module _ (env : Env) (h : Heap) (v : Vnet) (l : List Event) (dev : NetDevice) (place : ℕ → ℕ)
    (i : ℕ) (has_device : v.net_dev.device ≡ some dev) where
  pub unchanged :
      (k : List Event)
      → held k ≡ held l
      → frees k ≡ frees l
      → received k ≡ received l
      → switched_on k ≡ switched_on l
      → Handed env place i h v l (driver h v k) v 0
  unchanged k same kept as_many on = record {
    shape = refl;
    queue = refl;
    device = λ cap limited. limited;
    held_same = same;
    frees_same = kept;
    settings_same = ap (settings_of v) on;
    given = as_many;
    rx_packets = omega arith;
  }

  abbrev pub WroteOne : ℤ → Driver → Type 0
  WroteOne r d =
      (w : Vnet) × ((Handed env place i h v l d w 1 × (is_zero r ≡ true))
        ⊎ (Handed env place i h v l d w 0 × (is_zero r ≡ false) × (is_neg r ≡ true)))

  pub write_packet-WroteOne :
      Roomy env → NoWrap env → Returns WroteOne (write_packet env (place i) (driver h v l))
  unfolding write_packet
  write_packet-WroteOne roomy no_wrap = elim (Option-cases (env.get_user l (place i))) [
    | inl e ↦ rw e (returns (v, inr (unchanged l refl refl refl refl, refl, refl)))
    | inr (n, e) ↦
        rw e (elim (Option-cases (env.dev_alloc_skb l ((n + env.net_ip_align) % 2 ^ 32))) [
          | inl f ↦ rw f (returns (v, inr (unchanged l refl refl refl refl, refl, refl)))
          | inr (room, f) ↦
              rw (f, fits n room e f)
                (elim (Option-cases (env.copy_from_user (skb_alloc ∷ l) (place i + 4) n)) [
                  | inl g ↦
                      rw g
                        (returns (v, inr (unchanged _ (taken_back l) refl refl refl, refl, refl)))
                  | inr (bytes, g) ↦
                      rw (g, net_device-ok h v (skb_alloc ∷ l) dev has_device, and_then)
                        (returns (
                          _,
                          inl (
                            record {
                              shape = refl;
                              queue = refl;
                              device = λ cap (e, is, len).
                                  (_, refl, ground (arith, is, len, has_device));
                              held_same = handed_on l bytes;
                              frees_same = refl;
                              settings_same = ground (arith, has_device);
                              given = (l, skb_alloc ∷ l, n, bytes, e, g, refl);
                              rx_packets = omega arith;
                            },
                            refl,
                          ),
                        ))
                ])
        ])
  ]
    where
      fits :
          (n room : ℕ)
          → env.get_user l (place i) ≡ some n
          → env.dev_alloc_skb l ((n + env.net_ip_align) % 2 ^ 32) ≡ some room
          → ltb room (n + env.net_ip_align) ≡ false
      fits n room e f = ground (arith, no_wrap l _ n e, roomy l _ room f)
