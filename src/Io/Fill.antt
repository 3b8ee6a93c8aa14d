-- ===== src/Io/Fill.antt =====
-- One packet of a read: `io_read_fill_network_packet` of drivers/vpn/linux/io_read.c.
use kerion_vpn_client_docker.Base.{
  ℕ, ◌≡◌, ◌⊎◌, inl, inr, refl, true, false, Bool-cases, Option-cases, List, ◌∷◌, [], some, arith,
  zero, suc, sym, ap, ◌∙◌, ◌<◌, ◌≤◌, ◌%◌, ◌^◌, length, take, ltb, if◌then◌else◌, ◌+◌,
}
use kerion_vpn_client_docker.Base.Int.{ℤ, is_zero, is_neg}
use kerion_vpn_client_docker.Machine.{Returns, returns}
use kerion_vpn_client_docker.Queue.{Heap, Skb}
use kerion_vpn_client_docker.Driver.{
  add32, set_stats, Vnet, Event, copy_to_user, Env, Driver, driver, frees,
}
use kerion_vpn_client_docker.Resources.{held, settings}
use kerion_vpn_client_docker.Io.{io_read_fill_network_packet}

-- The byte strings that were written to user memory, each with its address, the newest first.
abbrev pub outgoing : List Event → List (ℕ × List ℕ)
outgoing [] = []
outgoing (copy_to_user a bs ∷ l) = (a, bs) ∷ outgoing l
outgoing (_ ∷ l) = outgoing l

abbrev pub total : List (ℕ × List ℕ) → ℕ
total [] = 0
total ((a, bs) ∷ rest) = length bs + total rest

-- The statistics count the byte strings written to user memory in between, and their bytes, modulo 2 ^ 32.
abbrev pub Tallied : Vnet → List Event → Vnet → List Event → Type 0
Tallied v l w k =
    ((w.net_dev.stats.tx_packets + length (outgoing l)) % 2 ^ 32
      ≡ (v.net_dev.stats.tx_packets + length (outgoing k)) % 2 ^ 32)
    × ((w.net_dev.stats.tx_bytes + total (outgoing l)) % 2 ^ 32
        ≡ (v.net_dev.stats.tx_bytes + total (outgoing k)) % 2 ^ 32)

pub Tallied-silent :
    (v : Vnet) (l : List Event) (w : Vnet) (k j : List Event)
    → outgoing j ≡ outgoing k
    → Tallied v l w k
    → Tallied v l w j
Tallied-silent v l w k j same (a, b) = (
  a ∙ ap (λ o. (v.net_dev.stats.tx_packets + length o) % 2 ^ 32) (sym same),
  b ∙ ap (λ o. (v.net_dev.stats.tx_bytes + total o) % 2 ^ 32) (sym same),
)

pub Tallied-trans :
    (v : Vnet) (l : List Event) (w : Vnet) (k : List Event) (u : Vnet) (j : List Event)
    → Tallied v l w k
    → Tallied w k u j
    → Tallied v l u j
Tallied-trans v l w k u j a b = (omega (arith, a.0, b.0), omega (arith, a.1, b.1))

-- The bytes of a packet that fit the room which user memory claims at `pkt` are the newest, 4 bytes on from there.
abbrev pub Sent : Env → List Event → ℕ → Skb → Driver → Type 0
Sent env l pkt s d =
    (asked : List Event) × (room : ℕ) × (env.get_user asked pkt ≡ some room)
    × (outgoing d.log ≡ (pkt + 4, take room s.bytes) ∷ outgoing l)

-- Nothing but the statistics and the log has changed, and the log holds no release.
pub record Quiet (h : Heap) (v : Vnet) (l : List Event) (w : Vnet) (d : Driver) : Type 0 where
  pub shape : d ≡ driver h w d.log
  pub queue : w.net_dev.queue ≡ v.net_dev.queue
  pub device : w.net_dev.device ≡ v.net_dev.device
  pub held_same : held d.log ≡ held l
  pub frees_same : frees d.log ≡ frees l
  pub settings_same : settings w d.log ≡ settings v l
  pub tallied : Tallied v l w d.log

abbrev pub Filled : Env → Heap → Vnet → List Event → ℕ → Skb → ℤ → Driver → Type 0
Filled env h v l pkt s r d =
    (w : Vnet) × Quiet h v l w d
    × (((is_zero r ≡ true) × Sent env l pkt s d) ⊎ ((is_zero r ≡ false) × (is_neg r ≡ true)))

take_all : (bs : List ℕ) → take (length bs) bs ≡ bs
take_all [] = refl
take_all (b ∷ bs) = ap (◌∷◌ b) (take_all bs)

take_more : (bs : List ℕ) (n : ℕ) → length bs < n → take n bs ≡ bs
take_more [] zero lt = refl
take_more [] (suc n) lt = refl
take_more (b ∷ bs) zero lt = absurd (omega arith)
take_more (b ∷ bs) (suc n) lt = ap (◌∷◌ b) (take_more bs n (omega arith))

take-ltb :
    (bs : List ℕ) (room : ℕ)
    → take (if ltb (length bs) room then length bs else room) bs ≡ take room bs
take-ltb bs room = elim (Bool-cases (ltb (length bs) room)) [
  | inl e ↦ rw e (take_all bs ∙ sym (take_more bs room (ground arith)))
  | inr e ↦ rw e refl
]

-- Whatever user memory does, a packet is read without a fault, and ends with 0 or an error.
pub fill-Filled :
    (env : Env) (h : Heap) (v : Vnet) (l : List Event) (pkt : ℕ) (s : Skb)
    → Returns (Filled env h v l pkt s) (io_read_fill_network_packet env pkt s (driver h v l))
unfolding io_read_fill_network_packet
fill-Filled env h v l pkt s = elim (Option-cases (env.get_user l pkt)) [
  | inl e ↦ rw e (returns (v, same, inr (refl, refl)))
  | inr (room, e) ↦ rw e (elim (Bool-cases (env.copy_to_user l (pkt + 4))) [
    | inr f ↦ rw f (returns (v, same, inr (refl, refl)))
    | inl f ↦ rw f (elim (Bool-cases (env.put_user (copied room ∷ l) pkt)) [
      | inl g ↦ rw g (
          returns (
            _,
            record {
              shape = refl;
              queue = refl;
              device = refl;
              held_same = refl;
              frees_same = refl;
              settings_same = refl;
              tallied = one_more room;
            },
            inl (refl, (l, room, e, ap (λ b. (pkt + 4, b) ∷ outgoing l) (take-ltb s.bytes room))),
          ))
      | inr g ↦ rw g (
          returns (
            _,
            record {
              shape = refl;
              queue = refl;
              device = refl;
              held_same = refl;
              frees_same = refl;
              settings_same = refl;
              tallied = one_more room;
            },
            inr (refl, refl),
          ))
    ])
  ])
]
  where
    copied : ℕ → Event
    copied room =
        copy_to_user (pkt + 4)
          (take (if ltb (length s.bytes) room then length s.bytes else room) s.bytes)

    fitting : (bs : List ℕ) (n : ℕ) → n ≤ length bs → length (take n bs) ≡ n
    fitting bs zero le = refl
    fitting [] (suc n) le = absurd (omega arith)
    fitting (b ∷ bs) (suc n) le = omega (arith, fitting bs n (omega arith))

    no_longer :
        (room : ℕ) → (if ltb (length s.bytes) room then length s.bytes else room) ≤ length s.bytes
    no_longer room = ground arith

    fits : ℕ → ℕ
    fits room = if ltb (length s.bytes) room then length s.bytes else room

    counted : ℕ → Vnet
    counted room =
        set_stats
          (λ s. record s {
            tx_packets = add32 s.tx_packets 1;
            tx_bytes = add32 s.tx_bytes (fits room);
          })
          v

    one_more : (room : ℕ) → Tallied v l (counted room) (copied room ∷ l)
    one_more room = (omega arith, omega (arith, fitting s.bytes _ (no_longer room)))

    same : Quiet h v l v (driver h v l)
    same = record {
      shape = refl;
      queue = refl;
      device = refl;
      held_same = refl;
      frees_same = refl;
      settings_same = refl;
      tallied = (refl, refl);
    }
