-- ===== src/Io/WriteAll.antt =====
-- `io_write_from_iovec` of drivers/vpn/linux/io_write.c where nothing is refused: each packet is handed on.
use kerion_vpn_client_docker.Base.{
  ℕ, zero, suc, ◌+◌, ◌*◌, ◌%◌, ◌^◌, ◌≤◌, ◌≡◌, ◌∙◌, ◌⊎◌, inl, inr, refl, sym, ap, subst, true, false,
  some, List, ◌∷◌, length, arith, ltb,
}
use kerion_vpn_client_docker.Base.Int.{ℤ, pos, is_zero, is_neg}
use kerion_vpn_client_docker.Machine.{and_then, Returns, returns, bind, mono, both}
use kerion_vpn_client_docker.Queue.{Heap}
use kerion_vpn_client_docker.Driver.{
  NetDevice, Vnet, Event, header_alloc, skb_alloc, Env, Driver, driver,
}
use kerion_vpn_client_docker.Io.{io_write_from_iovec, write_loop, write_packet, finish, reply_size}
use kerion_vpn_client_docker.Io.Header.{load_pkt-ok}
use kerion_vpn_client_docker.Io.Delivery.{net_device-ok}
use kerion_vpn_client_docker.Io.Packet.{Given, Handed, Roomy, NoWrap, write_packet-WroteOne}
use kerion_vpn_client_docker.Io.Write.{
  Wrote, WriteDone, write_loop-Wrote, io_write_from_iovec-WriteDone,
}
use kerion_vpn_client_docker.Io.Request.{place_in, request, CopiesAll, received}
use kerion_vpn_client_docker.Io.Granted.{Grants, Asks, with_header-run, finish-granted}

length-Given :
    (env : Env) (place : ℕ → ℕ) (i n : ℕ) (old new : List (List ℕ))
    → Given env place i n old new
    → length new ≡ length old + n
length-Given env place i zero old new same = ap length same ∙ omega arith
length-Given env place i (suc n) old new (asked, copied, len, bytes, e, f, rest) =
    omega (arith, length-Given env place (i + 1) n (bytes ∷ old) new rest)

module _ (env : Env) (grants : Grants env) (roomy : Roomy env) (no_wrap : NoWrap env) where
  pub write_packet-granted :
      (pkt : ℕ) (h : Heap) (v : Vnet) (l : List Event) (dev : NetDevice)
      → v.net_dev.device ≡ some dev
      → Returns (λ r d. is_zero r ≡ true) (write_packet env pkt (driver h v l))
  unfolding write_packet
  write_packet-granted pkt h v l dev has_device =
      let (n, e) = grants.get_user l pkt in
      let (room, f) = grants.dev_alloc_skb l ((n + env.net_ip_align) % 2 ^ 32) in
      let (bytes, g) = grants.copy_from_user (skb_alloc ∷ l) (pkt + 4) n in
      rw (e, f, holds n room e f, g, net_device-ok h v (skb_alloc ∷ l) dev has_device, and_then)
        (returns refl)
    where
      holds :
          (n room : ℕ)
          → env.get_user l pkt ≡ some n
          → env.dev_alloc_skb l ((n + env.net_ip_align) % 2 ^ 32) ≡ some room
          → ltb room (n + env.net_ip_align) ≡ false
      holds n room e f = ground (arith, no_wrap l pkt n e, roomy l _ room f)

  write_loop-count :
      (hdr : List ℕ) (left i m : ℕ) (h : Heap) (v : Vnet) (l : List Event) (dev : NetDevice)
      → v.net_dev.device ≡ some dev
      → 4 + (i + left) * 8 ≤ length hdr
      → Returns (λ r d. r ≡ pos (m + left)) (write_loop env 8 hdr left i (pos m) (driver h v l))
  unfolding write_loop
  write_loop-count hdr zero i m h v l dev has_device fits = returns (ap pos (omega arith))
  write_loop-count hdr (suc left) i m h v l dev has_device fits =
      rw (load_pkt-ok hdr i (driver h v l) (omega (arith, fits)), and_then)
        (bind
          (both (write_packet-WroteOne env h v l dev (place_in hdr) i has_device roomy no_wrap)
            (write_packet-granted (place_in hdr i) h v l dev has_device))
          λ r d ((w, one), z). elim one [
            | inl (a, _) ↦ rw z (
                subst
                  (λ e.
                    Returns (λ r d. r ≡ pos (m + suc left))
                      (write_loop env 8 hdr left (i + 1) (pos (m + 1)) e))
                  (sym a.shape)
                  (mono
                    (write_loop-count hdr left (i + 1) (m + 1) h w d.log
                      (a.device _ (dev, has_device, refl)).0 (a.device _ (dev, has_device, refl)).1
                      (omega (arith, fits)))
                    λ q e c. c ∙ ap pos (omega arith)))
            | inr (a, nz, neg) ↦ absurd (ground (arith, z, nz))
          ])

-- After a write of `count` packets: all were handed on, in order, and the result is the size of their reply.
abbrev pub WroteAll : Env → Heap → Vnet → List Event → ℕ → ℕ → ℤ → Driver → Type 0
WroteAll env h v l n count r d =
    (r ≡ pos (reply_size 8 count))
    × (w : Vnet) × Handed env (place_in (request env l n)) 0 h v l d w count

module _ (env : Env) (grants : Grants env) (copies : CopiesAll env) (roomy : Roomy env)
    (no_wrap : NoWrap env) (h : Heap) (v : Vnet) (l : List Event) (dev : NetDevice) (n count : ℕ)
    (hdr : List ℕ) (has_device : v.net_dev.device ≡ some dev) where
  -- How many packets there are in the log, and the result.
  abbrev Sure : ℤ → Driver → Type 0
  Sure r d =
      (r ≡ pos (reply_size 8 count)) × (length (received d.log) ≡ length (received l) + count)

  ended :
      (ret : ℤ) (d : Driver)
      → Wrote env (place_in hdr) 0 h v (header_alloc ∷ l) 0 ret d × (ret ≡ pos (0 + count))
      → Returns Sure (finish env 8 ret d)
  ended ret d ((w, handed, a, out), c) =
      let as_counted : ret ≡ pos count = c ∙ ap pos (omega arith) in
      let listed = length-Given env (place_in hdr) 0 handed (received l) (received d.log) a.given in
      subst (λ e. Returns Sure (finish env 8 ret e)) (sym a.shape)
        (subst (λ q. Returns Sure (finish env 8 q (driver h w d.log))) (sym as_counted)
          (rw (finish-granted env grants h w d.log count)
            (returns (refl, listed ∙ all_handed handed as_counted out))))
    where
      all_handed :
          (handed : ℕ)
          → ret ≡ pos count
          → ((ret ≡ pos (0 + handed)) ⊎ (is_neg ret ≡ true))
          → length (received l) + handed ≡ length (received l) + count
      all_handed handed e (inl f) = ground (arith, e, f)
      all_handed handed e (inr neg) = absurd (ground (arith, e, neg))

  whole_run :
      Asks env l n count hdr → Returns Sure (io_write_from_iovec env 8 (pos n) (driver h v l))
  unfolding io_write_from_iovec
  whole_run asks = rw (with_header-run env h v l n count hdr asks) (
      bind
        (both
          (write_loop-Wrote env roomy no_wrap hdr count 0 0 h v (header_alloc ∷ l) dev has_device
            (omega (arith, asks.whole, asks.enough)))
          (write_loop-count env grants roomy no_wrap hdr count 0 0 h v (header_alloc ∷ l) dev
            has_device (omega (arith, asks.whole, asks.enough))))
        ended)

  known :
      (r : ℤ) (d : Driver) → WriteDone env h v l n r d → Sure r d → WroteAll env h v l n count r d
  known r d (w, handed, a, out) (e, c) =
      let listed =
        length-Given env (place_in (request env l n)) 0 handed (received l) (received d.log)
          a.given in
      let same : handed ≡ count = omega (arith, listed, c) in
      (e, w, subst (Handed env (place_in (request env l n)) 0 h v l d w) same a)

  -- Where nothing is refused, a write hands each packet of its request to the network stack, in order, each with
  -- the bytes copied from where the request says it is, as many as user memory claimed for it; they are
  -- counted in `rx_packets`, modulo 2 ^ 32, and the result is the size of the reply. This is for a 64-bit
  -- machine and a request that is long enough for its packets and shorter than 2 ^ 31 bytes; user memory
  -- can be read, the kernel has the memory that is asked for, and no packet claims a length whose sum with
  -- NET_IP_ALIGN needs more than 32 bits.
  pub io_write_from_iovec-WroteAll :
      Asks env l n count hdr
      → Returns (WroteAll env h v l n count) (io_write_from_iovec env 8 (pos n) (driver h v l))
  io_write_from_iovec-WroteAll asks =
      mono
        (both
          (io_write_from_iovec-WriteDone env copies roomy no_wrap h v l dev n has_device
            (omega (arith, asks.small)))
          (whole_run asks))
        λ r d (done, sure). known r d done sure
