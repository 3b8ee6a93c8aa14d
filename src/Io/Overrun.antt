-- ===== src/Io/Overrun.antt =====
-- Two requests that io_write.c of drivers/vpn/linux serves with a fault: one that passes the length check of a 32-bit
-- machine and is read past its end, and one whose packet is longer than the buffer made for it.
use kerion_vpn_client_docker.Base.{
  ℕ, zero, suc, ◌+◌, ◌-◌, ◌*◌, ◌%◌, ◌^◌, ◌<◌, ◌≤◌, ◌≡◌, inl, inr, refl, subst, sym, true, false,
  some, List, ◌∷◌, length, take, drop, ltb, ◌==◌, arith,
}
use kerion_vpn_client_docker.Base.Int.{pos}
use kerion_vpn_client_docker.Machine.{
  Run, Fault, ok, fault, bad_pointer, over_panic, Cmd, and_then, Returns, returns, both,
}
use kerion_vpn_client_docker.Queue.{Heap}
use kerion_vpn_client_docker.Driver.{NetDevice, Vnet, Event, header_alloc, Env, Driver, driver}
use kerion_vpn_client_docker.Io.{
  le, needed, load_pkt, write_loop, write_packet, io_write_from_iovec, with_header,
}
use kerion_vpn_client_docker.Io.Header.{load_count-ok, load_pkt-ok}
use kerion_vpn_client_docker.Io.Request.{place_in}
use kerion_vpn_client_docker.Io.Granted.{Grants, Asks, with_header-run}
use kerion_vpn_client_docker.Io.Packet.{Roomy, NoWrap, write_packet-WroteOne}
use kerion_vpn_client_docker.Io.WriteAll.{write_packet-granted}

then_fault :
    {A B : Type 0} (P : A → Driver → Type 0) (r : Run Driver A) (k : A → Cmd Driver B) (f : Fault)
    → Returns P r
    → ((a : A) (d : Driver) → P a d → k a d ≡ fault f)
    → and_then r k ≡ fault f
then_fault P _ k f (returns p) next = next _ _ p

-- The length check passes a count that is too great.
needed_wraps : (k : ℕ) → k < 2 ^ 20 → needed 4 (2 ^ 30 + 1 + k) ≡ 8 + 4 * k
unfolding needed
needed_wraps k small = omega arith

module _ (env : Env) (grants : Grants env) (roomy : Roomy env) (no_wrap : NoWrap env)
    (hdr : List ℕ) where
  -- The address of packet `i` on a 32-bit machine.
  abbrev place4 : ℕ → ℕ
  place4 i = le (take 4 (drop (4 + i * 4) hdr))

  load_pkt-in : (i : ℕ) (d : Driver) → 8 + i * 4 ≤ length hdr → load_pkt 4 hdr i d ≡ ok (place4 i) d
  unfolding load_pkt
  load_pkt-in i d fits = ground arith

  load_pkt-past :
      (i : ℕ) (d : Driver) → length hdr < 8 + i * 4 → load_pkt 4 hdr i d ≡ fault bad_pointer
  unfolding load_pkt
  load_pkt-past i d past = ground arith

  -- The loop hands on the packets that the request has, and then reads past its end.
  write_loop-past :
      (there i left m : ℕ) (h : Heap) (v : Vnet) (l : List Event) (dev : NetDevice)
      → v.net_dev.device ≡ some dev
      → there < left
      → length hdr ≡ 4 + (i + there) * 4
      → write_loop env 4 hdr left i (pos m) (driver h v l) ≡ fault bad_pointer
  unfolding write_loop
  write_loop-past there i zero m h v l dev has_device more len = absurd (omega arith)
  write_loop-past zero i (suc left) m h v l dev has_device more len =
      rw (load_pkt-past i (driver h v l) (omega (arith, len))) refl
  write_loop-past (suc there) i (suc left) m h v l dev has_device more len =
      rw (load_pkt-in i (driver h v l) (omega (arith, len)), and_then)
        (then_fault _ (write_packet env (place4 i) (driver h v l)) _ bad_pointer
          (both (write_packet-WroteOne env h v l dev place4 i has_device roomy no_wrap)
            (write_packet-granted env grants roomy no_wrap (place4 i) h v l dev has_device))
          λ r d ((w, one), z). elim one [
            | inl (a, _) ↦ rw z (
                subst (λ e. write_loop env 4 hdr left (i + 1) (pos (m + 1)) e ≡ fault bad_pointer)
                  (sym a.shape)
                  (write_loop-past there (i + 1) left (m + 1) h w d.log
                    (a.device _ (dev, has_device, refl)).0 (a.device _ (dev, has_device, refl)).1
                    (omega arith) (omega (arith, len))))
            | inr (a, nz, neg) ↦ absurd (ground (arith, z, nz))
          ])

  -- On a 32-bit machine the length check wraps round: a write of `8 + 4 * k` bytes, which hold `k + 1` pointers,
  -- that claims `2 ^ 30 + 1 + k` packets passes it. The write hands on the packets that are there and then reads a
  -- pointer past the end of the copied request, where nothing is refused: user memory can be read, the kernel
  -- has the memory for the request and makes buffers with the room that it is asked for, no packet's
  -- length wraps, and the network device is there. `k` is below 2 ^ 20.
  pub write_past_end :
      (k : ℕ) (h : Heap) (v : Vnet) (l : List Event) (dev : NetDevice)
      → k < 2 ^ 20
      → v.net_dev.device ≡ some dev
      → env.kmalloc_bytes l (8 + 4 * k) ≡ true
      → env.from_iovec (header_alloc ∷ l) (8 + 4 * k) ≡ some hdr
      → length hdr ≡ 8 + 4 * k
      → le (take 4 hdr) ≡ 2 ^ 30 + 1 + k
      → io_write_from_iovec env 4 (pos (8 + 4 * k)) (driver h v l) ≡ fault bad_pointer
  unfolding io_write_from_iovec with_header
  write_past_end k h v l dev small has_device memory copied len claims =
      rw
        (
          not_short,
          same_bytes,
          positive,
          memory,
          copied,
          whole,
          load_count-ok hdr (driver h v (header_alloc ∷ l)) (omega (arith, len)),
          claims,
          asked_some,
          needed_wraps k small,
          fits,
        )
        (rw
          (write_loop-past (k + 1) 0 (2 ^ 30 + 1 + k) 0 h v (header_alloc ∷ l) dev has_device
            (omega arith) (omega (arith, len)))
          refl)
    where
      not_short : ltb (8 + 4 * k) 8 ≡ false
      not_short = ground arith

      same_bytes : (8 + 4 * k) % 2 ^ 32 ≡ 8 + 4 * k
      same_bytes = omega arith

      positive : ltb (8 + 4 * k) (2 ^ 31) ≡ true
      positive = ground arith

      whole : ltb ((8 + 4 * k) % 2 ^ 32) (8 + 4 * k) ≡ false
      whole = ground arith

      asked_some : (2 ^ 30 + 1 + k == 0) ≡ false
      asked_some = ground arith

      fits : ltb (8 + 4 * k) (8 + 4 * k) ≡ false
      fits = ground arith

-- `dev_alloc_skb` does not round what it is asked for up by 2 ^ 32 bytes or more.
abbrev pub Tight : Env → Type 0
Tight env = (l : List Event) (n room : ℕ) → env.dev_alloc_skb l n ≡ some room → room < n + 2 ^ 32

module _ (env : Env) (tight : Tight env) (h : Heap) (v : Vnet) (l : List Event) (n count : ℕ)
    (hdr : List ℕ) (asks : Asks env l n count hdr) where
  open asks use {whole, some_packet, enough}

  first_packet :
      (claimed room : ℕ) (d : Driver)
      → env.get_user d.log (place_in hdr 0) ≡ some claimed
      → claimed < 2 ^ 32
      → env.net_ip_align < 2 ^ 32
      → 2 ^ 32 ≤ claimed + env.net_ip_align
      → env.dev_alloc_skb d.log (claimed + env.net_ip_align - 2 ^ 32) ≡ some room
      → write_packet env (place_in hdr 0) d ≡ fault over_panic
  unfolding write_packet
  first_packet claimed room d got small small_align wraps made = rw (got, wrapped, made, over) refl
    where
      wrapped : (claimed + env.net_ip_align) % 2 ^ 32 ≡ claimed + env.net_ip_align - 2 ^ 32
      wrapped = omega arith

      over : ltb room (claimed + env.net_ip_align) ≡ true
      over = ground (arith, tight d.log _ room made)

  first_round :
      (left : ℕ) (d : Driver)
      → 0 < left
      → 12 ≤ length hdr
      → write_packet env (place_in hdr 0) d ≡ fault over_panic
      → write_loop env 8 hdr left 0 (pos 0) d ≡ fault over_panic
  unfolding write_loop
  first_round zero d some_round long e = absurd (omega arith)
  first_round (suc left) d some_round long e =
      rw (load_pkt-ok hdr 0 d (omega arith), and_then, e) refl

  -- A write whose first packet claims a length so near to 2 ^ 32 that its sum with NET_IP_ALIGN wraps round
  -- stops the kernel: `dev_alloc_skb` is asked for the wrapped size, and the buffer is smaller than what `skb_put`
  -- is then asked for. The request passes every check, on a 64-bit machine; the length and NET_IP_ALIGN are
  -- numbers of 32 bits; there is memory for the wrapped size, and the
  -- kernel does not make a buffer with 2 ^ 32 bytes more than it is asked for.
  pub write_over_panic :
      (claimed room : ℕ)
      → env.get_user (header_alloc ∷ l) (place_in hdr 0) ≡ some claimed
      → claimed < 2 ^ 32
      → env.net_ip_align < 2 ^ 32
      → 2 ^ 32 ≤ claimed + env.net_ip_align
      → env.dev_alloc_skb (header_alloc ∷ l) (claimed + env.net_ip_align - 2 ^ 32) ≡ some room
      → io_write_from_iovec env 8 (pos n) (driver h v l) ≡ fault over_panic
  unfolding io_write_from_iovec
  write_over_panic claimed room got small small_align wraps made =
      rw (with_header-run env h v l n count hdr asks) (
        rw
          (first_round count (driver h v (header_alloc ∷ l)) some_packet
            (omega (arith, whole, some_packet, enough))
            (first_packet claimed room _ got small small_align wraps made))
          refl)
