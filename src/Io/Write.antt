-- ===== src/Io/Write.antt =====
-- `io_write_from_iovec` of drivers/vpn/linux/io_write.c: the packets that user space hands to the network.
use kerion_vpn_client_docker.Base.{
  ℕ, zero, suc, ◌+◌, ◌*◌, ◌^◌, ◌<◌, ◌≤◌, ◌≡◌, ◌∙◌, ◌⊎◌, inl, inr, refl, sym, ap, subst, true, some,
  List, ◌∷◌, arith, length, none, [],
}
use kerion_vpn_client_docker.Base.Int.{ℤ, pos, is_neg}
use kerion_vpn_client_docker.Machine.{and_then, Returns, returns, bind, mono}
use kerion_vpn_client_docker.Queue.{Heap}
use kerion_vpn_client_docker.Driver.{
  NetDevice, Vnet, Event, header_alloc, header_free, Env, Driver, driver,
}
use kerion_vpn_client_docker.Resources.{count, settings_of}
use kerion_vpn_client_docker.Io.{write_loop, reply_size, io_write_from_iovec, finish}
use kerion_vpn_client_docker.Io.Header.{load_pkt-ok}
use kerion_vpn_client_docker.Io.Request.{
  CopiesAll, received, released, place_in, request, with_header-Returns,
}
use kerion_vpn_client_docker.Io.Delivery.{reply, finish-Ended}
use kerion_vpn_client_docker.Io.Packet.{
  Given, Handed, Roomy, NoWrap, unchanged, write_packet-WroteOne,
}

Given-trans :
    (env : Env) (place : ℕ → ℕ) (i n : ℕ) (a b c : List (List ℕ))
    → Given env place i 1 a b
    → Given env place (i + 1) n b c
    → Given env place i (1 + n) a c
Given-trans env place i n a b c (asked, copied, len, bytes, e, f, same) more =
    let step : suc n ≡ 1 + n = omega arith in
    subst (λ k. Given env place i k a c) step
      (asked, copied, len, bytes, e, f, subst (λ o. Given env place (i + 1) n o c) same more)

Handed-trans :
    (env : Env) (place : ℕ → ℕ) (i : ℕ) {h : Heap} {v w u : Vnet} {l : List Event} {d e : Driver}
    {n : ℕ}
    → Handed env place i h v l d w 1
    → Handed env place (i + 1) h w d.log e u n
    → Handed env place i h v l e u (1 + n)
Handed-trans env place i {n = n} a b = record {
  shape = b.shape;
  queue = b.queue ∙ a.queue;
  device = λ cap limited. b.device cap (a.device cap limited);
  held_same = b.held_same ∙ a.held_same;
  frees_same = b.frees_same ∙ a.frees_same;
  settings_same = b.settings_same ∙ a.settings_same;
  given = Given-trans env place i n _ _ _ a.given b.given;
  rx_packets = omega (arith, a.rx_packets, b.rx_packets);
}

later :
    (m n : ℕ) {r : ℤ}
    → ((r ≡ pos (m + 1 + n)) ⊎ (is_neg r ≡ true))
    → ((r ≡ pos (m + (1 + n))) ⊎ (is_neg r ≡ true))
later m n (inl e) = inl (e ∙ ap pos (omega arith))
later m n (inr e) = inr e

-- What the loop has done, `m` packets into it.
abbrev pub Wrote : Env → (ℕ → ℕ) → ℕ → Heap → Vnet → List Event → ℕ → ℤ → Driver → Type 0
Wrote env place i h v l m r d =
    (w : Vnet) × (handed : ℕ) × Handed env place i h v l d w handed
    × ((r ≡ pos (m + handed)) ⊎ (is_neg r ≡ true))

module _ (env : Env) (roomy : Roomy env) (no_wrap : NoWrap env) (hdr : List ℕ) where
  pub write_loop-Wrote :
      (left i m : ℕ) (h : Heap) (v : Vnet) (l : List Event) (dev : NetDevice)
      → v.net_dev.device ≡ some dev
      → 4 + (i + left) * 8 ≤ length hdr
      → Returns
          (Wrote env (place_in hdr) i h v l m)
          (write_loop env 8 hdr left i (pos m) (driver h v l))
  unfolding write_loop
  write_loop-Wrote zero i m h v l dev has_device fits = returns (
    v,
    0,
    unchanged env h v l dev (place_in hdr) i has_device l refl refl refl refl,
    inl (ap pos (omega arith)),
  )
  write_loop-Wrote (suc left) i m h v l dev has_device fits =
      rw (load_pkt-ok hdr i (driver h v l) (omega (arith, fits)), and_then)
        (bind (write_packet-WroteOne env h v l dev (place_in hdr) i has_device roomy no_wrap)
          λ r d (w, one). elim one [
            | inl (a, z) ↦ rw z (
                subst
                  (λ e.
                    Returns (Wrote env (place_in hdr) i h v l m)
                      (write_loop env 8 hdr left (i + 1) (pos (m + 1)) e))
                  (sym a.shape)
                  (mono
                    (write_loop-Wrote left (i + 1) (m + 1) h w d.log
                      (a.device _ (dev, has_device, refl)).0 (a.device _ (dev, has_device, refl)).1
                      (omega (arith, fits)))
                    λ q e (u, n, b, out).
                      (u, 1 + n, Handed-trans env (place_in hdr) i a b, later m n out)))
            | inr (a, z, neg) ↦ rw z (returns (w, 0, a, inr neg))
          ])

-- After a write: the packets handed to the network stack are the first of the request, in its order; they are
-- counted in `rx_packets` and in the result, each new buffer and the request's memory were handed on or given
-- back, and the transmit queue is as it was.
abbrev pub WriteDone : Env → Heap → Vnet → List Event → ℕ → ℤ → Driver → Type 0
WriteDone env h v l n r d =
    (w : Vnet) × (handed : ℕ) × Handed env (place_in (request env l n)) 0 h v l d w handed
    × ((r ≡ pos (reply_size 8 handed)) ⊎ (is_neg r ≡ true))

module _ (env : Env) (h : Heap) (v : Vnet) (l : List Event) (n : ℕ) where
  end_done :
      (hdr : List ℕ)
      → env.from_iovec (header_alloc ∷ l) n ≡ some hdr
      → (ret : ℤ) (d : Driver) → Wrote env (place_in hdr) 0 h v (header_alloc ∷ l) 0 ret d
      → Returns (WriteDone env h v l n) (finish env 8 ret d)
  end_done hdr got ret d (w, handed, a, out) =
      subst (λ e. Returns (WriteDone env h v l n) (finish env 8 ret e)) (sym a.shape)
        (mono (finish-Ended env ret h w d.log) λ r e ended. (
          w,
          handed,
          record {
            shape = ended.shape;
            queue = a.queue;
            device = a.device;
            held_same = ended.held_same ∙ ap (count header_free) a.held_same ∙ released l;
            frees_same = ended.frees_same ∙ a.frees_same;
            settings_same = ap (settings_of w) ended.on_same ∙ a.settings_same;
            given =
                subst (λ o. Given env (place_in (request env l n)) 0 handed (received l) o)
                  (sym ended.received_same)
                  (subst (λ o. Given env (place_in o) 0 handed (received l) (received d.log))
                    (sym same_request) a.given);
            rx_packets = a.rx_packets;
          },
          reply handed out ended.out,
        ))
    where
      same_request : request env l n ≡ hdr
      same_request = ap (λ o. elim o [ none ↦ [] | some bytes ↦ bytes ]) got

module _ (env : Env) (copies : CopiesAll env) (roomy : Roomy env) (no_wrap : NoWrap env) (h : Heap)
    (v : Vnet) (l : List Event) (dev : NetDevice) (n : ℕ) where
  -- A write of a request of `n` bytes, on a 64-bit machine with the network device there, ends without a
  -- fault: each new buffer was handed to the network stack or given back, and the request's memory was given
  -- back. The packets handed on are the first of the request that was copied in, in its order, each with the
  -- bytes copied from where the request says it is, as many as user memory claimed for it. Their number is
  -- counted in `rx_packets`, modulo 2 ^ 32, and is the one in the result unless that is an error, and the
  -- transmit queue, the interface's switches and the fields of the character device are as they were. `n` has to be below 2 ^ 32, the
  -- request that is copied in as long as asked for, the room of a new buffer as large as asked for, and no
  -- packet may claim a length whose sum with NET_IP_ALIGN needs more than 32 bits.
  pub io_write_from_iovec-WriteDone :
      v.net_dev.device ≡ some dev
      → n < 2 ^ 32
      → Returns (WriteDone env h v l n) (io_write_from_iovec env 8 (pos n) (driver h v l))
  unfolding io_write_from_iovec
  io_write_from_iovec-WriteDone has_device small =
      with_header-Returns env copies h v l n small _ (WriteDone env h v l n)
        (λ r k neg going same kept got on sent.
          (v, 0, unchanged env h v l dev _ 0 has_device k same kept got on, inr neg))
        (λ hdr count copied some_packet fits.
          bind
            (write_loop-Wrote env roomy no_wrap hdr count 0 0 h v (header_alloc ∷ l) dev has_device
              (omega (arith, fits)))
            (end_done env h v l n hdr copied))
