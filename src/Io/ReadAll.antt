-- ===== src/Io/ReadAll.antt =====
-- `io_read_to_iovec` of drivers/vpn/linux/io_read.c where nothing is refused: how many packets a read takes.
use kerion_vpn_client_docker.Base.{
  ℕ, zero, suc, ◌+◌, ◌*◌, ◌<◌, ◌≤◌, ◌≡◌, ◌∙◌, inl, inr, refl, sym, ap, subst, false, some, List, [],
  ◌∷◌, ◌++◌, length, take, drop, arith,
}
use kerion_vpn_client_docker.Base.Int.{ℤ, pos}
use kerion_vpn_client_docker.Machine.{ok, ◌>>◌, and_then, Returns, returns, bind, mono, both}
use kerion_vpn_client_docker.Queue.{null, skb, Heap}
use kerion_vpn_client_docker.Queue.Chain.{Cells, IsQueue}
use kerion_vpn_client_docker.Queue.Remove.{queue_remove-nil}
use kerion_vpn_client_docker.Driver.{
  NetDevice, Vnet, Event, netif_wake, header_alloc, free_skb, Env, Driver, driver, frees, on_queue,
}
use kerion_vpn_client_docker.NetDev.{net_device}
use kerion_vpn_client_docker.NetDev.Packets.{Serves}
use kerion_vpn_client_docker.Io.{io_read_to_iovec, read_loop, finish, reply_size}
use kerion_vpn_client_docker.Io.Fill.{outgoing, Tallied, fill-Filled}
use kerion_vpn_client_docker.Io.Taken.{Copied, Looped}
use kerion_vpn_client_docker.Io.Read.{rest, rest_run, round, still_queued, read_loop-Looped}
use kerion_vpn_client_docker.Io.Delivery.{ReadFrom, tail_done, allocated, net_device-ok}
use kerion_vpn_client_docker.Io.Granted.{
  Grants, Asks, with_header-run, fill-granted, finish-granted,
}

-- A list that is cut in two at the length of its first `n` elements is cut there.
cut_there :
    (n : ℕ) (front back : Cells)
    → length front ≡ length (take n (front ++ back))
    → (front ≡ take n (front ++ back)) × (back ≡ drop n (front ++ back))
cut_there zero [] back e = (refl, refl)
cut_there zero (x ∷ front) back e = absurd (omega (arith, e))
cut_there (suc n) [] [] e = (refl, refl)
cut_there (suc n) [] (y ∷ back) e = absurd (omega (arith, e))
cut_there (suc n) (x ∷ front) back e =
    let rest = cut_there n front back (omega (arith, e)) in (ap (◌∷◌ x) rest.0, rest.1)

cut :
    (n : ℕ) (xs front back : Cells)
    → xs ≡ front ++ back
    → length front ≡ length (take n xs)
    → (front ≡ take n xs) × (back ≡ drop n xs)
cut n xs front back split e =
    subst (λ zs. (front ≡ take n zs) × (back ≡ drop n zs)) (sym split)
      (cut_there n front back (e ∙ ap (λ zs. length (take n zs)) split))

-- `k` packets were counted and given back.
abbrev pub Counted : ℕ → List Event → ℕ → ℤ → Driver → Type 0
Counted m l k r d = (r ≡ pos (m + k)) × (frees d.log ≡ frees l + k)

module _ (env : Env) (grants : Grants env) (hdr : List ℕ) where
  -- The loop goes on to the end of the request or of the queue.
  pub read_loop-Counted :
      (left i m : ℕ) (h : Heap) (v : Vnet) (l : List Event) (xs : Cells)
      → IsQueue h v.net_dev.queue xs
      → v.net_dev.queue.locked ≡ false
      → 4 + (i + left) * 8 ≤ length hdr
      → 0 < m + length xs
      → Returns
          (Counted m l (length (take left xs)))
          (read_loop env 8 hdr left i (pos m) (driver h v l))
  unfolding read_loop on_queue
  read_loop-Counted zero i m h v l xs is free fits more =
      returns (ap pos (omega arith), omega arith)
  read_loop-Counted (suc left) i zero h v l [] is free fits more = absurd (omega arith)
  read_loop-Counted (suc left) i (suc m) h v l [] is free fits more =
      rw (queue_remove-nil h v.net_dev.queue is free) (returns (ap pos (omega arith), omega arith))
  read_loop-Counted (suc left) i m h v l ((p, bs) ∷ xs) is free fits more =
      rw (round env hdr left i (pos m) h v l p bs xs is free (omega arith)) (
        bind
          (both (fill-Filled env _ _ l _ (skb null bs))
            (fill-granted env grants _ _ l _ (skb null bs)))
          λ filled d ((w, q, out), z).
            subst
              (λ e.
                Returns (Counted m l (length (take (suc left) ((p, bs) ∷ xs))))
                  (rest env hdr left i (pos m) p filled e))
              (sym q.shape)
              (rw (rest_run env hdr left i (pos m) h w d.log p bs filled) (
                rw z (
                  mono
                    (read_loop-Counted left (i + 1) (m + 1) _ w (free_skb p ∷ d.log) xs
                      (still_queued env hdr left i m h v l p bs xs is free w d q)
                      (ap (λ a. a.locked) q.queue ∙ free) (omega arith) (omega arith))
                    λ r e (a, b). (a ∙ ap pos (omega arith), omega (arith, b, q.frees_same))))))

-- After a read of the queue `xs` for `count` packets: that many, or all that there were, were taken from its
-- front and copied to user memory, each to the place that the request `hdr` names for it, and the result is the
-- size of their reply.
abbrev pub ReadAll : Env → List ℕ → Vnet → List Event → Cells → ℕ → ℤ → Driver → Type 0
ReadAll env hdr v l xs count r d =
    (r ≡ pos (reply_size 8 (length (take count xs))))
    × ((w : Vnet) × Serves d w (drop count xs) × Tallied v l w d.log)
    × Copied env hdr 0 (take count xs) (outgoing l) (outgoing d.log)

module _ (env : Env) (grants : Grants env) (hdr : List ℕ) (h : Heap) (v : Vnet) (l k : List Event)
    (dev : NetDevice) (xs : Cells) (count : ℕ) (has_device : v.net_dev.device ≡ some dev) where
  pub tail-Counted :
      (ret : ℤ) (d : Driver)
      → Looped env hdr 0 h v k xs 0 ret d × Counted 0 l (length (take count xs)) ret d
      → Returns
          (λ r e.
            (r ≡ pos (reply_size 8 (length (take count xs))))
            × (frees e.log ≡ frees l + length (take count xs)))
          ((do net_device; (λ d. ok tt (record d { log = netif_wake ∷ d.log })); finish env 8 ret)
            d)
  tail-Counted ret d ((w, taken, left, t, out), (a, b)) =
      let P = λ (r : ℤ) (e : Driver).
        (r ≡ pos (reply_size 8 (length (take count xs))))
        × (frees e.log ≡ frees l + length (take count xs)) in
      let as_counted : ret ≡ pos (length (take count xs)) = a ∙ ap pos (omega arith) in
      subst
        (λ e. Returns P (
          (do net_device; (λ d. ok tt (record d { log = netif_wake ∷ d.log })); finish env 8 ret)
            e))
        (sym t.shape)
        (rw (net_device-ok d.heap w d.log dev (t.device ∙ has_device), and_then)
          (subst (λ q. Returns P (finish env 8 q (driver d.heap w (netif_wake ∷ d.log))))
            (sym as_counted)
            (rw (finish-granted env grants d.heap w (netif_wake ∷ d.log) (length (take count xs)))
              (returns (refl, b)))))

module _ (env : Env) (hdr : List ℕ) (h : Heap) (v : Vnet) (l : List Event) (xs : Cells)
    (count : ℕ) where
  pub known :
      (r : ℤ) (d : Driver)
      → ReadFrom env hdr h v l xs r d
      → (r ≡ pos (reply_size 8 (length (take count xs))))
        × (frees d.log ≡ frees l + length (take count xs))
      → ReadAll env hdr v l xs count r d
  known r d (w, taken, left, split, serves, same, set, tally, others, kept, freed_taken, inr neg)
        (a, b) =
      absurd (ground (arith, neg, a))
  known r d (w, taken, left, split, serves, same, set, tally, others, kept, freed_taken, inl (e, c))
        (a, b) =
      let both_parts = cut count xs taken left split (omega (arith, freed_taken, b)) in
      (
        a,
        (w, subst (Serves d w) both_parts.1 serves, tally),
        subst (λ zs. Copied env hdr 0 zs (outgoing l) (outgoing d.log)) both_parts.0 c,
      )

module _ (env : Env) (grants : Grants env) (h : Heap) (v : Vnet) (l : List Event) (dev : NetDevice)
    (xs : Cells) (n count : ℕ) (hdr : List ℕ) (has_device : v.net_dev.device ≡ some dev) where
  -- Where nothing is refused, a read of a queue with a packet in it takes as many packets as the request asks
  -- for, or all of them if there are less: just these are copied to user memory, in order, packet number `i` 4 bytes
  -- behind the address that the request has at its index `i`, of each the bytes that fit the room claimed
  -- there; the others stay queued, `tx_packets` and `tx_bytes` count what was copied, modulo 2 ^ 32, and the
  -- result is the size of the reply. This is for a 64-bit machine, a well-formed queue with its lock free, the network device there, and
  -- a request that is long enough for the packets that it asks for and shorter than 2 ^ 31 bytes; user memory
  -- can be read and written, and the kernel has the memory for the request.
  pub io_read_to_iovec-ReadAll :
      IsQueue h v.net_dev.queue xs
      → v.net_dev.queue.locked ≡ false
      → 0 < length xs
      → Asks env l n count hdr
      → Returns (ReadAll env hdr v l xs count) (io_read_to_iovec env 8 (pos n) (driver h v l))
  unfolding io_read_to_iovec
  io_read_to_iovec-ReadAll is free some_queued asks =
      let looped =
        read_loop-Looped env hdr count 0 0 h v (header_alloc ∷ l) xs is free
          (omega (arith, asks.whole, asks.enough)) in
      let counted =
        read_loop-Counted env grants hdr count 0 0 h v (header_alloc ∷ l) xs is free
          (omega (arith, asks.whole, asks.enough)) (omega (arith, some_queued)) in
      rw (with_header-run env h v l n count hdr asks) (
        mono
          (both
            (bind looped
              (tail_done env hdr h v l (header_alloc ∷ l) dev xs has_device (allocated l)))
            (bind (both looped counted)
              (tail-Counted env grants hdr h v l (header_alloc ∷ l) dev xs count has_device)))
          λ r d (done, much). known env hdr h v l xs count r d done much)
