-- ===== src/Io/Progress.antt =====
-- `io_read_to_iovec` of drivers/vpn/linux/io_read.c on a queue that holds a packet.
use kerion_vpn_client_docker.Base.{
  ℕ, zero, suc, ◌+◌, ◌*◌, ◌^◌, ◌<◌, ◌≤◌, ◌≡◌, ◌≢◌, ◌∙◌, ◌⊎◌, inl, inr, sym, ap, subst, true, false,
  Bool-cases, some, List, [], ◌∷◌, length, arith,
}
use kerion_vpn_client_docker.Base.Int.{ℤ, pos, negsuc, is_neg, minus_eagain}
use kerion_vpn_client_docker.Machine.{ok, ◌>>◌, and_then, Returns, returns, bind, mono, both}
use kerion_vpn_client_docker.Queue.{Ptr, Heap}
use kerion_vpn_client_docker.Queue.Chain.{Cells, IsQueue}
use kerion_vpn_client_docker.Queue.Remove.{queue_remove-nil}
use kerion_vpn_client_docker.Driver.{
  NetDevice, Vnet, Event, netif_wake, header_alloc, free_skb, Env, Driver, driver, frees, on_queue,
}
use kerion_vpn_client_docker.NetDev.{net_device}
use kerion_vpn_client_docker.Io.{io_read_to_iovec, read_loop, finish}
use kerion_vpn_client_docker.Io.Fill.{fill-Filled}
use kerion_vpn_client_docker.Io.Taken.{Looped}
use kerion_vpn_client_docker.Io.Read.{rest, rest_run, round, still_queued, read_loop-Looped}
use kerion_vpn_client_docker.Io.Delivery.{finish-Ended, net_device-ok}
use kerion_vpn_client_docker.Io.Request.{CopiesAll, with_header-Returns}

-- The loop has read something, or failed for another reason than an empty queue.
abbrev NotIdle : ℤ → Driver → Type 0
NotIdle r d = (r ≢ minus_eagain) × (r ≢ pos 0)

module _ (env : Env) (hdr : List ℕ) where
  -- A round with a packet, and what follows it.
  cons_round :
      (left i m : ℕ) (h : Heap) (v : Vnet) (l : List Event) (p : Ptr) (bs : List ℕ) (xs : Cells)
      → IsQueue h v.net_dev.queue ((p, bs) ∷ xs)
      → v.net_dev.queue.locked ≡ false
      → 4 + (i + suc left) * 8 ≤ length hdr
      → ((g : Heap) (w : Vnet) (k : List Event)
          → IsQueue g w.net_dev.queue xs
          → w.net_dev.queue.locked ≡ false
          → Returns NotIdle (read_loop env 8 hdr left (i + 1) (pos (m + 1)) (driver g w k)))
      → Returns NotIdle (read_loop env 8 hdr (suc left) i (pos m) (driver h v l))
  cons_round left i m h v l p bs xs is free fits next =
      rw (round env hdr left i (pos m) h v l p bs xs is free (omega arith)) (
        bind (fill-Filled env _ _ l _ _) λ filled d (w, q, out).
          subst (λ e. Returns NotIdle (rest env hdr left i (pos m) p filled e)) (sym q.shape)
            (rw (rest_run env hdr left i (pos m) h w d.log p bs filled) (elim out [
              | inl (z, s) ↦ rw z (
                  next _ w (free_skb p ∷ d.log)
                    (still_queued env hdr left i m h v l p bs xs is free w d q)
                    (ap (λ a. a.locked) q.queue ∙ free))
              | inr (z, neg) ↦ rw z (returns ((λ e. ground arith), (λ e. ground arith)))
            ])))

  read_loop-NotIdle :
      (left i m : ℕ) (h : Heap) (v : Vnet) (l : List Event) (xs : Cells)
      → IsQueue h v.net_dev.queue xs
      → v.net_dev.queue.locked ≡ false
      → 4 + (i + left) * 8 ≤ length hdr
      → 0 < m
      → Returns NotIdle (read_loop env 8 hdr left i (pos m) (driver h v l))
  unfolding read_loop on_queue
  read_loop-NotIdle zero i m h v l xs is free fits more =
      returns ((λ e. ground arith), (λ e. ground arith))
  read_loop-NotIdle (suc left) i zero h v l [] is free fits more = absurd (omega arith)
  read_loop-NotIdle (suc left) i (suc m) h v l [] is free fits more =
      rw (queue_remove-nil h v.net_dev.queue is free)
        (returns ((λ e. ground arith), (λ e. ground arith)))
  read_loop-NotIdle (suc left) i m h v l ((p, bs) ∷ xs) is free fits more =
      cons_round left i m h v l p bs xs is free fits λ g w k is' free'.
        read_loop-NotIdle left (i + 1) (m + 1) g w k xs is' free' (omega arith) (omega arith)

finish-going :
    (env : Env) (ret : ℤ) (d : Driver)
    → ret ≢ minus_eagain
    → Returns (λ r e. r ≢ minus_eagain) (finish env 8 ret d)
unfolding finish
finish-going env (negsuc n) d other = returns other
finish-going env (pos n) d other = elim (Bool-cases (env.to_iovec d.log)) [
  | inl e ↦ rw e (returns (λ f. ground arith))
  | inr e ↦ rw e (returns (λ f. ground arith))
]

-- The read has given a packet back, or failed for another reason than an empty queue.
abbrev pub Progress : List Event → ℤ → Driver → Type 0
Progress l r d = (r ≢ minus_eagain) × ((is_neg r ≡ true) ⊎ (frees l < frees d.log))

first_round :
    (env : Env) (hdr : List ℕ) (count : ℕ) (h : Heap) (v : Vnet) (l : List Event) (p : Ptr)
    (bs : List ℕ) (xs : Cells)
    → IsQueue h v.net_dev.queue ((p, bs) ∷ xs)
    → v.net_dev.queue.locked ≡ false
    → 0 < count
    → 4 + count * 8 ≤ length hdr
    → Returns NotIdle (read_loop env 8 hdr count 0 (pos 0) (driver h v l))
first_round env hdr zero h v l p bs xs is free some_round fits = absurd (omega arith)
first_round env hdr (suc left) h v l p bs xs is free some_round fits =
    cons_round env hdr left 0 0 h v l p bs xs is free (omega arith) λ g w k is' free'.
      read_loop-NotIdle env hdr left 1 1 g w k xs is' free' (omega arith) (omega arith)

gave_back :
    {C A : Type 0} (ret r : ℤ) {a b c : ℕ} (taken : Cells)
    → ret ≢ pos 0
    → ((ret ≡ pos (0 + length taken)) × A) ⊎ (is_neg ret ≡ true)
    → (C × (is_neg ret ≡ false)) ⊎ (is_neg r ≡ true)
    → b ≡ a + length taken
    → c ≡ b
    → (is_neg r ≡ true) ⊎ (a < c)
gave_back ret r taken some_packet out (inr neg) f g = inl neg
gave_back ret r taken some_packet (inr neg) (inl (x, y)) f g = absurd (ground (arith, neg, y))
gave_back ret r [] some_packet (inl (e, z)) (inl (x, y)) f g =
    absurd (some_packet (e ∙ ap pos (omega arith)))
gave_back ret r (x ∷ xs) some_packet (inl (e, z)) (inl (u, y)) f g = inr (omega (arith, f, g))

module _ (env : Env) (hdr : List ℕ) (h : Heap) (v : Vnet) (l : List Event) (dev : NetDevice)
    (xs : Cells) (has_device : v.net_dev.device ≡ some dev) where
  tail-Progress :
      (ret : ℤ) (d : Driver)
      → Looped env hdr 0 h v (header_alloc ∷ l) xs 0 ret d × NotIdle ret d
      → Returns (Progress l) (
          (do net_device; (λ d. ok tt (record d { log = netif_wake ∷ d.log })); finish env 8 ret) d)
  tail-Progress ret d ((w, taken, left, t, out), (going, some_packet)) =
      subst
        (λ e. Returns (Progress l) (
          (do net_device; (λ d. ok tt (record d { log = netif_wake ∷ d.log })); finish env 8 ret)
            e))
        (sym t.shape)
        (rw (net_device-ok d.heap w d.log dev (t.device ∙ has_device), and_then)
          (mono
            (both (finish-Ended env ret d.heap w (netif_wake ∷ d.log))
              (finish-going env ret _ going))
            λ r e (ended, other). (
              other,
              gave_back ret r taken some_packet out ended.out t.frees_taken ended.frees_same,
            )))

module _ (env : Env) (copies : CopiesAll env) (h : Heap) (v : Vnet) (l : List Event)
    (dev : NetDevice) (p : Ptr) (bs : List ℕ) (xs : Cells) (n : ℕ) where
  -- A read of a queue that holds a packet never says EAGAIN, on a 64-bit machine, with the network device there and the
  -- queue well formed and unlocked: either it takes a packet out and gives it back, or it fails for the
  -- request or for user memory. `n` has to be below 2 ^ 32, and the request that is copied in has to be as
  -- long as asked for.
  pub io_read_to_iovec-Progress :
      v.net_dev.device ≡ some dev
      → IsQueue h v.net_dev.queue ((p, bs) ∷ xs)
      → v.net_dev.queue.locked ≡ false
      → n < 2 ^ 32
      → Returns (Progress l) (io_read_to_iovec env 8 (pos n) (driver h v l))
  unfolding io_read_to_iovec
  io_read_to_iovec-Progress has_device is free small =
      with_header-Returns env copies h v l n small _ (Progress l)
        (λ r k neg going same kept got on sent. (going, inl neg))
        (λ hdr count copied some_round fits.
          bind
            (both
              (read_loop-Looped env hdr count 0 0 h v (header_alloc ∷ l) ((p, bs) ∷ xs) is free
                (omega (arith, fits)))
              (first_round env hdr count h v (header_alloc ∷ l) p bs xs is free some_round fits))
            (tail-Progress env hdr h v l dev ((p, bs) ∷ xs) has_device))
