-- ===== src/Io/Read.antt =====
-- The loop of `io_read_to_iovec`, drivers/vpn/linux/io_read.c.
use kerion_vpn_client_docker.Base.{
  ℕ, zero, suc, ◌+◌, ◌*◌, ◌≤◌, ◌≡◌, ◌∙◌, ◌⊎◌, inl, inr, refl, sym, ap, subst, true, false, none,
  some, List, [], ◌∷◌, ◌==◌, arith, length, take, drop, ◌==◌, if◌then◌else◌,
}
use kerion_vpn_client_docker.Base.Int.{ℤ, pos, incr, is_zero, is_neg, minus_efault}
use kerion_vpn_client_docker.Machine.{Cmd, pure, ◌>>◌, and_then, Returns, returns, bind, mono}
use kerion_vpn_client_docker.Queue.{Ptr, null, Heap, skb, write}
use kerion_vpn_client_docker.Queue.Chain.{Cells, IsQueue}
use kerion_vpn_client_docker.Queue.Remove.{popped, queue_remove-ok, queue_remove-nil}
use kerion_vpn_client_docker.Driver.{
  Vnet, Event, free_skb, Env, Driver, driver, set_net, on_queue, kfree_skb,
}
use kerion_vpn_client_docker.NetDev.Flush.{freed-IsQueue}
use kerion_vpn_client_docker.Io.{le, skb_of, io_read_fill_network_packet, read_loop}
use kerion_vpn_client_docker.Io.Header.{load_pkt-ok}
use kerion_vpn_client_docker.Io.Request.{place_in}
use kerion_vpn_client_docker.Io.Taken.{Copied, Looped, Taken-cons, none_taken}
use kerion_vpn_client_docker.Io.Fill.{outgoing, Sent, Quiet, fill-Filled}

module _ (env : Env) (hdr : List ℕ) where
  pub rest : ℕ → ℕ → ℤ → Ptr → ℤ → Cmd Driver ℤ
  rest left i ret p filled = do
    kfree_skb p
    if is_zero filled then read_loop env 8 hdr left (i + 1) (incr ret) else pure minus_efault

  -- A round with a packet.
  pub round :
      (left i : ℕ) (ret : ℤ) (h : Heap) (v : Vnet) (l : List Event) (p : Ptr) (bs : List ℕ)
      (xs : Cells)
      → IsQueue h v.net_dev.queue ((p, bs) ∷ xs)
      → v.net_dev.queue.locked ≡ false
      → 4 + i * 8 + 8 ≤ length hdr
      → read_loop env 8 hdr (suc left) i ret (driver h v l)
        ≡ and_then
            (io_read_fill_network_packet env (le (take 8 (drop (4 + i * 8) hdr))) (skb null bs) (
              driver
                (write h p (some (skb null bs)))
                (set_net (λ n. record n { queue = popped n.queue xs }) v)
                l))
            (rest left i ret p)
  unfolding read_loop on_queue skb_of rest
  round left i ret h v l p bs xs is free fits =
      rw (queue_remove-ok h v.net_dev.queue p bs xs is free, not_null)
        (rw (load_pkt-ok hdr i _ fits) (rw (hit, and_then) refl))
    where
      not_null : (p == null) ≡ false
      not_null = ground (arith, is.chain.0)

      hit : write h p (some (skb null bs)) p ≡ some (skb null bs)
      hit = ground arith

  -- The packet is given back.
  pub rest_run :
      (left i : ℕ) (ret : ℤ) (h : Heap) (w : Vnet) (l : List Event) (p : Ptr) (bs : List ℕ)
      (filled : ℤ)
      → rest left i ret p filled (driver (write h p (some (skb null bs))) w l)
        ≡ (if is_zero filled
              then read_loop env 8 hdr left (i + 1) (incr ret)
              else pure minus_efault)
            (driver (write (write h p (some (skb null bs))) p none) w (free_skb p ∷ l))
  unfolding rest kfree_skb
  rest_run left i ret h w l p bs filled = rw (hit, and_then) refl
    where
      hit : write h p (some (skb null bs)) p ≡ some (skb null bs)
      hit = ground arith

module _ (env : Env) (hdr : List ℕ) where
  read_loop-nil :
      (left i m : ℕ) (h : Heap) (v : Vnet) (l : List Event)
      → IsQueue h v.net_dev.queue []
      → v.net_dev.queue.locked ≡ false
      → Returns
          (Looped env hdr i h v l [] m)
          (read_loop env 8 hdr (suc left) i (pos m) (driver h v l))
  unfolding read_loop on_queue
  read_loop-nil left i zero h v l is free =
      rw (queue_remove-nil h v.net_dev.queue is free)
        (returns (none_taken env hdr i is free (inr refl)))
  read_loop-nil left i (suc m) h v l is free =
      rw (queue_remove-nil h v.net_dev.queue is free)
        (returns (none_taken env hdr i is free (inl refl)))

  read_loop-zero :
      (i m : ℕ) (h : Heap) (v : Vnet) (l : List Event) (xs : Cells)
      → IsQueue h v.net_dev.queue xs
      → v.net_dev.queue.locked ≡ false
      → Returns (Looped env hdr i h v l xs m) (read_loop env 8 hdr 0 i (pos m) (driver h v l))
  unfolding read_loop
  read_loop-zero i m h v l xs is free = returns (none_taken env hdr i is free (inl refl))

-- The loop after a round: the packet was given back, and the others are still queued.
module _ (env : Env) (hdr : List ℕ) (left i m : ℕ) (h : Heap) (v : Vnet) (l : List Event) (p : Ptr)
    (bs : List ℕ) (xs : Cells) (is : IsQueue h v.net_dev.queue ((p, bs) ∷ xs))
    (free : v.net_dev.queue.locked ≡ false) where
  abbrev Seen : Vnet → Driver → Type 0
  Seen =
      Quiet (write h p (some (skb null bs)))
        (set_net (λ n. record n { queue = popped n.queue xs }) v) l

  pub still_queued :
      (w : Vnet) (d : Driver)
      → Seen w d
      → IsQueue (write (write h p (some (skb null bs))) p none) w.net_dev.queue xs
  still_queued w d q =
      subst (λ a. IsQueue (write (write h p (some (skb null bs))) p none) a xs) (sym q.queue)
        (freed-IsQueue h v.net_dev.queue p bs xs is)

  after_round :
      (w : Vnet) (d : Driver) (filled : ℤ)
      → Seen w d
      → (((is_zero filled ≡ true) × Sent env l (place_in hdr i) (skb null bs) d)
          ⊎ ((is_zero filled ≡ false) × (is_neg filled ≡ true)))
      → (IsQueue (write (write h p (some (skb null bs))) p none) w.net_dev.queue xs
          → w.net_dev.queue.locked ≡ false
          → Returns
              (Looped env hdr
                (i + 1)
                (write (write h p (some (skb null bs))) p none)
                w
                (free_skb p ∷ d.log)
                xs
                (m + 1))
              (read_loop env 8 hdr left
                (i + 1)
                (pos (m + 1))
                (driver (write (write h p (some (skb null bs))) p none) w (free_skb p ∷ d.log))))
      → Returns (Looped env hdr i h v l ((p, bs) ∷ xs) m) (
          (if is_zero filled
              then read_loop env 8 hdr left (i + 1) (pos (m + 1))
              else pure minus_efault)
            (driver (write (write h p (some (skb null bs))) p none) w (free_skb p ∷ d.log)))
  after_round w d filled q (inl (z, (asked, room, got, out))) next = rw z (
      mono (next (still_queued w d q) (ap (λ a. a.locked) q.queue ∙ free)) λ r e.
        Taken-cons env hdr i m q.device q.held_same (omega (arith, q.frees_same)) q.settings_same
          q.tallied
          λ taken _ c.
            (asked, room, got, subst (λ o. Copied env hdr (i + 1) taken o (outgoing e.log)) out c))
  after_round w d filled q (inr (z, neg)) next = rw z (
      returns (
        Taken-cons env hdr i m q.device q.held_same (omega (arith, q.frees_same)) q.settings_same
          q.tallied (λ taken e c. absurd (ground (arith, e)))
          (none_taken env hdr (i + 1) (still_queued w d q) (ap (λ a. a.locked) q.queue ∙ free)
            (inr refl))))

module _ (env : Env) (hdr : List ℕ) where
  -- The loop never faults, and no packet that it takes is lost.
  pub read_loop-Looped :
      (left i m : ℕ) (h : Heap) (v : Vnet) (l : List Event) (xs : Cells)
      → IsQueue h v.net_dev.queue xs
      → v.net_dev.queue.locked ≡ false
      → 4 + (i + left) * 8 ≤ length hdr
      → Returns (Looped env hdr i h v l xs m) (read_loop env 8 hdr left i (pos m) (driver h v l))
  read_loop-Looped zero i m h v l xs is free fits = read_loop-zero env hdr i m h v l xs is free
  read_loop-Looped (suc left) i m h v l [] is free fits =
      read_loop-nil env hdr left i m h v l is free
  read_loop-Looped (suc left) i m h v l ((p, bs) ∷ xs) is free fits =
      rw (round env hdr left i (pos m) h v l p bs xs is free (omega arith)) (
        bind (fill-Filled env _ _ l _ _) λ filled d (w, q, out).
          subst
            (λ e.
              Returns (Looped env hdr i h v l ((p, bs) ∷ xs) m)
                (rest env hdr left i (pos m) p filled e))
            (sym q.shape)
            (rw (rest_run env hdr left i (pos m) h w d.log p bs filled) (
              after_round env hdr left i m h v l p bs xs is free w d filled q out λ is' free'.
                read_loop-Looped left (i + 1) (m + 1) _ w (free_skb p ∷ d.log) xs is' free'
                  (omega arith))))
