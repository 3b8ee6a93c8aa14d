-- ===== src/Io/Blocking/Same.antt =====
-- `io_read_to_iovec` of drivers/vpn/linux/io_read.c in its two builds, where there is a packet to read.
use kerion_vpn_client_docker.Base.{
  ℕ, zero, suc, ◌+◌, ◌<◌, ◌%◌, ◌^◌, ◌≡◌, ◌∙◌, inl, inr, refl, ap, Bool, true, false, Bool-cases,
  Option-cases, some, List, ltb, ◌==◌, if◌then◌else◌, arith, ◌∷◌, ◌&&◌, length, take, drop, leb,
}
use kerion_vpn_client_docker.Base.Int.{ℤ, pos, incr, is_zero, minus_efault, to_ulong}
use kerion_vpn_client_docker.Machine.{Run, ok, fault, out_of_fuel, pure, and_then}
use kerion_vpn_client_docker.Queue.{Ptr, null, queue_remove, Heap, skb, write}
use kerion_vpn_client_docker.Queue.Chain.{Cells, IsQueue}
use kerion_vpn_client_docker.Queue.Remove.{popped, queue_remove-ok}
use kerion_vpn_client_docker.Driver.{
  Env, Driver, on_queue, Event, Vnet, driver, header_alloc, set_net,
}
use kerion_vpn_client_docker.Io.{le, header_size, needed, read_loop, io_read_to_iovec}
use kerion_vpn_client_docker.Io.Blocking.{
  Task, task, World, fetch_packet, deliver, blocking_loop, blocking_read,
}
use kerion_vpn_client_docker.Io.Blocking.Forget.{
  forget, forget-lift, and_then_cong, deliver-steps, forget-bind, woken_tail, plain_tail, tail-Same,
}

module _ (env : Env) (word : ℕ) (world : World) (fuel : ℕ) (hdr : List ℕ) where
  -- A round that finds a packet, or has counted one before, is the round of the other build.
  round-Same :
      (left i : ℕ) (ret : ℤ) (t : Task) (r : Run Driver Ptr)
      → on_queue queue_remove t.driver ≡ r
      → ((p : Ptr) (d : Driver) → r ≡ ok p d → (p == null) ≡ true → is_zero ret ≡ false)
      → ((t : Task)
          → forget (blocking_loop env word world (suc fuel) hdr left (i + 1) (incr ret) t)
            ≡ read_loop env word hdr left (i + 1) (incr ret) t.driver)
      → forget (blocking_loop env word world (suc fuel) hdr (suc left) i ret t)
        ≡ read_loop env word hdr (suc left) i ret t.driver
  unfolding blocking_loop fetch_packet read_loop
  round-Same left i ret t (fault f) e some_packet next = rw e refl
  round-Same left i ret t out_of_fuel e some_packet next = rw e refl
  round-Same left i ret t (ok p d) e some_packet next = elim (Bool-cases (p == null)) [
    | inl z ↦ rw (e, and_then, z, some_packet p d refl z) refl
    | inr z ↦
        rw (e, and_then, z, and_then, z)
          (forget-lift (record t { driver = d }) (deliver env word hdr i p d) _
            ∙ and_then_cong (deliver env word hdr i p d) (λ filled d'. after filled d')
            ∙ deliver-steps env word hdr i p
                (λ filled.
                  if is_zero filled
                  then read_loop env word hdr left (i + 1) (incr ret)
                  else pure minus_efault)
                d)
  ]
    where
      after :
          (filled : ℤ) (d' : Driver)
          → forget (
              (if is_zero filled
                  then blocking_loop env word world (suc fuel) hdr left (i + 1) (incr ret)
                  else pure minus_efault)
                (record t { driver = d' }))
            ≡ (if is_zero filled
                  then read_loop env word hdr left (i + 1) (incr ret)
                  else pure minus_efault)
                d'
      after filled d' = elim (Bool-cases (is_zero filled)) [
        | inl z ↦ rw z (next (record t { driver = d' }))
        | inr z ↦ rw z refl
      ]

  -- After a packet the loops do the same.
  counted-Same :
      (left i m : ℕ) (t : Task)
      → 0 < m
      → forget (blocking_loop env word world (suc fuel) hdr left i (pos m) t)
        ≡ read_loop env word hdr left i (pos m) t.driver
  unfolding blocking_loop read_loop
  counted-Same zero i m t some_packet = refl
  counted-Same (suc left) i m t some_packet =
      round-Same left i (pos m) t _ refl (λ p d e z. ground arith)
        λ t. counted-Same left (i + 1) (m + 1) t (omega arith)

  -- So they do where there is a packet.
  pub loop-Same :
      (left i : ℕ) (t : Task) (p : Ptr) (d : Driver)
      → on_queue queue_remove t.driver ≡ ok p d
      → (p == null) ≡ false
      → forget (blocking_loop env word world (suc fuel) hdr left i (pos 0) t)
        ≡ read_loop env word hdr left i (pos 0) t.driver
  unfolding blocking_loop read_loop
  loop-Same zero i t p d got some_packet = refl
  loop-Same (suc left) i t p d got some_packet =
      round-Same left i (pos 0) t (ok p d) got (λ q d' e z. absurd (ground (arith, e)))
        λ t. counted-Same left (i + 1) 1 t (omega arith)

module _ (env : Env) (word : ℕ) (world : World) (fuel : ℕ) (h : Heap) (v : Vnet) (l : List Event)
    (p : Ptr) (bs : List ℕ) (xs : Cells) (waiting interruptible : Bool) where
  -- Where there is a packet in the queue, a read in the build that waits does to the driver what a read in the
  -- other build does, and with the same result, whatever the request and user memory hold and the kernel
  -- refuses, and however wide a pointer is. The queue is well formed, and its lock is free.
  pub blocking_read-Same :
      (len : ℤ)
      → IsQueue h v.net_dev.queue ((p, bs) ∷ xs)
      → v.net_dev.queue.locked ≡ false
      → forget
          (blocking_read env word world (suc fuel) len (task (driver h v l) waiting interruptible))
        ≡ io_read_to_iovec env word len (driver h v l)
  unfolding blocking_read io_read_to_iovec on_queue
  blocking_read-Same len is free =
      let n = to_ulong len in
      let k = header_alloc ∷ l in
      elim (Bool-cases (ltb n (header_size word))) [
        | inl e ↦ rw e refl
        | inr e ↦
            rw e
              (elim (Bool-cases (ltb (n % 2 ^ 32) (2 ^ 31) && env.kmalloc_bytes l (n % 2 ^ 32))) [
                | inr f ↦ rw f refl
                | inl f ↦ rw f (elim (Option-cases (env.from_iovec k n)) [
                  | inl g ↦ rw g refl
                  | inr (hdr, g) ↦ rw g (elim (Bool-cases (ltb (n % 2 ^ 32) n)) [
                    | inl c ↦ rw c refl
                    | inr c ↦ rw c (elim (Bool-cases (leb 4 (length hdr))) [
                      | inr a ↦ rw a refl
                      | inl a ↦ rw a (elim (Bool-cases (le (take 4 (drop 0 hdr)) == 0)) [
                        | inl z ↦ rw z refl
                        | inr z ↦
                            rw z
                              (elim (Bool-cases (ltb n (needed word (le (take 4 (drop 0 hdr)))))) [
                                | inl w ↦ rw w refl
                                | inr w ↦ rw w (body hdr (le (take 4 (drop 0 hdr))))
                              ])
                      ])
                    ])
                  ])
                ])
              ])
      ]
    where
      k : List Event
      k = header_alloc ∷ l

      taken : Driver
      taken =
          driver (write h p (some (skb null bs)))
            (set_net (λ n. record n { queue = popped n.queue xs }) v) k

      removed : on_queue queue_remove (driver h v k) ≡ ok p taken
      removed = rw (queue_remove-ok h v.net_dev.queue p bs xs is free) refl

      body :
          (hdr : List ℕ) (count : ℕ)
          → forget (
              and_then
                (blocking_loop env word world
                  (suc fuel)
                  hdr
                  count
                  0
                  (pos 0)
                  (task (driver h v k) true true))
                (woken_tail env word))
            ≡ and_then (read_loop env word hdr count 0 (pos 0) (driver h v k)) (plain_tail env word)
      body hdr count =
          forget-bind _ _ _ (tail-Same env word)
          ∙ ap (λ r. and_then r (plain_tail env word))
              (loop-Same env word world fuel hdr count 0 (task (driver h v k) true true) p taken
                removed (ground (arith, is.chain.0)))
