-- ===== src/Io/Blocking/Sent.antt =====
-- A reader that sleeps in `io_read_to_iovec`, drivers/vpn/linux/io_read.c with USE_BLOCKING_READ, and a packet that the
-- kernel hands to `net_dev_send`, net_dev.c.
use kerion_vpn_client_docker.Base.{
  ℕ, zero, suc, ◌<◌, ◌≡◌, ◌≢◌, ◌∙◌, refl, ap, ltb, ◌||◌, subst, Bool, true, false, some, List, [],
  ◌∷◌, length, take, drop, arith,
}
use kerion_vpn_client_docker.Base.Int.{ℤ, pos}
use kerion_vpn_client_docker.Machine.{Run, ok, fault, out_of_fuel, Returns, mono}
use kerion_vpn_client_docker.Queue.{Ptr, null, Heap, skb}
use kerion_vpn_client_docker.Queue.Chain.{IsQueue}
use kerion_vpn_client_docker.Queue.Insert.{linked, appended, appended-IsQueue}
use kerion_vpn_client_docker.Driver.{
  NetDevice, Vnet, Event, header_alloc, wake_up, Env, Driver, driver, set_net,
}
use kerion_vpn_client_docker.NetDev.{net_dev_send}
use kerion_vpn_client_docker.NetDev.Send.{with_lock, without_lock, accept_run}
use kerion_vpn_client_docker.NetDev.Packets.{Serves}
use kerion_vpn_client_docker.Io.{reply_size}
use kerion_vpn_client_docker.Io.Fill.{outgoing}
use kerion_vpn_client_docker.Io.Taken.{Copied}
use kerion_vpn_client_docker.Io.ReadAll.{ReadAll}
use kerion_vpn_client_docker.Io.Granted.{Grants, Asks}
use kerion_vpn_client_docker.Io.Blocking.{task, World, wake_ups, blocking_read}
use kerion_vpn_client_docker.Io.Blocking.Sleep.{Away, roused, awake, sleep}
use kerion_vpn_client_docker.Io.Blocking.Woken.{OutOfWait, blocking_read-Woken}

-- What a call makes of the driver.
abbrev pub state_of : Run Driver ℤ → Driver → Driver
state_of (ok r e) d = e
state_of (fault f) d = d
state_of out_of_fuel d = d

-- While the reader sleeps, the kernel hands over the packet `p`.
abbrev pub sender : Env → Ptr → World
sender env p = record {
  others = λ d. state_of (net_dev_send env p d) d;
  signal_pending = λ d. false;
}

-- The result is the size of a reply of one packet, which was copied to user memory, and the queue is empty.
abbrev pub OneRead : Env → List ℕ → List Event → Ptr → List ℕ → ℤ → Driver → Type 0
OneRead env hdr l p bs r d =
    (r ≡ pos (reply_size 8 1))
    × ((w : Vnet) × Serves d w [])
    × Copied env hdr 0 ((p, bs) ∷ []) (outgoing l) (outgoing d.log)

take-nil : (c : ℕ) → take {A = Ptr × List ℕ} c [] ≡ []
take-nil zero = refl
take-nil (suc c) = refl

drop-nil : (c : ℕ) → drop {A = Ptr × List ℕ} c [] ≡ []
drop-nil zero = refl
drop-nil (suc c) = refl

one_of :
    (env : Env) (hdr : List ℕ) (u : Vnet) (l k : List Event) (p : Ptr) (bs : List ℕ) (count : ℕ)
    (r : ℤ) (d : Driver)
    → 0 < count
    → outgoing k ≡ outgoing l
    → ReadAll env hdr u k ((p, bs) ∷ []) count r d
    → OneRead env hdr l p bs r d
one_of env hdr u l k p bs zero r d asked same all = absurd (omega arith)
one_of env hdr u l k p bs (suc c) r d asked same (size, (w, serves, tally), copied) = (
  size ∙ ap (λ xs. pos (reply_size 8 (suc (length xs)))) (take-nil c),
  (w, subst (Serves d w) (drop-nil c) serves),
  subst (λ o. Copied env hdr 0 ((p, bs) ∷ []) o (outgoing d.log)) same
      (subst (λ xs. Copied env hdr 0 ((p, bs) ∷ xs) (outgoing k) (outgoing d.log)) (take-nil c)
        copied),
)

more_wake_ups : (n : ℕ) → (ltb n (suc n) || false) ≡ true
more_wake_ups n = ground arith

-- The object after the packet was queued.
abbrev sent_vnet : Env → Vnet → List Event → NetDevice → Ptr → Vnet
sent_vnet env v k dev p =
    set_net
      (λ s. record s {
        queue = record (appended (record v.net_dev.queue { locked = true }) [] p) {
          locked = false;
        };
        device = some (record dev { trans_start = env.jiffies k });
      })
      v

module _ (env : Env) (grants : Grants env) (fuel : ℕ) (h : Heap) (v : Vnet) (l : List Event)
    (n count : ℕ) (hdr : List ℕ) (asks : Asks env l n count hdr) (dev : NetDevice) (p m : Ptr)
    (bs : List ℕ) (has_device : v.net_dev.device ≡ some dev) (is : IsQueue h v.net_dev.queue [])
    (free : v.net_dev.queue.locked ≡ false) (holds : h p ≡ some (skb m bs)) where
  -- A blocking read of an empty queue sleeps until the kernel hands over a packet, and then ends with it: the packet
  -- is put into the queue by `net_dev_send`, taken out and copied to user memory, of it the bytes that fit,
  -- the result is the size of a reply of one packet, and the queue is empty again with its lock free. The
  -- reader's entry is out of the wait queue, and the task is running. The packet is an allocated buffer that is
  -- not NULL, the interface is on, the device's limit is not 0, and no signal comes; the other conditions are
  -- those for `blocking_read-Woken`.
  pub blocking_read-Sent :
      (w i : Bool)
      → p ≢ null
      → v.net_dev.queue.enabled ≡ true
      → 0 < dev.tx_queue_len
      → Returns
          (OutOfWait (OneRead env hdr l p bs))
          (blocking_read env 8 (sender env p) (suc (suc fuel)) (pos n) (task (driver h v l) w i))
  blocking_read-Sent w i ne on room =
      let k = header_alloc ∷ l in
      let sent = accept_run env h v k dev [] p m bs has_device is free holds ne refl on room in
      let u = sent_vnet env v k dev p in
      let woken : Driver = driver (linked h [] p bs) u (wake_up ∷ k) in
      let there : (sender env p).others (driver h v k) ≡ woken =
        ap (λ r. state_of r (driver h v k)) sent in
      let queued = without_lock (
        appended-IsQueue h (record v.net_dev.queue { locked = true }) p m bs ne holds []
          (with_lock is) refl) in
      mono
        (blocking_read-Woken env grants (sender env p) (suc fuel) h v l n count hdr asks
          (linked h [] p bs) u (wake_up ∷ k) (record dev { trans_start = env.jiffies k }) p bs []
          refl queued refl 1 w i
          (sleep h v k refl is free
            (subst (Away (sender env p) true (driver h v k) 1) there (
              roused (
                ap (λ e. ltb (wake_ups k) (wake_ups e.log) || false) there
                ∙ more_wake_ups (wake_ups k))))
            refl awake)
          (omega arith))
        λ r t (all, out, run). (
          one_of env hdr u l (wake_up ∷ k) p bs count r t.driver asks.some_packet refl all,
          out,
          run,
        )
