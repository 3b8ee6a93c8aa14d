-- ===== src/Traffic/Steps.antt =====
-- What the calls of the kernel do to the queue and to the packets that are still to be sent.
use mathlib.Core.Bool.{false≢true}
use kerion_vpn_client_docker.Base.{
  ℕ, ◌+◌, ◌<◌, ◌≤◌, ◌≡◌, ◌≢◌, refl, sym, ap, ◌∙◌, true, false, ◌⊎◌, inl, inr, none, List, [], ◌∷◌,
  ◌++◌, arith, length, length-append,
}
use kerion_vpn_client_docker.Machine.{Returns, returns}
use kerion_vpn_client_docker.Queue.{Ptr, Heap, Queue, write, queue_enable}
use kerion_vpn_client_docker.Queue.Chain.{Cells, has, IsQueue, frame, has-snoc}
use kerion_vpn_client_docker.Queue.Insert.{
  appended, appended-IsQueue, bytes_of, bytes_at, linked-bytes,
}
use kerion_vpn_client_docker.Queue.Fifo.{holds_of}
use kerion_vpn_client_docker.NetDev.Send.{with_lock, without_lock, accept_run, drop_run}
use kerion_vpn_client_docker.NetDev.Flush.{
  freed, drained, closed_vnet, disabled-IsQueue, drained_lem, close-ok,
}
use kerion_vpn_client_docker.Driver.{
  Vnet, Event, netif_stop, free_skb, Env, driver, frees, on_queue,
}
use kerion_vpn_client_docker.NetDev.{net_dev_send, net_dev_open, net_dev_close}
use kerion_vpn_client_docker.Resources.{Held}
use kerion_vpn_client_docker.Resources.Close.{held-freed}
use kerion_vpn_client_docker.Queue.Chain.{packets}
use kerion_vpn_client_docker.Traffic.{send, up, down, wire_of, Fresh, Inv, Keeps}

pub length-packets : (xs : Cells) → length (packets xs) ≡ length xs
length-packets [] = refl
length-packets ((p, bs) ∷ xs) = omega (arith, length-packets xs)

pub packets-append : (xs ys : Cells) → packets (xs ++ ys) ≡ packets xs ++ packets ys
packets-append [] ys = refl
packets-append ((p, bs) ∷ xs) ys = ap (◌∷◌ bs) (packets-append xs ys)

pub Fresh-change :
    (h g : Heap) (xs zs ys : Cells)
    → Fresh h xs ys
    → ((a : Ptr)
        → has a ys ≡ true
        → has a xs ≡ false
        → (bytes_at g a ≡ bytes_at h a) × (has a zs ≡ false))
    → Fresh g zs ys
Fresh-change h g xs zs [] f keep = tt
Fresh-change h g xs zs ((p, bs) ∷ ys) f keep =
    let k = keep p (ground arith) f.2 in
    (f.0, k.0 ∙ f.1, k.1, f.3, Fresh-change h g xs zs ys f.4 λ a i. keep a (ground arith))

ne_of_fresh : (a p : Ptr) (ys : Cells) → has a ys ≡ true → has p ys ≡ false → a ≢ p
ne_of_fresh a p ys i out e = false≢true (sym out ∙ ap (λ b. has b ys) (sym e) ∙ i)

-- Giving back a buffer that is not queued leaves the queue, and every other buffer.
spared :
    (h : Heap) {q : Queue} (p : Ptr) (xs : Cells)
    → has p xs ≡ false
    → IsQueue h q xs
    → IsQueue (write h p none) q xs
spared h p xs out is = record {
  head = is.head;
  tail = is.tail;
  chain = frame h _ xs is.chain λ a i. gone a (ne_of_fresh a p xs i out);
  size = is.size;
}
  where
    gone : (a : Ptr) → a ≢ p → write h p none a ≡ h a
    gone a ne = ground arith

other_bytes : (h : Heap) (p a : Ptr) → a ≢ p → bytes_at (write h p none) a ≡ bytes_at h a
other_bytes h p a ne = ap bytes_of gone
  where
    gone : write h p none a ≡ h a
    gone = ground arith

pub frees-freed : (xs : Cells) (l : List Event) → frees (freed xs l) ≡ frees l + length xs
frees-freed [] l = omega arith
frees-freed ((p, bs) ∷ xs) l = omega (arith, frees-freed xs (free_skb p ∷ l))

module _ (env : Env) (k : Held) (cap n : ℕ) (h : Heap) (v : Vnet) (l : List Event) (xs ys : Cells)
    (inv : Inv k cap n (driver h v l) v xs) where
  open inv use {serves, device, limit, bounded, counted, held_same, claims, on, off_empty}

  same_switch :
      (zs : Cells) (p : Ptr)
      → (appended (record v.net_dev.queue { locked = true }) zs p).enabled ≡ v.net_dev.queue.enabled
  same_switch [] p = refl
  same_switch (z ∷ zs) p = refl

  pub send_room :
      (p : Ptr) (bs : List ℕ)
      → Fresh h xs ((p, bs) ∷ ys)
      → v.net_dev.queue.enabled ≡ true
      → length xs < cap
      → Returns
          (Keeps k cap (n + 1) ys (send p bs) (wire_of v xs))
          (net_dev_send env p (driver h v l))
  send_room p bs (ne, at, out, later, fresh) open_queue room =
      let (m, holds) = holds_of h p bs at in
      let (dev, is_dev, len) = device in
      rw
        (accept_run env h v l dev xs p m bs is_dev serves.queue serves.free holds ne out open_queue
          (omega arith))
        (returns (
          _,
          xs ++ (p, bs) ∷ [],
          record {
            serves = record {
              vnet = refl;
              queue =
                  without_lock
                    (appended-IsQueue h _ p m bs ne holds xs (with_lock serves.queue) out);
              free = refl;
            };
            device = (_, refl, len);
            limit = limit;
            bounded = omega (arith, length-append xs ((p, bs) ∷ []));
            counted = omega (arith, length-append xs ((p, bs) ∷ []));
            held_same = held_same;
            claims = ground (arith, is_dev, claims);
            on = on ∙ sym (same_switch xs p);
            off_empty = λ e. absurd (false≢true (sym e ∙ same_switch xs p ∙ open_queue));
          },
          Fresh-change h _ xs _ ys fresh λ a i o. (
            linked-bytes h xs p m bs serves.queue.chain holds out a,
            has-snoc a p bs xs o (ne_of_fresh a p ys i later),
          ),
          inl (
            open_queue,
            omega (arith, length-packets xs),
            same_switch xs p ∙ open_queue,
            packets-append xs ((p, bs) ∷ []),
          ),
        ))

  too_many :
      (v.net_dev.queue.enabled ≡ false) ⊎ (cap ≤ length xs)
      → (v.net_dev.queue.enabled ≡ false) ⊎ (cap ≤ length (packets xs))
  too_many (inl e) = inl e
  too_many (inr le) = inr (omega (arith, length-packets xs))

  pub send_full :
      (p : Ptr) (bs : List ℕ)
      → Fresh h xs ((p, bs) ∷ ys)
      → (v.net_dev.queue.enabled ≡ false) ⊎ (cap ≤ length xs)
      → Returns
          (Keeps k cap (n + 1) ys (send p bs) (wire_of v xs))
          (net_dev_send env p (driver h v l))
  send_full p bs (ne, at, out, later, fresh) why =
      let (m, holds) = holds_of h p bs at in
      let (dev, is_dev, len) = device in
      rw (drop_run env h v l dev xs p m bs is_dev serves.queue serves.free holds (ground arith)) (
        returns (
          _,
          xs,
          record {
            serves = record {
              vnet = refl;
              queue = spared h p xs out serves.queue;
              free = serves.free;
            };
            device = device;
            limit = limit;
            bounded = bounded;
            counted = omega arith;
            held_same = held_same;
            claims = claims;
            on = on;
            off_empty = off_empty;
          },
          Fresh-change h _ xs _ ys fresh
              λ a i o. (other_bytes h p a (ne_of_fresh a p ys i later), o),
          inr (too_many why, refl),
        ))

  pub up-Keeps :
      Fresh h xs ys → Returns (Keeps k cap n ys up (wire_of v xs)) (net_dev_open (driver h v l))
  unfolding net_dev_open on_queue queue_enable
  up-Keeps fresh = rw serves.free (
      returns (
        _,
        xs,
        record {
          serves = record { vnet = refl; queue = disabled-IsQueue true serves.queue; free = refl };
          device = device;
          limit = limit;
          bounded = bounded;
          counted = counted;
          held_same = held_same;
          claims = claims;
          on = refl;
          off_empty = λ e. absurd (false≢true (sym e));
        },
        fresh,
        (refl, refl),
      ))

  pub down-Keeps :
      Fresh h xs ys → Returns (Keeps k cap n ys down (wire_of v xs)) (net_dev_close (driver h v l))
  down-Keeps fresh =
      let none_left : frees (freed xs l) + 0 ≡ n = omega (arith, frees-freed xs l, counted) in
      rw (close-ok h v l xs serves.queue serves.free) (
        returns {s = driver (drained h xs) (closed_vnet v xs) (netif_stop ∷ freed xs l)} (
          closed_vnet v xs,
          [],
          record {
            serves = record {
              vnet = refl;
              queue = record {
                head = refl;
                tail = λ ne. absurd (ne refl);
                chain = tt;
                size = refl;
              };
              free = refl;
            };
            device = device;
            limit = limit;
            bounded = omega arith;
            counted = none_left;
            held_same = held-freed xs l ∙ held_same;
            claims = claims;
            on = refl;
            off_empty = λ e. refl;
          },
          Fresh-change h _ xs [] ys fresh λ a i o. (ap bytes_of (drained_lem h xs a ∙ rw o), refl),
          (refl, refl),
        ))
