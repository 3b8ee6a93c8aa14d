-- ===== src/Life/Closing.antt =====
-- The end of a session with the device, `io_dev_close` of io_dev.c.
use kerion_vpn_client_docker.Base.{
  ℕ, ◌≡◌, ◌∙◌, inl, inr, refl, sym, ap, subst, Bool, true, false, Bool-cases, List, [], ◌∷◌, arith,
  length, some,
}
use kerion_vpn_client_docker.Base.Int.{pos}
use kerion_vpn_client_docker.Machine.{Returns, returns}
use kerion_vpn_client_docker.Queue.{Heap, Queue}
use kerion_vpn_client_docker.Queue.Chain.{Cells, IsQueue}
use kerion_vpn_client_docker.Queue.Insert.{bytes_of}
use kerion_vpn_client_docker.NetDev.Flush.{freed, drained, drained_lem, closed_vnet}
use kerion_vpn_client_docker.Driver.{
  Vnet, Event, netdev_free, netdev_unregister, netif_stop, Env, Driver, driver, frees,
}
use kerion_vpn_client_docker.IoDev.{io_dev_close}
use kerion_vpn_client_docker.Resources.{Held, one_if, Balanced, switched_on}
use kerion_vpn_client_docker.Resources.Device.{NoDevice}
use kerion_vpn_client_docker.Resources.Close.{gone, close_up, close_down, held-freed}
use kerion_vpn_client_docker.Traffic.{Fresh, Inv}
use kerion_vpn_client_docker.Traffic.Steps.{Fresh-change, frees-freed}
use kerion_vpn_client_docker.Life.{TellsUp}

-- The module is loaded and its device closed: there is no interface, the queue is empty, each of the `n`
-- packets that were handed over was given back, and what is held is what the fields say.
pub record Idle (n : ℕ) (d : Driver) (v : Vnet) : Type 0 where
  pub vnet : d.vnet ≡ some v
  pub absent : NoDevice v
  pub balanced : Balanced d
  pub queue : IsQueue d.heap v.net_dev.queue []
  pub free : v.net_dev.queue.locked ≡ false
  pub disabled : v.net_dev.queue.enabled ≡ false
  pub off : switched_on d.log ≡ false
  pub counted : frees d.log ≡ n
  pub limit : v.cfg.max_queue_len ≡ 256

-- What is to be sent later is still fresh.
abbrev pub Between : ℕ → Cells → Driver → Type 0
Between n ys d = (v : Vnet) × Idle n d v × Fresh d.heap [] ys

one_if-true : (b : Bool) → one_if b ≡ pos 1 → b ≡ true
one_if-true true e = refl
one_if-true false e = absurd (ground (arith, e))

pub empty-IsQueue : (h g : Heap) (q : Queue) → IsQueue h q [] → IsQueue g q []
empty-IsQueue h g q is = record { head = is.head; tail = is.tail; chain = tt; size = is.size }

module _ (env : Env) (tells : TellsUp env) (k : Held) (cap n : ℕ) (h : Heap) (v : Vnet)
    (l : List Event) (xs ys : Cells) (inv : Inv k cap n (driver h v l) v xs)
    (registered : k.registrations ≡ pos 1) (no_request : k.headers ≡ pos 0) (at_start : cap ≡ 256)
    (fresh : Fresh h xs ys) where
  open inv use {serves, device, limit, counted, held_same, claims, on, off_empty}

  was_added : v.net_dev.added ≡ true
  was_added = one_if-true v.net_dev.added (ap (λ a. a.registrations) claims ∙ registered)

  in_balance : Balanced (driver h v l)
  in_balance = held_same ∙ (λ i. record k { headers = no_request i }) ∙ sym claims

  -- Closing the device ends the session, whether the interface is up or not.
  pub close-Between : Returns (λ r d. Between n ys d) (io_dev_close env (driver h v l))
  close-Between =
      let (dev, is_dev, len) = device in
      elim (Bool-cases (switched_on l)) [
        | inl e ↦
            let none_left : frees (freed xs l) ≡ n = omega (arith, frees-freed xs l, counted) in
            rw (close_up env h v l dev xs is_dev was_added serves.queue serves.free (tells l ∙ e)) (
              returns
                {s = driver (drained h xs) (gone (closed_vnet v xs))
                  (netdev_free ∷ netdev_unregister ∷ netif_stop ∷ freed xs l)}
                (
                  gone (closed_vnet v xs),
                  record {
                    vnet = refl;
                    absent = record { device = refl; added = refl };
                    balanced = ground (arith, held-freed xs l, in_balance, is_dev, was_added);
                    queue = record {
                      head = refl;
                      tail = λ ne. absurd (ne refl);
                      chain = tt;
                      size = refl;
                    };
                    free = refl;
                    disabled = refl;
                    off = refl;
                    counted = none_left;
                    limit = limit ∙ at_start;
                  },
                  Fresh-change h _ xs [] ys fresh
                      λ a i o. (ap bytes_of (drained_lem h xs a ∙ rw o), refl),
                ))
        | inr e ↦
            let none_queued : xs ≡ [] = off_empty (sym on ∙ e) in
            rw (close_down env h v l dev xs is_dev was_added serves.queue serves.free (tells l ∙ e))
              (returns {s = driver h (gone v) (netdev_free ∷ netdev_unregister ∷ l)} (
                gone v,
                record {
                  vnet = refl;
                  absent = record { device = refl; added = refl };
                  balanced = ground (arith, in_balance, is_dev, was_added);
                  queue =
                      empty-IsQueue h h _
                        (subst (IsQueue h v.net_dev.queue) none_queued serves.queue);
                  free = serves.free;
                  disabled = sym on ∙ e;
                  off = e;
                  counted = omega (arith, counted, ap length none_queued);
                  limit = limit ∙ at_start;
                },
                subst (λ zs. Fresh h zs ys) none_queued fresh,
              ))
      ]
