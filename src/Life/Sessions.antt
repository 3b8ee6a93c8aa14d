-- ===== src/Life/Sessions.antt =====
-- One session with the device, from opening it to closing it, io_dev.c.
use kerion_vpn_client_docker.Base.{
  ℕ, ◌+◌, ◌≡◌, ◌∙◌, inl, inr, refl, sym, ap, subst, List, [], ◌∷◌, ◌++◌, arith, length,
}
use kerion_vpn_client_docker.Base.Int.{pos}
use kerion_vpn_client_docker.Machine.{pure, ◌>>◌, Returns, returns, bind}
use kerion_vpn_client_docker.Queue.{Heap}
use kerion_vpn_client_docker.Queue.Chain.{Cells, IsQueue}
use kerion_vpn_client_docker.NetDev.Packets.{HasLimit}
use kerion_vpn_client_docker.Driver.{Vnet, Event, Env, Driver, driver}
use kerion_vpn_client_docker.IoDev.{io_dev_close}
use kerion_vpn_client_docker.Resources.{held, one_if, Balanced, NoTraffic}
use kerion_vpn_client_docker.Resources.Device.{NoDevice, HasDevice, io_dev_open-OpenOutcome}
use kerion_vpn_client_docker.Traffic.{
  Action, send, read, write, ioctl, up, down, poll, get_stats, net_ioctl, run, sends, Fresh, Short,
  Sound, Inv, own,
}
use kerion_vpn_client_docker.Traffic.Run.{run-Ran, shown, at_object}
use kerion_vpn_client_docker.Life.{session, TellsUp}
use kerion_vpn_client_docker.Life.Closing.{Idle, Between, close-Between}

-- What is to be sent after some of the packets is fresh too.
Fresh-later :
    (h : Heap) (xs : Cells) (acts later : List Action)
    → Fresh h xs (sends (acts ++ later))
    → Fresh h xs (sends later)
Fresh-later h xs [] later f = f
Fresh-later h xs (send p bs ∷ acts) later f = Fresh-later h xs acts later f.4
Fresh-later h xs (read iv ∷ acts) later f = Fresh-later h xs acts later f
Fresh-later h xs (write iv ∷ acts) later f = Fresh-later h xs acts later f
Fresh-later h xs (ioctl cmd arg ∷ acts) later f = Fresh-later h xs acts later f
Fresh-later h xs (up ∷ acts) later f = Fresh-later h xs acts later f
Fresh-later h xs (down ∷ acts) later f = Fresh-later h xs acts later f
Fresh-later h xs (poll ∷ acts) later f = Fresh-later h xs acts later f
Fresh-later h xs (get_stats ∷ acts) later f = Fresh-later h xs acts later f
Fresh-later h xs (net_ioctl cmd ∷ acts) later f = Fresh-later h xs acts later f

-- The interface that was just added, with its empty queue.
pub opened-Inv :
    (n : ℕ) (h : Heap) (v w : Vnet) (l k : List Event) (cap : ℕ)
    → Idle n (driver h v l) v
    → w.net_dev.queue ≡ v.net_dev.queue
    → Balanced (driver h w k)
    → NoTraffic k l
    → HasLimit w cap
    → w.cfg.max_queue_len ≡ cap
    → Inv (held k) cap n (driver h w k) w []
opened-Inv n h v w l k cap idle same b calm there limit = record {
  serves = record {
    vnet = refl;
    queue = subst (λ q. IsQueue h q []) (sym same) idle.queue;
    free = ap (λ q. q.locked) same ∙ idle.free;
  };
  device = there;
  limit = limit;
  bounded = omega arith;
  counted = omega (arith, calm.0, idle.counted);
  held_same = refl;
  claims = sym (ap own b);
  on = calm.1 ∙ idle.off ∙ sym (ap (λ q. q.enabled) same ∙ idle.disabled);
  off_empty = λ e. refl;
}

module _ (env : Env) (sound : Sound env) (tells : TellsUp env) (n : ℕ) (h : Heap) (v : Vnet)
    (l : List Event) (acts later : List Action) (idle : Idle n (driver h v l) v)
    (short : Short acts) (fresh : Fresh h [] (sends (acts ++ later))) where
  -- The device could not be opened.
  not_opened :
      (w : Vnet) (k : List Event)
      → w.net_dev.queue ≡ v.net_dev.queue
      → w.cfg ≡ v.cfg
      → NoDevice w
      → Balanced (driver h w k)
      → NoTraffic k l
      → Between (n + 0) (sends later) (driver h w k)
  not_opened w k same cfg absent b calm = (
    w,
    record {
      vnet = refl;
      absent = absent;
      balanced = b;
      queue = subst (λ q. IsQueue h q []) (sym same) idle.queue;
      free = ap (λ q. q.locked) same ∙ idle.free;
      disabled = ap (λ q. q.enabled) same ∙ idle.disabled;
      off = calm.1 ∙ idle.off;
      counted = omega (arith, calm.0, idle.counted);
      limit = ap (λ c. c.max_queue_len) cfg ∙ idle.limit;
    },
    Fresh-later h [] acts later fresh,
  )

  -- The calls, and the closing.
  used :
      (w : Vnet) (k : List Event)
      → w.net_dev.queue ≡ v.net_dev.queue
      → w.cfg ≡ v.cfg
      → HasDevice v w
      → Balanced (driver h w k)
      → NoTraffic k l
      → Returns
          (λ m d. Between (n + m) (sends later) d)
          ((do run env acts; io_dev_close env; pure (length (sends acts))) (driver h w k))
  used w k same cfg there b calm =
      let (dev, is_dev, len, mtu) = there.device in
      bind
        (run-Ran env sound (held k) dev.tx_queue_len acts later n (driver h w k) w [] short
          (opened-Inv n h v w l k dev.tx_queue_len idle same b calm (dev, is_dev, refl)
            (ap (λ c. c.max_queue_len) cfg ∙ sym len))
          fresh)
        λ r d (u, ys, inv, still, _). bind (shut d u ys inv still) λ q e between. returns between
    where
      listed : (held k).registrations ≡ pos 1
      listed = ap (λ a. a.registrations) b ∙ ap one_if there.added

      at_start : there.device.0.tx_queue_len ≡ 256
      at_start = there.device.2 ∙ idle.limit

      served : (held k).headers ≡ pos 0
      served = ap (λ a. a.headers) b

      shut :
          (d : Driver) (u : Vnet) (ys : Cells)
          → Inv (held k) there.device.0.tx_queue_len (n + length (sends acts)) d u ys
          → Fresh d.heap ys (sends later)
          → Returns (λ r e. Between (n + length (sends acts)) (sends later) e) (io_dev_close env d)
      shut d u ys inv still =
          subst
            (λ e.
              Returns (λ r e. Between (n + length (sends acts)) (sends later) e)
                (io_dev_close env e))
            (shown d u inv.serves.vnet)
            (close-Between env tells (held k) there.device.0.tx_queue_len (n + length (sends acts))
              d.heap u d.log ys (sends later) (at_object d u inv) listed served at_start still)

  pub session-Between :
      Returns (λ m d. Between (n + m) (sends later) d) (session env acts (driver h v l))
  unfolding session
  session-Between =
      bind (io_dev_open-OpenOutcome env h v l (λ _. idle.absent) idle.balanced) λ r d out.
        elim out [
          | inl (busy, e, same) ↦
              rw (e, same)
                (returns (not_opened v l refl refl idle.absent idle.balanced (refl, refl)))
          | inr (closed, (w, shape, same, cfg, b, calm, inl (z, there, opened, uncancelled))) ↦
              rw z (
                subst
                  (λ e.
                    Returns (λ m d. Between (n + m) (sends later) d)
                      ((do run env acts; io_dev_close env; pure (length (sends acts))) e))
                  (sym shape) (used w d.log same cfg there (subst Balanced shape b) calm))
          | inr (closed, (w, shape, same, cfg, b, calm, inr (z, absent, io))) ↦ rw z (
              subst (λ e. Returns (λ m d. Between (n + m) (sends later) d) (pure 0 e)) (sym shape)
                (returns (not_opened w d.log same cfg absent (subst Balanced shape b) calm)))
        ]
