-- ===== src/Life/Bounded.antt =====
-- How many packets the driver keeps while the module is loaded: init.c, io_dev.c and net_dev.c together.
use kerion_vpn_client_docker.Base.{
  ℕ, ◌+◌, ◌≡◌, ◌≤◌, ◌∙◌, ◌⊎◌, inl, inr, refl, sym, ap, subst, true, none, List, [], ◌++◌, length,
  if◌then◌else◌, arith,
}
use kerion_vpn_client_docker.Base.Int.{is_zero}
use kerion_vpn_client_docker.Machine.{pure, ◌>>=◌, ◌>>◌, Returns, returns, bind}
use kerion_vpn_client_docker.Queue.{Heap}
use kerion_vpn_client_docker.Queue.Chain.{Cells, IsQueue}
use kerion_vpn_client_docker.Driver.{Vnet, Event, Env, Driver, driver, frees}
use kerion_vpn_client_docker.IoDev.{io_dev_open}
use kerion_vpn_client_docker.NetDev.Packets.{Serves}
use kerion_vpn_client_docker.Resources.{held, Balanced, NoTraffic}
use kerion_vpn_client_docker.Resources.Device.{HasDevice, io_dev_open-OpenOutcome}
use kerion_vpn_client_docker.Resources.Start.{module_start-Started}
use kerion_vpn_client_docker.Traffic.{Action, run, sends, Fresh, Short, Sound, every, AllShort}
use kerion_vpn_client_docker.Traffic.Run.{shown, run-Inv}
use kerion_vpn_client_docker.Life.{so_far, TellsUp}
use kerion_vpn_client_docker.Life.Closing.{Idle}
use kerion_vpn_client_docker.Life.Sessions.{opened-Inv}
use kerion_vpn_client_docker.Life.Whole.{Idle-shown, loaded-Idle, sessions-Between}

-- Each of the `n` packets that were handed over was given back or is in the queue, which holds at most 256; where the
-- module could not be loaded there is no queue.
abbrev pub Bounded : ℕ → Driver → Type 0
Bounded n d =
    ((d.vnet ≡ none) × (frees d.log ≡ n))
    ⊎ ((v : Vnet) × (xs : Cells) × Serves d v xs
        × (length xs ≤ 256)
        × (frees d.log + length xs ≡ n))

module _ (env : Env) (sound : Sound env) (n : ℕ) (h : Heap) (v : Vnet) (l : List Event)
    (acts : List Action) (idle : Idle n (driver h v l) v) (short : Short acts)
    (fresh : Fresh h [] (sends acts)) where
  -- The device could not be opened.
  closed-Bounded :
      (w : Vnet) (k : List Event)
      → w.net_dev.queue ≡ v.net_dev.queue
      → NoTraffic k l
      → Bounded n (driver h w k)
  closed-Bounded w k same calm = inr (
    w,
    [],
    record {
      vnet = refl;
      queue = subst (λ q. IsQueue h q []) (sym same) idle.queue;
      free = ap (λ q. q.locked) same ∙ idle.free;
    },
    omega arith,
    omega (arith, calm.0, idle.counted),
  )

  used-Bounded :
      (w : Vnet) (k : List Event)
      → w.net_dev.queue ≡ v.net_dev.queue
      → w.cfg ≡ v.cfg
      → HasDevice v w
      → Balanced (driver h w k)
      → NoTraffic k l
      → Returns Bounded ((do run env acts; pure (n + length (sends acts))) (driver h w k))
  used-Bounded w k same cfg there b calm =
      let (dev, is_dev, len, mtu) = there.device in
      bind
        (run-Inv env sound (held k) dev.tx_queue_len acts n (driver h w k) w [] short
          (opened-Inv n h v w l k dev.tx_queue_len idle same b calm (dev, is_dev, refl)
            (ap (λ c. c.max_queue_len) cfg ∙ sym len))
          fresh)
        λ r d (u, ys, inv).
          returns
            (inr (u, ys, inv.serves, omega (arith, inv.bounded, len, idle.limit), inv.counted))

  session-Bounded : Returns Bounded (
      (do
        r ← io_dev_open env
        if is_zero r then (do run env acts; pure (n + length (sends acts))) else pure n)
        (driver h v l))
  session-Bounded =
      bind (io_dev_open-OpenOutcome env h v l (λ _. idle.absent) idle.balanced) λ r d out.
        elim out [
          | inl (busy, e, same) ↦ rw (e, same) (returns (closed-Bounded v l refl (refl, refl)))
          | inr (closed, (w, shape, same, cfg, b, calm, inl (z, there, opened, uncancelled))) ↦
              rw z (
                subst (λ e. Returns Bounded ((do run env acts; pure (n + length (sends acts))) e))
                  (sym shape) (used-Bounded w d.log same cfg there (subst Balanced shape b) calm))
          | inr (closed, (w, shape, same, cfg, b, calm, inr (z, absent, io))) ↦ rw z (
              subst (λ e. Returns Bounded (pure n e)) (sym shape)
                (returns (closed-Bounded w d.log same calm)))
        ]

module _ (env : Env) (sound : Sound env) (tells : TellsUp env) (h : Heap)
    (over : List (List Action)) (acts : List Action) where
  -- At any time between two calls while the module is loaded, after any sessions with the device that are over
  -- and any calls of a session that goes on, the queue is well formed with its lock free and holds at most 256
  -- packets, and each packet that was handed over is in it or was given back: the driver never keeps more
  -- than 256 of the kernel's buffers. Where loading has failed, there is no object and nothing was handed over. The
  -- conditions are those for `life-Finished`.
  pub so_far-Bounded :
      env.kmalloc [] ≡ true
      → AllShort over
      → Short acts
      → Fresh h [] (sends (every over ++ acts))
      → Returns Bounded (so_far env over acts (record { heap = h; vnet = none; log = [] }))
  unfolding so_far
  so_far-Bounded memory short_over short fresh =
      bind (module_start-Started env h [] refl memory) λ r d out. elim out [
        | inr (z, (gone, released, calm)) ↦ rw z (returns (inl (gone, calm.0)))
        | inl (z, holds, b, (w, shape, same, cfg), calm) ↦ rw z (
            bind
              (sessions-Between env sound tells over acts 0 d w short_over
                (loaded-Idle d w (ap (λ e. e.vnet) shape) same cfg b calm)
                (subst (λ g. Fresh g [] (sends (every over ++ acts))) (sym (ap (λ e. e.heap) shape))
                  fresh))
              λ n e (u, idle, fresh').
                subst
                  (λ e. Returns Bounded (
                    (do
                      r ← io_dev_open env
                      if is_zero r
                          then (do run env acts; pure (n + length (sends acts)))
                          else pure n)
                      e))
                  (shown e u idle.vnet)
                  (session-Bounded env sound n e.heap u e.log acts
                    (Idle-shown n e u (subst (λ a. Idle a e u) (none_before n) idle)) short fresh'))
      ]
    where
      none_before : (n : ℕ) → 0 + n ≡ n
      none_before n = omega arith
