-- ===== src/Life/Whole.antt =====
-- The module from loading to unloading: init.c, io_dev.c and net_dev.c together.
use native.Mathlib.Nat.{add-zero}
use mathlib.Core.List.{append_assoc}
use kerion_vpn_client_docker.Base.{
  ℕ, ◌+◌, ◌≡◌, ◌∙◌, inl, inr, refl, sym, ap, subst, true, none, some, List, [], ◌∷◌, ◌++◌,
  append-nil, arith,
}
use kerion_vpn_client_docker.Machine.{Returns, returns, bind, mono}
use kerion_vpn_client_docker.Queue.{Heap, queue_init}
use kerion_vpn_client_docker.Queue.Chain.{IsQueue}
use kerion_vpn_client_docker.Driver.{Vnet, Env, Driver, driver, frees}
use kerion_vpn_client_docker.Init.{fresh_vnet, start_cfg, module_stop}
use kerion_vpn_client_docker.Resources.{claimed, nothing, held, Balanced, NoTraffic}
use kerion_vpn_client_docker.Resources.Start.{module_start-Started, module_stop-nothing}
use kerion_vpn_client_docker.Traffic.{Action, sends, Fresh, Sound, every, AllShort}
use kerion_vpn_client_docker.Traffic.Run.{shown}
use kerion_vpn_client_docker.Life.{session, sessions, life, TellsUp}
use kerion_vpn_client_docker.Life.Closing.{Idle, Between}
use kerion_vpn_client_docker.Life.Sessions.{session-Between}

pub Idle-shown : (n : ℕ) (d : Driver) (v : Vnet) → Idle n d v → Idle n (driver d.heap v d.log) v
Idle-shown n d v idle = record {
  vnet = refl;
  absent = idle.absent;
  balanced = idle.balanced ∙ ap claimed idle.vnet;
  queue = idle.queue;
  free = idle.free;
  disabled = idle.disabled;
  off = idle.off;
  counted = idle.counted;
  limit = idle.limit;
}

module _ (env : Env) (sound : Sound env) (tells : TellsUp env) where
  pub sessions-Between :
      (all : List (List Action)) (later : List Action) (n : ℕ) (d : Driver) (v : Vnet)
      → AllShort all
      → Idle n d v
      → Fresh d.heap [] (sends (every all ++ later))
      → Returns (λ m e. Between (n + m) (sends later) e) (sessions env all d)
  unfolding sessions
  sessions-Between [] later n d v short idle fresh = returns (v, rw add-zero idle, fresh)
  sessions-Between (acts ∷ rest) later n d v (one, short) idle fresh =
      bind
        (subst
          (λ e.
            Returns (λ m d. Between (n + m) (sends (every rest ++ later)) d) (session env acts e))
          (shown d v idle.vnet)
          (session-Between env sound tells n d.heap v d.log acts (every rest ++ later)
            (Idle-shown n d v idle) one
            (subst (λ a. Fresh d.heap [] (sends a)) (append_assoc acts (every rest) later) fresh)))
        λ m e (w, idle', fresh').
          bind (sessions-Between rest later (n + m) e w short idle' fresh')
            λ q g between. returns (subst (λ a. Between a (sends later) g) (sums n m q) between)
    where
      sums : (a b c : ℕ) → a + b + c ≡ a + (b + c)
      sums a b c = omega arith

-- The object is gone, nothing is held, and so many packets were given back.
abbrev pub Finished : ℕ → Driver → Type 0
Finished n d = (d.vnet ≡ none) × (held d.log ≡ nothing) × (frees d.log ≡ n)

unload-Finished :
    (n : ℕ) (d : Driver) (v : Vnet) → Idle n d v → Returns (λ r e. Finished n e) (module_stop d)
unload-Finished n d v idle =
    subst (λ e. Returns (λ r e. Finished n e) (module_stop e)) (shown d v idle.vnet)
      (mono
        (module_stop-nothing d.heap v d.log idle.absent.device idle.absent.added
          (Idle-shown n d v idle).balanced)
        λ r e (z, (gone, released, calm)). (gone, released, calm.0 ∙ idle.counted))

pub init-IsQueue : (h : Heap) → IsQueue h queue_init []
unfolding queue_init
init-IsQueue h = record { head = refl; tail = λ ne. absurd (ne refl); chain = tt; size = refl }

pub loaded-Idle :
    (d : Driver) (w : Vnet)
    → d.vnet ≡ some w
    → w.net_dev ≡ fresh_vnet.net_dev
    → w.cfg ≡ start_cfg
    → Balanced d
    → NoTraffic d.log []
    → Idle 0 d w
unfolding queue_init
loaded-Idle d w there same cfg b calm = record {
  vnet = there;
  absent = record { device = ap (λ a. a.device) same; added = ap (λ a. a.added) same };
  balanced = b;
  queue = subst (λ a. IsQueue d.heap a []) (sym (ap (λ a. a.queue) same)) (init-IsQueue d.heap);
  free = ap (λ a. a.queue.locked) same;
  disabled = ap (λ a. a.queue.enabled) same;
  off = calm.1;
  counted = calm.0;
  limit = ap (λ c. c.max_queue_len) cfg;
}

module _ (env : Env) (sound : Sound env) (tells : TellsUp env) (h : Heap)
    (all : List (List Action)) where
  -- From loading to unloading, with any sessions of the user program in between and any traffic in them, the
  -- driver does not fault, and at the end its object is gone, it holds no kernel resource, and it has given
  -- back each packet that was handed over to it, once: the result counts the packets of the sessions in which
  -- the device could be opened. If loading fails it is 0. This is for a 64-bit machine whose kernel has memory for
  -- the object, tells truly whether the interface is up, and copies and allocates as much as it is asked
  -- for; for different buffers that are allocated at the start, requests shorter than 2 ^ 32 bytes,
  -- and no packet that claims a length whose sum with NET_IP_ALIGN needs more than 32 bits.
  pub life-Finished :
      env.kmalloc [] ≡ true
      → AllShort all
      → Fresh h [] (sends (every all))
      → Returns Finished (life env all (record { heap = h; vnet = none; log = [] }))
  unfolding life
  life-Finished memory short fresh = bind (module_start-Started env h [] refl memory) λ r d out.
      elim out [
        | inl (z, holds, b, (w, shape, same, cfg), calm) ↦ rw z (
            bind
              (sessions-Between env sound tells all [] 0 d w short
                (loaded-Idle d w (ap (λ e. e.vnet) shape) same cfg b calm)
                (subst (λ g. Fresh g [] (sends (every all ++ []))) (sym (ap (λ e. e.heap) shape))
                  (rw append-nil fresh)))
              λ n e (u, idle, _).
                bind (unload-Finished (0 + n) e u idle)
                  λ q g ended. returns (subst (λ a. Finished a g) (none_before n) ended))
        | inr (z, (gone, released, calm)) ↦ rw z (returns (gone, released, calm.0))
      ]
    where
      none_before : (n : ℕ) → 0 + n ≡ n
      none_before n = omega arith
