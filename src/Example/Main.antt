-- ===== src/Example/Main.antt =====
-- `main` of libkvnet/example/src/linux/main.cpp.
use kerion_vpn_client_docker.Base.{
  ℕ, ◌≤◌, sym, ◌≡◌, refl, ap, ◌∙◌, inl, inr, ◌⊎◌, none, some, Bool, true, false, List, ◌∷◌, length,
  Bool-cases, Option-cases, if◌then◌else◌, arith,
}
use kerion_vpn_client_docker.Machine.{pure, Returns, returns, bind, mono, ◌>>◌}
use kerion_vpn_client_docker.Kvnet.{
  Sys, Globals, opened, requested, closed, no_error, succeeded, make_status, finish_open, set_mtu,
  kvnet_open, kvnet_close,
}
use kerion_vpn_client_docker.Kvnet.Status.{make_status-parts}
use kerion_vpn_client_docker.Example.{
  uses_tap, Program, Host, on_lib, pkt_loop, cancel_loop, main, max_packets, max_data_size,
}
use kerion_vpn_client_docker.Example.Blocks.{Numbered, Covered}
use kerion_vpn_client_docker.Example.Rounds.{
  Reads, SameBlocks-Numbered, lift, cancel_loop-SameBlocks,
}
use kerion_vpn_client_docker.Example.Freed.{NothingLeft, Unmade, pkt_loop-NothingLeft}

module _ (sys : Sys) (g : Globals) where
  close_none : Returns (λ a t. t.fdesc ≡ none) (kvnet_close sys g)
  unfolding kvnet_close make_status
  close_none = elim (Option-cases g.fdesc) [
    | inl e ↦ simp (e) (returns e)
    | inr (fd, e) ↦ simp (e) (returns refl)
  ]

  -- An open that fails leaves no descriptor.
  abbrev Opens : ℕ → Globals → Type 0
  Opens a t = ((succeeded a ≡ true) ⊎ (t.fdesc ≡ none)) × (t.memory ≡ g.memory)

  finishes :
      (use_tap : Bool) (t : Globals)
      → t.memory ≡ g.memory
      → Returns Opens (finish_open sys use_tap t)
  unfolding finish_open
  finishes use_tap t same =
      mono (make_status-parts sys no_error _ (omega arith))
        λ a u (s, e, good, q). (inl good, ap (λ x. x.memory) q ∙ same)

  opens : (use_tap : Bool) → g.fdesc ≡ none → Returns Opens (kvnet_open sys use_tap g)
  unfolding kvnet_open set_mtu make_status
  opens use_tap n = simp (n) (elim (Option-cases (sys.open_device g.calls)) [
    | inl f ↦ simp (f) (returns (inr n, refl))
    | inr (fd, f) ↦ simp (f) (elim (Bool-cases use_tap) [
      | inr h ↦
          simp (h) (finishes false (record g { fdesc = some fd; calls = opened fd ∷ g.calls }) refl)
      | inl h ↦ simp (h) (elim (Bool-cases (sys.ioctl (opened fd ∷ g.calls))) [
        | inr a ↦ simp (a) (returns (inr refl, refl))
        | inl a ↦ simp (a) (elim (Option-cases (sys.socket (requested fd ∷ opened fd ∷ g.calls))) [
          | inl b ↦ simp (b) (
              finishes true
                (record g { fdesc = some fd; calls = requested fd ∷ opened fd ∷ g.calls }) refl)
          | inr (skfd, b) ↦ simp (b) (
              finishes true
                (record g {
                  fdesc = some fd;
                  calls =
                      closed skfd
                      ∷ requested skfd
                      ∷ opened skfd
                      ∷ requested fd
                      ∷ opened fd
                      ∷ g.calls;
                })
                refl)
        ])
      ])
    ])
  ])

module _ (sys : Sys) (host : Host) (long : max_data_size ≤ length host.contents) (ptr fuel n : ℕ)
    (reads : (ps : List ℕ) → length ps ≡ max_packets → Reads sys ptr fuel ps) where
  closes :
      (s t : Program)
      → NothingLeft s t
      → Returns
          (λ a r. NothingLeft s r × (r.lib.fdesc ≡ none))
          ((on_lib (kvnet_close sys) >> pure tt) t)
  unfolding on_lib
  closes s t same =
      bind (lift t (close_none sys t.lib))
        λ a r (e, q). returns ((λ p. ap (λ h. h p) q.0 ∙ same p), e)

  -- The thread, if it is created, and the last call of `cancel_loop`.
  thread :
      (s t : Program) (stack : List ℕ)
      → length stack ≡ max_packets
      → Numbered t
      → Unmade t
      → Covered host stack
      → NothingLeft s t
      → Returns
          (λ a r. NothingLeft s r)
          ((if host.pthread_create
              then pkt_loop sys host ptr fuel stack n >> cancel_loop sys
              else pure tt)
            t)
  thread s t stack len num unmade covered left = elim (Bool-cases host.pthread_create) [
    | inr e ↦ simp (e) (returns left)
    | inl e ↦ simp (e) (
        bind (pkt_loop-NothingLeft sys host long ptr fuel n reads t stack len num unmade covered)
          λ a u q. mono (cancel_loop-SameBlocks sys u) λ b v w p. ap (λ h. h p) w.0 ∙ q p ∙ left p)
  ]

  -- A run of the whole program, from where no device is open, ends with no device open and with just the blocks of
  -- memory in use that were before: under the conditions for `pktLoop` (every block is granted, or the
  -- slots of its array are NULL before; a new block has the bytes of a packet; each call of kvnet_read, for 64
  -- packets that have their room, returns, and where it succeeds tells at most 64 and leaves them their room;
  -- blocks are numbered by the calls that made them, and no packet with less room lies where the next ones are made),
  -- whatever the arguments, and whether the device opens and the thread is created, or not.
  pub main-NothingLeft :
      (s : Program) (args : List (List ℕ)) (stack : List ℕ)
      → length stack ≡ max_packets
      → Numbered s
      → Unmade s
      → Covered host stack
      → s.lib.fdesc ≡ none
      → Returns
          (λ a r. NothingLeft s r × (r.lib.fdesc ≡ none))
          (main sys host ptr fuel args stack n s)
  unfolding main on_lib
  main-NothingLeft s args stack len num unmade covered closed_first =
      bind (lift s (opens sys s.lib (uses_tap args) closed_first))
        λ status t ((opens, memory), same). elim (Bool-cases (succeeded status)) [
          | inr e ↦ simp (e) (returns ((λ p. ap (λ h. h p) same.0), ground (arith, opens, e)))
          | inl e ↦ simp (e) (
              bind
                (thread s (record t { can_run_loop = true }) stack len
                  (SameBlocks-Numbered s t status same num) (still_unmade t same.1 memory) covered
                  (λ p. ap (λ h. h p) same.0))
                λ a u left. closes s u left)
        ]
    where
      still_unmade :
          (t : Program)
          → t.made ≡ s.made
          → t.lib.memory ≡ s.lib.memory
          → Unmade (record t { can_run_loop = true })
      still_unmade t made memory p h q e =
          unmade p (omega (arith, made, h)) q (sym (ap (λ m. m.packet p) memory) ∙ e)
