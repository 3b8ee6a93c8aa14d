-- ===== src/Example/Freed.antt =====
-- The memory of `pktLoop` in libkvnet/example/src/linux/main.cpp.
use kerion_vpn_client_docker.Base.{
  ℕ, ◌+◌, ◌<◌, refl, sym, subst, Option-cases, ◌≡◌, ◌≤◌, ap, ◌∙◌, inl, inr, Bool, true, false, List,
  [], ◌∷◌, length, ◌==◌, Bool-cases, if◌then◌else◌, arith,
}
use kerion_vpn_client_docker.Machine.{Cmd, pure, Returns, returns, bind, and_then, ◌>>◌}
use kerion_vpn_client_docker.Kvnet.{opened, Memory, Sys, Globals, succeeded, make_status}
use kerion_vpn_client_docker.Kvnet.Transfer.{kvnet_get_mac, kvnet_get_driver_info}
use kerion_vpn_client_docker.Example.{
  Program, Host, on_lib, free, cleanup, run_loop, pkt_loop, add_block, max_packets, max_data_size,
}
use kerion_vpn_client_docker.Example.Blocks.{
  Numbered, InUse, AllFilled, AllFilled-Filled, Filled-le, Covered, Allocated, allocate-Allocated,
  cleanup-InUse, malloc-granted, malloc-refused, add_block-Numbered,
}
use kerion_vpn_client_docker.Example.Rounds.{
  Roomy, AllRoomy, AllLive, Reads, SameBlocks, SameBlocks-Numbered, lift, run_loop-SameBlocks,
}

-- The same addresses are those of blocks in use.
abbrev pub NothingLeft : Program → Program → Type 0
NothingLeft s t = (p : ℕ) → t.live p ≡ s.live p

AllFilled-AllLive :
    (s : Program) (ps : List ℕ) (lo at hi : ℕ) (t : Program)
    → InUse s lo hi t
    → lo ≤ at
    → AllFilled at ps hi
    → AllLive t.live ps
AllFilled-AllLive s [] lo at hi t u le f = tt
AllFilled-AllLive s (p ∷ ps) lo at hi t u le (e, f) =
    let end = Filled-le ps (at + 1) hi (AllFilled-Filled ps (at + 1) hi f) in
    (ground (arith, u p), AllFilled-AllLive s ps lo (at + 1) hi t u (omega arith) f)

-- Memory has no packet with too little room where the next blocks are made.
abbrev pub Unmade : Program → Type 0
Unmade s = (p : ℕ) → s.made < p → Roomy p s.lib.memory

AllFilled-AllRoomy :
    (s : Program) (m : Memory) (ps : List ℕ) (at hi : ℕ)
    → ((p : ℕ) → s.made < p → Roomy p m)
    → s.made ≤ at
    → AllFilled at ps hi
    → AllRoomy ps m
AllFilled-AllRoomy s m [] at hi u le f = tt
AllFilled-AllRoomy s m (p ∷ ps) at hi u le (e, f) =
    (u p (omega arith), AllFilled-AllRoomy s m ps (at + 1) hi u (omega arith) f)

-- Asking for the driver's version leaves the packets as they are.
get_mac-packets :
    (sys : Sys) (g : Globals)
    → Returns (λ a t. t.memory.packet ≡ g.memory.packet) (kvnet_get_mac sys g)
unfolding kvnet_get_mac
get_mac-packets sys g = elim (Option-cases (sys.socket g.calls)) [
  | inl e ↦ simp (e) (returns refl)
  | inr (sock, e) ↦ simp (e) (elim (Option-cases (sys.get_hwaddr (opened sock ∷ g.calls))) [
    | inl f ↦ simp (f) (returns refl)
    | inr (addr, f) ↦ simp (f) (returns refl)
  ])
]

driver_info-packets :
    (sys : Sys) (g : Globals)
    → Returns (λ a t. t.memory.packet ≡ g.memory.packet) (kvnet_get_driver_info sys true g)
unfolding kvnet_get_driver_info make_status
driver_info-packets sys g = elim (Bool-cases g.use_tap_dev) [
  | inl e ↦ simp (e) (bind (get_mac-packets sys _) λ a t p. returns p)
  | inr e ↦ simp (e) (elim (Option-cases g.fdesc) [
    | inl h ↦ simp (h) (returns refl)
    | inr (fd, h) ↦ simp (h) (elim (Option-cases (sys.get_info g.calls)) [
      | inl i ↦ simp (i) (returns refl)
      | inr (x, i) ↦ simp (i) (returns refl)
    ])
  ])
]

-- The block of the request, which was made before the packets.
free_header :
    {A : Type 0} (s t : Program) (a : A)
    → SameBlocks s a t
    → Numbered s
    → (r : Program) → NothingLeft (add_block t) r
    → Returns (λ b v. NothingLeft s v) (free (t.made + 1) r)
unfolding free
free_header s t a same n r w =
    let live : r.live (t.made + 1) ≡ true = ground (arith, w (t.made + 1)) in
    rw live (returns λ p. ground (arith, w p, n p, same.1, ap (λ g. g p) same.0))

module _ (sys : Sys) (host : Host) (long : max_data_size ≤ length host.contents) (ptr fuel n : ℕ)
    (reads : (ps : List ℕ) → length ps ≡ max_packets → Reads sys ptr fuel ps) where
  -- The loop, if all packets were allocated, and what follows, from where the packets are.
  body :
      {Q : Unit {0} → Program → Type 0} {k : Cmd Program (Unit {0})} (s : Program) (us : List ℕ)
      (pkt : List ℕ × Bool) (t : Program)
      → length us ≡ max_packets
      → Numbered s
      → Unmade s
      → Allocated s us pkt t
      → ((r : Program) → NothingLeft s r → Returns Q (k r))
      → Returns Q (
          ((if pkt.1 then run_loop sys host ptr fuel pkt.0 n else pure tt) >> (cleanup pkt.0 >> k))
            t)
  body s us (ps, true) t len num unmade (inl (e, f, g), u, l, c) next =
      bind
        (run_loop-SameBlocks sys host long ptr fuel ps (reads ps (g ∙ len)) (g ∙ len) n t
          (AllFilled-AllLive s ps s.made s.made t.made t u (omega arith) f)
          (AllFilled-AllRoomy s t.lib.memory ps s.made t.made
            (subst (λ g. (p : ℕ) → s.made < p → Roomy p g.memory) (sym l) unmade) (omega arith) f))
        λ a r q.
          bind
            (cleanup-InUse s num ps s.made t.made r (omega arith)
              (AllFilled-Filled ps s.made t.made f) (λ p. ap (λ h. h p) q.0 ∙ u p))
            λ b v w. next v w.0
  body s us (ps, false) t len num unmade (inl (e, f, g), u, l, c) next = absurd (ground (arith, e))
  body s us (ps, true) t len num unmade (inr (e, f), u, l, c) next = absurd (ground (arith, e))
  body s us (ps, false) t len num unmade (inr (e, f), u, l, c) next =
      bind (cleanup-InUse s num ps s.made t.made t (omega arith) f u) λ b v w. next v w.0

  -- `pktLoop` on an array of 64 slots returns, with just the blocks in use that were before: each block that it has
  -- allocated is freed once, however often it reads. It is so where every block is granted, or where
  -- the slots of the array are NULL before they are filled; and where a new block has the bytes of a packet, and
  -- each call of kvnet_read, for 64 packets that have their room, returns, and where it succeeds tells at most 64
  -- packets and leaves them their room. Blocks are numbered by the calls that made them, and no packet with less
  -- room lies in memory where the next blocks are made.
  pub pkt_loop-NothingLeft :
      (s : Program) (stack : List ℕ)
      → length stack ≡ max_packets
      → Numbered s
      → Unmade s
      → Covered host stack
      → Returns (λ a r. NothingLeft s r) (pkt_loop sys host ptr fuel stack n s)
  unfolding pkt_loop on_lib
  pkt_loop-NothingLeft s stack len num unmade covered =
      bind (lift s (driver_info-packets sys s.lib)) λ status t (packets, same).
        elim (Bool-cases (succeeded status)) [
          | inr e ↦ simp (e) (returns λ p. ap (λ h. h p) same.0)
          | inl e ↦ simp (e) (elim (Bool-cases (host.grants t.made)) [
            | inr f ↦ rw (malloc-refused host t f, and_then) (returns λ p. ap (λ h. h p) same.0)
            | inl f ↦
                let block : (t.made + 1 == 0) ≡ false = ground arith in
                let numbered : Numbered (add_block t) =
                  add_block-Numbered t (SameBlocks-Numbered s t status same num) in
                rw (malloc-granted host t f, and_then, block)
                  (bind (allocate-Allocated host stack (add_block t) numbered covered) λ pkt u q.
                    body (add_block t) stack pkt u len numbered (still_unmade t same.1 packets) q
                      λ r w. free_header s t status same num r w)
          ])
        ]
    where
      still_unmade :
          (t : Program)
          → t.made ≡ s.made
          → t.lib.memory.packet ≡ s.lib.memory.packet
          → Unmade (add_block t)
      still_unmade t made packets p h q e =
          unmade p (omega (arith, made, h)) q (sym (ap (λ f. f p) packets) ∙ e)
