-- ===== src/Example/Rounds.antt =====
-- The reading loop of `pktLoop` in libkvnet/example/src/linux/main.cpp.
use kerion_vpn_client_docker.Base.{
  ℕ, zero, suc, ◌+◌, ◌≡◌, ◌≤◌, refl, sym, ap, subst, ◌∙◌, inl, inr, some, Bool, true, false, List,
  [], ◌∷◌, length, get_elem?, get_elem?-ne-none, Bool-cases, Option-cases, ◌==◌, arith,
}
use kerion_vpn_client_docker.Machine.{Run, ok, Returns, returns, bind, mono}
use kerion_vpn_client_docker.Kvnet.{
  Packet, Memory, Sys, Globals, succeeded, kvnet_cancel_read, make_status,
}
use kerion_vpn_client_docker.Kvnet.Transfer.{kvnet_read}
use kerion_vpn_client_docker.Example.Blocks.{Numbered}
use kerion_vpn_client_docker.Example.{
  Program, Host, on_lib, lib_run, cancel_loop, renewed, renew_lengths, renew, read_length,
  max_data_size, report, run_loop, request_size, max_packets,
}

-- Every slot holds a block in use.
abbrev pub AllLive : (ℕ → Bool) → List ℕ → Type 0
AllLive live [] = Unit {0}
AllLive live (p ∷ ps) = (live p ≡ true) × AllLive live ps

-- The packet that memory has at an address, if any, has room for the longest one.
abbrev pub Roomy : ℕ → Memory → Type 0
Roomy p m = (q : Packet) → m.packet p ≡ some q → max_data_size ≤ length q.bytes

abbrev pub AllRoomy : List ℕ → Memory → Type 0
AllRoomy [] m = Unit {0}
AllRoomy (p ∷ ps) m = Roomy p m × AllRoomy ps m

-- There is a packet at an address, with the maximal length and room for it.
abbrev pub Renewed : ℕ → Memory → Type 0
Renewed p m =
    (q : Packet) × (m.packet p ≡ some q)
    × (q.data_len ≡ max_data_size)
    × (max_data_size ≤ length q.bytes)

abbrev pub AllRenewed : List ℕ → Memory → Type 0
AllRenewed [] m = Unit {0}
AllRenewed (p ∷ ps) m = Renewed p m × AllRenewed ps m

-- A call of the library to read a full request, with the packets as `renew` leaves them, returns; where it succeeds
-- it tells at most as many packets as were asked for, and their room is there as before.
abbrev pub Reads : Sys → ℕ → ℕ → List ℕ → Type 0
Reads sys ptr fuel ps =
    (g : Globals)
    → g.memory.count ≡ max_packets
    → g.memory.pkt ≡ ps
    → AllRenewed ps g.memory
    → Returns
        (λ status t.
          succeeded status ≡ true → (t.memory.count ≤ max_packets) × AllRoomy ps t.memory)
        (kvnet_read sys ptr fuel true (request_size ptr) g)

-- The same blocks are in use.
abbrev pub SameBlocks : {A : Type 0} → Program → A → Program → Type 0
SameBlocks s a t = (t.live ≡ s.live) × (t.made ≡ s.made)

pub lift :
    {A : Type 0} {P : A → Globals → Type 0} (s : Program) {r : Run Globals A}
    → Returns P r
    → Returns (λ a t. P a t.lib × SameBlocks s a t) (lib_run s r)
lift s (returns h) = returns (h, (refl, refl))

pub SameBlocks-Numbered :
    {A : Type 0} (s t : Program) (a : A) → SameBlocks s a t → Numbered s → Numbered t
SameBlocks-Numbered s t a (e, f) n p h = ap (λ g. g p) e ∙ n p (omega (arith, f))

cancel_total : (sys : Sys) (g : Globals) → Returns (λ a t. Unit {0}) (kvnet_cancel_read sys g)
unfolding kvnet_cancel_read make_status
cancel_total sys g = elim (Bool-cases g.use_tap_dev) [
  | inl e ↦ simp (e) (returns tt)
  | inr e ↦ simp (e) (elim (Option-cases g.fdesc) [
    | inl f ↦ simp (f) (returns tt)
    | inr (fd, f) ↦ simp (f) (elim (Bool-cases (sys.ioctl g.calls)) [
      | inl h ↦ simp (h) (returns tt)
      | inr h ↦ simp (h) (returns tt)
    ])
  ])
]

pub cancel_loop-SameBlocks : (sys : Sys) (s : Program) → Returns (SameBlocks s) (cancel_loop sys s)
unfolding cancel_loop on_lib
cancel_loop-SameBlocks sys s = elim (Bool-cases s.can_run_loop) [
  | inl e ↦ simp (e) (
      bind (lift (record s { can_run_loop = false }) (cancel_total sys s.lib)) λ a t q. returns q.1)
  | inr e ↦ simp (e) (returns (refl, refl))
]

module _ (host : Host) (long : max_data_size ≤ length host.contents) (p : ℕ) (m : Memory)
    (r : Roomy p m) where
  -- Setting one packet's length anew.
  renewed-Renewed : Renewed p (renewed host p m)
  renewed-Renewed = elim (Option-cases (m.packet p)) [
    | inl e ↦
        rw (renewed, e)
          (record { data_len = max_data_size; bytes = host.contents }, ground arith, refl, long)
    | inr (q, e) ↦
        rw (renewed, e) (record q { data_len = max_data_size }, ground arith, refl, r q e)
  ]

  other_packet : (q : ℕ) → (p == q) ≡ false → (renewed host p m).packet q ≡ m.packet q
  other_packet q ne = elim (Option-cases (m.packet p)) [
    | inl e ↦ rw (renewed, e, ne) refl
    | inr (x, e) ↦ rw (renewed, e, ne) refl
  ]

  renewed-keeps : (q : ℕ) → Renewed q m → Renewed q (renewed host p m)
  renewed-keeps q (x, e, len, room) = elim (Bool-cases (p == q)) [
    | inl same ↦
        let eq : p ≡ q = ground (arith, same) in
        subst (λ a. Renewed a (renewed host p m)) eq renewed-Renewed
    | inr ne ↦ (x, other_packet q ne ∙ e, len, room)
  ]

  renewed-Roomy : (q : ℕ) → Roomy q m → Roomy q (renewed host p m)
  renewed-Roomy q room x e = elim (Bool-cases (p == q)) [
    | inl same ↦
        let eq : p ≡ q = ground (arith, same) in
        let (y, f, len, big) = subst (λ a. Renewed a (renewed host p m)) eq renewed-Renewed in
        ground (arith, e, f, big)
    | inr ne ↦ room x (sym (other_packet q ne) ∙ e)
  ]

  renewed-AllRoomy : (qs : List ℕ) → AllRoomy qs m → AllRoomy qs (renewed host p m)
  renewed-AllRoomy [] room = tt
  renewed-AllRoomy (q ∷ qs) (room, rest) = (renewed-Roomy q room, renewed-AllRoomy qs rest)

module _ (host : Host) (long : max_data_size ≤ length host.contents) where
  -- All lengths are set anew.
  renew_lengths-SameBlocks :
      (ps : List ℕ) (s : Program)
      → AllLive s.live ps
      → AllRoomy ps s.lib.memory
      → Returns
          (λ a t.
            SameBlocks s a t
            × AllRenewed ps t.lib.memory
            × ((q : ℕ) → Renewed q s.lib.memory → Renewed q t.lib.memory))
          (renew_lengths host ps s)
  unfolding renew_lengths
  renew_lengths-SameBlocks [] s l r = returns ((refl, refl), tt, λ q n. n)
  renew_lengths-SameBlocks (p ∷ ps) s (e, l) (r, more) =
      let m = s.lib.memory in
      rw e (
        mono (renew_lengths-SameBlocks ps _ l (renewed-AllRoomy host long p m r ps more))
          λ a t (same, all, kept). (
            same,
            (kept p (renewed-Renewed host long p m r), all),
            λ q n. kept q (renewed-keeps host long p m r q n),
          ))

  all_there : (ps : List ℕ) (m n : Memory) → n.packet ≡ m.packet → AllRenewed ps m → AllRenewed ps n
  all_there [] m n same r = tt
  all_there (p ∷ ps) m n same ((q, e, len, room), r) =
      ((q, ap (λ f. f p) same ∙ e, len, room), all_there ps m n same r)

  renew-SameBlocks :
      (ps : List ℕ) (s : Program)
      → AllLive s.live ps
      → AllRoomy ps s.lib.memory
      → Returns
          (λ a t.
            SameBlocks s a t
            × (t.lib.memory.count ≡ max_packets)
            × (t.lib.memory.pkt ≡ ps)
            × AllRenewed ps t.lib.memory)
          (renew host ps s)
  unfolding renew
  renew-SameBlocks ps s l r =
      bind (renew_lengths-SameBlocks ps s l r)
        λ a t (same, all, kept). returns (same, refl, refl, all_there ps t.lib.memory _ refl all)

AllLive-get_elem? :
    (live : ℕ → Bool) (ps : List ℕ) (i p : ℕ)
    → AllLive live ps
    → get_elem? ps i ≡ some p
    → live p ≡ true
AllLive-get_elem? live [] i p l e = absurd (ground arith)
AllLive-get_elem? live (q ∷ ps) zero p (h, l) e = ground (arith, h, e)
AllLive-get_elem? live (q ∷ ps) (suc i) p (h, l) e = AllLive-get_elem? live ps i p l e

read_length-live :
    (ps : List ℕ) (i p : ℕ) (s : Program)
    → get_elem? ps i ≡ some p
    → s.live p ≡ true
    → read_length ps i s ≡ ok tt s
read_length-live ps i p s e l = rw (read_length, e, l) refl

report-SameBlocks :
    (ps : List ℕ) (n i : ℕ) (s : Program)
    → AllLive s.live ps
    → n + i ≤ length ps
    → Returns (λ a t. SameBlocks s a t × (t.lib ≡ s.lib)) (report ps n i s)
unfolding report
report-SameBlocks ps zero i s l h = returns ((refl, refl), refl)
report-SameBlocks ps (suc n) i s l h = elim (Option-cases (get_elem? ps i)) [
  | inl e ↦ absurd (get_elem?-ne-none ps i (omega arith) e)
  | inr (p, e) ↦
      let live : s.live p ≡ true = AllLive-get_elem? s.live ps i p l e in
      rw (read_length-live ps i p s e live) (report-SameBlocks ps n (i + 1) s l (omega arith))
]

module _ (sys : Sys) (host : Host) (long : max_data_size ≤ length host.contents) (ptr fuel : ℕ)
    (ps : List ℕ) (reads : Reads sys ptr fuel ps) (full : length ps ≡ max_packets) where
  pub run_loop-SameBlocks :
      (n : ℕ) (s : Program)
      → AllLive s.live ps
      → AllRoomy ps s.lib.memory
      → Returns (SameBlocks s) (run_loop sys host ptr fuel ps n s)
  unfolding run_loop on_lib
  run_loop-SameBlocks zero s l r = cancel_loop-SameBlocks sys s
  run_loop-SameBlocks (suc n) s l r = elim (Bool-cases s.can_run_loop) [
    | inr e ↦ simp (e) (returns (refl, refl))
    | inl e ↦ simp (e) (
        bind (renew-SameBlocks host long ps s l r) λ a t (same, c, p, ready).
          bind (lift t (reads t.lib c p ready)) λ status u (few, still).
            let live : AllLive u.live ps = subst (λ f. AllLive f ps) (sym (still.0 ∙ same.0)) l in
            elim (Bool-cases (succeeded status)) [
              | inr f ↦ simp (f) (returns (still.0 ∙ same.0, still.1 ∙ same.1))
              | inl f ↦
                  let (count, room) = few f in
                  simp (f) (
                    bind (report-SameBlocks ps u.lib.memory.count 0 u live (omega (arith, count)))
                      λ b v (q, lib).
                        mono
                          (run_loop-SameBlocks n v (subst (λ f. AllLive f ps) (sym q.0) live)
                            (subst (λ g. AllRoomy ps g.memory) (sym lib) room))
                          λ c w r. (r.0 ∙ q.0 ∙ still.0 ∙ same.0, r.1 ∙ q.1 ∙ still.1 ∙ same.1))
            ])
  ]
