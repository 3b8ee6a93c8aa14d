-- ===== src/Example/Uninitialised.antt =====
-- `pktLoop` of libkvnet/example/src/linux/main.cpp where a packet cannot be allocated.
use kerion_vpn_client_docker.Base.{
  ℕ, suc, ◌+◌, ◌≡◌, ◌≢◌, ◌≤◌, ◌<◌, refl, ap, ◌∙◌, inl, inr, Bool, true, false, List, [], ◌∷◌, ◌++◌,
  length, ◌==◌, arith,
}
use kerion_vpn_client_docker.Machine.{
  Run, Cmd, fault, bad_pointer, Returns, returns, bind, and_then,
}
use kerion_vpn_client_docker.Kvnet.{Sys, succeeded}
use kerion_vpn_client_docker.Kvnet.Transfer.{kvnet_get_driver_info}
use kerion_vpn_client_docker.Example.{
  Program, Host, on_lib, free, allocate, cleanup, pkt_loop, add_block, drop_block,
}
use kerion_vpn_client_docker.Example.Blocks.{
  Numbered, Filled, InUse, Filled-le, malloc-granted, malloc-refused, add_block-Numbered,
}
use kerion_vpn_client_docker.Example.Rounds.{SameBlocks-Numbered, lift}

module _ (s : Program) (numbered : Numbered s) (g : ℕ) (wild : g ≢ 0) (unused : s.live g ≡ false)
    (more : List ℕ) where
  -- An address that is no block is met behind the slot that is NULL.
  cleanup-bad_pointer :
      (ps : List ℕ) (lo hi : ℕ) (t : Program)
      → s.made ≤ lo
      → Filled lo ps hi
      → InUse s lo hi t
      → cleanup (ps ++ 0 ∷ g ∷ more) t ≡ fault bad_pointer
  unfolding cleanup free
  cleanup-bad_pointer [] lo hi t le o u =
      let other : (g == 0) ≡ false = ground arith in
      let dead : t.live g ≡ false = ground (arith, u g) in rw (other, dead) refl
  cleanup-bad_pointer (p ∷ ps) lo hi t le (inr (e, o)) u =
      let null : (p == 0) ≡ true = ground (arith, e) in
      rw null (cleanup-bad_pointer ps lo hi t le o u)
  cleanup-bad_pointer (p ∷ ps) lo hi t le (inl (e, o)) u =
      let block : (p == 0) ≡ false = ground (arith, e) in
      let live : t.live p ≡ true = ground (arith, u p, e, Filled-le ps (lo + 1) hi o) in
      rw (block, live)
        (cleanup-bad_pointer ps (lo + 1) hi (drop_block p t) (omega arith) o
          (λ q. ground (arith, u q, e, numbered q)))

-- What the array holds when the slot after `us` could not be filled.
abbrev Short : Program → List ℕ → List ℕ × Bool → Program → Type 0
Short s rest a t =
    (ps : List ℕ) × (a.0 ≡ ps ++ 0 ∷ rest)
    × (a.1 ≡ false)
    × Filled s.made ps t.made
    × InUse s s.made t.made t

allocate-Short :
    (host : Host) (us : List ℕ) (u : ℕ) (rest : List ℕ) (s : Program)
    → Numbered s
    → ((i : ℕ) → i < length us → host.grants (s.made + i) ≡ true)
    → host.grants (s.made + length us) ≡ false
    → Returns (Short s rest) (allocate host (us ++ u ∷ rest) s)
unfolding allocate
allocate-Short host [] u rest s n some_granted last =
    let refused : host.grants s.made ≡ false = ground (arith, last) in
    rw (malloc-refused host s refused) (returns ([], refl, refl, refl, λ p. ground arith))
allocate-Short host (v ∷ us) u rest s n some_granted last =
    let block : (s.made + 1 == 0) ≡ false = ground arith in
    let granted : host.grants s.made ≡ true = ground (arith, some_granted 0) in
    rw (malloc-granted host s granted, and_then, block)
      (bind
        (allocate-Short host us u rest (add_block s) (add_block-Numbered s n)
          (λ i h. ground (arith, some_granted (suc i))) (ground (arith, last)))
        λ a t (ps, e, f, o, w). returns (
          (s.made + 1) ∷ ps,
          ap (λ x. (s.made + 1) ∷ x) e,
          f,
          inl (refl, o),
          λ p. ground (arith, w p, n p, Filled-le ps (s.made + 1) t.made o),
        ))

-- A run that ends is followed by a fault.
fails :
    {A B : Type 0} {P : A → Program → Type 0} {r : Run Program A} {k : A → Cmd Program B}
    → Returns P r
    → ((a : A) (t : Program) → P a t → k a t ≡ fault bad_pointer)
    → and_then r k ≡ fault bad_pointer
fails (returns p) h = h _ _ p

-- Where the driver's version is told, and the block of the request and those of the packets up to a slot are granted
-- and the next one is refused, `pktLoop` frees what the following slot of the array, which was never
-- filled, holds on the stack: unless that is NULL, or is the address of a block, this is a fault.
pub pkt_loop-bad_pointer :
    (sys : Sys) (host : Host) (ptr fuel n : ℕ) (s : Program) (us : List ℕ) (u g : ℕ) (more : List ℕ)
    → Returns (λ status t. succeeded status ≡ true) (kvnet_get_driver_info sys true s.lib)
    → Numbered s
    → ((i : ℕ) → i ≤ length us → host.grants (s.made + i) ≡ true)
    → host.grants (s.made + 1 + length us) ≡ false
    → g ≢ 0
    → g ≢ s.made + 1
    → s.live g ≡ false
    → pkt_loop sys host ptr fuel (us ++ u ∷ g ∷ more) n s ≡ fault bad_pointer
unfolding pkt_loop on_lib
pkt_loop-bad_pointer sys host ptr fuel n s us u g more info num some_granted last wild other
      unused =
    fails (lift s info) λ status t (good, same).
      let made : t.made ≡ s.made = same.1 in
      let at : (i : ℕ) → i ≤ length us → host.grants (t.made + i) ≡ true =
        λ i h. ap (λ m. host.grants (m + i)) made ∙ some_granted i h in
      let granted : host.grants t.made ≡ true = ap host.grants (omega arith) ∙ at 0 (omega arith) in
      let block : (t.made + 1 == 0) ≡ false = ground arith in
      let numbered : Numbered (add_block t) =
        add_block-Numbered t (SameBlocks-Numbered s t status same num) in
      simp (good) (
        rw (malloc-granted host t granted, and_then, block)
          (fails
            (allocate-Short host us u (g ∷ more) (add_block t) numbered
              (λ i h. ap host.grants (omega arith) ∙ at (i + 1) (omega arith))
              (ap (λ m. host.grants (m + 1 + length us)) made ∙ last))
            λ a v (ps, e, f, o, w).
              let dead : (add_block t).live g ≡ false =
                ground (arith, made, other, unused, ap (λ h. h g) same.0) in
              rw (f, e)
                (rw
                  (cleanup-bad_pointer (add_block t) numbered g wild dead more ps (t.made + 1)
                    v.made v (omega arith) o w)
                  refl)))
