-- ===== src/Example/Blocks.antt =====
-- The blocks of memory that `pktLoop` of libkvnet/example/src/linux/main.cpp allocates and frees.
use kerion_vpn_client_docker.Base.{
  ℕ, ◌+◌, ◌≡◌, ◌≤◌, ◌<◌, refl, inl, inr, ◌⊎◌, Bool, true, false, List, [], ◌∷◌, length, ltb, ◌==◌,
  ◌&&◌, Bool-cases, if◌then◌else◌, arith,
}
use kerion_vpn_client_docker.Machine.{ok, Returns, returns, bind, and_then}
use kerion_vpn_client_docker.Example.{
  Program, Host, malloc, free, allocate, cleanup, add_block, drop_block,
}

-- Blocks are made one after the other, so none in use has a number beyond the last.
abbrev pub Numbered : Program → Type 0
Numbered s = (p : ℕ) → s.made < p → s.live p ≡ false

-- The slots of the array up to the first failure: blocks in use with increasing numbers, and NULL.
abbrev pub Filled : ℕ → List ℕ → ℕ → Type 0
Filled lo [] hi = lo ≡ hi
Filled lo (p ∷ ps) hi = ((p ≡ lo + 1) × Filled (lo + 1) ps hi) ⊎ ((p ≡ 0) × Filled lo ps hi)

-- What is in use beyond what was in use at first: the blocks from `lo` on, up to `hi`.
abbrev pub InUse : Program → ℕ → ℕ → Program → Type 0
InUse s lo hi t = (p : ℕ) → t.live p ≡ (if ltb lo p && ltb p (hi + 1) then true else s.live p)

pub Filled-le : (ps : List ℕ) (lo hi : ℕ) → Filled lo ps hi → lo ≤ hi
Filled-le [] lo hi o = omega (arith, o)
Filled-le (p ∷ ps) lo hi (inl (e, o)) = omega (arith, Filled-le ps (lo + 1) hi o)
Filled-le (p ∷ ps) lo hi (inr (e, o)) = Filled-le ps lo hi o

module _ (s : Program) (numbered : Numbered s) where
  pub cleanup-InUse :
      (ps : List ℕ) (lo hi : ℕ) (t : Program)
      → s.made ≤ lo
      → Filled lo ps hi
      → InUse s lo hi t
      → Returns
          (λ a r.
            ((p : ℕ) → r.live p ≡ s.live p) × (r.lib ≡ t.lib) × (r.can_run_loop ≡ t.can_run_loop))
          (cleanup ps t)
  unfolding cleanup free
  cleanup-InUse [] lo hi t le o u = returns ((λ p. ground (arith, u p)), refl, refl)
  cleanup-InUse (p ∷ ps) lo hi t le (inr (e, o)) u =
      let null : (p == 0) ≡ true = ground (arith, e) in rw null (cleanup-InUse ps lo hi t le o u)
  cleanup-InUse (p ∷ ps) lo hi t le (inl (e, o)) u =
      let block : (p == 0) ≡ false = ground (arith, e) in
      let live : t.live p ≡ true = ground (arith, u p, e, Filled-le ps (lo + 1) hi o) in
      rw (block, live)
        (cleanup-InUse ps (lo + 1) hi (drop_block p t) (omega arith) o
          (λ q. ground (arith, u q, e, numbered q)))

-- All slots hold a block.
abbrev pub AllFilled : ℕ → List ℕ → ℕ → Type 0
AllFilled lo [] hi = lo ≡ hi
AllFilled lo (p ∷ ps) hi = (p ≡ lo + 1) × AllFilled (lo + 1) ps hi

pub AllFilled-Filled : (ps : List ℕ) (lo hi : ℕ) → AllFilled lo ps hi → Filled lo ps hi
AllFilled-Filled [] lo hi o = o
AllFilled-Filled (p ∷ ps) lo hi (e, o) = inl (e, AllFilled-Filled ps (lo + 1) hi o)

-- The stack's slots are NULL.
abbrev pub Nulls : List ℕ → Type 0
Nulls [] = Unit {0}
Nulls (u ∷ us) = (u ≡ 0) × Nulls us

Nulls-Filled : (us : List ℕ) (lo : ℕ) → Nulls us → Filled lo us lo
Nulls-Filled [] lo n = refl
Nulls-Filled (u ∷ us) lo (e, n) = inr (e, Nulls-Filled us lo n)

-- Every block that is asked for is granted, or a slot that is not reached is NULL.
abbrev pub Covered : Host → List ℕ → Type 0
Covered host us = ((n : ℕ) → host.grants n ≡ true) ⊎ Nulls us

covers_rest : (host : Host) (u : ℕ) (us : List ℕ) → Covered host (u ∷ us) → Covered host us
covers_rest host u us (inl g) = inl g
covers_rest host u us (inr (e, n)) = inr n

-- What the array holds after the loop.
abbrev pub Allocated : Program → List ℕ → List ℕ × Bool → Program → Type 0
Allocated s us a t =
    (((a.1 ≡ true) × AllFilled s.made a.0 t.made × (length a.0 ≡ length us))
      ⊎ ((a.1 ≡ false) × Filled s.made a.0 t.made))
    × InUse s s.made t.made t
    × (t.lib ≡ s.lib)
    × (t.can_run_loop ≡ s.can_run_loop)

pub malloc-granted :
    (host : Host) (s : Program)
    → host.grants s.made ≡ true
    → malloc host s ≡ ok (s.made + 1) (add_block s)
unfolding malloc
malloc-granted host s e = simp (e)

pub malloc-refused :
    (host : Host) (s : Program) → host.grants s.made ≡ false → malloc host s ≡ ok 0 s
unfolding malloc
malloc-refused host s e = simp (e)

pub add_block-Numbered : (s : Program) → Numbered s → Numbered (add_block s)
add_block-Numbered s n p h = ground (arith, n p)

-- A block, and those that were allocated after it.
one_more :
    (s : Program)
    → Numbered s
    → (u : ℕ) (us : List ℕ) (a : List ℕ × Bool) (t : Program) → Allocated (add_block s) us a t
    → Allocated s (u ∷ us) ((s.made + 1) ∷ a.0, a.1) t
one_more s n u us a t (filled, inside, l, r) =
    let le : s.made + 1 ≤ t.made = elim filled [
      | inl (e, f, g) ↦
          Filled-le a.0 (s.made + 1) t.made (AllFilled-Filled a.0 (s.made + 1) t.made f)
      | inr (e, f) ↦ Filled-le a.0 (s.made + 1) t.made f
    ] in
    (
      elim filled [
        | inl (e, f, g) ↦ inl (e, (refl, f), omega (arith, g))
        | inr (e, f) ↦ inr (e, inl (refl, f))
      ],
      (λ p. ground (arith, inside p, n p)),
      l,
      r,
    )

pub allocate-Allocated :
    (host : Host) (us : List ℕ) (s : Program)
    → Numbered s
    → Covered host us
    → Returns (Allocated s us) (allocate host us s)
unfolding allocate
allocate-Allocated host [] s n c = returns (inl (refl, refl, refl), (λ p. ground arith), refl, refl)
allocate-Allocated host (u ∷ us) s n c = elim (Bool-cases (host.grants s.made)) [
  | inl e ↦
      let block : (s.made + 1 == 0) ≡ false = ground arith in
      rw (malloc-granted host s e) (
        rw (and_then, block)
          (bind
            (allocate-Allocated host us (add_block s) (add_block-Numbered s n)
              (covers_rest host u us c))
            λ a t q. returns (one_more s n u us a t q)))
  | inr e ↦ elim c [
    | inl g ↦ absurd (ground (arith, g s.made, e))
    | inr (f, nulls) ↦ rw (malloc-refused host s e) (
        returns
          (inr (refl, inr (refl, Nulls-Filled us s.made nulls)), (λ p. ground arith), refl, refl))
  ]
]
