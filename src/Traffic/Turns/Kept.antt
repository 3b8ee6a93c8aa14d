-- ===== src/Traffic/Turns/Kept.antt =====
-- A read of drivers/vpn/linux/io_read.c between whose rounds other calls of the driver come.
use kerion_vpn_client_docker.Base.{
  ℕ, zero, suc, ◌+◌, ◌*◌, ◌≤◌, ◌≡◌, ◌⊎◌, inl, inr, refl, sym, ap, subst, true, Bool-cases, List, [],
  length, append-nil, ltb, arith,
}
use kerion_vpn_client_docker.Base.Int.{ℤ, pos, negsuc, is_neg, to_ℕ}
use kerion_vpn_client_docker.Machine.{pure, ◌>>◌, Returns, returns, bind, mono}
use kerion_vpn_client_docker.Queue.Chain.{Cells}
use kerion_vpn_client_docker.Driver.{Vnet, Env, Driver}
use kerion_vpn_client_docker.Resources.{Held}
use kerion_vpn_client_docker.Io.{read_loop}
use kerion_vpn_client_docker.Io.Read.{read_loop-Looped}
use kerion_vpn_client_docker.Traffic.{
  Action, read, run, every, sends, Fresh, AllShort, Sound, Inv, Wire, wire_of, Moves, Follows,
}
use kerion_vpn_client_docker.Traffic.Run.{shown, at_object, run-Ran}
use kerion_vpn_client_docker.Traffic.Requests.{took}
use kerion_vpn_client_docker.Traffic.Turns.Woven.{
  handed_over, handed_over-cut, every-cut, every-Short, first-Short, rest-AllShort, Woven, woven,
}
use kerion_vpn_client_docker.Traffic.Turns.{turns_loop, first_of, rest_of}

-- A count, or an error.
abbrev pub Counts : ℤ → Type 0
Counts r = ((c : ℕ) × (r ≡ pos c)) ⊎ (is_neg r ≡ true)

abbrev pub LoopKept : Held → ℕ → ℕ → List (List Action) → Wire → ℤ → Driver → Type 0
LoopKept k cap n turns s r e =
    Counts r × (w : Vnet) × (zs : Cells) × Inv k cap n e w zs × Woven cap turns s (wire_of w zs)

error_below : (m : ℕ) (r : ℤ) → is_neg r ≡ true → ltb m (to_ℕ r) ≡ true → ⊥
error_below m (pos n) neg z = absurd (ground (arith, neg))
error_below m (negsuc n) neg z = absurd (ground (arith, z))

module _ (env : Env) (sound : Sound env) (k : Held) (cap : ℕ) (hdr : List ℕ) where
  -- One round.
  round-Inv :
      (i m n : ℕ) (d : Driver) (v : Vnet) (xs ys : Cells)
      → 4 + (i + 1) * 8 ≤ length hdr
      → Inv k cap n d v xs
      → Fresh d.heap xs ys
      → Returns
          (λ r e.
            Counts r
            × (w : Vnet) × (zs : Cells) × Inv k cap n e w zs
            × Fresh e.heap zs ys
            × Moves cap (read []) (wire_of v xs) (wire_of w zs))
          (read_loop env 8 hdr 1 i (pos m) d)
  round-Inv i m n d v xs ys fits inv fresh =
      subst
        (λ e.
          Returns
            (λ r e.
              Counts r
              × (w : Vnet) × (zs : Cells) × Inv k cap n e w zs
              × Fresh e.heap zs ys
              × Moves cap (read []) (wire_of v xs) (wire_of w zs))
            (read_loop env 8 hdr 1 i (pos m) e))
        (shown d v inv.serves.vnet)
        (mono
          (read_loop-Looped env hdr 1 i m d.heap v d.log xs inv.serves.queue inv.serves.free fits)
          λ r e (w, taken, left, t, out).
            let (u, zs, kept, still, move) =
              took env sound k cap n d.heap v d.log xs ys (at_object d v inv) [] r e w taken left
                t.split (record { vnet = ap (λ a. a.vnet) t.shape; queue = t.queue; free = t.free })
                t.device t.settings_same t.others t.held_same t.frees_taken fresh in
            (counts taken out, u, zs, kept, still, move))
    where
      counts :
          {r : ℤ} {C : Type 0} (taken : Cells)
          → ((r ≡ pos (m + length taken)) × C) ⊎ (is_neg r ≡ true)
          → Counts r
      counts taken (inl (e, c)) = inl (m + length taken, e)
      counts taken (inr neg) = inr neg

  -- What comes behind the loop.
  behind :
      (n : ℕ) (turns : List (List Action)) (r : ℤ) (d : Driver) (v : Vnet) (xs : Cells)
      → Counts r
      → AllShort turns
      → Inv k cap n d v xs
      → Fresh d.heap xs (sends (every turns))
      → Returns
          (LoopKept k cap (n + handed_over turns) turns (wire_of v xs))
          ((do run env (every turns); pure r) d)
  behind n turns r d v xs counts short inv fresh =
      bind
        (run-Ran env sound k cap (every turns) [] n d v xs (every-Short turns short) inv
          (rw append-nil fresh))
        λ q e (w, zs, kept, _, moves). returns (counts, w, zs, kept, (every turns, refl, moves))

  -- Whatever comes between the rounds of the loop, it ends and the invariant is kept.
  pub turns_loop-Inv :
      (left i m n : ℕ) (turns : List (List Action)) (d : Driver) (v : Vnet) (xs : Cells)
      → 4 + (i + left) * 8 ≤ length hdr
      → AllShort turns
      → Inv k cap n d v xs
      → Fresh d.heap xs (sends (every turns))
      → Returns
          (LoopKept k cap (n + handed_over turns) turns (wire_of v xs))
          (turns_loop env hdr left turns i (pos m) d)
  unfolding turns_loop
  turns_loop-Inv zero i m n turns d v xs fits short inv fresh =
      behind n turns (pos m) d v xs (inl (m, refl)) short inv fresh
  turns_loop-Inv (suc left) i m n turns d v xs fits short inv fresh =
      let later = rest_of turns in
      let sum : n + length (sends (first_of turns)) + handed_over later ≡ n + handed_over turns =
        omega (arith, handed_over-cut turns) in
      rw (← sum) (
        bind
          (run-Ran env sound k cap (first_of turns) (every later) n d v xs (first-Short turns short)
            inv (subst (λ a. Fresh d.heap xs (sends a)) (every-cut turns) fresh))
          λ q e (w, ys, kept, still, before).
            bind
              (round-Inv i m (n + length (sends (first_of turns))) e w ys (sends (every later))
                (omega arith) kept still)
              λ r f (counts, u, zs, kept', still', move). elim (Bool-cases (ltb m (to_ℕ r))) [
                | inr z ↦ rw z (
                    mono (behind _ later r f u zs counts (rest-AllShort turns short) kept' still')
                      (wrap w u ys zs _ before move))
                | inl z ↦ rw z (elim counts [
                  | inr neg ↦ absurd (error_below m r neg z)
                  | inl (c, same) ↦
                      subst
                        (λ r.
                          Returns
                            (LoopKept k cap
                              (n + length (sends (first_of turns)) + handed_over later) turns
                              (wire_of v xs))
                            (turns_loop env hdr left later (i + 1) r f))
                        (sym same)
                        (mono
                          (turns_loop-Inv left (i + 1) c _ later f u zs (omega arith)
                            (rest-AllShort turns short) kept' still')
                          (wrap w u ys zs _ before move))
                ])
              ])
    where
      wrap :
          (w u : Vnet) (ys zs : Cells) (q : ℕ)
          → Follows cap (first_of turns) (wire_of v xs) (wire_of w ys)
          → Moves cap (read []) (wire_of w ys) (wire_of u zs)
          → (r : ℤ) (e : Driver) → LoopKept k cap q (rest_of turns) (wire_of u zs) r e
          → LoopKept k cap q turns (wire_of v xs) r e
      wrap w u ys zs q before move r e (counts, t, ts, kept, moves) = (
        counts,
        t,
        ts,
        kept,
        woven cap turns (wire_of v xs) (wire_of w ys) (wire_of u zs) (wire_of t ts) before move
            moves,
      )
