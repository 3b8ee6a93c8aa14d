-- ===== src/Traffic/Turns/Whole.antt =====
-- The whole of `io_read_to_iovec`, drivers/vpn/linux/io_read.c, with other calls of the driver between its rounds.
use kerion_vpn_client_docker.Base.{
  ℕ, ◌+◌, ◌^◌, ◌<◌, ◌≡◌, ◌∙◌, ◌⊎◌, inl, inr, refl, sym, ap, subst, true, false, List, ◌∷◌, ◌++◌,
  arith,
}
use kerion_vpn_client_docker.Base.Int.{ℤ, pos, is_neg, to_ℕ}
use kerion_vpn_client_docker.Machine.{and_then, Returns, bind, mono}
use kerion_vpn_client_docker.Queue.{Heap}
use kerion_vpn_client_docker.Queue.Chain.{Cells}
use kerion_vpn_client_docker.Driver.{
  Vnet, Event, header_alloc, header_free, netif_wake, Env, Driver, driver, frees,
}
use kerion_vpn_client_docker.Resources.{Held, held, count, switched_on}
use kerion_vpn_client_docker.Io.{reply_size}
use kerion_vpn_client_docker.Io.Request.{decr-incr, with_header-Returns}
use kerion_vpn_client_docker.Io.Delivery.{finish-Ended, net_device-ok}
use kerion_vpn_client_docker.Io.Blocking.Forget.{plain_tail}
use kerion_vpn_client_docker.Queue.Chain.{packets}
use kerion_vpn_client_docker.Traffic.Order.{PartOf, payloads, Follows-PartOf}
use kerion_vpn_client_docker.Traffic.Turns.Woven.{handed_over}
use kerion_vpn_client_docker.Traffic.{
  wire_of, Action, every, sends, Fresh, AllShort, Sound, Inv, own,
}
use kerion_vpn_client_docker.Traffic.Run.{shown, at_object}
use kerion_vpn_client_docker.Traffic.Turns.{read_by_turns}
use kerion_vpn_client_docker.Traffic.Turns.Kept.{LoopKept, turns_loop-Inv}

-- Another log that tells the same of the packets and of the interface, and of what is held but for requests.
relog :
    {k q : Held} {cap n : ℕ} (h : Heap) (v : Vnet) (l m : List Event) (xs : Cells)
    → Inv k cap n (driver h v l) v xs
    → frees m ≡ frees l
    → switched_on m ≡ switched_on l
    → held m ≡ q
    → own q ≡ own k
    → Inv q cap n (driver h v m) v xs
relog h v l m xs inv freed on holds same = record {
  serves = record { vnet = refl; queue = inv.serves.queue; free = inv.serves.free };
  device = inv.device;
  limit = inv.limit;
  bounded = inv.bounded;
  counted = omega (arith, freed, inv.counted);
  held_same = holds;
  claims = inv.claims ∙ sym same;
  on = on ∙ inv.on;
  off_empty = inv.off_empty;
}

-- The size of a reply, or an error.
abbrev pub Replies : ℤ → Type 0
Replies r = ((c : ℕ) × (r ≡ pos (reply_size 8 c))) ⊎ (is_neg r ≡ true)

replies :
    (ret : ℤ) {r : ℤ}
    → ((r ≡ pos (reply_size 8 (to_ℕ ret))) × (is_neg ret ≡ false)) ⊎ (is_neg r ≡ true)
    → Replies r
replies ret (inl (e, _)) = inl (to_ℕ ret, e)
replies ret (inr neg) = inr neg

-- The request was refused at its start and nothing else has happened; or all the calls of others have run, the invariant
-- holds, and what waits is a part of what waited and what was sent in between, in its order.
abbrev pub ReadByTurns : Held → ℕ → ℕ → List (List Action) → Vnet → Cells → ℤ → Driver → Type 0
ReadByTurns k cap n turns v xs r e =
    ((is_neg r ≡ true) × Inv k cap n e v xs)
    ⊎ (Replies r
        × (w : Vnet) × (zs : Cells) × Inv k cap (n + handed_over turns) e w zs
        × PartOf (packets zs) (packets xs ++ payloads (every turns)))

module _ (env : Env) (sound : Sound env) (k : Held) (cap n : ℕ) (turns : List (List Action)) where
  -- While the request is served, its memory is held.
  abbrev serving : Held
  serving = count header_alloc k

  ended :
      (v : Vnet) (xs : Cells) (ret : ℤ) (d : Driver)
      → LoopKept serving cap (n + handed_over turns) turns (wire_of v xs) ret d
      → Returns (ReadByTurns k cap n turns v xs) (plain_tail env 8 ret d)
  ended v xs ret d (counts, w, zs, inv, (acts, same, moves)) =
      let (dev, is_dev, len) = inv.device in
      subst (λ e. Returns (ReadByTurns k cap n turns v xs) (plain_tail env 8 ret e))
        (shown d w inv.serves.vnet)
        (rw (net_device-ok d.heap w d.log dev is_dev, and_then)
          (mono (finish-Ended env ret d.heap w (netif_wake ∷ d.log)) λ r e done. inr (
            replies ret done.out,
            w,
            zs,
            subst (λ g. Inv k cap (n + handed_over turns) g w zs) (sym done.shape)
                (relog d.heap w d.log e.log zs (at_object d w inv) done.frees_same done.on_same
                  (done.held_same ∙ ap (count header_free) inv.held_same ∙ given_back) refl),
            subst (λ b. PartOf (packets zs) (packets xs ++ b)) same
                (Follows-PartOf cap acts (wire_of v xs) (wire_of w zs) moves),
          )))
    where
      given_back : count header_free serving ≡ k
      given_back = λ i. record k { headers = decr-incr k.headers i }

  -- A read on a running driver between whose rounds any other calls come, packets sent, whole reads and writes,
  -- switchings of the interface and the others of `Action`, ends without a fault and keeps the invariant of
  -- `run-Inv`: no buffer is used after it was given back or given back twice, no lock is left taken, the queue
  -- is well formed and no longer than the device's limit, each packet that was handed over, before or in
  -- between, is in the queue or was given back, the memory for the request was given back and nothing else is
  -- held. No packet is made up, doubled or overtaken: what waits at the end are some of the packets that waited
  -- at the start and of those sent in between, in their order. The result is an error or the size of a reply;
  -- all the calls of others have run, or none where the request is refused at its start with an error. The conditions are those for `run-Inv`, and the read is one
  -- of less than 2 ^ 32 bytes on a 64-bit machine.
  pub read_by_turns-Inv :
      (h : Heap) (v : Vnet) (l : List Event) (xs : Cells) (len : ℕ)
      → len < 2 ^ 32
      → AllShort turns
      → Inv k cap n (driver h v l) v xs
      → Fresh h xs (sends (every turns))
      → Returns (ReadByTurns k cap n turns v xs) (read_by_turns env turns (pos len) (driver h v l))
  unfolding read_by_turns
  read_by_turns-Inv h v l xs len small short inv fresh =
      with_header-Returns env sound.copies h v l len small _ (ReadByTurns k cap n turns v xs)
        (λ r m neg going same kept got on sent.
          inl (neg, relog {k = k} {q = k} h v l m xs inv kept on (same ∙ inv.held_same) refl))
        (λ hdr asked copied some_packet fits.
          bind
            (turns_loop-Inv env sound serving cap hdr asked 0 0 n turns
              (driver h v (header_alloc ∷ l)) v xs (omega (arith, fits)) short
              (relog h v l (header_alloc ∷ l) xs inv refl refl
                (ap (count header_alloc) inv.held_same) refl)
              fresh)
            (ended v xs))
