-- ===== src/Io/Taken.antt =====
-- What the loop of `io_read_to_iovec` has taken out of the queue so far.
use kerion_vpn_client_docker.Base.{
  ℕ, suc, ◌+◌, ◌≡◌, ◌∙◌, ◌⊎◌, inl, inr, refl, ap, true, false, none, some, List, [], ◌∷◌, ◌++◌,
  ◌==◌, arith, length, take, ◌==◌,
}
use kerion_vpn_client_docker.Base.Int.{ℤ, pos, is_neg}
use kerion_vpn_client_docker.Queue.{Ptr, null, Heap, skb, write}
use kerion_vpn_client_docker.Queue.Chain.{Cells, has, IsQueue}
use kerion_vpn_client_docker.Driver.{Vnet, Event, Env, Driver, driver, frees}
use kerion_vpn_client_docker.Resources.{held, settings}
use kerion_vpn_client_docker.Io.Request.{place_in}
use kerion_vpn_client_docker.Io.Fill.{outgoing, Tallied, Tallied-trans}

-- After the loop: the packets `taken` from the front of the queue were given back, the others are
-- queued, and the result counts the taken ones or is an error.
pub record Taken (h : Heap) (v : Vnet) (l : List Event) (xs : Cells) (d : Driver) (w : Vnet)
    (taken left : Cells) : Type 0 where
  pub shape : d ≡ driver d.heap w d.log
  pub split : xs ≡ taken ++ left
  pub queue : IsQueue d.heap w.net_dev.queue left
  pub free : w.net_dev.queue.locked ≡ false
  pub device : w.net_dev.device ≡ v.net_dev.device
  pub others : (a : Ptr) → has a xs ≡ false → d.heap a ≡ h a
  pub held_same : held d.log ≡ held l
  pub frees_taken : frees d.log ≡ frees l + length taken
  pub settings_same : settings w d.log ≡ settings v l
  pub tallied : Tallied v l w d.log

-- The packets `taken`, in order, are what is newly in user memory, at the places that the request names from
-- number `i` on: of each packet the bytes that fit the room which user memory claimed there.
abbrev pub Copied : Env → List ℕ → ℕ → Cells → List (ℕ × List ℕ) → List (ℕ × List ℕ) → Type 0
Copied env hdr i [] old new = new ≡ old
Copied env hdr i ((p, bs) ∷ taken) old new =
    (asked : List Event) × (room : ℕ) × (env.get_user asked (place_in hdr i) ≡ some room)
    × Copied env hdr (i + 1) taken ((place_in hdr i + 4, take room bs) ∷ old) new

abbrev pub Looped : Env → List ℕ → ℕ → Heap → Vnet → List Event → Cells → ℕ → ℤ → Driver → Type 0
Looped env hdr i h v l xs m r d =
    (w : Vnet) × (taken left : Cells) × Taken h v l xs d w taken left
    × (((r ≡ pos (m + length taken)) × Copied env hdr i taken (outgoing l) (outgoing d.log))
        ⊎ (is_neg r ≡ true))

pub Taken-cons :
    (env : Env) (hdr : List ℕ) (i : ℕ) {h : Heap} {v w : Vnet} {l l' : List Event} {p : Ptr}
    {bs : List ℕ} {xs : Cells} (m : ℕ) {r : ℤ} {d : Driver}
    → w.net_dev.device ≡ v.net_dev.device
    → held l' ≡ held l
    → frees l' ≡ frees l + 1
    → settings w l' ≡ settings v l
    → Tallied v l w l'
    → ((taken : Cells)
        → r ≡ pos (m + 1 + length taken)
        → Copied env hdr (i + 1) taken (outgoing l') (outgoing d.log)
        → Copied env hdr i ((p, bs) ∷ taken) (outgoing l) (outgoing d.log))
    → Looped env hdr (i + 1) (write (write h p (some (skb null bs))) p none) w l' xs (m + 1) r d
    → Looped env hdr i h v l ((p, bs) ∷ xs) m r d
Taken-cons env hdr i {h} {v} {w} {l} {l'} {p} {bs} {xs} m {r} {d} dev same more set tally extend
      (u, taken, left, t, out) =
    (
      u,
      (p, bs) ∷ taken,
      left,
      record {
        shape = t.shape;
        split = ap (◌∷◌ (p, bs)) t.split;
        queue = t.queue;
        free = t.free;
        device = t.device ∙ dev;
        others = λ a out. t.others a (ground arith) ∙ kept a (ground arith);
        held_same = t.held_same ∙ same;
        frees_taken = omega (arith, t.frees_taken);
        settings_same = t.settings_same ∙ set;
        tallied = Tallied-trans v l w l' u d.log tally t.tallied;
      },
      counted out,
    )
  where
    kept : (a : Ptr) → (a == p) ≡ false → write (write h p (some (skb null bs))) p none a ≡ h a
    kept a ne = rw ne

    counted :
        ((r ≡ pos (m + 1 + length taken))
            × Copied env hdr (i + 1) taken (outgoing l') (outgoing d.log))
          ⊎ (is_neg r ≡ true)
        → ((r ≡ pos (m + suc (length taken)))
            × Copied env hdr i ((p, bs) ∷ taken) (outgoing l) (outgoing d.log))
          ⊎ (is_neg r ≡ true)
    counted (inl (e, c)) = inl (e ∙ ap pos (omega arith), extend taken e c)
    counted (inr e) = inr e

-- Nothing is taken.
pub none_taken :
    (env : Env) (hdr : List ℕ) (i : ℕ) {v : Vnet} {l : List Event} {h : Heap} {xs : Cells} {m : ℕ}
    {r : ℤ}
    → IsQueue h v.net_dev.queue xs
    → v.net_dev.queue.locked ≡ false
    → ((r ≡ pos m) ⊎ (is_neg r ≡ true))
    → Looped env hdr i h v l xs m r (driver h v l)
none_taken env hdr i {v} {l} {h} {xs} {m} {r} is free out = (
  v,
  [],
  xs,
  record {
    shape = refl;
    split = refl;
    queue = is;
    free = free;
    device = refl;
    others = λ a out. refl;
    held_same = refl;
    frees_taken = omega arith;
    settings_same = refl;
    tallied = (refl, refl);
  },
  none_counted out,
)
  where
    none_counted :
        ((r ≡ pos m) ⊎ (is_neg r ≡ true))
        → ((r ≡ pos (m + 0)) × (outgoing l ≡ outgoing l)) ⊎ (is_neg r ≡ true)
    none_counted (inl e) = inl (e ∙ ap pos (omega arith), refl)
    none_counted (inr e) = inr e
