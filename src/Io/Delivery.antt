-- ===== src/Io/Delivery.antt =====
-- `io_read_to_iovec` of drivers/vpn/linux/io_read.c: what a read does to the queue and to the kernel's memory.
use kerion_vpn_client_docker.Base.{
  ℕ, ◌+◌, ◌^◌, ◌<◌, ◌≡◌, ◌∙◌, ◌⊎◌, inl, inr, refl, sym, ap, subst, true, false, Bool-cases, some,
  List, [], ◌∷◌, ◌++◌, arith, length,
}
use kerion_vpn_client_docker.Base.Int.{ℤ, pos, negsuc, is_neg, to_ℕ}
use kerion_vpn_client_docker.Machine.{ok, ◌>>◌, and_then, Returns, returns, bind, mono}
use kerion_vpn_client_docker.Queue.{Ptr, Heap}
use kerion_vpn_client_docker.Queue.Chain.{has, Cells, IsQueue}
use kerion_vpn_client_docker.Driver.{
  NetDevice, Vnet, Event, netif_wake, header_alloc, header_free, Env, Driver, driver, frees,
}
use kerion_vpn_client_docker.NetDev.{net_device}
use kerion_vpn_client_docker.NetDev.Packets.{Serves}
use kerion_vpn_client_docker.Resources.{count, held, switched_on, settings_of, settings}
use kerion_vpn_client_docker.Io.{reply_size, io_read_to_iovec, finish}
use kerion_vpn_client_docker.Io.Fill.{outgoing, Tallied, Tallied-silent, Tallied-trans}
use kerion_vpn_client_docker.Io.Taken.{Copied, Looped}
use kerion_vpn_client_docker.Io.Read.{read_loop-Looped}
use kerion_vpn_client_docker.Io.Request.{
  request, received, CopiesAll, released, with_header-Returns,
}

-- The end of a request: its memory is given back whatever the result.
pub record Ended (h : Heap) (v : Vnet) (k : List Event) (ret r : ℤ) (d : Driver) : Type 0 where
  pub shape : d ≡ driver h v d.log
  pub held_same : held d.log ≡ held (header_free ∷ k)
  pub received_same : received d.log ≡ received k
  pub outgoing_same : outgoing d.log ≡ outgoing k
  pub frees_same : frees d.log ≡ frees k
  pub on_same : switched_on d.log ≡ switched_on k
  pub out : ((r ≡ pos (reply_size 8 (to_ℕ ret))) × (is_neg ret ≡ false)) ⊎ (is_neg r ≡ true)

pub finish-Ended :
    (env : Env) (ret : ℤ) (h : Heap) (v : Vnet) (k : List Event)
    → Returns (Ended h v k ret) (finish env 8 ret (driver h v k))
unfolding finish
finish-Ended env (negsuc n) h v k = returns (record {
  shape = refl;
  held_same = refl;
  received_same = refl;
  frees_same = refl;
  outgoing_same = refl;
  on_same = refl;
  out = inr refl;
})
finish-Ended env (pos n) h v k = elim (Bool-cases (env.to_iovec k)) [
  | inl e ↦ rw e (
      returns (record {
        shape = refl;
        held_same = refl;
        received_same = refl;
        frees_same = refl;
        outgoing_same = refl;
        on_same = refl;
        out = inl (refl, refl);
      }))
  | inr e ↦ rw e (
      returns (record {
        shape = refl;
        held_same = refl;
        received_same = refl;
        frees_same = refl;
        outgoing_same = refl;
        on_same = refl;
        out = inr refl;
      }))
]

-- After a read of the queue `xs`: the packets `taken` from its front were given back, the others are
-- queued with the lock free, the network device, what `settings` has and the buffers outside the queue are as
-- they were, nothing
-- else is held or released, and the result is the size of a reply of the taken packets, which were copied
-- to user memory, at the places that the request `hdr` names, or an error.
abbrev pub ReadFrom : Env → List ℕ → Heap → Vnet → List Event → Cells → ℤ → Driver → Type 0
ReadFrom env hdr h v l xs r d =
    (w : Vnet) × (taken left : Cells) × (xs ≡ taken ++ left)
    × Serves d w left
    × (w.net_dev.device ≡ v.net_dev.device)
    × (settings w d.log ≡ settings v l)
    × Tallied v l w d.log
    × ((a : Ptr) → has a xs ≡ false → d.heap a ≡ h a)
    × (held d.log ≡ held l)
    × (frees d.log ≡ frees l + length taken)
    × (((r ≡ pos (reply_size 8 (length taken)))
          × Copied env hdr 0 taken (outgoing l) (outgoing d.log))
        ⊎ (is_neg r ≡ true))

-- After a read of a request of `n` bytes.
abbrev pub ReadDone : Env → Heap → Vnet → List Event → Cells → ℕ → ℤ → Driver → Type 0
ReadDone env h v l xs n r d = ReadFrom env (request env l n) h v l xs r d

pub net_device-ok :
    (h : Heap) (w : Vnet) (l : List Event) (dev : NetDevice)
    → w.net_dev.device ≡ some dev
    → net_device (driver h w l) ≡ ok dev (driver h w l)
unfolding net_device
net_device-ok h w l dev e = ground arith

-- The loop's count in the result.
pub reply :
    (n : ℕ) {ret r : ℤ}
    → ((ret ≡ pos (0 + n)) ⊎ (is_neg ret ≡ true))
    → (((r ≡ pos (reply_size 8 (to_ℕ ret))) × (is_neg ret ≡ false)) ⊎ (is_neg r ≡ true))
    → ((r ≡ pos (reply_size 8 n)) ⊎ (is_neg r ≡ true))
reply n (inl e) (inl (f, g)) =
    inl (f ∙ ap (λ a. pos (reply_size 8 (to_ℕ a))) (e ∙ ap pos (omega arith)))
reply n (inr e) (inl (f, g)) = absurd (ground (arith, e, g))
reply n c (inr neg) = inr neg

told :
    (env : Env) (hdr : List ℕ) (old : List (ℕ × List ℕ)) {now new : List (ℕ × List ℕ)} {ret r : ℤ}
    (taken : Cells)
    → ((ret ≡ pos (0 + length taken)) × Copied env hdr 0 taken old now) ⊎ (is_neg ret ≡ true)
    → (((r ≡ pos (reply_size 8 (to_ℕ ret))) × (is_neg ret ≡ false)) ⊎ (is_neg r ≡ true))
    → new ≡ now
    → ((r ≡ pos (reply_size 8 (length taken))) × Copied env hdr 0 taken old new) ⊎ (is_neg r ≡ true)
told env hdr old taken (inl (e, c)) (inl (f, g)) same = inl (
  f ∙ ap (λ a. pos (reply_size 8 (to_ℕ a))) (e ∙ ap pos (omega arith)),
  subst (λ n. Copied env hdr 0 taken old n) (sym same) c,
)
told env hdr old taken (inr e) (inl (f, g)) same = absurd (ground (arith, e, g))
told env hdr old taken c (inr neg) same = inr neg

-- What the log `k` during a request has beyond `l`: the memory for the request.
pub record Opens (l k : List Event) : Type 0 where
  pub held_more : held (header_free ∷ k) ≡ held l
  pub frees_same : frees k ≡ frees l
  pub outgoing_same : outgoing k ≡ outgoing l
  pub on_same : switched_on k ≡ switched_on l

pub allocated : (l : List Event) → Opens l (header_alloc ∷ l)
allocated l = record {
  held_more = released l;
  frees_same = refl;
  outgoing_same = refl;
  on_same = refl;
}

module _ (env : Env) (hdr : List ℕ) (h : Heap) (v : Vnet) (l k : List Event) (dev : NetDevice)
    (xs : Cells) (has_device : v.net_dev.device ≡ some dev) (opens : Opens l k) where
  pub tail_done :
      (ret : ℤ) (d : Driver)
      → Looped env hdr 0 h v k xs 0 ret d
      → Returns (ReadFrom env hdr h v l xs) (
          (do net_device; (λ d. ok tt (record d { log = netif_wake ∷ d.log })); finish env 8 ret) d)
  tail_done ret d (w, taken, left, t, out) =
      subst
        (λ e. Returns (ReadFrom env hdr h v l xs) (
          (do net_device; (λ d. ok tt (record d { log = netif_wake ∷ d.log })); finish env 8 ret)
            e))
        (sym t.shape)
        (rw (net_device-ok d.heap w d.log dev (t.device ∙ has_device), and_then)
          (mono (finish-Ended env ret d.heap w (netif_wake ∷ d.log)) λ r e ended. (
            w,
            taken,
            left,
            t.split,
            record {
              vnet = ap (λ a. a.vnet) ended.shape;
              queue =
                  subst (λ a. IsQueue a w.net_dev.queue left) (sym (ap (λ a. a.heap) ended.shape))
                    t.queue;
              free = t.free;
            },
            t.device,
            ap (settings_of w) ended.on_same ∙ t.settings_same ∙ ap (settings_of v) opens.on_same,
            Tallied-trans v l v k w e.log
                (Tallied-silent v l v l k opens.outgoing_same (refl, refl))
                (Tallied-silent v k w d.log e.log ended.outgoing_same t.tallied),
            λ a out. ap (λ e. e.heap a) ended.shape ∙ t.others a out,
            ended.held_same ∙ ap (count header_free) t.held_same ∙ opens.held_more,
            omega (arith, ended.frees_same, t.frees_taken, opens.frees_same),
            told env hdr (outgoing l) taken
                (subst
                  (λ o.
                    ((ret ≡ pos (0 + length taken)) × Copied env hdr 0 taken o (outgoing d.log))
                    ⊎ (is_neg ret ≡ true))
                  opens.outgoing_same out)
                ended.out ended.outgoing_same,
          )))

module _ (env : Env) (copies : CopiesAll env) (h : Heap) (v : Vnet) (l : List Event)
    (dev : NetDevice) (xs : Cells) (n : ℕ) where
  -- A read of a request of `n` bytes, on a 64-bit machine, with the network device there and the queue `xs`
  -- well formed and unlocked, ends without a fault whatever user memory and the request hold. Packets were
  -- taken from the front of the queue only, each was given back once, and the others are still queued with
  -- the lock free; the network device, the interface's switches, the fields of the character device and the
  -- buffers that were not queued are as they were, the request's
  -- memory was given back and nothing else is held or released. The result is an error, or the size of a
  -- reply of the taken packets; then just these were copied to user memory, in order, each to the place that the
  -- request names for it, and of each the bytes that fit the room which user memory claimed there. In any case `tx_packets` and `tx_bytes` count what was copied
  -- to user memory, modulo 2 ^ 32, also a packet whose length could not be written there. `n` has to be below 2 ^ 32, and the request that is
  -- copied in has to be as long as asked for.
  pub io_read_to_iovec-ReadDone :
      v.net_dev.device ≡ some dev
      → IsQueue h v.net_dev.queue xs
      → v.net_dev.queue.locked ≡ false
      → n < 2 ^ 32
      → Returns (ReadDone env h v l xs n) (io_read_to_iovec env 8 (pos n) (driver h v l))
  unfolding io_read_to_iovec
  io_read_to_iovec-ReadDone has_device is free small =
      with_header-Returns env copies h v l n small _ (ReadDone env h v l xs n)
        (λ r k neg going same kept got on sent. (
          v,
          [],
          xs,
          refl,
          record { vnet = refl; queue = is; free = free },
          refl,
          ap (settings_of v) on,
          Tallied-silent v l v l k sent (refl, refl),
          λ a out. refl,
          same,
          omega (arith, kept),
          inr neg,
        ))
        (λ hdr count copied some_packet fits.
          mono
            (bind
              (read_loop-Looped env hdr count 0 0 h v (header_alloc ∷ l) xs is free
                (omega (arith, fits)))
              (tail_done env hdr h v l (header_alloc ∷ l) dev xs has_device (allocated l)))
            λ r e done. subst (λ q. ReadFrom env q h v l xs r e) (sym (as_copied hdr copied)) done)
    where
      as_copied :
          (hdr : List ℕ) → env.from_iovec (header_alloc ∷ l) n ≡ some hdr → request env l n ≡ hdr
      as_copied hdr e = rw (request, e) refl
