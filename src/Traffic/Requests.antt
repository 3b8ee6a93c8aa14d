-- ===== src/Traffic/Requests.antt =====
-- What the calls of the user program do to the queue and to the packets that are still to be sent.
use kerion_vpn_client_docker.Base.{
  ℕ, ◌+◌, ◌^◌, ◌<◌, ◌≡◌, refl, sym, ap, subst, ◌∙◌, true, false, inl, inr, some, List, [], ◌∷◌,
  ◌++◌, arith, length, length-append, ◌==◌, Bool-cases,
}
use kerion_vpn_client_docker.Base.Int.{pos, ℤ}
use kerion_vpn_client_docker.Machine.{pure, ◌>>=◌, and_then, Returns, returns, mono}
use kerion_vpn_client_docker.Queue.{Ptr, Heap}
use kerion_vpn_client_docker.Queue.Chain.{Cells, has, IsQueue, has-append}
use kerion_vpn_client_docker.Queue.Insert.{bytes_of}
use kerion_vpn_client_docker.Driver.{
  Driver, IoDev, put_user, set_io, Vnet, Event, Env, driver, frees,
}
use kerion_vpn_client_docker.IoDev.{
  ioctl_cancel_pending_read, ioctl_get_info, io_dev_ioctl, io_dev_poll,
}
use kerion_vpn_client_docker.IoDev.Poll.{io_dev_poll-mask}
use kerion_vpn_client_docker.Resources.{Held, held, claimed, switched_on, settings, same_claims}
use kerion_vpn_client_docker.Io.{sum, io_dev_aio_read, io_dev_aio_write, io_dev_iov_total}
use kerion_vpn_client_docker.NetDev.Packets.{Serves}
use kerion_vpn_client_docker.Io.Delivery.{io_read_to_iovec-ReadDone}
use kerion_vpn_client_docker.Io.Write.{io_write_from_iovec-WriteDone}
use kerion_vpn_client_docker.Queue.Chain.{packets}
use kerion_vpn_client_docker.Traffic.{read, write, ioctl, poll, wire_of, Fresh, Sound, Inv, Keeps}
use kerion_vpn_client_docker.Traffic.Steps.{Fresh-change, packets-append}

-- A request whose parts are together shorter than 2 ^ 32 bytes has their sum as its length.
pub iov_total-ok : (iv : List ℕ) → sum iv < 2 ^ 32 → io_dev_iov_total iv ≡ pos (sum iv)
unfolding io_dev_iov_total
iov_total-ok iv small = ground arith

left_out :
    (a : Ptr) (taken left xs : Cells) → xs ≡ taken ++ left → has a xs ≡ false → has a left ≡ false
left_out a taken left xs split out = ground (arith, has-append a taken left, ap (has a) split)

module _ (env : Env) (sound : Sound env) (k : Held) (cap n : ℕ) (h : Heap) (v : Vnet)
    (l : List Event) (xs ys : Cells) (inv : Inv k cap n (driver h v l) v xs) where
  open inv use {serves, device, limit, bounded, counted, held_same, claims, on, off_empty}

  still_on :
      (w : Vnet) (d : Driver)
      → settings w d.log ≡ settings v l
      → switched_on d.log ≡ w.net_dev.queue.enabled
  still_on w d set = ap (λ s. s.on) set ∙ on ∙ sym (ap (λ s. s.enabled) set)

  still_off :
      (w : Vnet) (d : Driver)
      → settings w d.log ≡ settings v l
      → w.net_dev.queue.enabled ≡ false
      → v.net_dev.queue.enabled ≡ false
  still_off w d set e = sym (ap (λ s. s.enabled) set) ∙ e

  no_more : (taken left : Cells) → xs ≡ taken ++ left → xs ≡ [] → left ≡ []
  no_more [] left split empty = sym split ∙ empty
  no_more (x ∷ taken) left split empty = absurd (ground (arith, ap length (sym split ∙ empty)))

  -- What a read has taken from the front of the queue and given back leaves the invariant.
  pub took :
      (iv : List ℕ) (r : ℤ) (d : Driver) (w : Vnet) (taken left : Cells)
      → xs ≡ taken ++ left
      → Serves d w left
      → w.net_dev.device ≡ v.net_dev.device
      → settings w d.log ≡ settings v l
      → ((a : Ptr) → has a xs ≡ false → d.heap a ≡ h a)
      → held d.log ≡ held l
      → frees d.log ≡ frees l + length taken
      → Fresh h xs ys
      → Keeps k cap n ys (read iv) (wire_of v xs) r d
  took iv r d w taken left split after same set others kept freed_taken fresh =
      let (dev, is_dev, len) = device in
      (
        w,
        left,
        record {
          serves = after;
          device = (dev, same ∙ is_dev, len);
          limit = ap (λ s. s.cfg.max_queue_len) set ∙ limit;
          bounded = omega (arith, bounded, ap length split, length-append taken left);
          counted = omega (arith, counted, freed_taken, ap length split, length-append taken left);
          held_same = kept ∙ held_same;
          claims = same_claims v w set ∙ claims;
          on = still_on w d set;
          off_empty = λ e. no_more taken left split (off_empty (still_off w d set e));
        },
        Fresh-change h d.heap xs left ys fresh
            λ a i o. (ap bytes_of (others a o), left_out a taken left xs split o),
        (ap (λ s. s.enabled) set, packets taken, ap packets split ∙ packets-append taken left),
      )

  pub read-Keeps :
      (iv : List ℕ)
      → sum iv < 2 ^ 32
      → Fresh h xs ys
      → Returns
          (Keeps k cap n ys (read iv) (wire_of v xs))
          (io_dev_aio_read env 8 true iv (driver h v l))
  unfolding io_dev_aio_read
  read-Keeps iv small fresh =
      let (dev, is_dev, len) = device in
      rw (iov_total-ok iv small) (
        mono
          (io_read_to_iovec-ReadDone env sound.copies h v l dev xs (sum iv) is_dev serves.queue
            serves.free small)
          λ r d (w, taken, left, split, after, same, set, tally, others, kept, freed_taken, out).
            took iv r d w taken left split after same set others kept freed_taken fresh)

  pub write-Keeps :
      (iv : List ℕ)
      → sum iv < 2 ^ 32
      → Fresh h xs ys
      → Returns
          (Keeps k cap n ys (write iv) (wire_of v xs))
          (io_dev_aio_write env 8 true iv (driver h v l))
  unfolding io_dev_aio_write
  write-Keeps iv small fresh =
      let (dev, is_dev, len) = device in
      rw (iov_total-ok iv small) (
        mono
          (io_write_from_iovec-WriteDone env sound.copies sound.roomy sound.no_wrap h v l dev
            (sum iv) is_dev small)
          λ r d (w, handed, a, out). (
            w,
            xs,
            record {
              serves = record {
                vnet = ap (λ e. e.vnet) a.shape;
                queue =
                    subst (λ e. IsQueue e w.net_dev.queue xs) (sym (ap (λ e. e.heap) a.shape))
                      (subst (λ q. IsQueue h q xs) (sym a.queue) serves.queue);
                free = ap (λ q. q.locked) a.queue ∙ serves.free;
              };
              device = a.device cap device;
              limit = ap (λ s. s.cfg.max_queue_len) a.settings_same ∙ limit;
              bounded = bounded;
              counted = omega (arith, counted, a.frees_same);
              held_same = a.held_same ∙ held_same;
              claims = same_claims v w a.settings_same ∙ claims;
              on = still_on w d a.settings_same;
              off_empty = λ e. off_empty (still_off w d a.settings_same e);
            },
            subst (λ e. Fresh e xs ys) (sym (ap (λ e. e.heap) a.shape)) fresh,
            ap (λ q. record { on = q.enabled; waiting = packets xs }) a.queue,
          ))

  -- What leaves the interface, the buffers and the resources alone keeps the invariant.
  calm :
      (cmd arg : ℕ) (f : IoDev → IoDev) (m : List Event)
      → claimed (some (set_io f v)) ≡ claimed (some v)
      → switched_on m ≡ switched_on l
      → held m ≡ held l
      → frees m ≡ frees l
      → Fresh h xs ys
      → Keeps k cap n ys (ioctl cmd arg) (wire_of v xs) (pos 0) (driver h (set_io f v) m)
  calm cmd arg f m as_claimed as_on same kept fresh = (
    set_io f v,
    xs,
    record {
      serves = record { vnet = refl; queue = serves.queue; free = serves.free };
      device = device;
      limit = limit;
      bounded = bounded;
      counted = omega (arith, counted, kept);
      held_same = same ∙ held_same;
      claims = as_claimed ∙ claims;
      on = as_on ∙ on;
      off_empty = off_empty;
    },
    fresh,
    refl,
  )

  pub poll-Keeps :
      Fresh h xs ys
      → Returns
          (Keeps k cap n ys poll (wire_of v xs))
          ((do mask ← io_dev_poll; pure (pos mask)) (driver h v l))
  poll-Keeps fresh =
      rw (io_dev_poll-mask h v l xs serves.queue serves.free, and_then)
        (returns (v, xs, inv, fresh, refl))

  pub ioctl-Keeps :
      (cmd arg : ℕ)
      → Fresh h xs ys
      → Returns
          (Keeps k cap n ys (ioctl cmd arg) (wire_of v xs))
          (io_dev_ioctl env cmd arg (driver h v l))
  unfolding io_dev_ioctl
  ioctl-Keeps cmd arg fresh = elim (Bool-cases (cmd == ioctl_cancel_pending_read)) [
    | inl e ↦
        rw e
          (returns (calm cmd arg (λ io. record io { canceled = true }) _ refl refl refl refl fresh))
    | inr e ↦ rw e (elim (Bool-cases (cmd == ioctl_get_info)) [
      | inr f ↦ rw f (returns (calm cmd arg (λ io. io) _ refl refl refl refl fresh))
      | inl f ↦ rw f (elim (Bool-cases (env.put_user l arg)) [
        | inr g ↦ rw g (returns (calm cmd arg (λ io. io) _ refl refl refl refl fresh))
        | inl g ↦ rw g (elim (Bool-cases (env.put_user (put_user arg 2 ∷ l) (arg + 4))) [
          | inr a ↦ rw a (returns (calm cmd arg (λ io. io) _ refl refl refl refl fresh))
          | inl a ↦
              rw a
                (elim (Bool-cases
                  (env.copy_to_user (put_user (arg + 4) 1 ∷ put_user arg 2 ∷ l) (arg + 8))) [
                    | inr b ↦ rw b (returns (calm cmd arg (λ io. io) _ refl refl refl refl fresh))
                    | inl b ↦ rw b (returns (calm cmd arg (λ io. io) _ refl refl refl refl fresh))
                  ])
        ])
      ])
    ])
  ]
