-- ===== src/Resources/Add.antt =====
-- The registration of the character device, `io_dev_add`.
use kerion_vpn_client_docker.Base.{
  ℕ, ◌≡◌, Bool-cases, ◌⊎◌, inl, inr, refl, Bool, true, false, List, ◌∷◌, arith,
}
use kerion_vpn_client_docker.Base.Int.{ℤ, pos, negsuc, is_zero}
use kerion_vpn_client_docker.Machine.{Returns, returns}
use kerion_vpn_client_docker.Queue.{Heap}
use kerion_vpn_client_docker.Driver.{
  ErrPtr, object, class_create, chrdev_alloc, cdev_add, is_err, err_ptr, set_io, Cfg, NetDev, Vnet,
  Event, Env, Driver, driver, frees,
}
use kerion_vpn_client_docker.IoDev.{io_dev_add, io_dev_add_node, has_number}
use kerion_vpn_client_docker.Resources.{switched_on, Held, held, only_net, Balanced}

ErrPtr-cases : (p : ErrPtr) → ((n : ℕ) × (p ≡ err_ptr n)) ⊎ ((n : ℕ) × (p ≡ object n))
ErrPtr-cases (err_ptr n) = inl (n, refl)
ErrPtr-cases (object n) = inr (n, refl)

-- All that the module holds when it has started.
abbrev pub all_of : NetDev → Held
all_of net = record (only_net net) {
  regions = pos 1;
  cdevs = pos 1;
  classes = pos 1;
  devices = pos 1;
}

-- What `io_dev_add` leaves, by its result.
pub record Added (h : Heap) (freed_before : ℕ) (on : Bool) (net : NetDev) (cfg : Cfg) (r : ℤ)
    (d : Driver) : Type 0 where
  pub shape : (w : Vnet) × (d ≡ driver h w d.log) × (w.net_dev ≡ net) × (w.cfg ≡ cfg)
  pub balanced : Balanced d
  pub no_traffic : (frees d.log ≡ freed_before) × (switched_on d.log ≡ on)
  pub complete : is_zero r ≡ true → held d.log ≡ all_of net

module _ (env : Env) (h : Heap) (v : Vnet) (l : List Event) where
  node-Added :
      v.io_dev.added ≡ true
      → has_number v.io_dev.major_number ≡ true
      → is_err v.io_dev.class ≡ true
      → is_err v.io_dev.device ≡ true
      → Balanced (driver h v l)
      → Returns
          (Added h (frees l) (switched_on l) v.net_dev v.cfg)
          (io_dev_add_node env (driver h v l))
  unfolding io_dev_add_node
  node-Added added number no_class no_device b = elim (ErrPtr-cases (env.class_create l)) [
    | inl (n, e) ↦ rw e (
        returns (record {
          shape = (_, refl, refl, refl);
          balanced = ground arith;
          no_traffic = (refl, refl);
          complete = λ z. cc;
        }))
    | inr (n, e) ↦ rw e (elim (ErrPtr-cases (env.device_create (class_create ∷ l))) [
      | inl (m, f) ↦ rw f (
          returns (record {
            shape = (_, refl, refl, refl);
            balanced = ground arith;
            no_traffic = (refl, refl);
            complete = λ z. cc;
          }))
      | inr (m, f) ↦ rw f (
          returns (record {
            shape = (_, refl, refl, refl);
            balanced = ground arith;
            no_traffic = (refl, refl);
            complete = ground arith;
          }))
    ])
  ]

module _ (env : Env) (h : Heap) (v : Vnet) (l : List Event) where
  -- The fields that `io_dev_add` sets first.
  abbrev cleared : Vnet
  cleared =
      set_io
        (λ io. record io {
          major_number = negsuc 0;
          minor_number = negsuc 0;
          class = err_ptr 11;
          device = err_ptr 11;
        })
        v

  abbrev numbered : Vnet
  numbered =
      set_io
        (λ io. record io {
          major_number = pos (env.chrdev_numbers l).0;
          minor_number = pos (env.chrdev_numbers l).1;
        })
        cleared

  abbrev region_log : List Event
  region_log = chrdev_alloc (pos (env.chrdev_numbers l).0) (pos (env.chrdev_numbers l).1) ∷ l

  pub io_dev_add-Added :
      v.io_dev.added ≡ false
      → held l ≡ only_net v.net_dev
      → Returns (Added h (frees l) (switched_on l) v.net_dev v.cfg) (io_dev_add env (driver h v l))
  unfolding io_dev_add
  io_dev_add-Added idle b = elim (Bool-cases (is_zero (env.alloc_chrdev_region l))) [
    | inr e ↦ rw e (
        returns (record {
          shape = (cleared, refl, refl, refl);
          balanced = ground arith;
          no_traffic = (refl, refl);
          complete = λ z. cc;
        }))
    | inl e ↦ rw e (elim (Bool-cases (is_zero (env.cdev_add region_log))) [
      | inr f ↦ rw f (
          returns (record {
            shape = (numbered, refl, refl, refl);
            balanced = ground arith;
            no_traffic = (refl, refl);
            complete = λ z. cc;
          }))
      | inl f ↦ rw f (
          node-Added env h (set_io (λ io. record io { added = true }) numbered)
            (cdev_add ∷ region_log) refl refl refl refl (ground arith))
    ])
  ]
