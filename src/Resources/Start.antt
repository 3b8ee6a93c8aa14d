-- ===== src/Resources/Start.antt =====
-- The start and the stop of the module, with the rollback when a step of the start fails.
use kerion_vpn_client_docker.Base.{
  ◌≡◌, Bool-cases, ◌⊎◌, inl, inr, refl, ◌∙◌, sym, ap, subst, true, false, none, List, ◌∷◌, arith,
}
use kerion_vpn_client_docker.Base.Int.{ℤ, pos, is_zero}
use kerion_vpn_client_docker.Machine.{fault, null_deref, Returns, returns, bind, mono}
use kerion_vpn_client_docker.Queue.{Heap}
use kerion_vpn_client_docker.Driver.{vnet_alloc, Vnet, Event, Env, Driver, driver, frees}
use kerion_vpn_client_docker.IoDev.{io_dev_remove}
use kerion_vpn_client_docker.Init.{
  fresh_vnet, start_cfg, vnet_init, vnet_close, module_start, module_start_steps, module_stop,
}
use kerion_vpn_client_docker.Resources.{switched_on, NoTraffic, held, Balanced, nothing}
use kerion_vpn_client_docker.Resources.Add.{Added, io_dev_add-Added}
use kerion_vpn_client_docker.Resources.Remove.{io_dev_remove-Balanced}

-- Nothing is held, and no packet was given back.
abbrev pub Unloaded : List Event → Driver → Type 0
Unloaded l d = (d.vnet ≡ none) × (held d.log ≡ nothing) × NoTraffic d.log l

-- How the module is after `module_start`, by the result.
abbrev pub Started : Heap → List Event → ℤ → Driver → Type 0
Started h l r d =
    ((is_zero r ≡ true)
      × (held d.log ≡ record nothing {
        objects = pos 1;
        regions = pos 1;
        cdevs = pos 1;
        classes = pos 1;
        devices = pos 1;
      })
      × Balanced d
      × ((w : Vnet) × (d ≡ driver h w d.log)
          × (w.net_dev ≡ fresh_vnet.net_dev)
          × (w.cfg ≡ start_cfg))
      × NoTraffic d.log l)
    ⊎ ((is_zero r ≡ false) × Unloaded l d)

pub Unloaded-since : (k l : List Event) (d : Driver) → NoTraffic k l → Unloaded k d → Unloaded l d
Unloaded-since k l d calm (gone, released, quiet) =
    (gone, released, (quiet.0 ∙ calm.0, quiet.1 ∙ calm.1))

pub module_stop-nothing :
    (h : Heap) (v : Vnet) (l : List Event)
    → v.net_dev.device ≡ none
    → v.net_dev.added ≡ false
    → Balanced (driver h v l)
    → Returns (λ r d. (r ≡ pos 0) × Unloaded l d) (module_stop (driver h v l))
unfolding module_stop vnet_close
module_stop-nothing h v l no_device unregistered b =
    bind (io_dev_remove-Balanced h v l b) λ r d (z, w, shape, same, balanced, left, quiet).
      subst (λ e. Returns (λ r d. (r ≡ pos 0) × Unloaded l d) (vnet_close e)) (sym shape)
        (returns (refl, (refl, ground arith, quiet)))

abbrev start_vnet : Vnet
start_vnet = record fresh_vnet { cfg = start_cfg }

steps-Added :
    (env : Env) (h : Heap) (l : List Event)
    → held l ≡ nothing
    → env.kmalloc l ≡ true
    → Returns
        (Added h (frees l) (switched_on l) fresh_vnet.net_dev start_cfg)
        (module_start_steps env (record { heap = h; vnet = none; log = l }))
unfolding module_start_steps
steps-Added env h l clean there =
    rw there (io_dev_add-Added env h start_vnet (vnet_alloc ∷ l) refl (ground arith))

-- The rollback of `module_start`.
stop-Added :
    (h : Heap) (l : List Event) {r : ℤ} (d : Driver)
    → Added h (frees l) (switched_on l) fresh_vnet.net_dev start_cfg r d
    → Returns (λ r d. (r ≡ pos 0) × Unloaded l d) (module_stop d)
stop-Added h l d added =
    let (w, shape, same, _) = added.shape in
    let P = λ (r : ℤ) (d : Driver). (r ≡ pos 0) × Unloaded l d in
    subst (λ e. Returns P (module_stop e)) (sym shape)
      (mono
        (module_stop-nothing h w d.log (ap (λ n. n.device) same) (ap (λ n. n.added) same)
          (subst Balanced shape added.balanced))
        λ q e (z, unloaded). (z, Unloaded-since d.log l e added.no_traffic unloaded))

-- Loading the module on a kernel that has memory for its object either succeeds, and then holds the object, a
-- device number range, the character device, its class and its node, once each, as its fields say, with the
-- network part of the object as `vnet_init` made it and the configuration that `module_start` gives; or it fails, and then the rollback has released all of it. No packet is
-- given back and the interface is not switched. Whichever step fails, it does not fault.
pub module_start-Started :
    (env : Env) (h : Heap) (l : List Event)
    → held l ≡ nothing
    → env.kmalloc l ≡ true
    → Returns (Started h l) (module_start env (record { heap = h; vnet = none; log = l }))
unfolding module_start
module_start-Started env h l clean there = bind (steps-Added env h l clean there) λ r d added.
    elim (Bool-cases (is_zero r)) [
      | inl z ↦
          rw z (returns (inl (z, added.complete z, added.balanced, added.shape, added.no_traffic)))
      | inr z ↦
          rw z (bind (stop-Added h l d added) λ q e (_, unloaded). returns (inr (z, unloaded)))
    ]

-- Where the kernel has no memory for the driver's object, loading the module does not return an error: the
-- rollback reads a field of the object that is not there, and faults.
pub module_start-fault :
    (env : Env) (h : Heap) (l : List Event)
    → env.kmalloc l ≡ false
    → module_start env (record { heap = h; vnet = none; log = l }) ≡ fault null_deref
unfolding module_start vnet_init module_stop io_dev_remove
module_start-fault env h l full = ground arith
