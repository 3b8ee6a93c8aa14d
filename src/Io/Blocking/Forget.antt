-- ===== src/Io/Blocking/Forget.antt =====
-- What a read of io_read.c in the build with USE_BLOCKING_READ does to the driver, step by step.
use kerion_vpn_client_docker.Base.{ℕ, ◌≡◌, ◌∙◌, refl, false, List, ◌∷◌}
use kerion_vpn_client_docker.Base.Int.{ℤ}
use kerion_vpn_client_docker.Machine.{Run, ok, fault, out_of_fuel, Cmd, and_then, ◌>>◌}
use kerion_vpn_client_docker.Queue.{Ptr, skb}
use kerion_vpn_client_docker.NetDev.{net_device}
use kerion_vpn_client_docker.Driver.{Env, Driver, kfree_skb, emit, netif_wake}
use kerion_vpn_client_docker.Io.{load_pkt, skb_of, io_read_fill_network_packet, finish}
use kerion_vpn_client_docker.Io.Blocking.{Task, task, lift_task, deliver, on_driver, leave_wait}

-- What a run does to the driver.
abbrev pub forget : {A : Type 0} → Run Task A → Run Driver A
forget (ok a t) = ok a t.driver
forget (fault f) = fault f
forget out_of_fuel = out_of_fuel

pub forget-lift :
    {A B : Type 0} (t : Task) (r : Run Driver A) (k : A → Cmd Task B)
    → forget (and_then (lift_task t r) k)
      ≡ and_then r (λ a d. forget (k a (record t { driver = d })))
forget-lift t (ok a d) k = refl
forget-lift t (fault f) k = refl
forget-lift t out_of_fuel k = refl

pub and_then_cong :
    {A B : Type 0} (r : Run Driver A) {k g : A → Cmd Driver B}
    → ((a : A) (d : Driver) → k a d ≡ g a d)
    → and_then r k ≡ and_then r g
and_then_cong (ok a d) same = same a d
and_then_cong (fault f) same = refl
and_then_cong out_of_fuel same = refl

pub and_then_assoc :
    {A B C : Type 0} (r : Run Driver A) (k : A → Cmd Driver B) (g : B → Cmd Driver C)
    → and_then (and_then r k) g ≡ and_then r (λ a d. and_then (k a d) g)
and_then_assoc (ok a d) k g = refl
and_then_assoc (fault f) k g = refl
and_then_assoc out_of_fuel k g = refl

module _ (env : Env) (word : ℕ) (hdr : List ℕ) where
  -- The steps of `deliver` one by one, with what follows.
  pub deliver-steps :
      (i : ℕ) (skb : Ptr) (next : ℤ → Cmd Driver ℤ) (d : Driver)
      → and_then (deliver env word hdr i skb d) next
        ≡ and_then (load_pkt word hdr i d) λ pkt d. and_then (skb_of skb d) λ s d.
          and_then
            (io_read_fill_network_packet env pkt s d)
            λ filled d. and_then (kfree_skb skb d) λ _. next filled
  unfolding deliver
  deliver-steps i skb next d =
      and_then_assoc (load_pkt word hdr i d) _ next
      ∙ and_then_cong (load_pkt word hdr i d) λ pkt d.
        and_then_assoc (skb_of skb d) _ next
        ∙ and_then_cong (skb_of skb d) λ s d.
          and_then_assoc (io_read_fill_network_packet env pkt s d) _ next
          ∙ and_then_cong (io_read_fill_network_packet env pkt s d)
              λ filled d. and_then_assoc (kfree_skb skb d) _ next

pub forget-bind :
    {A B : Type 0} (r : Run Task A) (k : A → Cmd Task B) (g : A → Cmd Driver B)
    → ((a : A) (t : Task) → forget (k a t) ≡ g a t.driver)
    → forget (and_then r k) ≡ and_then (forget r) g
forget-bind (ok a t) k g same = same a t
forget-bind (fault f) k g same = refl
forget-bind out_of_fuel k g same = refl

forget-lifted : {A : Type 0} (t : Task) (r : Run Driver A) → forget (lift_task t r) ≡ r
forget-lifted t (ok a d) = refl
forget-lifted t (fault f) = refl
forget-lifted t out_of_fuel = refl

-- The end of a read, in the build that waits and in the other one.
abbrev pub woken_tail : Env → ℕ → ℤ → Cmd Task ℤ
woken_tail env word ret = do
  on_driver net_device
  on_driver (emit netif_wake)
  leave_wait
  on_driver (finish env word ret)

abbrev pub plain_tail : Env → ℕ → ℤ → Cmd Driver ℤ
plain_tail env word ret = do net_device; emit netif_wake; finish env word ret

pub tail-Same :
    (env : Env) (word : ℕ) (ret : ℤ) (t : Task)
    → forget (woken_tail env word ret t) ≡ plain_tail env word ret t.driver
tail-Same env word ret t =
    forget-lift t (net_device t.driver) _
    ∙ and_then_cong (net_device t.driver) λ a d.
      forget-lifted (task (record d { log = netif_wake ∷ d.log }) false false)
        (finish env word ret (record d { log = netif_wake ∷ d.log }))
