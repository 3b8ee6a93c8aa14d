-- ===== src/Tests/Lives.antt =====
-- A life of the module on concrete values.
use kerion_vpn_client_docker.Base.{◌≢◌, refl, none, List, [], ◌∷◌, arith}
use kerion_vpn_client_docker.Machine.{Returns}
use kerion_vpn_client_docker.Queue.{null}
use kerion_vpn_client_docker.Driver.{Env}
use kerion_vpn_client_docker.Resources.{switched_on}
use kerion_vpn_client_docker.Traffic.{Action, send, read, write, up, down, poll, get_stats}
use kerion_vpn_client_docker.Life.{life, so_far}
use kerion_vpn_client_docker.Life.Bounded.{Bounded, so_far-Bounded}
use kerion_vpn_client_docker.Life.Whole.{Finished, life-Finished}
use kerion_vpn_client_docker.Tests.{
  kernel, heap, kernel-CopiesAll, kernel-Roomy, kernel-NoWrap, three_ne_null,
}

-- A kernel that knows whether the interface is up.
abbrev telling : Env
telling = record kernel { is_up = switched_on }

-- One session in which a packet is read and one stays in the queue, and one that switches the interface off.
abbrev two_sessions : List (List Action)
two_sessions =
    (up ∷ send 1 (10 ∷ []) ∷ send 2 (20 ∷ 21 ∷ []) ∷ read (12 ∷ []) ∷ [])
    ∷ (up ∷ send 3 (30 ∷ []) ∷ write (12 ∷ []) ∷ poll ∷ get_stats ∷ down ∷ [])
    ∷ []

one_ne_null : 1 ≢ null
one_ne_null e = absurd (omega arith)

two_ne_null : 2 ≢ null
two_ne_null e = absurd (omega arith)

life_example :
    Returns Finished (life telling two_sessions (record { heap = heap; vnet = none; log = [] }))
life_example =
    life-Finished telling
      (record { copies = kernel-CopiesAll; roomy = kernel-Roomy; no_wrap = kernel-NoWrap })
      (λ l. refl) heap two_sessions refl
      ((tt, (tt, (tt, (omega arith, tt)))), ((tt, (tt, (omega arith, (tt, (tt, (tt, tt)))))), tt))
      (
        one_ne_null,
        refl,
        refl,
        refl,
        (two_ne_null, refl, refl, refl, (three_ne_null, refl, refl, refl, tt)),
      )

-- A session that is over, and one that goes on with a packet in the queue.
packets_kept_example : Returns Bounded (
    so_far telling
      ((up ∷ send 1 (10 ∷ []) ∷ read (12 ∷ []) ∷ []) ∷ [])
      (up ∷ send 2 (20 ∷ 21 ∷ []) ∷ [])
      (record { heap = heap; vnet = none; log = [] }))
packets_kept_example =
    so_far-Bounded telling
      (record { copies = kernel-CopiesAll; roomy = kernel-Roomy; no_wrap = kernel-NoWrap })
      (λ l. refl) heap ((up ∷ send 1 (10 ∷ []) ∷ read (12 ∷ []) ∷ []) ∷ [])
      (up ∷ send 2 (20 ∷ 21 ∷ []) ∷ []) refl ((tt, (tt, (omega arith, tt))), tt) (tt, (tt, tt))
      (one_ne_null, refl, refl, refl, (two_ne_null, refl, refl, refl, tt))
