-- ===== src/Traffic/Turns.antt =====
-- `io_read_to_iovec` of drivers/vpn/linux/io_read.c while other processors run: the loop takes the queue's lock
-- anew in each round, so that any calls of the driver may come between two rounds. `turns` are the calls
-- that come before each round; those for which there is no round left come behind the loop.
pub mod Alone
pub mod Kept
pub mod Whole
pub mod Woven
use kerion_vpn_client_docker.Base.{ℕ, zero, suc, ◌+◌, List, [], ◌∷◌, ltb, if◌then◌else◌}
use kerion_vpn_client_docker.Base.Int.{ℤ, pos, to_ℕ}
use kerion_vpn_client_docker.Machine.{Cmd, pure, ◌>>=◌, ◌>>◌}
use kerion_vpn_client_docker.Driver.{Env, Driver, emit, netif_wake}
use kerion_vpn_client_docker.NetDev.{net_device}
use kerion_vpn_client_docker.Io.{read_loop, with_header, finish}
use kerion_vpn_client_docker.Traffic.{Action, run, every}

abbrev pub first_of : List (List Action) → List Action
first_of [] = []
first_of (acts ∷ turns) = acts

abbrev pub rest_of : List (List Action) → List (List Action)
rest_of [] = []
rest_of (acts ∷ turns) = turns

module _ (env : Env) where
  -- The loop, with the rounds that are left, the calls that come between, the index and the result so far. A
  -- round is the source's loop with one round left, and the loop goes on where it has counted a packet.
  unfoldable pub turns_loop : List ℕ → ℕ → List (List Action) → ℕ → ℤ → Cmd Driver ℤ
  turns_loop hdr zero turns i ret = do run env (every turns); pure ret
  turns_loop hdr (suc left) turns i ret = do
    run env (first_of turns)
    r ← read_loop env 8 hdr 1 i ret
    if ltb (to_ℕ ret) (to_ℕ r)
        then turns_loop hdr left (rest_of turns) (i + 1) r
        else (do run env (every (rest_of turns)); pure r)

  unfoldable pub read_by_turns : List (List Action) → ℤ → Cmd Driver ℤ
  unfolding turns_loop
  read_by_turns turns len = with_header env 8 len λ hdr count. do
    ret ← turns_loop hdr count turns 0 (pos 0)
    net_device
    emit netif_wake
    finish env 8 ret
