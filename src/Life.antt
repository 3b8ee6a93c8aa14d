-- ===== src/Life.antt =====
-- The life of the module: init.c loads it, the user program opens and closes its device (io_dev.c), with any
-- traffic in between, and init.c unloads it.
pub mod Bounded
pub mod Closing
pub mod Sessions
pub mod Whole
use kerion_vpn_client_docker.Base.{ℕ, ◌+◌, ◌≡◌, Bool, List, [], ◌∷◌, ◌++◌, length, if◌then◌else◌}
use kerion_vpn_client_docker.Base.Int.{is_zero}
use kerion_vpn_client_docker.Machine.{Cmd, pure, ◌>>=◌, ◌>>◌}
use kerion_vpn_client_docker.Driver.{Event, Env, Driver}
use kerion_vpn_client_docker.IoDev.{io_dev_open, io_dev_close}
use kerion_vpn_client_docker.Init.{module_start, module_stop}
use kerion_vpn_client_docker.Resources.{switched_on}
use kerion_vpn_client_docker.Traffic.{io_fops, Action, run, sends, Short}

module _ (env : Env) where
  -- The device is opened, used and closed; where it cannot be opened there is no interface, and no packet
  -- is handed over. The result is the number of packets that were.
  unfoldable pub session : List Action → Cmd Driver ℕ
  session acts = do
    ret ← (io_fops env).open_file
    if is_zero ret
        then (do run env acts; (io_fops env).release; pure (length (sends acts)))
        else pure 0

  unfoldable pub sessions : List (List Action) → Cmd Driver ℕ
  sessions [] = pure 0
  sessions (acts ∷ rest) = do n ← session acts; m ← sessions rest; pure (n + m)

  -- The kernel unloads the module when no file of its device is open, which the sessions see to.
  unfoldable pub life : List (List Action) → Cmd Driver ℕ
  life all = do
    ret ← module_start env
    if is_zero ret then (do n ← sessions all; module_stop; pure n) else pure 0

  -- The module while its device is in use: loaded, after sessions that have ended, in a session with its calls so
  -- far. The result is the number of packets that were handed over.
  unfoldable pub so_far : List (List Action) → List Action → Cmd Driver ℕ
  so_far over acts = do
    ret ← module_start env
    if is_zero ret
        then (do
          n ← sessions over
          r ← (io_fops env).open_file
          if is_zero r then (do run env acts; pure (n + length (sends acts))) else pure n)
        else pure 0

-- The kernel's view of the interface: it is up when it was switched on and not off since.
abbrev pub TellsUp : Env → Type 0
TellsUp env = (l : List Event) → env.is_up l ≡ switched_on l
