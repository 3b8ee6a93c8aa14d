-- ===== src/Init.antt =====
-- The main object of drivers/vpn/linux/vnet.c, and the start and stop of the module in init.c.
use kerion_vpn_client_docker.Base.{true, false, none, some, [], ◌∷◌, if◌then◌else◌}
use kerion_vpn_client_docker.Base.Int.{ℤ, pos, negsuc, is_zero, minus_einval}
use kerion_vpn_client_docker.Machine.{Cmd, pure, ◌>>=◌, ◌>>◌, get, modify}
use kerion_vpn_client_docker.Queue.{queue_init, queue_close}
use kerion_vpn_client_docker.Driver.{
  object, IoDev, Stats, Cfg, Vnet, vnet_alloc, vnet_free, alloc_nonpaged_mem, free_nonpaged_mem,
  on_queue, Env, Driver, emit, set_vnet,
}
use kerion_vpn_client_docker.IoDev.{io_dev_add, io_dev_remove}

-- `struct vnet` after `memset`, with the queue of `queue_init`. A zero pointer is no error pointer.
abbrev pub zero_io_dev : IoDev
zero_io_dev = record {
  added = false;
  opened = false;
  canceled = false;
  major_number = pos 0;
  minor_number = pos 0;
  class = object 0;
  device = object 0;
}

abbrev pub zero_stats : Stats
zero_stats = record {
  rx_packets = 0;
  tx_packets = 0;
  rx_errors = 0;
  tx_errors = 0;
  rx_dropped = 0;
  tx_dropped = 0;
  rx_bytes = 0;
  tx_bytes = 0;
  rx_fifo_errors = 0;
  tx_fifo_errors = 0;
}

abbrev pub fresh_vnet : Vnet
fresh_vnet = record {
  io_dev = zero_io_dev;
  net_dev = record {
    added = false;
    connected = false;
    stats = zero_stats;
    queue = queue_init;
    device = none;
  };
  cfg = record { mac = 0 ∷ 0 ∷ 0 ∷ 0 ∷ 0 ∷ 0 ∷ []; max_queue_len = 0 };
}

-- What `module_start` loads.
abbrev pub start_cfg : Cfg
start_cfg = record { mac = 0x44 ∷ 0x45 ∷ 0x53 ∷ 0x54 ∷ 0x4f ∷ 0x53 ∷ []; max_queue_len = 256 }

module _ (env : Env) where
  unfoldable pub vnet_init : Cmd Driver ℤ
  vnet_init = do
    d ← get
    elim d.vnet [
      | some v ↦ pure (negsuc 0)
      | none ↦ (do
        there ← alloc_nonpaged_mem env
        if there
            then (do
              emit vnet_alloc
              modify (λ d. record d { vnet = some fresh_vnet })
              pure (pos 0))
            else pure (negsuc 0))
    ]

unfoldable pub vnet_close : Cmd Driver ℤ
unfolding on_queue queue_close
vnet_close = do
  d ← get
  elim d.vnet [
    | none ↦ pure (pos 0)
    | some v ↦ (do
      on_queue queue_close
      free_nonpaged_mem true vnet_free
      modify (λ d. record d { vnet = none })
      pure (pos 0))
  ]

unfoldable pub module_stop : Cmd Driver ℤ
module_stop = do io_dev_remove; vnet_close

module _ (env : Env) where
  unfoldable pub module_start_steps : Cmd Driver ℤ
  unfolding set_vnet vnet_init
  module_start_steps = do
    made ← vnet_init env
    if is_zero made
        then (do set_vnet (λ v. record v { cfg = start_cfg }); io_dev_add env)
        else pure minus_einval

  unfoldable pub module_start : Cmd Driver ℤ
  unfolding module_start_steps
  module_start = do
    ret ← module_start_steps
    if is_zero ret then pure ret else (do module_stop; pure ret)
