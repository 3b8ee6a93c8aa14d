-- ===== src/Example.antt =====
-- The example program of the user library, libkvnet/example/src/linux/main.cpp. The thread of `pktLoop` runs, and
-- the main thread calls `cancel_loop` after a number of rounds; what is printed is left out.
pub mod Blocks
pub mod Freed
pub mod Main
pub mod Rounds
pub mod Uninitialised
use kerion_vpn_client_docker.Base.{
  ℕ, zero, suc, ◌+◌, ◌*◌, ◌-◌, Option, none, some, Bool, true, false, List, [], ◌∷◌, length,
  get_elem?, ◌==◌, ◌&&◌, not, if◌then◌else◌,
}
use kerion_vpn_client_docker.Machine.{
  Run, ok, fault, out_of_fuel, Cmd, bad_pointer, pure, get, modify, stop, ◌>>=◌, ◌>>◌,
}
use kerion_vpn_client_docker.Io.{header_size}
use kerion_vpn_client_docker.Kvnet.{
  Sys, Globals, Packet, Memory, kvnet_open, kvnet_close, kvnet_cancel_read, succeeded,
}
use kerion_vpn_client_docker.Kvnet.Transfer.{put_packet, kvnet_read, kvnet_get_driver_info}

abbrev pub max_packets : ℕ
max_packets = 64

abbrev pub max_data_size : ℕ
max_data_size = 8190

-- The library's state with the caller's memory, the global of the program, and the blocks of `malloc` that are in
-- use: the address of a block is the number of the call that has made it.
pub record Program : Type 0 where
  pub lib : Globals
  pub can_run_loop : Bool
  pub made : ℕ
  pub live : ℕ → Bool

-- What the system does for the program: whether it grants the next block, the bytes that a new packet has, and
-- whether a thread is created.
pub record Host : Type 0 where
  pub grants : ℕ → Bool
  pub contents : List ℕ
  pub pthread_create : Bool

abbrev pub lib_run : {A : Type 0} → Program → Run Globals A → Run Program A
lib_run s (ok a g) = ok a (record s { lib = g })
lib_run s (fault f) = fault f
lib_run s out_of_fuel = out_of_fuel

unfoldable pub on_lib : {A : Type 0} → Cmd Globals A → Cmd Program A
on_lib m s = lib_run s (m s.lib)

abbrev pub set_live : ℕ → Bool → (ℕ → Bool) → ℕ → Bool
set_live p b live q = if p == q then b else live q

abbrev pub add_block : Program → Program
add_block s = record s { made = s.made + 1; live = set_live (s.made + 1) true s.live }

abbrev pub drop_block : ℕ → Program → Program
drop_block p s = record s { live = set_live p false s.live }

-- `malloc`: 0 is NULL.
unfoldable pub malloc : Host → Cmd Program ℕ
malloc host s = if host.grants s.made then ok (s.made + 1) (add_block s) else ok 0 s

-- `free` of an address that is no block in use is a fault.
unfoldable pub free : ℕ → Cmd Program (Unit {0})
free p s = if s.live p then ok tt (drop_block p s) else fault bad_pointer

abbrev pub set_request : (Memory → Memory) → Cmd Program (Unit {0})
set_request f = modify λ s. record s { lib = record s.lib { memory = f s.lib.memory } }

-- The loop that allocates the packets, over the slots of `pkt`, which hold what is on the stack before it: the slots
-- after it, and whether all were filled.
unfoldable pub allocate : Host → List ℕ → Cmd Program (List ℕ × Bool)
unfolding malloc
allocate host [] = pure ([], true)
allocate host (u ∷ us) = do
  p ← malloc host
  elim (p == 0) [
    | true ↦ pure (0 ∷ us, false)
    | false ↦ (do rest ← allocate host us; pure (p ∷ rest.0, rest.1))
  ]

-- The loop at the label `cleanup`.
unfoldable pub cleanup : List ℕ → Cmd Program (Unit {0})
unfolding free
cleanup [] = pure tt
cleanup (p ∷ ps) = (if p == 0 then pure tt else free p) >> cleanup ps

-- The maximal length is set anew in each packet.
abbrev pub renewed : Host → ℕ → Memory → Memory
renewed host p m = elim (m.packet p) [
  | none ↦ put_packet p (record { data_len = max_data_size; bytes = host.contents }) m
  | some q ↦ put_packet p (record q { data_len = max_data_size }) m
]

unfoldable pub renew_lengths : Host → List ℕ → Cmd Program (Unit {0})
renew_lengths host [] = pure tt
renew_lengths host (p ∷ ps) = do
  s ← get
  if s.live p then set_request (renewed host p) else stop bad_pointer
  renew_lengths host ps

unfoldable pub renew : Host → List ℕ → Cmd Program (Unit {0})
unfolding renew_lengths
renew host ps = do
  renew_lengths host ps
  set_request λ m. record m { pkt = ps; count = max_packets }

-- `pkt[i]->data_len`.
abbrev pub read_length : List ℕ → ℕ → Cmd Program (Unit {0})
read_length ps i s = elim (get_elem? ps i) [
  | none ↦ fault bad_pointer
  | some p ↦ if s.live p then ok tt s else fault bad_pointer
]

-- The lengths of the packets that were read are printed, from an index on.
unfoldable pub report : List ℕ → ℕ → ℕ → Cmd Program (Unit {0})
report ps zero i = pure tt
report ps (suc n) i = read_length ps i >> report ps n (i + 1)

unfoldable pub cancel_loop : Sys → Cmd Program (Unit {0})
unfolding on_lib
cancel_loop sys = do
  s ← get
  if s.can_run_loop
      then (do
        modify λ s. record s { can_run_loop = false }
        on_lib (kvnet_cancel_read sys)
        pure tt)
      else pure tt

-- The handler of SIGINT, SIGTERM, SIGQUIT and SIGHUP.
abbrev pub signal_handler : Sys → Cmd Program (Unit {0})
signal_handler sys = cancel_loop sys

-- "--usetap".
abbrev pub usetap : List ℕ
usetap = 45 ∷ 45 ∷ 117 ∷ 115 ∷ 101 ∷ 116 ∷ 97 ∷ 112 ∷ []

-- `strcmp` tells 0.
abbrev pub same_text : List ℕ → List ℕ → Bool
same_text [] [] = true
same_text [] (b ∷ t) = false
same_text (a ∷ s) [] = false
same_text (a ∷ s) (b ∷ t) = (a == b) && same_text s t

-- Whether the first argument after the program's name asks for a TAP device.
unfoldable pub uses_tap : List (List ℕ) → Bool
uses_tap args = elim (get_elem? args 1) [ none ↦ false | some arg ↦ same_text arg usetap ]

-- The length of a request of 64 packets.
abbrev pub request_size : ℕ → ℕ
request_size ptr = header_size ptr + (max_packets - 1) * ptr

module _ (sys : Sys) (host : Host) (ptr fuel : ℕ) where
  -- The loop `while (can_run_loop)`; after so many rounds the main thread cancels it.
  unfoldable pub run_loop : List ℕ → ℕ → Cmd Program (Unit {0})
  unfolding on_lib renew report cancel_loop
  run_loop ps zero = cancel_loop sys
  run_loop ps (suc n) = do
    s ← get
    elim s.can_run_loop [
      | false ↦ pure tt
      | true ↦ (do
        renew host ps
        status ← on_lib (kvnet_read sys ptr fuel true (request_size ptr))
        elim (succeeded status) [
          | false ↦ pure tt
          | true ↦ (do t ← get; report ps t.lib.memory.count 0; run_loop ps n)
        ])
    ]

  -- `stack` is what the array of pointers holds before it is filled.
  unfoldable pub pkt_loop : List ℕ → ℕ → Cmd Program (Unit {0})
  unfolding on_lib malloc allocate run_loop cleanup free
  pkt_loop stack n = do
    status ← on_lib (kvnet_get_driver_info sys true)
    if succeeded status
        then (do
          hdr ← malloc host
          elim (hdr == 0) [
            | true ↦ pure tt
            | false ↦ (do
              pkt ← allocate host stack
              if pkt.1 then run_loop pkt.0 n else pure tt
              cleanup pkt.0
              free hdr)
          ])
        else pure tt

  -- `main` with its arguments; a signal that arrives in the meantime is not modelled.
  unfoldable pub main : List (List ℕ) → List ℕ → ℕ → Cmd Program (Unit {0})
  unfolding on_lib pkt_loop cancel_loop uses_tap
  main args stack n = do
    status ← on_lib (kvnet_open sys (uses_tap args))
    if succeeded status
        then (do
          modify λ s. record s { can_run_loop = true }
          if host.pthread_create then pkt_loop stack n >> cancel_loop sys else pure tt
          on_lib (kvnet_close sys)
          pure tt)
        else pure tt
