-- ===== src/Kvnet.antt =====
-- The user library, libkvnet/src/linux/kvnet.c, with the status codes of libkvnet/src/include/kvnet/status.h:
-- opening, closing and cancelling over the virtual device or a TAP device of the system. A system call is
-- logged, and a parameter answers it from the log so far.
pub mod Carried
pub mod Descriptors
pub mod Device
pub mod Owned
pub mod Read
pub mod Rounds
pub mod Status
pub mod Transfer
pub mod Waiting
pub mod Write
use kerion_vpn_client_docker.Base.{
  Option, none, some, ℕ, zero, suc, ◌+◌, ◌*◌, ◌/◌, ◌%◌, ◌^◌, Bool, true, false, List, [], ◌∷◌, ◌==◌,
  if◌then◌else◌,
}
use kerion_vpn_client_docker.Base.Int.{ℤ, pos, negsuc}
use kerion_vpn_client_docker.Machine.{Cmd, pure, ◌>>=◌, ◌>>◌, get, modify, ok}
use Prim.Native.Nat.{bit_or}

-- The descriptors that are opened and closed, and the requests on them: the bytes of a packet that are
-- written are kept.
pub data Call : Type 0 where
  opened closed : ℕ → Call
  requested polled : ℕ → Call
  written : ℕ → List ℕ → Call

-- `struct kvnet_packet`, with the bytes of memory that the caller has at `bytes`.
pub record Packet : Type 0 where
  pub data_len : ℕ
  pub bytes : List ℕ

-- `struct kvnet_info`.
pub record Info : Type 0 where
  pub major : ℕ
  pub minor : ℕ
  pub hw_addr : List ℕ

-- The caller's memory: the request that `hdr` points at, with as many pointers as its buffer holds, the
-- packets at the pointers, and what `info` points at.
pub record Memory : Type 0 where
  pub count : ℕ
  pub pkt : List ℕ
  pub packet : ℕ → Option Packet
  pub info : Info

-- What `poll` answers: `revents` where it returns 1, a timeout, or a failure.
pub data Poll : Type 0 where
  ready : ℕ → Poll
  timeout failed : Poll

-- The answers of the system: a descriptor, or -1 (`none` where it is not one).
pub record Sys : Type 0 where
  pub open_device : List Call → Option ℕ
  pub socket : List Call → Option ℕ
  pub ioctl : List Call → Bool
  pub errno : List Call → ℕ
  pub poll : List Call → Poll
  -- the bytes of a packet, when at most so many are read
  pub read : List Call → ℕ → Option (List ℕ)
  -- the memory after the driver has served a read request in it
  pub read_request : List Call → ℕ → Memory → Option Memory
  pub write : List Call → Bool
  pub get_info : List Call → Option Info
  -- the address of the interface `kvnet`
  pub get_hwaddr : List Call → Option (List ℕ)
  -- whether another thread cancels while a reader waits
  pub cancels : List Call → Bool

-- The globals. `fdesc` is -1 where it is `none`.
pub record Globals : Type 0 where
  pub fdesc : Option ℕ
  pub canceled : Bool
  pub use_tap_dev : Bool
  pub calls : List Call
  pub memory : Memory

abbrev pub no_error : ℕ
no_error = 0

abbrev pub already_opened : ℕ
already_opened = 2

abbrev pub open_device_error : ℕ
open_device_error = 3

abbrev pub not_opened : ℕ
not_opened = 4

abbrev pub invalid_parameter : ℕ
invalid_parameter = 5

abbrev pub read_error : ℕ
read_error = 6

abbrev pub read_cancelled : ℕ
read_cancelled = 7

abbrev pub write_error : ℕ
write_error = 9

abbrev pub ioctl_error : ℕ
ioctl_error = 10

abbrev pub select_error : ℕ
select_error = 13

-- KVNET_STATUS, KVNET_SYS_ERROR and KVNET_SUCCEEDED.
unfoldable pub status_of : ℕ → ℕ
status_of l = l / 2 ^ 16 % 2 ^ 16

unfoldable pub sys_error_of : ℕ → ℕ
sys_error_of l = l % 2 ^ 16

unfoldable pub succeeded : ℕ → Bool
unfolding status_of
succeeded l = status_of l == no_error

abbrev pub log_call : Call → Cmd Globals (Unit {0})
log_call c = modify λ s. record s { calls = c ∷ s.calls }

module _ (sys : Sys) where
  -- KVNET_MAKE_STATUS: the system's error below, the library's above.
  unfoldable pub make_status : ℕ → Cmd Globals ℕ
  make_status status s =
      ok (bit_or (sys.errno s.calls % 2 ^ 16) (status % 2 ^ 16 * 2 ^ 16 % 2 ^ 32)) s

  -- The end of `kvnet_open`.
  unfoldable pub finish_open : Bool → Cmd Globals ℕ
  unfolding make_status
  finish_open use_tap = do
    modify λ s. record s { canceled = false; use_tap_dev = use_tap }
    make_status no_error

  -- The greatest packet of a TAP device is set through a socket, if there is one.
  unfoldable pub set_mtu : Cmd Globals (Unit {0})
  set_mtu = do
    s ← get
    elim (sys.socket s.calls) [
      | none ↦ pure tt
      | some skfd ↦ (do log_call (opened skfd); log_call (requested skfd); log_call (closed skfd))
    ]

  unfoldable pub kvnet_open : Bool → Cmd Globals ℕ
  unfolding make_status finish_open set_mtu
  kvnet_open use_tap = do
    s ← get
    elim s.fdesc [
      | some fd ↦ make_status already_opened
      | none ↦ elim (sys.open_device s.calls) [
        | none ↦ make_status open_device_error
        | some fd ↦ (do
          log_call (opened fd)
          modify λ s. record s { fdesc = some fd }
          if use_tap
              then (do
                s ← get
                log_call (requested fd)
                if sys.ioctl s.calls then (do set_mtu; finish_open use_tap) else (do
                  log_call (closed fd)
                  modify λ s. record s { fdesc = none }
                  make_status ioctl_error))
              else finish_open use_tap)
      ]
    ]

  unfoldable pub kvnet_close : Cmd Globals ℕ
  unfolding make_status
  kvnet_close = do
    s ← get
    elim s.fdesc [
      | none ↦ make_status not_opened
      | some fd ↦ (do
        log_call (closed fd)
        modify λ s. record s { fdesc = none }
        make_status no_error)
    ]

  unfoldable pub kvnet_cancel_read : Cmd Globals ℕ
  unfolding make_status
  kvnet_cancel_read = do
    s ← get
    if s.use_tap_dev
        then (do modify (λ s. record s { canceled = true }); make_status no_error)
        else elim s.fdesc [
          | none ↦ make_status invalid_parameter
          | some fd ↦ (do
            log_call (requested fd)
            if sys.ioctl s.calls then make_status no_error else make_status ioctl_error)
        ]
