-- ===== src/Kvnet/Transfer.antt =====
-- Reading, writing and the driver's version in libkvnet/src/linux/kvnet.c. The caller's memory is part of the
-- state; `fdesc` is not changed by another thread while a call runs, but `canceled` may be.
use Prim.Native.Nat.{bit_and}
use kerion_vpn_client_docker.Base.{
  ℕ, zero, suc, ◌+◌, none, some, Bool, true, false, List, ◌++◌, length, take, drop, get_elem?, ltb,
  ◌==◌, if◌then◌else◌,
}
use kerion_vpn_client_docker.Machine.{
  Cmd, ok, fault, out_of_fuel, bad_pointer, pure, get, modify, stop, ◌>>=◌, ◌>>◌,
}
use kerion_vpn_client_docker.Io.{header_size}
use kerion_vpn_client_docker.IoDev.{major_version, minor_version}
use kerion_vpn_client_docker.Kvnet.{
  opened, closed, requested, polled, written, Packet, Memory, Poll, ready, timeout, failed, Sys,
  Globals, no_error, invalid_parameter, read_error, read_cancelled, write_error, ioctl_error,
  select_error, log_call, make_status, kvnet_cancel_read,
}

-- POLLERR | POLLHUP | POLLNVAL.
abbrev pub poll_failures : ℕ
poll_failures = 56

abbrev pub pollin : ℕ
pollin = 1

abbrev pub eintr : ℕ
eintr = 4

abbrev pub set_memory : (Memory → Memory) → Cmd Globals (Unit {0})
set_memory f = modify λ s. record s { memory = f s.memory }

-- What a packet is after these bytes were read into it, and the memory with another packet at an address.
abbrev pub filled : List ℕ → Packet → Packet
filled bs p = record { data_len = length bs; bytes = bs ++ drop (length bs) p.bytes }

abbrev pub put_packet : ℕ → Packet → Memory → Memory
put_packet a p m = record m { packet = λ b. if a == b then some p else m.packet b }

-- `hdr->pkt[i]`, and the packet that it points at.
unfoldable pub packet_at : ℕ → Cmd Globals (ℕ × Packet)
packet_at i s = elim (get_elem? s.memory.pkt i) [
  | none ↦ fault bad_pointer
  | some a ↦ elim (s.memory.packet a) [ none ↦ fault bad_pointer | some p ↦ ok (a, p) s ]
]

-- Where the loop goes after a poll: it ends with a status, reads, or tries again.
pub data Next : Type 0 where
  done : ℕ → Next
  fetch again : Next

-- By the answer, `use_tap_dev`, `canceled`, and whether `errno` is EINTR.
unfoldable pub next : Poll → Bool → Bool → Bool → Next
next (ready revents) tap canceled interrupted =
    if bit_and revents poll_failures == 0
    then (if bit_and revents pollin == 0 then done select_error else fetch)
    else done read_cancelled
next timeout false canceled interrupted = done select_error
next timeout true true interrupted = done read_cancelled
next timeout true false interrupted = again
next failed tap canceled true = again
next failed tap canceled false = done select_error

module _ (sys : Sys) where
  -- The arrival of one packet of a TAP device.
  unfoldable pub read_packet : ℕ → Cmd Globals ℕ
  unfolding packet_at
  read_packet fd = do
    at ← packet_at 0
    s ← get
    log_call (requested fd)
    elim (sys.read s.calls at.1.data_len) [
      | none ↦ make_status sys read_error
      | some bs ↦ if ltb (length at.1.bytes) (length bs) then stop bad_pointer else (do
        set_memory λ m. record (put_packet at.0 (filled bs at.1) m) { count = 1 }
        make_status sys no_error)
    ]

  -- The driver fills the whole request, of which it is told the length.
  unfoldable pub read_request : ℕ → ℕ → Cmd Globals ℕ
  read_request fd len = do
    s ← get
    log_call (requested fd)
    elim (sys.read_request s.calls len s.memory) [
      | none ↦ make_status sys read_error
      | some m ↦ (do set_memory (λ _. m); make_status sys no_error)
    ]

  -- The call of `poll`, while another thread may cancel.
  unfoldable pub wait : ℕ → Cmd Globals Poll
  wait fd = do
    s ← get
    if sys.cancels s.calls then kvnet_cancel_read sys >> pure tt else pure tt
    t ← get
    log_call (polled fd)
    pure (sys.poll t.calls)

  -- From the label `try_again`, for so many rounds.
  unfoldable pub try_again : ℕ → ℕ → ℕ → Cmd Globals ℕ
  unfolding wait read_packet read_request next
  try_again zero fd len = λ s. out_of_fuel
  try_again (suc fuel) fd len = do
    a ← wait fd
    s ← get
    elim (next a s.use_tap_dev s.canceled (sys.errno s.calls == eintr)) [
      | done status ↦ make_status sys status
      | fetch ↦ if s.use_tap_dev then read_packet fd else read_request fd len
      | again ↦ try_again fuel fd len
    ]

  module _ (ptr : ℕ) where
    -- `hdr` tells whether the pointer is not NULL; `ptr` is the width of a pointer.
    unfoldable pub kvnet_read : ℕ → Bool → ℕ → Cmd Globals ℕ
    unfolding try_again
    kvnet_read fuel hdr len = do
      s ← get
      elim s.fdesc [
        | none ↦ make_status sys invalid_parameter
        | some fd ↦ elim hdr [
          | false ↦ make_status sys invalid_parameter
          | true ↦
              if ltb len (header_size ptr)
              then make_status sys invalid_parameter
              else try_again fuel fd len
        ]
      ]

  -- The rounds that are left of the loop over the packets, and the index of the next one.
  unfoldable pub write_packets : ℕ → ℕ → ℕ → Cmd Globals ℕ
  unfolding packet_at
  write_packets fd zero i = make_status sys no_error
  write_packets fd (suc n) i = do
    at ← packet_at i
    s ← get
    elim (ltb (length at.1.bytes) at.1.data_len) [
      | true ↦ stop bad_pointer
      | false ↦ (do
        log_call (written fd (take at.1.data_len at.1.bytes))
        elim (sys.write s.calls) [
          | true ↦ write_packets fd n (i + 1)
          | false ↦ make_status sys write_error
        ])
    ]

  module _ (ptr : ℕ) where
    unfoldable pub kvnet_write : Bool → ℕ → Cmd Globals ℕ
    unfolding write_packets
    kvnet_write hdr len = do
      s ← get
      elim s.fdesc [
        | none ↦ make_status sys invalid_parameter
        | some fd ↦ elim hdr [
          | false ↦ make_status sys invalid_parameter
          | true ↦
              if ltb len (header_size ptr)
              then make_status sys invalid_parameter
              else (if s.use_tap_dev then write_packets fd s.memory.count 0 else (do
                log_call (requested fd)
                if sys.write s.calls
                    then make_status sys no_error
                    else make_status sys write_error))
        ]
      ]

  -- The address of the interface, where the system tells it; the socket is closed.
  unfoldable pub kvnet_get_mac : Cmd Globals (Unit {0})
  kvnet_get_mac = do
    s ← get
    elim (sys.socket s.calls) [
      | none ↦ pure tt
      | some sock ↦ (do
        log_call (opened sock)
        t ← get
        log_call (requested sock)
        elim (sys.get_hwaddr t.calls) [
          | none ↦ log_call (closed sock)
          | some addr ↦ (do
            set_memory λ m. record m { info = record m.info { hw_addr = take 6 addr } }
            log_call (closed sock))
        ])
    ]

  -- `info` tells whether the pointer is not NULL.
  unfoldable pub kvnet_get_driver_info : Bool → Cmd Globals ℕ
  unfolding kvnet_get_mac
  kvnet_get_driver_info info = do
    s ← get
    if s.use_tap_dev
        then (if info
            then (do
              set_memory λ m. record m {
                info = record m.info { major = major_version; minor = minor_version };
              }
              kvnet_get_mac
              make_status sys no_error)
            else make_status sys invalid_parameter)
        else elim s.fdesc [
          | none ↦ make_status sys invalid_parameter
          | some fd ↦
              if info
              then (do
                log_call (requested fd)
                elim (sys.get_info s.calls) [
                  | none ↦ make_status sys ioctl_error
                  | some i ↦ (do set_memory λ m. record m { info = i }; make_status sys no_error)
                ])
              else make_status sys invalid_parameter
        ]
